-- ===== src/Core/Kubernetes/SecretsStore/Listing.antt =====
-- A client that reads the secrets of a project page by page: `List` of
-- v2/apiserver/internal/core/kubernetes/secrets_store.go.
use mathlib.Core.List.{Perm, append_assoc}
use brignext.Base.{
  split_lem, ap, sym, ◌∙◌, ℕ, zero, suc, ◌<◌, ◌≡◌, refl, String, false, some, List, [], ◌∷◌, ◌++◌,
  length, ltb, contains, IsKeySet, inl, inr, Bool-cases, arith, ◌==◌, if◌then◌else◌,
}
use brignext.Errors.{ok}
use brignext.Effect.{M, pure, diverge, ◌>>=◌}
use brignext.Core.Types.{Project, KubernetesConfig}
use brignext.Core.Services.Secrets.{Secret}
use brignext.Core.Kubernetes.SecretsStore.{
  SecretsClient, sort_keys, keys_of, skip_to, without_values, paginate, cut, list,
}
use brignext.Core.Kubernetes.SecretsStore.Pages.{
  IsSorted, sort_keys-perm, sort_keys-IsSorted, sort_keys-IsKeySet, contains-sort_keys,
  length-sort_keys, length-keys_of, skip_to-append, without_values-append, not_empty,
}
use brignext.Core.Kubernetes.Substrate.Carries.{namespace_known}

module _ {W : Type 0} (s : SecretsClient W) where
  -- A client that asks for the next page as long as there is one, and collects the items.
  unfoldable pub list_all : ℕ → Project → ℕ → String → M W (List Secret)
  list_all zero project limit continue_ = diverge
  list_all (suc fuel) project limit continue_ = do
    page ← list s project (record { continue_ = continue_; limit = limit })
    let rest = list_all fuel project limit page.meta.continue_
    if page.meta.continue_ == ""
        then pure page.items
        else do items ← rest; pure (page.items ++ items)

  -- The secret "project-secrets" of the namespace holds `entries`, and reading it does not change
  -- it.
  abbrev pub IsReadable : String → (W → List (String × String)) → Type 0
  IsReadable namespace entries =
      (w : W)
      → let read = s.kube_client.get_secret_data namespace "project-secrets" in
        ((read w).0 ≡ ok (entries w)) × (entries (read w).1 ≡ entries w)

  module _ (project : Project) (k : KubernetesConfig) (entries : W → List (String × String))
      (readable : IsReadable k.namespace entries)
      (has_namespace : project.kubernetes ≡ some k) where
    -- What is read, from any place of the list on.
    list_all_from :
        (fuel n : ℕ) (ps rest : List String) (c : String) (w : W)
        → IsKeySet (sort_keys (keys_of (entries w)))
        → contains "" (sort_keys (keys_of (entries w))) ≡ false
        → sort_keys (keys_of (entries w)) ≡ ps ++ rest
        → skip_to c (sort_keys (keys_of (entries w))) ≡ rest
        → length rest < fuel
        → (list_all fuel project (suc n) c w).0 ≡ ok (without_values rest)
    unfolding list_all list paginate cut
    list_all_from zero n ps rest c w u e d at_c enough = absurd (omega arith)
    list_all_from (suc fuel) n ps rest c w u e d at_c enough =
        elim (Bool-cases (ltb (suc n) (length rest))) [
          | inl more ↦
              let (xs, c', ys, e', t, l, shorter) = split_lem n rest (ground arith) in
              let there : sort_keys (keys_of (entries w)) ≡ (ps ++ xs) ++ c' ∷ ys =
                rw (d, l, append_assoc ps xs (c' ∷ ys)) in
              let same = (readable w).1 in
              let r = (s.kube_client.get_secret_data k.namespace "project-secrets" w).1 in
              let u' = rw there at u in
              let named = not_empty c' (ps ++ xs) ys (rw there at e) in
              let rest_read =
                list_all_from fuel n ((ps ++ xs) ++ c' ∷ []) ys c' r (rw same u) (rw same e)
                  (rw (same, there, append_assoc (ps ++ xs) (c' ∷ []) ys))
                  (rw (same, there) (skip_to-append c' (ps ++ xs) ys named u')) (omega arith) in
              rw
                (
                  namespace_known project _ w has_namespace,
                  (readable w).0,
                  at_c,
                  more,
                  e',
                  named,
                  rest_read,
                  t,
                  l,
                )
                (ap ok (
                  sym (without_values-append (xs ++ c' ∷ []) ys)
                  ∙ ap without_values (append_assoc xs (c' ∷ []) ys)))
          | inr last ↦
              rw (namespace_known project _ w has_namespace, (readable w).0, at_c, last) refl
        ]

    -- `List`, read page by page, where the secret can be read and does not change and its keys are
    -- not empty: for each limit but 0, and fuel for one page more than there are keys, the client
    -- ends with every key exactly once, in order, and with no value.
    pub list_all_lem :
        (fuel limit : ℕ) (w : W)
        → IsKeySet (keys_of (entries w))
        → contains "" (keys_of (entries w)) ≡ false
        → 0 < limit
        → length (entries w) < fuel
        → (keys : List String) × Perm keys (keys_of (entries w))
          × IsSorted keys
          × ((list_all fuel project limit "" w).0 ≡ ok (without_values keys))
    unfolding skip_to
    list_all_lem fuel zero w u e some_limit enough = absurd (omega arith)
    list_all_lem fuel (suc n) w u e some_limit enough =
        let keys = keys_of (entries w) in
        (
          sort_keys keys,
          sort_keys-perm keys,
          sort_keys-IsSorted keys,
          list_all_from fuel n [] (sort_keys keys) "" w (sort_keys-IsKeySet keys u)
              (rw (contains-sort_keys "" keys) e) refl refl
              (rw (length-sort_keys keys, length-keys_of (entries w)) enough),
        )
