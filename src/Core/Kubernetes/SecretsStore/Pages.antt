-- ===== src/Core/Kubernetes/SecretsStore/Pages.antt =====
-- The order of a project's secrets and how pages of them are cut: `List` of
-- v2/apiserver/internal/core/kubernetes/secrets_store.go.
use mathlib.Core.List.Perm
use mathlib.Core.List.{Perm}
use brignext.Base.{
  less, less_asymm, suc, ◌≡◌, refl, String, false, ◌||◌, some, List, [], ◌∷◌, ◌++◌, length,
  contains, IsKeySet, inl, inr, Bool-cases, arith, eq_iff, ◌==◌,
}
use brignext.Core.Kubernetes.SecretsStore.{
  place, sort_keys, keys_of, after_key, skip_to, or_all, without_values,
}

-- No key stands behind a greater one.
abbrev pub IsSorted : List String → Type 0
IsSorted [] = Unit
IsSorted (k ∷ []) = Unit
IsSorted (k ∷ j ∷ ks) = (less j k ≡ false) × IsSorted (j ∷ ks)

place-perm : (k : String) (ks : List String) → Perm (place k ks) (k ∷ ks)
unfolding place
place-perm k [] = Perm.refl (k ∷ [])
place-perm k (j ∷ ks) = elim (Bool-cases (less j k)) [
  | inl e ↦ rw e (Perm.trans (Perm.cons j (place-perm k ks)) (Perm.swap k j ks))
  | inr e ↦ rw e (Perm.refl (k ∷ j ∷ ks))
]

length-place : (k : String) (ks : List String) → length (place k ks) ≡ suc (length ks)
unfolding place
length-place k [] = refl
length-place k (j ∷ ks) = ground (arith, length-place k ks)

pub length-sort_keys : (ks : List String) → length (sort_keys ks) ≡ length ks
unfolding sort_keys
length-sort_keys [] = refl
length-sort_keys (k ∷ ks) = rw (length-place k (sort_keys ks), length-sort_keys ks)

pub length-keys_of : (entries : List (String × String)) → length (keys_of entries) ≡ length entries
unfolding keys_of
length-keys_of [] = refl
length-keys_of ((k, v) ∷ entries) = rw (length-keys_of entries)

pub sort_keys-perm : (ks : List String) → Perm (sort_keys ks) ks
unfolding sort_keys
sort_keys-perm [] = Perm.refl []
sort_keys-perm (k ∷ ks) = Perm.trans (place-perm k (sort_keys ks)) (Perm.cons k (sort_keys-perm ks))

place-IsSorted : (k : String) (ks : List String) → IsSorted ks → IsSorted (place k ks)
unfolding place
place-IsSorted k [] h = tt
place-IsSorted k (j ∷ []) h = ground (arith, less_asymm j k)
place-IsSorted k (j ∷ i ∷ ks) h = ground (arith, less_asymm j k, place-IsSorted k (i ∷ ks))

pub sort_keys-IsSorted : (ks : List String) → IsSorted (sort_keys ks)
unfolding sort_keys
sort_keys-IsSorted [] = tt
sort_keys-IsSorted (k ∷ ks) = place-IsSorted k (sort_keys ks) (sort_keys-IsSorted ks)

contains-place :
    (j k : String) (ks : List String) → contains j (place k ks) ≡ (k == j || contains j ks)
unfolding place contains
contains-place j k [] = refl
contains-place j k (i ∷ ks) = ground (arith, contains-place j k ks)

pub contains-sort_keys : (j : String) (ks : List String) → contains j (sort_keys ks) ≡ contains j ks
unfolding sort_keys contains
contains-sort_keys j [] = refl
contains-sort_keys j (k ∷ ks) =
    ground (arith, contains-place j k (sort_keys ks), contains-sort_keys j ks)

place-IsKeySet :
    (k : String) (ks : List String) → contains k ks ≡ false → IsKeySet ks → IsKeySet (place k ks)
unfolding place contains
place-IsKeySet k [] n h = (refl, tt)
place-IsKeySet k (j ∷ ks) n h =
    ground (arith, place-IsKeySet k ks, contains-place j k ks, eq_iff j k, eq_iff k j)

pub sort_keys-IsKeySet : (ks : List String) → IsKeySet ks → IsKeySet (sort_keys ks)
unfolding sort_keys
sort_keys-IsKeySet [] h = h
sort_keys-IsKeySet (k ∷ ks) h =
    place-IsKeySet k (sort_keys ks) (ground (arith, contains-sort_keys k ks))
      (sort_keys-IsKeySet ks h.1)

contains-append :
    (j : String) (ps ys : List String) → contains j (ps ++ ys) ≡ (contains j ps || contains j ys)
unfolding contains
contains-append j [] ys = refl
contains-append j (p ∷ ps) ys = ground (arith, contains-append j ps ys)

-- A key that is held once is not in front of itself.
contains_before :
    (c : String) (ps ys : List String) → IsKeySet (ps ++ c ∷ ys) → contains c ps ≡ false
unfolding contains
contains_before c [] ys h = refl
contains_before c (p ∷ ps) ys h =
    ground (
      arith,
      contains_before c ps ys h.1,
      contains-append p ps (c ∷ ys),
      eq_iff p c,
      eq_iff c p,
      h.0,
    )

after_key-append :
    (c : String) (ps ys : List String)
    → contains c ps ≡ false
    → after_key c (ps ++ c ∷ ys) ≡ some ys
unfolding after_key contains
after_key-append c [] ys n = ground (arith, eq_iff c c)
after_key-append c (p ∷ ps) ys n = ground (arith, after_key-append c ps ys)

-- The page after a key starts behind it.
pub skip_to-append :
    (c : String) (ps ys : List String)
    → (c == "") ≡ false
    → IsKeySet (ps ++ c ∷ ys)
    → skip_to c (ps ++ c ∷ ys) ≡ ys
unfolding skip_to or_all
skip_to-append c ps ys n h = rw (n, after_key-append c ps ys (contains_before c ps ys h))

pub without_values-append :
    (ks js : List String) → without_values (ks ++ js) ≡ without_values ks ++ without_values js
unfolding without_values
without_values-append [] js = refl
without_values-append (k ∷ ks) js = rw (without_values-append ks js)

-- A key of the list is not empty, where none is.
pub not_empty :
    (c : String) (ps ys : List String) → contains "" (ps ++ c ∷ ys) ≡ false → (c == "") ≡ false
unfolding contains
not_empty c ps ys h = ground (arith, contains-append "" ps (c ∷ ys))
