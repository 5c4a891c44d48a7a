-- ===== src/Authx/Mongo/Pages/Reads.antt =====
-- One page of documents in the order of their identifiers: `List` of
-- v2/apiserver/internal/authx/mongodb/users_store.go and service_accounts_store.go.
use mathlib.Core.Path.{fun_ext}
use mathlib.Core.List.{Perm, append_assoc}
use mathlib.Core.List.Perm
use brignext.Base.{
  ℕ, zero, suc, ◌-◌, ◌<◌, ◌≡◌, refl, sym, ◌∙◌, ap, String, Bool, true, false, not, Option, none,
  some, List, [], ◌∷◌, ◌++◌, length, select, take, get_elem?, ltb, eqb, ◌⊎◌, inl, inr, Bool-cases,
  arith, ◌==◌, if◌then◌else◌, select-perm, length-perm, whole-append, split_lem,
}
use brignext.Errors.{ok, err, other, Outcome}
use brignext.Mongo.{Collection, Laws, Semantics, FindOptions, id_asc}
use brignext.Core.Types.{ListMeta}
use brignext.Authx.Docs.{AccountFilter, no_account_criteria, InIdOrder, is_id_after}
use brignext.Authx.Mongo.Pages.{page, full_page, no_meta}
use brignext.Authx.Mongo.Pages.Orders.{HasUniqueIds, cut_lem}

-- No key is the start of the list.
abbrev pub key_after : String → Option String
key_after c = if c == "" then none else some c

module _ {D : Type 0} (id_of : D → String) where
  -- No document has an empty identifier.
  abbrev pub AreNamed : List D → Type 0
  AreNamed [] = Unit
  AreNamed (d ∷ ds) = ((id_of d == "") ≡ false) × AreNamed ds

  -- What stands after an identifier, or everything.
  abbrev pub after : Option String → List D → List D
  after c ds = select (λ d. is_id_after c (id_of d)) ds

  -- What a page says of the documents after `c`: these are all; or there are more, after the key
  -- that it gives.
  abbrev pub IsPageOf : Option String → ListMeta → List D → List D → Type 0
  IsPageOf c m items ds =
      (m.continue_ ≡ "") × Perm items (after c ds)
      ⊎ ((m.continue_ == "") ≡ false)
        × Perm (items ++ after (some m.continue_) ds) (after c ds)
        × (length (after (some m.continue_) ds) < length (after c ds))

  named-select :
      (p : D → Bool) (ds : List D)
      → AreNamed ds
      → length (select (λ d. not (id_of d == "")) (select p ds)) ≡ length (select p ds)
  unfolding select
  named-select p [] h = refl
  named-select p (d ∷ ds) (n, h) = ground (arith, named-select p ds h)

get_elem?-take : {A : Type 0} (n : ℕ) (l : List A) → get_elem? (take (suc n) l) n ≡ get_elem? l n
get_elem?-take n [] = refl
get_elem?-take zero (x ∷ l) = refl
get_elem?-take (suc n) (x ∷ l) = get_elem?-take n l

-- `Items[opts.Limit-1]` of a page.
last_place :
    {A : Type 0} (n : ℕ) (l : List A)
    → (if eqb (suc n) 0 then none else get_elem? (take (suc n) l) (suc n - 1)) ≡ get_elem? l n
last_place n l =
    let not_zero : eqb (suc n) 0 ≡ false = ground arith in
    let before : suc n - 1 ≡ n = omega arith in rw (not_zero, before) (get_elem?-take n l)

whole-take : {A : Type 0} (n : ℕ) (l : List A) → eqb (length (take n l)) n ≡ false → take n l ≡ l
whole-take zero l h = absurd (cc h)
whole-take (suc n) [] h = refl
whole-take (suc n) (x ∷ l) h = ap (λ r. x ∷ r) (whole-take n l (ground arith))

longer_take : {A : Type 0} (n : ℕ) (l : List A) → length (take (suc n) l) ≡ suc n → n < length l
longer_take n [] h = absurd (cc h)
longer_take zero (x ∷ l) h = omega arith
longer_take (suc n) (x ∷ l) h = ground (arith, longer_take n l)

shorter : {A : Type 0} (xs : List A) (c : A) (ys : List A) → length ys < length (xs ++ c ∷ ys)
shorter [] c ys = omega arith
shorter (x ∷ xs) c ys = omega (arith, shorter xs c ys)

none_left : {A : Type 0} (ys : List A) → length ys ≡ 0 → ys ≡ []
none_left [] h = refl
none_left (y ∷ ys) h = absurd (cc h)

module _ {W D U : Type 0} (collection : Collection W D AccountFilter U) (docs : W → List D)
    (s : Semantics D AccountFilter U) (laws : Laws collection docs s) (id_of : D → String)
    (after_law : (c : Option String) (d : D)
      → s.matches (record no_account_criteria { id_after = c }) d ≡ is_id_after c (id_of d))
    (order_law : (l : List D) → s.IsOrdered id_asc l → InIdOrder id_of l) where
  matching :
      (c : Option String)
      → s.matches (record no_account_criteria { id_after = c }) ≡ (λ d. is_id_after c (id_of d))
  matching c = fun_ext (after_law c)

  -- The last document of a full page has an identifier.
  last_named :
      (k : Option String) (ds xs : List D) (c : D) (ys : List D)
      → Perm (xs ++ c ∷ ys) (after id_of k ds)
      → AreNamed id_of ds
      → (id_of c == "") ≡ false
  last_named k ds xs c ys p named =
      let test = λ (d : D). not (id_of d == "") in
      let passes = whole-append test xs c ys (
        length-perm (select-perm test p)
        ∙ named-select id_of (λ d. is_id_after k (id_of d)) ds named
        ∙ sym (length-perm p)) in
      ground (arith, passes)

  -- A page is read, or the database fails; nothing is changed.
  abbrev pub IsRead : Option String → List D → Outcome (ListMeta × List D) → List D → Type 0
  IsRead k ds o ds' =
      ((m : ListMeta) × (items : List D) × (o ≡ ok (m, items))
        × (ds' ≡ ds)
        × IsPageOf id_of k m items ds)
      ⊎ ((x : String) × (o ≡ err (other x)))

  full_page_lem :
      (k : Option String) (xs : List D) (c : D) (ys : List D) (w : W)
      → Perm (xs ++ c ∷ ys) (after id_of k (docs w))
      → InIdOrder id_of (xs ++ c ∷ ys)
      → HasUniqueIds id_of (docs w)
      → AreNamed id_of (docs w)
      → let read =
          full_page collection id_of
            (record no_account_criteria { id_after = k })
            (xs ++ c ∷ [])
            (some c) in
        IsRead k (docs w) (read w).0 (docs (read w).1)
  unfolding full_page
  full_page_lem k xs c ys w p order u named =
      let next = record no_account_criteria { id_after = some (id_of c) } in
      let cut = cut_lem id_of k (docs w) xs c ys p order u in
      elim (laws.count_documents_law next w) [
        | inr (x, a, b) ↦ inr (x, rw a refl)
        | inl (a, b) ↦
            let counted = rw (matching (some (id_of c))) at a in
            elim (Bool-cases (ltb 0 (length (after id_of (some (id_of c)) (docs w))))) [
              | inl more ↦
                  let there = after id_of (some (id_of c)) (docs w) in
                  let m : ListMeta = record {
                    continue_ = id_of c;
                    remaining_item_count = length there;
                  } in
                  let together = Perm.append_left xs (Perm.cons c (Perm.symm cut)) in
                  inl (
                    m,
                    xs ++ c ∷ [],
                    rw (counted, more) refl,
                    rw counted b,
                    inr (
                      last_named k (docs w) xs c ys p named,
                      rw (append_assoc xs (c ∷ []) there) (Perm.trans together p),
                      omega (arith, length-perm p, length-perm cut, shorter xs c ys),
                    ),
                  )
              | inr no_more ↦
                  let last : ys ≡ [] = none_left ys (ground (arith, length-perm cut)) in
                  inl (
                    no_meta,
                    xs ++ c ∷ [],
                    rw (counted, no_more) refl,
                    rw counted b,
                    inl (refl, rw last at p),
                  )
            ]
      ]

  -- A page as long as the limit.
  full_lem :
      (n : ℕ) (c : String) (w : W) (l xs : List D) (d : D) (ys : List D)
      → let find =
          collection.find
            (record no_account_criteria { id_after = key_after c })
            (record { sort = id_asc; limit = suc n }) in
        ((find w).0 ≡ ok (take (suc n) l))
        → (docs (find w).1 ≡ docs w)
        → eqb (length (take (suc n) l)) (suc n) ≡ true
        → get_elem? l n ≡ some d
        → take (suc n) l ≡ xs ++ d ∷ []
        → l ≡ xs ++ d ∷ ys
        → Perm l (after id_of (key_after c) (docs w))
        → InIdOrder id_of l
        → HasUniqueIds id_of (docs w)
        → AreNamed id_of (docs w)
        → let read = page collection id_of (record { continue_ = c; limit = suc n }) in
          IsRead (key_after c) (docs w) (read w).0 (docs (read w).1)
  unfolding page
  full_lem n c w l xs d ys a b full e t split p order u named =
      let w' =
        (collection.find (record no_account_criteria { id_after = key_after c })
          (record { sort = id_asc; limit = suc n }) w).1 in
      let there = last_place n l ∙ e in
      let read =
        full_page_lem (key_after c) xs d ys w' (rw (b, ← split) p) (rw (← split) order) (rw b u)
          (rw b named) in
      rw (a, full, there, t) (rw b at read)

  pub page_lem :
      (n : ℕ) (c : String) (w : W)
      → HasUniqueIds id_of (docs w)
      → AreNamed id_of (docs w)
      → let read = page collection id_of (record { continue_ = c; limit = suc n }) in
        IsRead (key_after c) (docs w) (read w).0 (docs (read w).1)
  unfolding page
  page_lem n c w u named =
      let k = key_after c in
      let criteria = record no_account_criteria { id_after = k } in
      let o : FindOptions = record { sort = id_asc; limit = suc n } in
      elim (laws.find_law criteria o w) [
        | inr (x, a, b) ↦ inr (x, rw a refl)
        | inl (l, p, order, (a, b)) ↦
            let p' = rw (matching k) at p in
            elim (Bool-cases (eqb (length (take (suc n) l)) (suc n))) [
              | inr partial ↦ inl (
                no_meta,
                take (suc n) l,
                rw (a, partial) refl,
                rw (a, partial) b,
                inl (refl, rw (whole-take (suc n) l partial) p'),
              )
              | inl full ↦
                  let (xs, d, ys, e, t, split, _) =
                    split_lem n l (longer_take n l (ground arith)) in
                  full_lem n c w l xs d ys a b full e t split p' (order_law l order) u named
            ]
      ]
