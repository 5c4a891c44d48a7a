-- ===== src/Tests/Memory.antt =====
-- A driver over a list of event documents, which never fails.
use brignext.Base.{
  ℕ, ◌≡◌, ◌≤◌, refl, true, false, inl, inr, List, [], ◌∷◌, ◌++◌, arith, ltb, length, select,
  find_first, any, update_all, update_first, remove_first, remove_all, Bool-cases, if◌then◌else◌,
}
use mathlib.Core.List.{Perm}
use mathlib.Core.List.Perm
use brignext.Errors.{ok}
use brignext.Mongo.{Collection, Laws, Sort, created_desc, id_asc, apply_limit}
use brignext.Core.Mongo.EventDocs.{
  EventDoc, EventFilter, EventUpdate, event_semantics, created_key, IsNewestFirst, event_matches,
  event_apply,
}

abbrev pub Documents : Type 0
Documents = List EventDoc

abbrev key : EventDoc → ℕ
key d = created_key d.event.meta.created

-- Into a list that is ordered, newest first.
unfoldable pub place : EventDoc → Documents → Documents
place d [] = d ∷ []
place d (e ∷ ds) = let rest = place d ds in if ltb (key d) (key e) then e ∷ rest else d ∷ e ∷ ds

unfoldable pub newest_first : Documents → Documents
newest_first [] = []
newest_first (d ∷ ds) = place d (newest_first ds)

unfoldable pub sorted : Sort → Documents → Documents
sorted created_desc ds = newest_first ds
sorted id_asc ds = ds

ltb-le : (a b : ℕ) → ltb a b ≡ true → a ≤ b
ltb-le a b h = ground arith

le_of_not_ltb : (a b : ℕ) → ltb a b ≡ false → b ≤ a
le_of_not_ltb a b h = ground arith

place-Perm : (d : EventDoc) (ds : Documents) → Perm (place d ds) (d ∷ ds)
unfolding place
place-Perm d [] = Perm.refl (d ∷ [])
place-Perm d (e ∷ ds) = elim (Bool-cases (ltb (key d) (key e))) [
  | inl x ↦ rw x (Perm.trans (Perm.cons e (place-Perm d ds)) (Perm.swap d e ds))
  | inr x ↦ rw x (Perm.refl (d ∷ e ∷ ds))
]

newest_first-Perm : (ds : Documents) → Perm (newest_first ds) ds
unfolding newest_first
newest_first-Perm [] = Perm.refl []
newest_first-Perm (d ∷ ds) =
    Perm.trans (place-Perm d (newest_first ds)) (Perm.cons d (newest_first-Perm ds))

-- No document of an ordered list is newer than `n`.
abbrev IsBelow : ℕ → Documents → Type 0
IsBelow n [] = Unit
IsBelow n (d ∷ ds) = key d ≤ n

IsNewestFirst-cons :
    (d : EventDoc) (ds : Documents) → IsBelow (key d) ds → IsNewestFirst ds → IsNewestFirst (d ∷ ds)
IsNewestFirst-cons d [] b o = tt
IsNewestFirst-cons d (e ∷ ds) b o = (b, o)

IsNewestFirst-head :
    (d : EventDoc) (ds : Documents) → IsNewestFirst (d ∷ ds) → IsBelow (key d) ds × IsNewestFirst ds
IsNewestFirst-head d [] o = (tt, tt)
IsNewestFirst-head d (e ∷ ds) o = o

place-IsBelow :
    (n : ℕ) (d : EventDoc) (ds : Documents) → key d ≤ n → IsBelow n ds → IsBelow n (place d ds)
unfolding place
place-IsBelow n d [] h b = h
place-IsBelow n d (e ∷ ds) h b = elim (Bool-cases (ltb (key d) (key e))) [
  | inl x ↦ rw x b
  | inr x ↦ rw x h
]

place-IsNewestFirst :
    (d : EventDoc) (ds : Documents) → IsNewestFirst ds → IsNewestFirst (place d ds)
unfolding place
place-IsNewestFirst d [] o = tt
place-IsNewestFirst d (e ∷ ds) o =
    let (b, rest) = IsNewestFirst-head e ds o in
    elim (Bool-cases (ltb (key d) (key e))) [
      | inl x ↦ rw x (
          IsNewestFirst-cons e (place d ds)
            (place-IsBelow (key e) d ds (ltb-le (key d) (key e) x) b)
            (place-IsNewestFirst d ds rest))
      | inr x ↦ rw x (le_of_not_ltb (key d) (key e) x, o)
    ]

newest_first-IsNewestFirst : (ds : Documents) → IsNewestFirst (newest_first ds)
unfolding newest_first
newest_first-IsNewestFirst [] = tt
newest_first-IsNewestFirst (d ∷ ds) =
    place-IsNewestFirst d (newest_first ds) (newest_first-IsNewestFirst ds)

abbrev pub memory : Collection Documents EventDoc EventFilter EventUpdate
memory = record {
  insert_one = λ d. λ ds. (ok tt, ds ++ d ∷ []);
  find_one = λ f. λ ds. (ok (find_first (event_matches f) ds), ds);
  find =
      λ f. λ o. λ ds. (ok (apply_limit o.limit (sorted o.sort (select (event_matches f) ds))), ds);
  update_one = λ f. λ u. λ ds. (
    ok (if any (event_matches f) ds then 1 else 0),
    update_first (event_matches f) (event_apply u) ds,
  );
  update_many = λ f. λ u. λ ds. (ok tt, update_all (event_matches f) (event_apply u) ds);
  delete_one = λ f.
      λ ds. (ok (if any (event_matches f) ds then 1 else 0), remove_first (event_matches f) ds);
  delete_many = λ f. λ ds. (ok tt, remove_all (event_matches f) ds);
  count_documents = λ f. λ ds. (ok (length (select (event_matches f) ds)), ds);
}

abbrev pub documents : Documents → Documents
documents ds = ds

sorted-Perm : (o : Sort) (ds : Documents) → Perm (sorted o ds) ds
unfolding sorted
sorted-Perm created_desc ds = newest_first-Perm ds
sorted-Perm id_asc ds = Perm.refl ds

sorted-IsOrdered : (o : Sort) (ds : Documents) → event_semantics.IsOrdered o (sorted o ds)
unfolding sorted
sorted-IsOrdered created_desc ds = newest_first-IsNewestFirst ds
sorted-IsOrdered id_asc ds = tt

pub memory-Laws : Laws memory documents event_semantics
memory-Laws = record {
  insert_one_law = λ d. λ w. inl (refl, refl);
  find_one_law = λ f. λ w. inl (refl, refl);
  find_law = λ f. λ o. λ w. inl (
    sorted o.sort (select (event_matches f) w),
    sorted-Perm o.sort (select (event_matches f) w),
    sorted-IsOrdered o.sort (select (event_matches f) w),
    (refl, refl),
  );
  update_one_law = λ f. λ u. λ w. inl (refl, refl);
  update_many_law = λ f. λ u. λ w. inl (refl, refl);
  delete_one_law = λ f. λ w. inl (refl, refl);
  delete_many_law = λ f. λ w. inl (refl, refl);
  count_documents_law = λ f. λ w. inl (refl, refl);
}
