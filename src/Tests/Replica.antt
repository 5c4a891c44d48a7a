-- ===== src/Tests/Replica.antt =====
-- A collection that holds the same documents for ever and can only be read.
use brignext.Base.{
  ◌≡◌, refl, Bool, false, ◌&&◌, inl, inr, List, select, find_first, length, update_all, remove_all,
  arith, [], ◌∷◌,
}
use mathlib.Core.List.Perm
use brignext.Errors.{ok, other}
use brignext.Effect.{fail}
use brignext.Mongo.{Collection, Laws, Semantics, Sort, apply_limit}

unchanged :
    {D : Type 0} (p : D → Bool) (f : D → D) (l : List D) → l ≡ update_all (λ d. p d && false) f l
unfolding update_all
unchanged p f [] = refl
unchanged p f (d ∷ l) = ground (arith, unchanged p f l)

all_left : {D : Type 0} (p : D → Bool) (l : List D) → l ≡ remove_all (λ d. p d && false) l
unfolding remove_all
all_left p [] = refl
all_left p (d ∷ l) = ground (arith, all_left p l)

module _ {W D F U : Type 0} (ds : List D) (s : Semantics D F U) where
  abbrev pub replica : Collection W D F U
  replica = record {
    insert_one = λ d. fail (other "read only");
    find_one = λ f. λ w. (ok (find_first (s.matches f) ds), w);
    find = λ f. λ o. λ w. (ok (apply_limit o.limit (select (s.matches f) ds)), w);
    update_one = λ f. λ u. fail (other "read only");
    update_many = λ f. λ u. fail (other "read only");
    delete_one = λ f. fail (other "read only");
    delete_many = λ f. fail (other "read only");
    count_documents = λ f. λ w. (ok (length (select (s.matches f) ds)), w);
  }

  pub replica-Laws :
      ((sort : Sort) (p : D → Bool) → s.IsOrdered sort (select p ds))
      → Laws {W = W} replica (λ w. ds) s
  replica-Laws ordered = record {
    insert_one_law = λ d. λ w. inr (inl ("read only", refl, inl refl));
    find_one_law = λ f. λ w. inl (refl, refl);
    find_law = λ f. λ o.
        λ w. inl (select (s.matches f) ds, Perm.refl _, ordered o.sort (s.matches f), (refl, refl));
    update_one_law = λ f. λ u. λ w. inr ("read only", refl, inl refl);
    update_many_law = λ f.
        λ u. λ w. inr ("read only", refl, (λ d. false, unchanged (s.matches f) (s.apply u) ds));
    delete_one_law = λ f. λ w. inr ("read only", refl, inl refl);
    delete_many_law = λ f. λ w. inr ("read only", refl, (λ d. false, all_left (s.matches f) ds));
    count_documents_law = λ f. λ w. inl (refl, refl);
  }
