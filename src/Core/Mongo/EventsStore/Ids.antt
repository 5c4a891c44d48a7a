-- ===== src/Core/Mongo/EventsStore/Ids.antt =====
-- Selecting by identifier in a collection whose identifiers are unique.
use brignext.Base.{
  ◌≡◌, refl, subst, String, Bool, true, false, ◌&&◌, Option, none, some, List, [], ◌∷◌, arith, any,
  find_first, update_first, eq_iff, if◌then◌else◌, Bool-cases, inl, inr,
}
use mathlib.Core.Path.{fun_ext}
use brignext.Core.Types.{WorkerPhase, same_phase}
use brignext.Core.Mongo.EventDocs.{
  EventDoc, is_, no_criteria, event_matches, has_text, has_phase, has_deleted, has_canceled,
  is_created_before, has_id, HasUniqueIds, phase_of,
}

-- The identifier and the phase are those asked for.
unfoldable pub has_id_in : String → WorkerPhase → EventDoc → Bool
has_id_in id q d = has_id id d && same_phase (phase_of d) q

pub matches-id : (id : String) → event_matches (record no_criteria { id = some id }) ≡ has_id id
unfolding event_matches has_text has_phase has_deleted has_canceled is_created_before has_id
matches-id id = fun_ext λ d. ground arith

pub matches-id_phase :
    (id : String) (q : WorkerPhase)
    → event_matches (record no_criteria { id = some id; worker_status_phase = some (is_ q) })
      ≡ has_id_in id q
unfolding event_matches has_text has_phase has_deleted has_canceled is_created_before has_id
    has_id_in
matches-id_phase id q = fun_ext λ d. ground arith

pub any-has_id_in_of_none :
    (id : String) (q : WorkerPhase) (ds : List EventDoc)
    → any (has_id id) ds ≡ false
    → any (has_id_in id q) ds ≡ false
unfolding any has_id_in
any-has_id_in_of_none id q [] h = refl
any-has_id_in_of_none id q (d ∷ ds) h = ground (arith, any-has_id_in_of_none id q ds)

-- No other document has the identifier of the first.
pub no_second :
    (id : String) (d : EventDoc) (ds : List EventDoc)
    → has_id id d ≡ true
    → any (has_id d.event.meta.id) ds ≡ false
    → any (has_id id) ds ≡ false
unfolding has_id
no_second id d ds e h = subst (λ i. any (has_id i) ds ≡ false) ((eq_iff d.event.meta.id id).0 e) h

abbrev pub phase_is : WorkerPhase → Option EventDoc → Bool
phase_is q none = false
phase_is q (some d) = same_phase (phase_of d) q

-- The conditional update matches exactly if the document with the identifier is in the phase.
pub any-has_id_in :
    (id : String) (q : WorkerPhase) (ds : List EventDoc)
    → HasUniqueIds ds
    → any (has_id_in id q) ds ≡ phase_is q (find_first (has_id id) ds)
unfolding any has_id_in find_first
any-has_id_in id q [] u = refl
any-has_id_in id q (d ∷ ds) u = elim (Bool-cases (has_id id d)) [
  | inl e ↦ ground (arith, any-has_id_in_of_none id q ds (no_second id d ds e u.0))
  | inr e ↦ rw e (any-has_id_in id q ds u.1)
]

-- It then changes that document.
pub update_first-has_id_in :
    (id : String) (q : WorkerPhase) (f : EventDoc → EventDoc) (ds : List EventDoc)
    → HasUniqueIds ds
    → any (has_id_in id q) ds ≡ true
    → update_first (has_id_in id q) f ds ≡ update_first (has_id id) f ds
unfolding any has_id_in update_first
update_first-has_id_in id q f [] u h = refl
update_first-has_id_in id q f (d ∷ ds) u h = elim (Bool-cases (has_id id d)) [
  | inl e ↦ ground (
    arith,
    any-has_id_in_of_none id q ds (no_second id d ds e u.0),
    update_first-has_id_in id q f ds u.1,
  )
  | inr e ↦ ground (arith, update_first-has_id_in id q f ds u.1)
]

pub update_first_none {ℓ} :
    {A : Type ℓ} (p : A → Bool) (f : A → A) (xs : List A)
    → any p xs ≡ false
    → update_first p f xs ≡ xs
unfolding any update_first
update_first_none p f [] h = refl
update_first_none p f (x ∷ xs) h = ground (arith, update_first_none p f xs)

pub update_first-phase_is :
    (id : String) (q : WorkerPhase) (f : EventDoc → EventDoc) (ds : List EventDoc)
    → HasUniqueIds ds
    → update_first (has_id_in id q) f ds
      ≡ (if phase_is q (find_first (has_id id) ds) then update_first (has_id id) f ds else ds)
update_first-phase_is id q f ds u = ground (
  arith,
  any-has_id_in id q ds u,
  update_first-has_id_in id q f ds u,
  update_first_none (has_id_in id q) f ds,
)
