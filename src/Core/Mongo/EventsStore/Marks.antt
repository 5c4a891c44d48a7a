-- ===== src/Core/Mongo/EventsStore/Marks.antt =====
-- What the three steps of `DeleteMany` of v2/apiserver/internal/core/mongodb/events_store.go make of
-- a list of documents: to mark, to select the marked, and to remove these.
use brignext.Base.{
  Bool-cases, if◌then◌else◌, ◌≡◌, refl, Bool, true, false, ◌&&◌, ◌⊎◌, inl, inr, some, List, [], ◌∷◌,
  arith, any, select, map, update_all, remove_all, is_some, not, ◌==◌,
}
use mathlib.Core.Path.{fun_ext}
use brignext.Core.Types.{Time, EventsSelector, same_phase}
use brignext.Core.Mongo.EventDocs.{
  EventDoc, in_, not_exists, deleted_at, no_criteria, set_deleted, event_apply, phase_of, decode,
  event_matches, has_text, has_phase, has_deleted, has_canceled, is_created_before,
}

unfoldable pub is_in : EventsSelector → EventDoc → Bool
is_in s d = d.event.project_id == s.project_id && any (same_phase (phase_of d)) s.worker_phases

-- An event that the selector selects, and that no earlier deletion left marked.
unfoldable pub is_chosen : EventsSelector → EventDoc → Bool
unfolding is_in
is_chosen s d = is_in s d && not (is_some d.deleted)

unfoldable pub is_marked_at : Time → EventDoc → Bool
is_marked_at t d = has_deleted (some (deleted_at t)) d.deleted

unfoldable pub marked : Time → EventDoc → EventDoc
marked t d = event_apply (set_deleted t) d

-- A deletion that stopped half way: each event is as it was or, if chosen, marked or gone.
abbrev pub IsPartlyDeleted :
    (EventDoc → Bool) → (EventDoc → EventDoc) → List EventDoc → List EventDoc → Type 0
IsPartlyDeleted p f [] ds' = ds' ≡ []
IsPartlyDeleted p f (d ∷ ds) ds' =
    ((p d ≡ true) × IsPartlyDeleted p f ds ds')
    ⊎ ((d' : EventDoc) × (rest : List EventDoc) × (ds' ≡ d' ∷ rest)
        × ((d' ≡ d) ⊎ ((p d ≡ true) × (d' ≡ f d)))
        × IsPartlyDeleted p f ds rest)

module _ (s : EventsSelector) (t : Time) where
  pub marking-IsPartlyDeleted :
      (r : EventDoc → Bool) (ds : List EventDoc)
      → IsPartlyDeleted
          (is_chosen s)
          (marked t)
          ds
          (update_all (λ d. is_chosen s d && r d) (marked t) ds)
  unfolding update_all
  marking-IsPartlyDeleted r [] = refl
  marking-IsPartlyDeleted r (d ∷ ds) = inr (_, _, refl, ground arith, marking-IsPartlyDeleted r ds)

  pub marked-IsPartlyDeleted :
      (ds : List EventDoc)
      → IsPartlyDeleted (is_chosen s) (marked t) ds (update_all (is_chosen s) (marked t) ds)
  unfolding update_all
  marked-IsPartlyDeleted [] = refl
  marked-IsPartlyDeleted (d ∷ ds) = inr (_, _, refl, ground arith, marked-IsPartlyDeleted ds)

  -- Where no event bears the time yet, the events marked are those chosen.
  pub select-marked :
      (ds : List EventDoc)
      → any (is_marked_at t) ds ≡ false
      → select (λ d. is_in s d && is_marked_at t d) (update_all (is_chosen s) (marked t) ds)
        ≡ map (marked t) (select (is_chosen s) ds)
  unfolding update_all select any is_chosen is_marked_at has_deleted marked event_apply
  select-marked [] h = refl
  select-marked (d ∷ ds) h = ground (arith, select-marked ds)

  pub remove_all-marked :
      (ds : List EventDoc)
      → any (is_marked_at t) ds ≡ false
      → remove_all (λ d. is_in s d && is_marked_at t d) (update_all (is_chosen s) (marked t) ds)
        ≡ remove_all (is_chosen s) ds
  unfolding update_all remove_all any is_chosen is_marked_at has_deleted marked event_apply
  remove_all-marked [] h = refl
  remove_all-marked (d ∷ ds) h = ground (arith, remove_all-marked ds)

  -- Only an event that was chosen can be removed.
  removed_chosen :
      (r : EventDoc → Bool) (d : EventDoc)
      → is_marked_at t d ≡ false
      → let x = if is_chosen s d then marked t d else d in
        ((is_in s x && is_marked_at t x) && r x) ≡ true → is_chosen s d ≡ true
  unfolding is_chosen is_marked_at has_deleted
  removed_chosen r d h e = ground arith

  pub removing-IsPartlyDeleted :
      (r : EventDoc → Bool) (ds : List EventDoc)
      → any (is_marked_at t) ds ≡ false
      → IsPartlyDeleted (is_chosen s) (marked t) ds (
          remove_all
            (λ d. (is_in s d && is_marked_at t d) && r d)
            (update_all (is_chosen s) (marked t) ds))
  unfolding update_all remove_all any
  removing-IsPartlyDeleted r [] h = refl
  removing-IsPartlyDeleted r (d ∷ ds) h =
      let x = if is_chosen s d then marked t d else d in
      let fresh : is_marked_at t d ≡ false = ground arith in
      let ih = removing-IsPartlyDeleted r ds (ground arith) in
      elim (Bool-cases ((is_in s x && is_marked_at t x) && r x)) [
        | inl e ↦ inl (removed_chosen r d fresh e, rw e ih)
        | inr e ↦ inr (x, _, rw e refl, ground arith, ih)
      ]

-- Decoding an event does not see the mark.
pub decode-marked : (t : Time) (ds : List EventDoc) → map decode (map (marked t) ds) ≡ map decode ds
unfolding decode marked event_apply
decode-marked t [] = refl
decode-marked t (d ∷ ds) = cc (decode-marked t ds)

pub matches-chosen :
    (s : EventsSelector)
    → event_matches (record no_criteria {
      project_id = some s.project_id;
      worker_status_phase = some (in_ s.worker_phases);
      deleted = some not_exists;
    })
      ≡ is_chosen s
unfolding event_matches has_text has_phase has_deleted has_canceled is_created_before is_chosen
matches-chosen s = fun_ext λ d. ground arith

pub matches-marked :
    (s : EventsSelector) (t : Time)
    → event_matches (record no_criteria {
      project_id = some s.project_id;
      worker_status_phase = some (in_ s.worker_phases);
      deleted = some (deleted_at t);
    })
      ≡ (λ d. is_in s d && is_marked_at t d)
unfolding event_matches has_text has_phase has_canceled is_created_before is_in is_marked_at
matches-marked s t = fun_ext λ d. ground arith
