-- ===== src/Core/Mongo/EventsStore/Selection.antt =====
-- Which events `CancelMany` of v2/apiserver/internal/core/mongodb/events_store.go selects, and what
-- its two bulk updates make of a list of documents.
use brignext.Base.{
  ◌≡◌, refl, String, Bool, true, false, ◌&&◌, ◌||◌, not, ◌⊎◌, Option, none, some, List, [], ◌∷◌,
  arith, any, select, map, update_all, ◌==◌,
}
use mathlib.Core.Path.{fun_ext}
use brignext.Core.Types.{Time, EventsSelector, WorkerPhase, same_phase}
use brignext.Core.Mongo.EventDocs.{
  EventDoc, is_, no_criteria, set_canceled, event_apply, phase_of, event_matches, has_text,
  has_phase, has_deleted, has_canceled, is_created_before,
}
use brignext.Core.Mongo.EventsStore.Cancel.{canceled_phase}

-- An event of the project in the phase `from`, where the selector asks for that phase (`asked`).
unfoldable pub is_asked : Bool → String → WorkerPhase → EventDoc → Bool
is_asked asked pid from d = asked && (d.event.project_id == pid && same_phase (phase_of d) from)

abbrev pub asks : EventsSelector → WorkerPhase → Bool
asks s p = any (same_phase p) s.worker_phases

-- An event that the selector cancels: of its project, pending or running, in a phase it names.
unfoldable pub is_selected : EventsSelector → EventDoc → Bool
unfolding is_asked
is_selected s d =
    is_asked (asks s WorkerPhase.pending) s.project_id WorkerPhase.pending d
    || is_asked (asks s WorkerPhase.running) s.project_id WorkerPhase.running d

stamp : Time → Option WorkerPhase → EventDoc → EventDoc
stamp t none d = d
stamp t (some p) d = event_apply (set_canceled t p) d

-- The document of a canceled event.
unfoldable pub canceled_doc : Time → EventDoc → EventDoc
unfolding stamp
canceled_doc t d = stamp t (canceled_phase (phase_of d)) d

unfoldable pub is_canceled_at : Time → EventDoc → Bool
is_canceled_at t d = has_canceled (some t) d.canceled

-- The updates that may have been made of an event, in a bulk update that stopped half way.
abbrev pub IsPartly :
    (EventDoc → Bool) → (EventDoc → EventDoc) → List EventDoc → List EventDoc → Type 0
IsPartly p f [] [] = Unit
IsPartly p f (d ∷ ds) (d' ∷ ds') = ((d' ≡ d) ⊎ ((p d ≡ true) × (d' ≡ f d))) × IsPartly p f ds ds'
IsPartly p f _ _ = ⊥

module _ (s : EventsSelector) (t : Time) where
  unfoldable pub to_canceled : EventDoc → EventDoc
  to_canceled = event_apply (set_canceled t WorkerPhase.canceled)

  unfoldable pub to_aborted : EventDoc → EventDoc
  to_aborted = event_apply (set_canceled t WorkerPhase.aborted)

  unfoldable pub pending_asked : EventDoc → Bool
  pending_asked = is_asked (asks s WorkerPhase.pending) s.project_id WorkerPhase.pending

  unfoldable pub running_asked : EventDoc → Bool
  running_asked = is_asked (asks s WorkerPhase.running) s.project_id WorkerPhase.running

  -- The two bulk updates cancel each selected event once.
  pub both_updates :
      (ds : List EventDoc)
      → update_all running_asked to_aborted (update_all pending_asked to_canceled ds)
        ≡ update_all (is_selected s) (canceled_doc t) ds
  unfolding update_all pending_asked running_asked is_selected to_canceled to_aborted canceled_doc
      event_apply same_phase
  both_updates [] = refl
  both_updates (d ∷ ds) = ground (arith, both_updates ds)

  -- Each way to stop half way leaves every event as it was or canceled.
  pub first_update-IsPartly :
      (r : EventDoc → Bool) (ds : List EventDoc)
      → IsPartly
          (is_selected s)
          (canceled_doc t)
          ds
          (update_all (λ d. pending_asked d && r d) to_canceled ds)
  unfolding update_all pending_asked running_asked is_selected to_canceled to_aborted canceled_doc
      event_apply same_phase
  first_update-IsPartly r [] = tt
  first_update-IsPartly r (d ∷ ds) = (ground arith, first_update-IsPartly r ds)

  pub second_update-IsPartly :
      (r : EventDoc → Bool) (ds : List EventDoc)
      → IsPartly (is_selected s) (canceled_doc t) ds (
          update_all
            (λ d. running_asked d && r d)
            to_aborted
            (update_all pending_asked to_canceled ds))
  unfolding update_all pending_asked running_asked is_selected to_canceled to_aborted canceled_doc
      event_apply same_phase
  second_update-IsPartly r [] = tt
  second_update-IsPartly r (d ∷ ds) = (ground arith, second_update-IsPartly r ds)

  pub update_all-IsPartly :
      (ds : List EventDoc)
      → IsPartly
          (is_selected s)
          (canceled_doc t)
          ds
          (update_all (is_selected s) (canceled_doc t) ds)
  unfolding update_all
  update_all-IsPartly [] = tt
  update_all-IsPartly (d ∷ ds) = (ground arith, update_all-IsPartly ds)

  -- Where no event bears the time yet, it picks out the events that were canceled.
  pub select-canceled :
      (ds : List EventDoc)
      → any (is_canceled_at t) ds ≡ false
      → select
          (λ d. d.event.project_id == s.project_id && is_canceled_at t d)
          (update_all (is_selected s) (canceled_doc t) ds)
        ≡ map (canceled_doc t) (select (is_selected s) ds)
  unfolding update_all select any is_selected is_canceled_at has_canceled canceled_doc event_apply
      same_phase
  select-canceled [] h = refl
  select-canceled (d ∷ ds) h = ground (arith, select-canceled ds)

-- A selector that asks for no phase selects nothing.
pub none_updated :
    (s : EventsSelector) (t : Time)
    → (not (asks s WorkerPhase.pending) && not (asks s WorkerPhase.running)) ≡ true
    → (ds : List EventDoc)
    → (ds ≡ update_all (is_selected s) (canceled_doc t) ds) × (select (is_selected s) ds ≡ [])
unfolding update_all select is_selected
none_updated s t h [] = (refl, refl)
none_updated s t h (d ∷ ds) = let (a, b) = none_updated s t h ds in (ground arith, ground arith)

pub matches-project_phase :
    (pid : String) (q : WorkerPhase)
    → event_matches
        (record no_criteria { project_id = some pid; worker_status_phase = some (is_ q) })
      ≡ is_asked true pid q
unfolding event_matches has_text has_phase has_deleted has_canceled is_created_before is_asked
matches-project_phase pid q = fun_ext λ d. ground arith

pub matches-project_canceled :
    (pid : String) (t : Time)
    → event_matches (record no_criteria { project_id = some pid; canceled = some t })
      ≡ (λ d. d.event.project_id == pid && is_canceled_at t d)
unfolding event_matches has_text has_phase has_deleted has_canceled is_created_before is_canceled_at
matches-project_canceled pid t = fun_ext λ d. ground arith

pub update_all_none :
    (f : EventDoc → EventDoc) (pid : String) (q : WorkerPhase) (ds : List EventDoc)
    → update_all (is_asked false pid q) f ds ≡ ds
unfolding update_all is_asked
update_all_none f pid q [] = refl
update_all_none f pid q (d ∷ ds) = ground (arith, update_all_none f pid q ds)
