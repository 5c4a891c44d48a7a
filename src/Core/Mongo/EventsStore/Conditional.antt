-- ===== src/Core/Mongo/EventsStore/Conditional.antt =====
-- One conditional update of `Cancel` of v2/apiserver/internal/core/mongodb/events_store.go.
use brignext.Base.{
  ◌≡◌, String, true, false, ◌⊎◌, inl, inr, some, List, find_first, update_first, if◌then◌else◌,
}
use brignext.Errors.{ok, err, other}
use brignext.Mongo.{Collection, Laws}
use brignext.Core.Types.{Time, WorkerPhase, same_phase}
use brignext.Core.Mongo.EventDocs.{
  EventDoc, EventFilter, EventUpdate, no_criteria, is_, set_canceled, event_apply, event_semantics,
  has_id, HasUniqueIds, phase_of,
}
use brignext.Core.Mongo.EventsStore.{Clock, ClockLaws, cancel_if}
use brignext.Core.Mongo.EventsStore.Ids.{
  matches-id_phase, phase_is, any-has_id_in, update_first-phase_is,
}

module _ {W : Type 0} (collection : Collection W EventDoc EventFilter EventUpdate) (clock : Clock W)
    (docs : W → List EventDoc) (laws : Laws collection docs event_semantics)
    (clock_laws : ClockLaws clock docs) where
  -- One conditional update: it changes the event if its worker is in the phase `from`.
  cancel_if_lem :
      (id : String) (from to : WorkerPhase) (w : W)
      → HasUniqueIds (docs w)
      → ((t : Time) × ((cancel_if collection clock id from to w).0
            ≡ ok (if phase_is from (find_first (has_id id) (docs w)) then 1 else 0))
          × (docs (cancel_if collection clock id from to w).1 ≡ (
              if phase_is from (find_first (has_id id) (docs w))
              then update_first (has_id id) (event_apply (set_canceled t to)) (docs w)
              else docs w)))
        ⊎ ((t : Time) × (s : String) × ((cancel_if collection clock id from to w).0 ≡ err (other s))
            × ((docs (cancel_if collection clock id from to w).1 ≡ docs w)
                ⊎ (docs (cancel_if collection clock id from to w).1 ≡ (
                    if phase_is from (find_first (has_id id) (docs w))
                    then update_first (has_id id) (event_apply (set_canceled t to)) (docs w)
                    else docs w))))
  unfolding cancel_if
  cancel_if_lem id from to w u =
      let (t, now_ok, now_docs) = clock_laws.now_law w in
      let law =
        rw (matches-id_phase id from, now_docs) at
          (laws.update_one_law
            (record no_criteria { id = some id; worker_status_phase = some (is_ from) })
            (set_canceled t to) (clock.now w).1) in
      let law' =
        rw
          (
            any-has_id_in id from (docs w) u,
            update_first-phase_is id from (event_apply (set_canceled t to)) (docs w) u,
          )
          at law in
      elim law' [
        | inl (a, b) ↦ inl (t, rw now_ok a, rw now_ok b)
        | inr (s, e, l) ↦ inr (t, s, rw now_ok e, rw now_ok l)
      ]

  module _ (id : String) (d : EventDoc) (w : W) (u : HasUniqueIds (docs w))
      (e : find_first (has_id id) (docs w) ≡ some d) where
    unfoldable pub stamped : Time → WorkerPhase → List EventDoc
    stamped t to = update_first (has_id id) (event_apply (set_canceled t to)) (docs w)

    pub cancel_if_hit :
        (from to : WorkerPhase)
        → same_phase (phase_of d) from ≡ true
        → (t : Time) × (((cancel_if collection clock id from to w).0 ≡ ok 1)
              × (docs (cancel_if collection clock id from to w).1 ≡ stamped t to)
            ⊎ ((s : String) × ((cancel_if collection clock id from to w).0 ≡ err (other s))
                × ((docs (cancel_if collection clock id from to w).1 ≡ docs w)
                    ⊎ (docs (cancel_if collection clock id from to w).1 ≡ stamped t to))))
    unfolding stamped
    cancel_if_hit from to h = elim (cancel_if_lem id from to w u) [
      | inl (t, a, b) ↦ let a' = rw (e, h) at a in let b' = rw (e, h) at b in (t, inl (a', b'))
      | inr (t, s, a, l) ↦ let l' = rw (e, h) at l in (t, inr (s, a, l'))
    ]

    pub cancel_if_miss :
        (from to : WorkerPhase)
        → same_phase (phase_of d) from ≡ false
        → ((cancel_if collection clock id from to w).0 ≡ ok 0)
            × (docs (cancel_if collection clock id from to w).1 ≡ docs w)
          ⊎ ((s : String) × ((cancel_if collection clock id from to w).0 ≡ err (other s))
              × (docs (cancel_if collection clock id from to w).1 ≡ docs w))
    cancel_if_miss from to h = elim (cancel_if_lem id from to w u) [
      | inl (t, a, b) ↦ let a' = rw (e, h) at a in let b' = rw (e, h) at b in inl (a', b')
      | inr (t, s, a, l) ↦ let l' = rw (e, h) at l in inr (s, a, elim l' [ inl x ↦ x | inr x ↦ x ])
    ]
