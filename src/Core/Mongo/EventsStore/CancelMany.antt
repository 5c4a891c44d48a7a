-- ===== src/Core/Mongo/EventsStore/CancelMany.antt =====
-- Canceling the events of a project by phase: `CancelMany` of
-- v2/apiserver/internal/core/mongodb/events_store.go.
use brignext.Base.{
  ◌≡◌, refl, String, Bool, true, false, ◌&&◌, not, ◌⊎◌, inl, inr, some, List, [], any, select, map,
  update_all, Bool-cases,
}
use mathlib.Core.List.{Perm}
use mathlib.Core.List.Perm
use brignext.Errors.{Outcome, ok, err, other}
use brignext.Mongo.{Collection, Laws, created_desc}
use brignext.Core.Types.{Time, EventList, EventsSelector, WorkerPhase}
use brignext.Core.Mongo.EventDocs.{
  EventDoc, EventFilter, EventUpdate, is_, no_criteria, set_canceled, event_apply, event_semantics,
  decode,
}
use brignext.Core.Mongo.EventsStore.{
  Clock, ClockLaws, cancel_many_if, cancel_asked, cancel_many, whole,
}
use brignext.Core.Mongo.EventsStore.Selection.{
  is_asked, asks, is_selected, canceled_doc, is_canceled_at, IsPartly, to_canceled, to_aborted,
  pending_asked, running_asked, both_updates, first_update-IsPartly, second_update-IsPartly,
  update_all-IsPartly, select-canceled, none_updated, matches-project_phase,
  matches-project_canceled, update_all_none,
}

-- What `CancelMany` promises of the time `t` at which it runs, by its result.
abbrev pub CancelManySpec :
    EventsSelector → Time → List EventDoc → Outcome EventList → List EventDoc → Type 0
CancelManySpec s t ds (ok l) ds' =
    (ds' ≡ update_all (is_selected s) (canceled_doc t) ds)
    × Perm l.items (map decode (map (canceled_doc t) (select (is_selected s) ds)))
CancelManySpec s t ds (err (other e)) ds' = IsPartly (is_selected s) (canceled_doc t) ds ds'
CancelManySpec s t ds _ ds' = ⊥

none_selected :
    (s : EventsSelector) (t : Time)
    → (not (asks s WorkerPhase.pending) && not (asks s WorkerPhase.running)) ≡ true
    → (ds : List EventDoc) → CancelManySpec s t ds (ok (whole [])) ds
none_selected s t h ds = let (a, b) = none_updated s t h ds in (a, rw b (Perm.refl []))

module _ {W : Type 0} (collection : Collection W EventDoc EventFilter EventUpdate) (clock : Clock W)
    (docs : W → List EventDoc) (laws : Laws collection docs event_semantics)
    (clock_laws : ClockLaws clock docs) where
  -- One of the two bulk updates.
  cancel_many_if_lem :
      (asked : Bool) (pid : String) (t : Time) (from to : WorkerPhase) (w : W)
      → let m =
          cancel_many_if collection clock asked
            (record no_criteria { project_id = some pid })
            t
            from
            to in
        (((m w).0 ≡ ok tt)
          × (docs (m w).1
              ≡ update_all (is_asked asked pid from) (event_apply (set_canceled t to)) (docs w)))
        ⊎ ((s : String) × ((m w).0 ≡ err (other s))
            × (r : EventDoc → Bool) × (docs (m w).1
                ≡ update_all
                    (λ d. is_asked asked pid from d && r d)
                    (event_apply (set_canceled t to))
                    (docs w)))
  unfolding cancel_many_if
  cancel_many_if_lem false pid t from to w = inl (refl, rw update_all_none)
  cancel_many_if_lem true pid t from to w =
      elim (rw (matches-project_phase pid from) at (
        laws.update_many_law
          (record no_criteria { project_id = some pid; worker_status_phase = some (is_ from) })
          (set_canceled t to) w)) [
            | inl (a, b) ↦ inl (a, b)
            | inr (s, a, (r, b)) ↦ inr (s, a, r, b)
          ]

  module _ (s : EventsSelector) (t : Time) (ds : List EventDoc) (w : W) where
    -- After both updates: the listing.
    listing :
        docs w ≡ update_all (is_selected s) (canceled_doc t) ds
        → any (is_canceled_at t) ds ≡ false
        → let m =
            collection.find
              (record no_criteria { project_id = some s.project_id; canceled = some t })
              (record { sort = created_desc; limit = 0 }) in
          ((l : List EventDoc) × ((m w).0 ≡ ok l)
            × (docs (m w).1 ≡ update_all (is_selected s) (canceled_doc t) ds)
            × Perm (map decode l) (map decode (map (canceled_doc t) (select (is_selected s) ds))))
          ⊎ ((e : String) × ((m w).0 ≡ err (other e))
              × (docs (m w).1 ≡ update_all (is_selected s) (canceled_doc t) ds))
    listing b fresh =
        elim (rw (matches-project_canceled s.project_id t, b, select-canceled s t ds fresh) at
          (laws.find_law (record no_criteria { project_id = some s.project_id; canceled = some t })
            (record { sort = created_desc; limit = 0 }) w)) [
              | inl (l, p, o, (a, c)) ↦ inl (l, a, c, Perm.map decode p)
              | inr x ↦ inr x
            ]

  -- Reading the clock, the two updates and the listing, from documents `docs w` on.
  asked_lem :
      (s : EventsSelector) (w : W)
      → ((t : Time) → (clock.now w).0 ≡ ok t → any (is_canceled_at t) (docs w) ≡ false)
      → let m =
          cancel_asked collection clock
            (asks s WorkerPhase.pending)
            (asks s WorkerPhase.running)
            s.project_id in
        (t : Time) × CancelManySpec s t (docs w) (m w).0 (docs (m w).1)
  unfolding cancel_asked
  asked_lem s w fresh =
      let (t, now_ok, now_docs) = clock_laws.now_law w in
      let criteria = record no_criteria { project_id = some s.project_id } in
      let pid = s.project_id in
      let b₁ = asks s WorkerPhase.pending in
      let b₂ = asks s WorkerPhase.running in
      let w₀ = (clock.now w).1 in
      let m₁ =
        cancel_many_if collection clock b₁ criteria t WorkerPhase.pending WorkerPhase.canceled in
      let m₂ =
        cancel_many_if collection clock b₂ criteria t WorkerPhase.running WorkerPhase.aborted in
      let w₁ = (m₁ w₀).1 in
      let w₂ = (m₂ w₁).1 in
      (
        t,
        elim (cancel_many_if_lem b₁ pid t WorkerPhase.pending WorkerPhase.canceled w₀) [
          | inr (e, a, r, b) ↦
              rw (now_ok, a, b, now_docs)
                (unfold pending_asked to_canceled in first_update-IsPartly s t r (docs w))
          | inl (a, b) ↦
              elim (cancel_many_if_lem b₂ pid t WorkerPhase.running WorkerPhase.aborted w₁) [
                | inr (e, a₂, r, b₂') ↦
                    rw (now_ok, a, a₂, b₂', b, now_docs)
                      (unfold pending_asked running_asked to_canceled to_aborted in
                        second_update-IsPartly s t r (docs w))
                | inl (a₂, c₂) ↦
                    let all : docs w₂ ≡ update_all (is_selected s) (canceled_doc t) (docs w) =
                      rw (c₂, b, now_docs)
                        (unfold pending_asked running_asked to_canceled to_aborted in
                          both_updates s t (docs w)) in
                    elim (listing s t (docs w) w₂ all (fresh t now_ok)) [
                      | inl (l, a₃, c₃, p) ↦ rw (now_ok, a, a₂, a₃) (c₃, p)
                      | inr (e, a₃, c₃) ↦
                          rw (now_ok, a, a₂, a₃, c₃) (update_all-IsPartly s t (docs w))
                    ]
              ]
        ],
      )

  -- `CancelMany`, where no event bears the time at which it runs yet: it answers with the events
  -- that the selector selects (those of the project that are pending or running, in a phase the
  -- selector names), each exactly once and as canceled, and cancels these and no other; if the
  -- database fails on the way, every event is as it was or, if selected, canceled.
  pub cancel_many_lem :
      (s : EventsSelector) (w : W)
      → ((t : Time) → (clock.now w).0 ≡ ok t → any (is_canceled_at t) (docs w) ≡ false)
      → (t : Time) × CancelManySpec s t
          (docs w)
          (cancel_many collection clock s w).0
          (docs (cancel_many collection clock s w).1)
  unfolding cancel_many
  cancel_many_lem s w fresh =
      elim (Bool-cases (not (asks s WorkerPhase.pending) && not (asks s WorkerPhase.running))) [
        | inl idle ↦ (0, rw idle (none_selected s 0 idle (docs w)))
        | inr busy ↦ let (t, r) = asked_lem s w fresh in (t, rw busy r)
      ]
