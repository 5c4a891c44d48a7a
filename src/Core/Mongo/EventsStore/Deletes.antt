-- ===== src/Core/Mongo/EventsStore/Deletes.antt =====
-- Deleting the events of a project by phase: `DeleteMany` of
-- v2/apiserver/internal/core/mongodb/events_store.go.
use brignext.Base.{◌≡◌, refl, false, inl, inr, some, List, any, select, map, update_all, remove_all}
use mathlib.Core.List.{Perm}
use mathlib.Core.List.Perm
use brignext.Errors.{Outcome, ok, err, other}
use brignext.Mongo.{Collection, Laws, FindOptions, created_desc}
use brignext.Core.Types.{Time, EventList, EventsSelector}
use brignext.Core.Mongo.EventDocs.{
  EventDoc, EventFilter, EventUpdate, in_, not_exists, deleted_at, no_criteria, set_deleted,
  event_semantics, decode,
}
use brignext.Core.Mongo.EventsStore.{Clock, ClockLaws, delete_many}
use brignext.Core.Mongo.EventsStore.Marks.{
  is_chosen, is_marked_at, marked, IsPartlyDeleted, marking-IsPartlyDeleted, marked-IsPartlyDeleted,
  removing-IsPartlyDeleted, select-marked, remove_all-marked, decode-marked, matches-chosen,
  matches-marked,
}

-- What `DeleteMany` promises of the time `t` at which it runs, by its result.
abbrev pub DeleteManySpec :
    EventsSelector → Time → List EventDoc → Outcome EventList → List EventDoc → Type 0
DeleteManySpec s t ds (ok l) ds' =
    (ds' ≡ remove_all (is_chosen s) ds) × Perm l.items (map decode (select (is_chosen s) ds))
DeleteManySpec s t ds (err (other e)) ds' = IsPartlyDeleted (is_chosen s) (marked t) ds ds'
DeleteManySpec s t ds _ ds' = ⊥

module _ {W : Type 0} (collection : Collection W EventDoc EventFilter EventUpdate) (clock : Clock W)
    (docs : W → List EventDoc) (laws : Laws collection docs event_semantics)
    (clock_laws : ClockLaws clock docs) where
  -- `DeleteMany`, where no event is marked with the time at which it runs yet: it answers with the
  -- events of the project in the phases that the selector names and that no earlier deletion left
  -- marked, each exactly once, and removes these and no other; if the database fails on the way,
  -- every event is as it was or, if selected, marked as deleted or removed.
  pub delete_many_lem :
      (s : EventsSelector) (w : W)
      → ((t : Time) → (clock.now w).0 ≡ ok t → any (is_marked_at t) (docs w) ≡ false)
      → (t : Time) × DeleteManySpec s t
          (docs w)
          (delete_many collection clock s w).0
          (docs (delete_many collection clock s w).1)
  unfolding delete_many
  delete_many_lem s w fresh =
      let (t, now_ok, now_docs) = clock_laws.now_law w in
      let new = fresh t now_ok in
      let w₀ = (clock.now w).1 in
      let criteria = record no_criteria {
        project_id = some s.project_id;
        worker_status_phase = some (in_ s.worker_phases);
        deleted = some not_exists;
      } in
      let deleted_criteria = record criteria { deleted = some (deleted_at t) } in
      let w₁ = (collection.update_many criteria (set_deleted t) w₀).1 in
      let options : FindOptions = record { sort = created_desc; limit = 0 } in
      let w₂ = (collection.find deleted_criteria options w₁).1 in
      let marking = rw (matches-chosen s) at (laws.update_many_law criteria (set_deleted t) w₀) in
      let finding = rw (matches-marked s t) at (laws.find_law deleted_criteria options w₁) in
      let removing = rw (matches-marked s t) at (laws.delete_many_law deleted_criteria w₂) in
      (
        t,
        elim marking [
          | inr (e, a, (r, b)) ↦
              rw (now_ok, a, b, now_docs) (unfold marked in marking-IsPartlyDeleted s t r (docs w))
          | inl (a, b) ↦
              let all : docs w₁ ≡ update_all (is_chosen s) (marked t) (docs w) =
                rw (b, now_docs) (unfold marked in refl) in
              elim finding [
                | inr (e, a₂, b₂) ↦
                    rw (now_ok, a, a₂, b₂, all) (marked-IsPartlyDeleted s t (docs w))
                | inl (l, p, o, (a₂, b₂)) ↦
                    let found = rw (all, select-marked s t (docs w) new) at p in
                    let decoded =
                      rw (decode-marked t (select (is_chosen s) (docs w))) at
                        (Perm.map decode found) in
                    elim removing [
                      | inr (e, a₃, (r, b₃)) ↦
                          rw (now_ok, a, a₂, a₃, b₃, b₂, all)
                            (removing-IsPartlyDeleted s t r (docs w) new)
                      | inl (a₃, b₃) ↦
                          rw (now_ok, a, a₂, a₃)
                            (rw (b₃, b₂, all) (remove_all-marked s t (docs w) new), decoded)
                    ]
              ]
        ],
      )
