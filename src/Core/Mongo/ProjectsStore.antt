-- ===== src/Core/Mongo/ProjectsStore.antt =====
-- v2/apiserver/internal/core/mongodb/projects_store.go.
pub mod Subscribers
use brignext.Base.{
  ◌-◌, String, Option, none, some, List, [], ◌∷◌, map, length, get_elem?, ltb, eqb, ◌==◌,
  if◌then◌else◌,
}
use brignext.Errors.{Error, err_not_found, err_conflict, project_exists, write_exception}
use brignext.Effect.{M, pure, fail, crash, attempt, ◌>>=◌}
use brignext.Mongo.{Collection, id_asc}
use brignext.Core.Types.{Event, Project, ProjectList, ListOptions}
use brignext.Core.Mongo.EventDocs.{EventDoc, EventFilter, EventUpdate, no_criteria}
use brignext.Core.Mongo.EventsStore.{Clock}
use brignext.Core.Mongo.ProjectDocs.{
  ProjectDoc, ProjectFilter, ProjectUpdate, SubscriptionCriteria, no_project_criteria, set_spec,
}

-- A duplicate key is one write error, of code 11000.
create_error : Project → Error → Error
create_error project (write_exception (code ∷ [])) =
    if eqb code 11000
    then err_conflict "Project" project.meta.id (project_exists project.meta.id)
    else write_exception (code ∷ [])
create_error project e = e

abbrev pub whole_projects : List Project → ProjectList
whole_projects items = record {
  meta = record { continue_ = ""; remaining_item_count = 0 };
  items = items;
}

-- What `ListSubscribers` asks of a subscription.
unfoldable pub subscription_criteria : Event → SubscriptionCriteria
subscription_criteria event = record {
  source = event.source;
  types = event.type_ ∷ "*" ∷ [];
  labels = elim event.labels [ [] ↦ none | l ∷ ls ↦ some (l ∷ ls) ];
}

module _ {W : Type 0} (collection : Collection W ProjectDoc ProjectFilter ProjectUpdate)
    (events_collection : Collection W EventDoc EventFilter EventUpdate) (clock : Clock W) where
  unfoldable pub create : Project → M W (Unit {0})
  unfolding create_error
  create project =
      attempt (collection.insert_one (record { project = project; last_updated = none })) pure
        (λ e. fail (create_error project e))

  -- The block on a full page: `last` is `projects.Items[opts.Limit-1]`.
  full_page : ProjectFilter → List Project → Option Project → M W ProjectList
  full_page criteria items none = crash
  full_page criteria items (some last) = do
    remaining ← collection.count_documents (record criteria { id_after = some last.meta.id })
    pure (
        if ltb 0 remaining
        then record {
          meta = record { continue_ = last.meta.id; remaining_item_count = remaining };
          items = items;
        }
        else whole_projects items)

  unfoldable pub list : ListOptions → M W ProjectList
  unfolding full_page
  list opts = do
    let criteria = record no_project_criteria {
      id_after = if opts.continue_ == "" then none else some opts.continue_;
    }
    cur ← collection.find criteria (record { sort = id_asc; limit = opts.limit })
    let items = map (λ (d : ProjectDoc). d.project) cur
    if eqb (length items) opts.limit
        then full_page criteria items
            (if eqb opts.limit 0 then none else get_elem? items (opts.limit - 1))
        else pure (whole_projects items)

  unfoldable pub list_subscribers : Event → M W ProjectList
  list_subscribers event = do
    cur ←
        collection.find
          (record no_project_criteria { subscription = some (subscription_criteria event) })
          (record { sort = id_asc; limit = 0 })
    pure (whole_projects (map (λ (d : ProjectDoc). d.project) cur))

  found : String → Option ProjectDoc → M W Project
  found id none = fail (err_not_found "Project" id)
  found id (some d) = pure d.project

  unfoldable pub get : String → M W Project
  unfolding found
  get id = do res ← collection.find_one (record no_project_criteria { id = some id }); found id res

  unfoldable pub update : Project → M W (Unit {0})
  update project = do
    now ← clock.now
    matched_count ←
        collection.update_one (record no_project_criteria { id = some project.meta.id })
          (set_spec now project.spec)
    if eqb matched_count 0 then fail (err_not_found "Project" project.meta.id) else pure tt

  -- The delete cascades to the project's events.
  unfoldable pub delete : String → M W (Unit {0})
  delete id = do
    deleted_count ← collection.delete_one (record no_project_criteria { id = some id })
    if eqb deleted_count 0
        then fail (err_not_found "Project" id)
        else events_collection.delete_many (record no_criteria { project_id = some id })
