-- ===== src/Core/Mongo/EventsStore/Reads.antt =====
-- Reading one event: `Get` of
-- v2/apiserver/internal/core/mongodb/events_store.go.
use brignext.Base.{◌≡◌, String, ◌⊎◌, inl, inr, none, some, List, find_first, Option-cases}
use brignext.Errors.{ok, err, err_not_found, other}
use brignext.Mongo.{Collection, Laws}
use brignext.Core.Mongo.EventDocs.{
  EventDoc, EventFilter, EventUpdate, no_criteria, event_semantics, has_id, decode,
}
use brignext.Core.Mongo.EventsStore.{Clock, get}
use brignext.Core.Mongo.EventsStore.Ids.{matches-id}

module _ {W : Type 0} (collection : Collection W EventDoc EventFilter EventUpdate) (clock : Clock W)
    (docs : W → List EventDoc) (laws : Laws collection docs event_semantics) where
  -- `Get` reads the first document with the identifier and changes nothing.
  pub get_lem :
      (id : String) (w : W)
      → ((find_first (has_id id) (docs w) ≡ none)
          × ((get collection clock id w).0 ≡ err (err_not_found "Event" id))
          × (docs (get collection clock id w).1 ≡ docs w))
        ⊎ ((d : EventDoc) × (find_first (has_id id) (docs w) ≡ some d)
            × ((get collection clock id w).0 ≡ ok (decode d))
            × (docs (get collection clock id w).1 ≡ docs w))
        ⊎ ((s : String) × ((get collection clock id w).0 ≡ err (other s))
            × (docs (get collection clock id w).1 ≡ docs w))
  unfolding get
  get_lem id w =
      elim (rw (matches-id id) at (laws.find_one_law (record no_criteria { id = some id }) w)) [
        | inl (a, b) ↦ elim (Option-cases (find_first (has_id id) (docs w))) [
          | inl n ↦ let a' = rw n at a in inl (n, rw a', rw a' b)
          | inr (d, e) ↦ let a' = rw e at a in inr (inl (d, e, rw a', rw a' b))
        ]
        | inr (s, e, l) ↦ inr (inr (s, rw e, rw e l))
      ]
