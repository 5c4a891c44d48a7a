-- ===== src/Core/Mongo/ProjectDocs.antt =====
-- The documents of the "projects" collection, with the filters and the update that
-- v2/apiserver/internal/core/mongodb/projects_store.go builds for them.
use Prim.Native.Nat.{Ordering}
use Prim.Native.String.{compare}
use brignext.Base.{
  ◌≢◌, String, Bool, true, false, ◌&&◌, Option, none, some, List, [], ◌∷◌, any, ◌==◌,
}
use brignext.Mongo.{Semantics, Sort, created_desc, id_asc}
use brignext.Core.Types.{Time, Project, ProjectSpec, EventSubscription, Labels}

pub record ProjectDoc : Type 0 where
  pub project : Project
  pub last_updated : Option Time

-- The criteria for a subscription under `$elemMatch`. Each of `labels` stands under `$all`; the
-- list is `none` where the event has no labels.
pub record SubscriptionCriteria : Type 0 where
  pub source : String
  pub types : List String
  pub labels : Option Labels

pub record ProjectFilter : Type 0 where
  pub id : Option String
  -- `{"$gt": id}`
  pub id_after : Option String
  pub subscription : Option SubscriptionCriteria

abbrev pub no_project_criteria : ProjectFilter
no_project_criteria = record { id = none; id_after = none; subscription = none }

unfoldable pub has_member : List String → String → Bool
has_member ts t = any (λ u. u == t) ts

unfoldable pub has_label : Labels → String × String → Bool
has_label labels (key, value) = any (λ l. l.0 == key && l.1 == value) labels

unfoldable pub has_all_labels : Labels → Labels → Bool
unfolding has_label
has_all_labels [] labels = true
has_all_labels (l ∷ ls) labels = has_label labels l && has_all_labels ls labels

unfoldable pub has_label_conditions : Option Labels → Labels → Bool
has_label_conditions none labels = true
has_label_conditions (some conditions) labels = has_all_labels conditions labels

-- `$in` holds of an array if it holds of one of its elements.
unfoldable pub subscription_matches : SubscriptionCriteria → EventSubscription → Bool
subscription_matches c s =
    s.source == c.source
    && any (has_member c.types) s.types
    && has_label_conditions c.labels s.labels

unfoldable pub is_after : String → String → Bool
is_after a b = elim (compare b a) [ Ordering.lt ↦ true | _ ↦ false ]

unfoldable pub project_matches : ProjectFilter → ProjectDoc → Bool
project_matches f d =
    elim f.id [ none ↦ true | some id ↦ d.project.meta.id == id ]
    && elim f.id_after [ none ↦ true | some id ↦ is_after d.project.meta.id id ]
    && elim f.subscription [
      | none ↦ true
      | some c ↦ any (subscription_matches c) d.project.spec.event_subscriptions
    ]

pub data ProjectUpdate : Type 0 where
  set_spec : Time → ProjectSpec → ProjectUpdate

unfoldable pub project_apply : ProjectUpdate → ProjectDoc → ProjectDoc
project_apply (set_spec t spec) d = record d {
  project = record d.project { spec = spec };
  last_updated = some t;
}

-- By identifier; the other key is not used for projects.
abbrev pub IsInIdOrder : List ProjectDoc → Type 0
IsInIdOrder [] = Unit
IsInIdOrder (d ∷ []) = Unit
IsInIdOrder (d ∷ e ∷ ds) =
    (compare e.project.meta.id d.project.meta.id ≢ Ordering.lt) × IsInIdOrder (e ∷ ds)

abbrev IsSorted : Sort → List ProjectDoc → Type 0
IsSorted created_desc ds = Unit
IsSorted id_asc ds = IsInIdOrder ds

abbrev pub project_semantics : Semantics ProjectDoc ProjectFilter ProjectUpdate
project_semantics = record {
  id_of = λ d. d.project.meta.id;
  matches = project_matches;
  apply = project_apply;
  IsOrdered = IsSorted;
}
