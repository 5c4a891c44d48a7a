-- ===== src/Core/Types/Projects.antt =====
-- v2/apiserver/internal/core/projects.go, the data, and meta/meta.go.
use brignext.Base.{ℕ, String, Option, List}
use brignext.Core.Types.Jobs.{Time}
use brignext.Core.Types.Workers.{WorkerSpec}

pub record ObjectMeta : Type 0 where
  pub id : String
  pub created : Option Time

-- `continue_` is `Continue`; the empty text starts at the beginning. A limit is an `int64`; the
-- model has the limits that are not negative.
pub record ListOptions : Type 0 where
  pub continue_ : String
  pub limit : ℕ

pub record ListMeta : Type 0 where
  pub continue_ : String
  pub remaining_item_count : ℕ

-- Go's `map[string]string`
abbrev pub Labels : Type 0
Labels = List (String × String)

pub record EventSubscription : Type 0 where
  pub source : String
  pub types : List String
  pub labels : Labels

pub record ProjectSpec : Type 0 where
  pub event_subscriptions : List EventSubscription
  pub worker_template : WorkerSpec

pub record KubernetesConfig : Type 0 where
  pub namespace : String

pub record Project : Type 0 where
  pub meta : ObjectMeta
  pub description : String
  pub spec : ProjectSpec
  pub kubernetes : Option KubernetesConfig

pub record ProjectList : Type 0 where
  pub meta : ListMeta
  pub items : List Project
