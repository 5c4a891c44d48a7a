-- ===== src/Queue/Names.antt =====
-- The queues of a project, where several queues share one: the names that
-- v2/apiserver/internal/core/kubernetes/substrate.go writes to and
-- v2/apiserver/internal/lib/queue/amqp/queue_writer_factory.go takes apart.
use Prim.Native.String.{◌++◌}
use text.Mathlib.TextLemmas.{append_assoc}
use brignext.Base.{
  ◌≡◌, refl, String, true, false, inl, inr, [], ◌∷◌, has_char, split_at, split_at-append,
  split_at_cases,
}
use brignext.Core.Kubernetes.Objects.{workers_queue, jobs_queue}
use brignext.Queue.{queue_and_group, name_and_group}

-- Two parts.
parts_lem :
    (base group : String)
    → has_char "." base ≡ false
    → has_char "." group ≡ false
    → split_at "." (base ++ ("." ++ group)) ≡ base ∷ group ∷ []
parts_lem base group h n =
    rw (split_at-append "." base group h)
      (elim (split_at_cases "." group) [ inl (_, p) ↦ rw p | inr (y, _) ↦ absurd (cc (rw n at y)) ])

-- Where queues have groups, the queues of a project with no dot in its identifier are the groups of
-- that name in the queues "workers" and "jobs".
pub queue_and_group-project :
    (project_id : String)
    → has_char "." project_id ≡ false
    → (queue_and_group true (workers_queue project_id) ≡ ("workers", project_id))
      × (queue_and_group true (jobs_queue project_id) ≡ ("jobs", project_id))
unfolding queue_and_group name_and_group workers_queue jobs_queue has_char
queue_and_group-project p h = (
  rw (append_assoc "workers" "." p, parts_lem "workers" p refl h),
  rw (append_assoc "jobs" "." p, parts_lem "jobs" p refl h),
)
