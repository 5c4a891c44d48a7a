-- ===== src/Scheduler/Messages.antt =====
-- The messages of a project's job queue: written by `ScheduleJob`
-- (v2/apiserver/internal/core/kubernetes/substrate.go), read by `runJobLoop`
-- (v2/scheduler/job_loop.go), which splits them at each ":".
use Prim.Native.String.{◌++◌}
use brignext.Base.{
  ◌≡◌, String, false, Option, none, some, List, [], ◌∷◌, if◌then◌else◌, inl, inr, split_at,
  has_char, split_at-append, split_at_cases,
}

-- The event and the job that a message names, where it has two parts.
pair_of : List String → Option (String × String)
pair_of (event_id ∷ job_name ∷ []) = some (event_id, job_name)
pair_of _ = none

unfoldable pub parse_job_message : String → Option (String × String)
unfolding pair_of
parse_job_message message = pair_of (split_at ":" message)

-- `fmt.Sprintf("%s:%s", event.ID, jobName)`
unfoldable pub job_message : String → String → String
job_message event_id job_name = event_id ++ (":" ++ job_name)

-- The scheduler reads back the event and the job that the API server wrote, where neither name has
-- a colon; the message of a job whose name has a colon it cannot read.
pub parse-job_message :
    (event_id job_name : String)
    → has_char ":" event_id ≡ false
    → parse_job_message (job_message event_id job_name)
      ≡ (if has_char ":" job_name then none else some (event_id, job_name))
unfolding parse_job_message job_message
parse-job_message event_id job_name h =
    rw (split_at-append ":" event_id job_name h) (elim (split_at_cases ":" job_name) [
      | inl (n, p) ↦ rw (n, p)
      | inr (n, (a, b, r, p)) ↦ rw (n, p)
    ])
