-- ===== src/Core/Mongo/WorkersStore/Updates.antt =====
-- Writing to an event's document and reading it back: workers_store.go, jobs_store.go and
-- `Get` of events_store.go in v2/apiserver/internal/core/mongodb.
use brignext.Base.{
  ◌≡◌, refl, String, Bool, true, false, ◌⊎◌, inl, inr, none, some, List, [], ◌∷◌, arith, any,
  find_first, update_first, lookup, Bool-cases, if◌then◌else◌, lookup-insert, ◌==◌,
}
use brignext.Errors.{Outcome, ok, err, err_not_found, other}
use brignext.Mongo.{Collection, Laws}
use brignext.Core.Types.{WorkerStatus, Event, Job, JobStatus}
use brignext.Core.Mongo.EventDocs.{
  EventDoc, EventFilter, EventUpdate, no_criteria, event_apply, event_semantics, has_id, decode,
  set_worker_status, set_job, set_job_status, job_with_status,
}
use brignext.Core.Mongo.EventsStore.{Clock, get}
use brignext.Core.Mongo.EventsStore.Ids.{matches-id}
use brignext.Core.Mongo.EventsStore.Reads.{get_lem}
use brignext.Core.Mongo.WorkersStore.{
  update_event, update_worker_status, create_job, update_job_status,
}

pub any-find_first {ℓ} :
    {A : Type ℓ} (p : A → Bool) (xs : List A)
    → (any p xs ≡ false) × (find_first p xs ≡ none)
      ⊎ (any p xs ≡ true) × ((x : A) × (find_first p xs ≡ some x))
unfolding any find_first
any-find_first p [] = inl (refl, refl)
any-find_first p (x ∷ xs) = elim (Bool-cases (p x)) [
  | inl e ↦ inr (rw e, (x, rw e))
  | inr e ↦ rw e (any-find_first p xs)
]

update_first_none {ℓ} :
    {A : Type ℓ} (p : A → Bool) (f : A → A) (xs : List A)
    → any p xs ≡ false
    → update_first p f xs ≡ xs
unfolding any update_first
update_first_none p f [] h = refl
update_first_none p f (x ∷ xs) h = ground (arith, update_first_none p f xs)

-- No update changes an identifier.
has_id-apply :
    (u : EventUpdate) (id : String) (d : EventDoc) → has_id id (event_apply u d) ≡ has_id id d
unfolding has_id event_apply
has_id-apply u id d = ground arith

pub find_first-update_first :
    (u : EventUpdate) (id : String) (ds : List EventDoc) (d : EventDoc)
    → find_first (has_id id) ds ≡ some d
    → find_first (has_id id) (update_first (has_id id) (event_apply u) ds) ≡ some (event_apply u d)
unfolding find_first update_first
find_first-update_first u id [] d h = cc
find_first-update_first u id (e ∷ ds) d h =
    ground (arith, has_id-apply u id e, find_first-update_first u id ds d)

-- The document found is changed, and no other.
abbrev pub IsUpdated : String → EventUpdate → List EventDoc → List EventDoc → Type 0
IsUpdated id u ds ds' =
    (d : EventDoc) × (find_first (has_id id) ds ≡ some d)
    × (ds' ≡ update_first (has_id id) (event_apply u) ds)

-- What a write by identifier promises, by its result; `type_` is the type in its error.
abbrev pub WriteSpec :
    String → String → EventUpdate → List EventDoc → Outcome (Unit {0}) → List EventDoc → Type 0
WriteSpec type_ id u ds (ok x) ds' = IsUpdated id u ds ds'
WriteSpec type_ id u ds (err (err_not_found t i)) ds' =
    (t ≡ type_) × (i ≡ id) × (find_first (has_id id) ds ≡ none) × (ds' ≡ ds)
WriteSpec type_ id u ds (err (other s)) ds' = (ds' ≡ ds) ⊎ IsUpdated id u ds ds'
WriteSpec type_ id u ds _ ds' = ⊥

module _ {W : Type 0} (collection : Collection W EventDoc EventFilter EventUpdate)
    (docs : W → List EventDoc) (laws : Laws collection docs event_semantics) where
  update_event_lem :
      (type_ id : String) (u : EventUpdate) (w : W)
      → WriteSpec type_ id u
          (docs w)
          (update_event collection type_ id u w).0
          (docs (update_event collection type_ id u w).1)
  unfolding update_event
  update_event_lem type_ id u w =
      elim (rw (matches-id id) at (laws.update_one_law (record no_criteria { id = some id }) u w)) [
        | inl (a, b) ↦ elim (any-find_first (has_id id) (docs w)) [
          | inl (n, e) ↦
              let a' = rw n at a in
              rw a'
                (refl, refl, e, rw (b, update_first_none (has_id id) (event_apply u) (docs w) n))
          | inr (y, (d, e)) ↦ let a' = rw y at a in rw a' (d, e, b)
        ]
        | inr (s, a, l) ↦ rw a (elim l [
          | inl b ↦ inl b
          | inr b ↦ elim (any-find_first (has_id id) (docs w)) [
            | inl (n, e) ↦ inl (rw (b, update_first_none (has_id id) (event_apply u) (docs w) n))
            | inr (y, (d, e)) ↦ inr (d, e, b)
          ]
        ])
      ]

  module _ (clock : Clock W) (type_ id : String) (u : EventUpdate) (w : W) (e : Event) where
    -- What `Get` reads after a write that succeeded.
    read_after_write :
        (update_event collection type_ id u w).0 ≡ ok tt
        → (get collection clock id (update_event collection type_ id u w).1).0 ≡ ok e
        → (d : EventDoc) × (find_first (has_id id) (docs w) ≡ some d)
          × (e ≡ decode (event_apply u d))
    read_after_write written read =
        let (d, f, b) = rw written at (update_event_lem type_ id u w) in
        let f' : find_first (has_id id) (docs (update_event collection type_ id u w).1)
            ≡ some (event_apply u d) =
          rw b (find_first-update_first u id (docs w) d f) in
        elim (get_lem collection clock docs laws id (update_event collection type_ id u w).1) [
          | inl (n, a, c) ↦ absurd (cc (n, f'))
          | inr (inl (d', f'', a, c)) ↦ (d, f, cc (f', f'', a, read))
          | inr (inr (s, a, c)) ↦ absurd (cc (a, read))
        ]

  module _ (clock : Clock W) (id : String) (w : W) (e : Event) where
    -- After `UpdateStatus` succeeded, an event read back has the new status, whatever phase its
    -- worker was in, and is otherwise the event that was there.
    pub get-update_worker_status :
        (status : WorkerStatus)
        → (update_worker_status collection id status w).0 ≡ ok tt
        → (get collection clock id (update_worker_status collection id status w).1).0 ≡ ok e
        → (d : EventDoc) × (find_first (has_id id) (docs w) ≡ some d)
          × (e.worker.status ≡ status)
          × (e ≡ record (decode d) { worker = record (decode d).worker { status = status } })
    unfolding update_worker_status
    get-update_worker_status status written read =
        let (d, f, p) =
          read_after_write clock "Event" id (set_worker_status status) w e written read in
        (d, f, rw p (unfold event_apply decode in refl), rw p (unfold event_apply decode in refl))

    -- After a job was created, an event read back has it under its name, and the other jobs as they
    -- were.
    pub get-create_job :
        (name : String) (job : Job)
        → (create_job collection id name job w).0 ≡ ok tt
        → (get collection clock id (create_job collection id name job w).1).0 ≡ ok e
        → (d : EventDoc) × (find_first (has_id id) (docs w) ≡ some d)
          × ((j : String)
              → lookup j e.worker.jobs
                ≡ (if name == j then some job else lookup j d.event.worker.jobs))
    unfolding create_job
    get-create_job name job written read =
        let (d, f, p) = read_after_write clock "Event" id (set_job name job) w e written read in
        (
          d,
          f,
          λ j. rw p (unfold event_apply decode in lookup-insert name j job d.event.worker.jobs),
        )

    -- After a job's status was updated, an event read back has the status under the job's name, with
    -- the specification that was there; where there was no such job, one with a zero specification
    -- has been made.
    pub get-update_job_status :
        (name : String) (status : JobStatus)
        → (update_job_status collection id name status w).0 ≡ ok tt
        → (get collection clock id (update_job_status collection id name status w).1).0 ≡ ok e
        → (d : EventDoc) × (find_first (has_id id) (docs w) ≡ some d)
          × ((j : String)
              → lookup j e.worker.jobs ≡ (
                  if name == j
                  then some (job_with_status (lookup name d.event.worker.jobs) status)
                  else lookup j d.event.worker.jobs))
    unfolding update_job_status
    get-update_job_status name status written read =
        let (d, f, p) =
          read_after_write clock "Job" id (set_job_status name status) w e written read in
        (
          d,
          f,
          λ j. rw p (
              unfold event_apply decode in
              lookup-insert name j (job_with_status (lookup name d.event.worker.jobs) status)
                d.event.worker.jobs),
        )
