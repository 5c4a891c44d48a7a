-- ===== src/Scheduler/Projects.antt =====
-- v2/scheduler/project_loops_manager.go: one round of `manageProjectLoops` after the projects have
-- been listed. A project's cancel function is known by the project's identifier.
use brignext.Base.{
  ◌≡◌, refl, String, not, ◌&&◌, ◌||◌, List, [], ◌∷◌, arith, contains, add, contains-add,
  if◌then◌else◌, eq_iff, ◌==◌, ◌∙◌,
}

-- What a round does: the loops it stops, the loops it starts, and those it knows afterwards.
pub record Round : Type 0 where
  pub stopped : List String
  pub started : List String
  pub known : List String

unfoldable pub current_projects : List String → List String
current_projects [] = []
current_projects (id ∷ ids) = add id (current_projects ids)

-- "1. Stop Worker and Job loops for projects that have been deleted"
unfoldable pub stop_loops : List String → List String → Round
stop_loops current [] = record { stopped = []; started = []; known = [] }
stop_loops current (id ∷ known) =
    let r = stop_loops current known in
    if contains id current
    then record r { known = id ∷ r.known }
    else record r { stopped = id ∷ r.stopped }

-- "2. Start Worker and Job loops for any projects that have been added"
start_one : String → Round → Round
start_one id r =
    if contains id r.known then r else record r { started = id ∷ r.started; known = id ∷ r.known }

unfoldable pub start_loops : List String → Round → Round
unfolding start_one
start_loops [] r = r
start_loops (id ∷ ids) r = start_loops ids (start_one id r)

unfoldable pub reconcile : List String → List String → Round
unfolding stop_loops start_loops current_projects
reconcile project_ids loop_cancel_fns =
    let current = current_projects project_ids in
    start_loops current (stop_loops current loop_cancel_fns)

contains-current :
    (id : String) (ids : List String) → contains id (current_projects ids) ≡ contains id ids
unfolding current_projects contains
contains-current id [] = refl
contains-current id (j ∷ ids) =
    rw (contains-add j id (current_projects ids), contains-current id ids)

stop_lem :
    (id : String) (current known : List String)
    → (contains id (stop_loops current known).known ≡ (contains id known && contains id current))
      × (contains id (stop_loops current known).stopped
          ≡ (contains id known && not (contains id current)))
      × ((stop_loops current known).started ≡ [])
unfolding stop_loops contains
stop_lem id current [] = (refl, refl, refl)
stop_lem id current (j ∷ known) =
    let (a, b, c) = stop_lem id current known in
    (ground (arith, a, eq_iff j id), ground (arith, b, eq_iff j id), ground (arith, c))

start_one_lem :
    (id j : String) (r : Round)
    → (contains id (start_one j r).known ≡ (j == id || contains id r.known))
      × (contains id (start_one j r).started
          ≡ (contains id r.started || j == id && not (contains id r.known)))
      × ((start_one j r).stopped ≡ r.stopped)
unfolding start_one contains
start_one_lem id j r = (ground (arith, eq_iff j id), ground (arith, eq_iff j id), ground arith)

start_lem :
    (id : String) (ids : List String) (r : Round)
    → (contains id (start_loops ids r).known ≡ (contains id ids || contains id r.known))
      × (contains id (start_loops ids r).started
          ≡ (contains id r.started || contains id ids && not (contains id r.known)))
      × ((start_loops ids r).stopped ≡ r.stopped)
unfolding start_loops contains
start_lem id [] r = (refl, ground arith, refl)
start_lem id (j ∷ ids) r =
    let (a, b, c) = start_lem id ids (start_one j r) in
    let (x, y, z) = start_one_lem id j r in
    (ground (arith, a, x), ground (arith, b, x, y, eq_iff j id), c ∙ z)

-- After a round, a project has loops exactly if it is one of those listed; the loops stopped are
-- those of the projects that are no longer listed, and the loops started are those of the projects
-- that had none.
pub reconcile_lem :
    (id : String) (project_ids known : List String)
    → (contains id (reconcile project_ids known).known ≡ contains id project_ids)
      × (contains id (reconcile project_ids known).stopped
          ≡ (contains id known && not (contains id project_ids)))
      × (contains id (reconcile project_ids known).started
          ≡ (contains id project_ids && not (contains id known)))
unfolding reconcile contains
reconcile_lem id ids known =
    let e = contains-current id ids in
    let (a, b, c) = stop_lem id (current_projects ids) known in
    let (p, q, r) = start_lem id (current_projects ids) (stop_loops (current_projects ids) known) in
    (ground (arith, a, e, p), ground (arith, b, e, r), ground (arith, a, c, e, q))
