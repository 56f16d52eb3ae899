-- ===== src/Task/Life.antt =====
-- The life of a task over a history of calls on its manager.
use go_atomos.Common.{
  ℕ, suc, ◌+◌, ◌≤◌, ◌<◌, ◌≡◌, ◌≢◌, ◌⊎◌, refl, subst, Bool, true, false, List, [], ◌∷◌, arith, ◌==◌,
  if◌then◌else◌,
}
use go_atomos.Task.{
  u64_mod, Outcome, Manager, Helper, Event, ran, TaskState, scheduling, cancelled, mailing,
  executing, finished, done, deadlocks, cancel_task_queue, handle_begin, handle_end,
  delay_add_to_queue, add_to_atomos, with_lock, Verdict, u64_mod, error_helper,
}

-- How often the function of a task was called.
abbrev pub runs : ℕ → List Event → ℕ
runs id [] = 0
runs id (ran k ∷ es) = if k == id then suc (runs id es) else runs id es
runs id (e ∷ es) = runs id es

-- The calls that a state stands for.
abbrev pub expected : TaskState → ℕ
expected executing = 1
expected finished = 1
expected _ = 0

-- What one call may do to the state of a task.
abbrev pub moves : TaskState → TaskState → Bool
moves scheduling scheduling = true
moves scheduling mailing = true
moves scheduling cancelled = true
moves mailing mailing = true
moves mailing cancelled = true
moves mailing executing = true
moves executing executing = true
moves executing finished = true
moves finished finished = true
moves cancelled cancelled = true
moves _ _ = false

moves_refl : (s : TaskState) → moves s s ≡ true
moves_refl scheduling = refl
moves_refl cancelled = refl
moves_refl mailing = refl
moves_refl executing = refl
moves_refl finished = refl

-- A call moves a task along and counts its run, and creates none.
abbrev Keeps : {A : Type 0} → ℕ → Manager → Outcome A → Type 0
Keeps id w deadlocks = Unit {0}
Keeps id w (done a v) =
    (moves (w.task id).state (v.task id).state ≡ true)
    × (runs id v.trace + expected (w.task id).state ≡ runs id w.trace + expected (v.task id).state)
    × (v.cur_id ≡ w.cur_id)

delay_add_to_queue-Keeps : (id k : ℕ) (w : Manager) → Keeps id w (delay_add_to_queue k w)
unfolding delay_add_to_queue with_lock
delay_add_to_queue-Keeps id k w = ground (arith, moves_refl (w.task id).state)

handle_begin-Keeps : (id k : ℕ) (w : Manager) → Keeps id w (handle_begin k w)
unfolding handle_begin with_lock
handle_begin-Keeps id k w = ground (arith, moves_refl (w.task id).state)

handle_end-Keeps :
    (id k : ℕ) (w : Manager) → (w.task k).state ≡ executing → Keeps id w (handle_end k w)
unfolding handle_end with_lock
handle_end-Keeps id k w e = ground (arith, moves_refl (w.task id).state)

cancel_task_queue-Keeps : (id k : ℕ) (b : Bool) (w : Manager) → Keeps id w (cancel_task_queue b k w)
unfolding cancel_task_queue with_lock
cancel_task_queue-Keeps id k b w = ground (arith, moves_refl (w.task id).state)

-- The steps of a task over calls made one after the other.
abbrev pub Leads : TaskState → TaskState → Type 0
Leads cancelled s = s ≡ cancelled
Leads finished s = s ≡ finished
Leads executing s = expected s ≡ 1
Leads mailing s = s ≢ scheduling
Leads scheduling s = Unit {0}

Leads-refl : (s : TaskState) → Leads s s
Leads-refl scheduling = tt
Leads-refl cancelled = refl
Leads-refl mailing = ground arith
Leads-refl executing = refl
Leads-refl finished = refl

Leads-step : (r s t : TaskState) → Leads r s → moves s t ≡ true → Leads r t
Leads-step r s t l m = ground arith

-- The calls made on tasks, by users, timers, the crontab and the mailboxes, and the cancellations that
-- the halt makes, with the flag of the mailbox's exit. A run ends only after it began, and ids are not
-- used up.
pub data Step : Manager → Manager → Type 0 where
  adds :
      {w v : Manager} (eid : ℕ) (h : Helper) (id : ℕ)
      → suc w.cur_id < u64_mod
      → add_to_atomos eid h w ≡ done id v
      → Step w v
  fires : {w v : Manager} (id : ℕ) → delay_add_to_queue id w ≡ done tt v → Step w v
  begins : {w v : Manager} (id : ℕ) (called : Bool) → handle_begin id w ≡ done called v → Step w v
  ends :
      {w v : Manager} (id : ℕ)
      → (w.task id).state ≡ executing
      → handle_end id w ≡ done tt v
      → Step w v
  cancels :
      {w v : Manager} (mailbox_exit : Bool) (id : ℕ) (result : Verdict)
      → cancel_task_queue mailbox_exit id w ≡ done result v
      → Step w v

pub data Steps (w : Manager) : Manager → Type 0 where
  none_yet : Steps w w
  then_step : {v u : Manager} → Steps w v → Step v u → Steps w u

-- The number of calls of a task's function is the one that its state stands for. An id that is not
-- given yet leads to no task; the model has a cancelled one there.
pub record IsCounted (w : Manager) : Type 0 where
  pub counted : (id : ℕ) → runs id w.trace ≡ expected (w.task id).state
  pub fresh : (id : ℕ) → w.cur_id < id → (w.task id).state ≡ cancelled

-- A step leaves the counts right, and moves the tasks that exist along.
abbrev Advances : Manager → Manager → Type 0
Advances w v =
    (w.cur_id ≤ v.cur_id)
    × (IsCounted w → IsCounted v)
    × ((id : ℕ) → id ≤ w.cur_id → moves (w.task id).state (v.task id).state ≡ true)

Keeps-Advances :
    {A : Type 0} (w v : Manager) (a : A) → ((id : ℕ) → Keeps id w (done a v)) → Advances w v
Keeps-Advances w v a k = (
  omega (arith, (k 0).2),
  (λ c. record {
    counted = λ id. omega (arith, c.counted id, (k id).1);
    fresh = λ id h. ground (arith, c.fresh id (omega (arith, (k 0).2, h)), (k id).0);
  }),
  (λ id i. (k id).0),
)

-- An addition gives the next id to the new task, runs nothing and leaves the other tasks as they are.
abbrev Adds : ℕ → Manager → Outcome ℕ → Type 0
Adds k w deadlocks = Unit {0}
Adds k w (done id v) =
    (v.cur_id ≡ suc w.cur_id)
    × (runs k v.trace ≡ runs k w.trace)
    × ((v.task k).state ≡ (w.task k).state ⊎ ((k ≡ suc w.cur_id) × (expected (v.task k).state ≡ 0)))

add_to_atomos-Adds :
    (k eid : ℕ) (h : Helper) (w : Manager)
    → suc w.cur_id < u64_mod
    → Adds k w (add_to_atomos eid h w)
unfolding add_to_atomos with_lock error_helper
add_to_atomos-Adds k eid h w bound = ground arith

Adds-Advances : (w v : Manager) (id : ℕ) → ((k : ℕ) → Adds k w (done id v)) → Advances w v
Adds-Advances w v id a = (
  omega (arith, (a 0).0),
  (λ c. record {
    counted = λ k. ground (arith, c.counted k, c.fresh k, a k);
    fresh = λ k h. ground (arith, c.fresh k (omega (arith, (a 0).0, h)), a k);
  }),
  (λ k i. ground (arith, a k, moves_refl (w.task k).state)),
)

Step-Advances : (w v : Manager) → Step w v → Advances w v
Step-Advances w v (adds eid h id bound run) =
    Adds-Advances w v id (λ k. subst (Adds k w) run (add_to_atomos-Adds k eid h w bound))
Step-Advances w v (fires id run) =
    Keeps-Advances w v tt (λ k. subst (Keeps k w) run (delay_add_to_queue-Keeps k id w))
Step-Advances w v (begins id called run) =
    Keeps-Advances w v called (λ k. subst (Keeps k w) run (handle_begin-Keeps k id w))
Step-Advances w v (ends id executes run) =
    Keeps-Advances w v tt (λ k. subst (Keeps k w) run (handle_end-Keeps k id w executes))
Step-Advances w v (cancels mailbox_exit id result run) =
    Keeps-Advances w v result
      (λ k. subst (Keeps k w) run (cancel_task_queue-Keeps k id mailbox_exit w))

Steps-Advances :
    (w v : Manager)
    → Steps w v
    → (w.cur_id ≤ v.cur_id)
      × (IsCounted w → IsCounted v)
      × ((id : ℕ) → id ≤ w.cur_id → Leads (w.task id).state (v.task id).state)
Steps-Advances w v none_yet = (omega arith, (λ c. c), (λ id i. Leads-refl (w.task id).state))
Steps-Advances w v (then_step {v = u} before last) =
    let b = Steps-Advances w u before in
    let l = Step-Advances u v last in
    (
      omega (arith, b.0, l.0),
      (λ c. l.1 (b.1 c)),
      (λ id i.
          Leads-step (w.task id).state (u.task id).state (v.task id).state (b.2 id i)
            (l.2 id (omega (arith, i, b.0)))),
    )

-- The manager of a new atom.
pub record IsNew (w : Manager) : Type 0 where
  pub silent : w.trace ≡ []
  pub no_task : (id : ℕ) → (w.task id).state ≡ cancelled

IsNew-IsCounted : (w : Manager) → IsNew w → IsCounted w
IsNew-IsCounted w n = record {
  counted = λ id. ground (arith, n.silent, n.no_task id);
  fresh = λ id h. n.no_task id;
}

-- From a new manager, over any history of additions (ids not used up), timers and crontab
-- calls, mails handed out, ends of runs that began, and cancellations: the function of each
-- task has been called at most once, and exactly when the task is executing or done.
pub run_once :
    (w v : Manager) (id : ℕ)
    → IsNew w
    → Steps w v
    → (runs id v.trace ≤ 1) × (runs id v.trace ≡ expected (v.task id).state)
run_once w v id n s =
    let c = (Steps-Advances w v s).1 (IsNew-IsCounted w n) in
    (ground (arith, c.counted id), c.counted id)

-- From a new manager, over any history as in `run_once`: a task whose id was given out and
-- that is cancelled is still cancelled after any further history, and its function has not
-- been called.
pub cancelled_for_good :
    (w v u : Manager) (id : ℕ)
    → IsNew w
    → Steps w v
    → id ≤ v.cur_id
    → (v.task id).state ≡ cancelled
    → Steps v u
    → ((u.task id).state ≡ cancelled) × (runs id u.trace ≡ 0)
cancelled_for_good w v u id n s i stopped t =
    let later = Steps-Advances v u t in
    let c = later.1 ((Steps-Advances w v s).1 (IsNew-IsCounted w n)) in
    let still : (u.task id).state ≡ cancelled = ground (arith, later.2 id i) in
    (still, ground (arith, c.counted id, still))
