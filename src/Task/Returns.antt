-- ===== src/Task/Returns.antt =====
-- When the cancellation of tasks at a stop comes back.
use go_atomos.Task.{
  with_lock, handle_end, handle_begin, Task, TaskState, scheduling, Manager, Outcome, done,
  deadlocks, and_then, cancel_task_queue, cancel_each, cancel_all_scheduling_tasks,
}
use go_atomos.Common.{ℕ, ◌≡◌, Bool, true, false, not, ◌&&◌, List, [], ◌∷◌, arith, ◌==◌}

abbrev is_scheduling : TaskState → Bool
is_scheduling scheduling = true
is_scheduling _ = false

-- A crontab task that waits for its time.
abbrev pub cron_waits : Task → Bool
cron_waits t = is_scheduling t.state && (not t.timer && not (t.cron_eid == 0))

abbrev pub NoCron : Manager → Type 0
NoCron w = (k : ℕ) → cron_waits (w.task k) ≡ false

-- A call that comes back and leaves no crontab task that waits.
abbrev pub Returns : {A : Type 0} → Outcome A → Type 0
Returns deadlocks = ⊥
Returns (done a v) = NoCron v

abbrev ReturnsAt : {A : Type 0} → ℕ → Outcome A → Type 0
ReturnsAt k deadlocks = ⊥
ReturnsAt k (done a v) = cron_waits (v.task k) ≡ false

each-Returns : {A : Type 0} → (o : Outcome A) → ((k : ℕ) → ReturnsAt k o) → Returns o
each-Returns deadlocks f = f 0
each-Returns (done a v) f = f

pub cancel_task_queue-Returns :
    (id : ℕ) (w : Manager) → NoCron w → Returns (cancel_task_queue true id w)
unfolding cancel_task_queue
cancel_task_queue-Returns id w none_waits =
    each-Returns (cancel_task_queue true id w) (λ k. ground (arith, none_waits k, none_waits id))

and_then-Returns :
    {A B : Type 0}
    → (o : Outcome A) (next : A → Manager → Outcome B) → Returns o
    → ((a : A) (v : Manager) → NoCron v → Returns (next a v))
    → Returns (and_then o next)
and_then-Returns deadlocks next r go_on = r
and_then-Returns (done a v) next r go_on = go_on a v r

cancel_each-Returns : (ids : List ℕ) (w : Manager) → NoCron w → Returns (cancel_each ids w)
unfolding cancel_each
cancel_each-Returns [] w none_waits = none_waits
cancel_each-Returns (id ∷ ids) w none_waits =
    and_then-Returns (cancel_task_queue true id w) _ (cancel_task_queue-Returns id w none_waits)
      (λ e v nv.
        and_then-Returns (cancel_each ids v) _ (cancel_each-Returns ids v nv) (λ l u nu. nu))

pub cancel_all-Returns : (w : Manager) → NoCron w → Returns (cancel_all_scheduling_tasks w)
unfolding cancel_all_scheduling_tasks
cancel_all-Returns w none_waits =
    and_then-Returns (cancel_each w.tasks w) _ (cancel_each-Returns w.tasks w none_waits)
      (λ l u nu. nu)

-- A call that comes back and leaves the lock free.
abbrev pub Frees : {A : Type 0} → Outcome A → Type 0
Frees deadlocks = ⊥
Frees (done a v) = v.locked ≡ false

pub handle_begin-Frees : (id : ℕ) (w : Manager) → w.locked ≡ false → Frees (handle_begin id w)
unfolding handle_begin with_lock
handle_begin-Frees id w free = ground arith

pub handle_end-Frees : (id : ℕ) (w : Manager) → w.locked ≡ false → Frees (handle_end id w)
unfolding handle_end with_lock
handle_end-Frees id w free = ground arith
