-- ===== src/Task/Examples.antt =====
-- The theorems on tasks at concrete managers.
use go_atomos.Common.{
  ℕ, ◌≤◌, ◌≡◌, refl, Bool, true, false, not, Option, none, some, List, [], ◌∷◌, arith,
}
use go_atomos.Common.{pos}
use go_atomos.Task.{
  Outcome, Manager, Task, Helper, plain_fn, TaskState, scheduling, cancelled, mailing, done,
  deadlocks, cancel_task_queue, cancel_all_scheduling_tasks, handle_begin, handle_end,
  add_to_atomos, with_lock,
}
use go_atomos.Task.Args.{
  task_mark, task_delay, has_errors, create_task_helper, new_draft, take_args,
}
use go_atomos.Task.Accepts.{has_errors-create_task_helper}
use go_atomos.Task.Fields.{IsAsked, create_task_helper-Fills}
use go_atomos.Task.Life.{
  expected, Steps, none_yet, then_step, adds, begins, ends, cancels, IsNew, run_once,
  cancelled_for_good, runs,
}
use go_atomos.Task.Cron.{IsCronTask, cancel_all-cron}

-- A parser that knows one schedule.
abbrev parser : List ℕ → Option ℕ
parser [] = none
parser (c ∷ cs) = some c

has_errors-create_task_helper_example :
    not (
      has_errors
        (create_task_helper parser (some 4) none (task_mark (7 ∷ []) ∷ task_delay (pos 5) ∷ [])))
    ≡ true
has_errors-create_task_helper_example =
    has_errors-create_task_helper parser (some 4) none
      (task_mark (7 ∷ []) ∷ task_delay (pos 5) ∷ [])

create_task_helper-Fills_example :
    IsAsked parser
      (some 4)
      none
      (task_delay (pos 5) ∷ [])
      (create_task_helper parser (some 4) none (task_delay (pos 5) ∷ []))
unfolding create_task_helper new_draft take_args has_errors
create_task_helper-Fills_example =
    create_task_helper-Fills parser (some 4) none (task_delay (pos 5) ∷ []) refl

abbrev helper : ℕ → Option ℕ → Helper
helper delay schedule = record {
  work = plain_fn 4;
  mark = 7 ∷ [];
  delay = delay;
  cron_schedule = schedule;
  append_to_head = false;
  cancel_callback = some 9;
  mailbox = 1;
}

abbrev task_in : TaskState → Bool → ℕ → Task
task_in s timer eid = record { helper = helper 0 none; timer = timer; cron_eid = eid; state = s }

abbrev manager : Task → List ℕ → List ℕ → Bool → Manager
manager t tasks box locked = record {
  cur_id = 0;
  task = λ k. t;
  tasks = tasks;
  box = λ k. box;
  box_running = λ k. true;
  locked = locked;
  trace = [];
}

abbrev fresh : Manager
fresh = manager (task_in cancelled false 0) [] [] false

fresh-IsNew : IsNew fresh
fresh-IsNew = record { silent = refl; no_task = λ id. refl }

abbrev after : {A : Type 0} → Manager → Outcome A → Manager
after w (done a v) = v
after w deadlocks = w

abbrev added : Manager
added = after fresh (add_to_atomos 0 (helper 0 none) fresh)

abbrev begun : Manager
begun = after added (handle_begin 1 added)

abbrev ended : Manager
ended = after begun (handle_end 1 begun)

life : Steps fresh ended
unfolding add_to_atomos handle_begin handle_end with_lock
life =
    then_step
      (then_step (then_step none_yet (adds 0 (helper 0 none) 1 (omega arith) refl))
        (begins 1 true refl))
      (ends 1 refl refl)

run_once_example : (runs 1 ended.trace ≤ 1) × (runs 1 ended.trace ≡ expected (ended.task 1).state)
run_once_example = run_once fresh ended 1 fresh-IsNew life

abbrev stopped : Manager
stopped = after added (cancel_task_queue false 1 added)

abbrev later : Manager
later = after stopped (handle_begin 1 stopped)

to_stopped : Steps fresh stopped
unfolding add_to_atomos cancel_task_queue with_lock
to_stopped =
    then_step (then_step none_yet (adds 0 (helper 0 none) 1 (omega arith) refl))
      (cancels false 1 none refl)

cancelled_for_good_example : ((later.task 1).state ≡ cancelled) × (runs 1 later.trace ≡ 0)
unfolding add_to_atomos cancel_task_queue with_lock handle_begin
cancelled_for_good_example =
    cancelled_for_good fresh stopped later 1 fresh-IsNew to_stopped (omega arith) refl
      (then_step none_yet (begins 1 false refl))

abbrev timed : Manager
timed = manager (task_in scheduling true 0) (1 ∷ []) [] false

abbrev mailed : Manager
mailed = manager (task_in mailing false 0) (1 ∷ []) (1 ∷ []) false

abbrev scheduled : Bool → Manager
scheduled locked = manager (task_in scheduling false 3) (1 ∷ []) [] locked

scheduled-IsCronTask : (locked : Bool) → IsCronTask 1 (scheduled locked)
scheduled-IsCronTask locked = record {
  state = refl;
  no_timer = refl;
  entry = λ h. omega (arith, h);
}

cancel_all-cron_example : cancel_all_scheduling_tasks (scheduled true) ≡ deadlocks
cancel_all-cron_example = cancel_all-cron 1 (scheduled true) (scheduled-IsCronTask true) refl refl
