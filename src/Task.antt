-- ===== src/Task.antt =====
-- atomos_task_manager_queue.go: the tasks of an atom, from their arguments to their end.
-- A task is known by its id; `at.tasks` is the list of ids that it holds, and the task that a pointer
-- leads to is `task id`. A mailbox is its number and holds the ids of the mails that wait in it, in
-- order (module Mailbox shows that the linked queue is such a list). `at.mutex` is not reentrant: to
-- lock it again while it is held blocks for good. What users and the log see is `trace`.
pub mod Args
pub mod Accepts
pub mod Fields
pub mod Life
pub mod Cancel
pub mod Cron
pub mod Returns
pub mod Examples
use go_atomos.ErrorCode.{
  ErrorCode, err_framework_internal_error, err_atomos_task_cannot_cancel_cancelled_task,
  err_atomos_task_cannot_cancel_running_task, err_atomos_task_cannot_cancel_done_task,
}
use go_atomos.Common.{
  without, ℕ, zero, suc, ◌+◌, ◌-◌, ◌*◌, ◌/◌, ◌%◌, ◌≤◌, ◌<◌, ◌≡◌, ◌≢◌, ◌↔◌, ◌⊎◌, inl, inr, refl, sym,
  ap, subst, ◌∙◌, Bool, true, false, not, ◌&&◌, ◌||◌, Option, none, some, List, [], ◌∷◌, ◌++◌, map,
  arith, ltb, leb, ◌==◌, if◌then◌else◌, ==→eq, ==_refl, ==_ne, Bool-cases, Option-cases, is_some,
  length, length-append, last_or, last_or-append, find, erase_first, has, Distinct, has-append,
  Distinct-snoc,
}

abbrev pub u64_mod : ℕ
u64_mod = 18446744073709551616

pub data TaskState : Type 0 where
  scheduling cancelled mailing executing finished : TaskState

-- What the user gave: a `TaskFn` or a `TaskFnWithCallback`, known by a number.
pub data Work : Type 0 where
  plain_fn with_callback : ℕ → Work

-- `taskHelper` after a parse without errors. A delay is in nanoseconds.
pub record Helper : Type 0 where
  pub work : Work
  pub mark : List ℕ
  pub delay : ℕ
  pub cron_schedule : Option ℕ
  pub append_to_head : Bool
  pub cancel_callback : Option ℕ
  pub mailbox : ℕ

pub record Task : Type 0 where
  pub helper : Helper
  pub timer : Bool
  pub cron_eid : ℕ
  pub state : TaskState

pub data Event : Type 0 where
  ran : (id : ℕ) → Event
  callback_called : (callback : ℕ) → Event
  timer_stopped cron_removed : (id : ℕ) → Event
  mail_released : (id : ℕ) → Event
  framework_error fatal : (id : ℕ) → Event

pub record Manager : Type 0 where
  pub cur_id : ℕ
  pub task : ℕ → Task
  pub tasks : List ℕ
  pub box : ℕ → List ℕ
  pub box_running : ℕ → Bool
  pub locked : Bool
  pub trace : List Event

-- A call returns, or blocks for good on a lock that its own goroutine holds.
pub data Outcome (A : Type 0) : Type 0 where
  done : A → Manager → Outcome A
  deadlocks : Outcome A

abbrev pub Cmd : Type 0 → Type 0
Cmd A = Manager → Outcome A

abbrev pub and_then : {A B : Type 0} → Outcome A → (A → Cmd B) → Outcome B
and_then (done a w) next = next a w
and_then deadlocks next = deadlocks

abbrev pub put_task : (ℕ → Task) → ℕ → Task → ℕ → Task
put_task task id t k = if k == id then t else task k

abbrev put_box : (ℕ → List ℕ) → ℕ → List ℕ → ℕ → List ℕ
put_box box b ids k = if k == b then ids else box k

abbrev pub set_state : ℕ → TaskState → Manager → Manager
set_state id s w = record w { task = put_task w.task id (record (w.task id) { state = s }) }

abbrev pub emit : Event → Manager → Manager
emit e w = record w { trace = e ∷ w.trace }

abbrev call_back : Option ℕ → Manager → Manager
call_back none w = w
call_back (some f) w = emit (callback_called f) w

-- A critical section of `at.mutex`.
pub with_lock : {A : Type 0} → Cmd A → Cmd A
with_lock body w =
    if w.locked
    then deadlocks
    else and_then (body (record w { locked = true })) (λ a v. done a (record v { locked = false }))

-- `errorHelper`, for a task whose arguments were accepted.
pub error_helper : ℕ → Option ℕ → Manager → Manager
error_helper id none w = emit (framework_error id) w
error_helper id (some f) w = emit (callback_called f) w

-- `addToQueue`: the mail goes to one end of the mailbox, if that runs.
pub add_to_queue : ℕ → Cmd (Unit {0})
unfolding error_helper
add_to_queue id w =
    if w.box_running h.mailbox
    then done tt (record w {
      box =
          put_box w.box h.mailbox
            (if h.append_to_head then id ∷ w.box h.mailbox else w.box h.mailbox ++ id ∷ []);
    })
    else done tt (emit (mail_released id) (error_helper id h.cancel_callback w))
  where
    h : Helper
    h = (w.task id).helper

-- `genTaskID`
gen_task_id : Helper → Bool → Cmd ℕ
gen_task_id h schedule = with_lock λ w.
    let id = (w.cur_id + 1) % u64_mod in
    done id (record w {
      cur_id = id;
      task = put_task w.task id (record {
        helper = h;
        timer = false;
        cron_eid = 0;
        state = if schedule then scheduling else mailing;
      });
      tasks = id ∷ without id w.tasks;
    })

-- `getCron`
get_cron : Cmd (Unit {0})
get_cron = with_lock λ w. done tt w

start_cron : (eid : ℕ) → ℕ → Cmd (Unit {0})
unfolding get_cron
start_cron eid id w =
    and_then (get_cron w) λ _ v.
      done tt (record v { task = put_task v.task id (record (v.task id) { cron_eid = eid }) })

-- The `switch` of `addToAtomos`. `eid` is what `cron.Schedule` returns.
launch : (eid : ℕ) → ℕ → Helper → Cmd (Unit {0})
unfolding add_to_queue start_cron
launch eid id h w =
    if ltb 0 h.delay
    then done tt (record w { task = put_task w.task id (record (w.task id) { timer = true }) })
    else if is_some h.cron_schedule
    then start_cron eid id w
    else add_to_queue id w

-- `addToAtomos` for arguments without errors: the id of the new task.
pub add_to_atomos : (eid : ℕ) → Helper → Cmd ℕ
unfolding gen_task_id launch
add_to_atomos eid h w =
    and_then (gen_task_id h (ltb 0 h.delay || is_some h.cron_schedule) w)
      λ id v. and_then (launch eid id h v) λ _ u. done id u

-- The `switch` of `delayAddToQueue`, which a timer or the crontab calls.
delay_switch : TaskState → ℕ → Cmd (Unit {0})
unfolding add_to_queue
delay_switch cancelled id w =
    done tt (emit (framework_error id) (record w { tasks = without id w.tasks }))
delay_switch scheduling id w = add_to_queue id (set_state id mailing w)
delay_switch _ id w = done tt (emit (framework_error id) w)

pub delay_add_to_queue : ℕ → Cmd (Unit {0})
unfolding delay_switch
delay_add_to_queue id =
    with_lock λ w. if has id w.tasks then delay_switch (w.task id).state id w else done tt w

-- The first critical section of `handleTaskQueue`, on the mail that the mailbox handed out: whether
-- the task's function is called.
begin_switch : TaskState → ℕ → Cmd Bool
begin_switch cancelled id w = done false w
begin_switch mailing id w = done true (set_state id executing w)
begin_switch _ id w = done false (emit (fatal id) w)

-- Whoever is told to begin calls the function of the task.
note_begin : ℕ → Outcome Bool → Outcome Bool
note_begin id (done true w) = done true (emit (ran id) w)
note_begin id o = o

pub handle_begin : ℕ → Cmd Bool
unfolding begin_switch note_begin
handle_begin id = with_lock λ w. note_begin id (begin_switch (w.task id).state id w)

-- The deferred end of `handleTaskQueue`, after the function has returned or panicked.
pub handle_end : ℕ → Cmd (Unit {0})
handle_end id = with_lock λ w.
    let v = set_state id finished w in
    if has id w.tasks
    then done tt (record v { tasks = without id w.tasks })
    else done tt (emit (fatal id) v)

-- `popByID` on a mailbox, with the release of the mail that it finds.
pop_mail : ℕ → ℕ → Manager → Manager
pop_mail b id w =
    if has id (w.box b)
    then emit (mail_released id) (record w { box = put_box w.box b (without id (w.box b)) })
    else w

-- How a cancellation ends: with an error, or done.
abbrev pub Verdict : Type 0
Verdict = Option ErrorCode

-- `TaskScheduling` in `cancelTaskQueue`, once the timer or the crontab is stopped.
cancel_scheduled : ℕ → Cmd Verdict
unfolding pop_mail
cancel_scheduled id w =
    if has id w.tasks
    then (let v = emit (mail_released id) (record w { tasks = without id w.tasks }) in
        if has id (v.box b)
        then done (some err_framework_internal_error)
            (emit (framework_error id) (record v { box = put_box v.box b (without id (v.box b)) }))
        else done none (set_state id cancelled v))
    else done (some err_framework_internal_error) (pop_mail b id (emit (framework_error id) w))
  where
    b : ℕ
    b = (w.task id).helper.mailbox

-- A scheduled crontab task: `getCron` locks `at.mutex` once more.
cancel_cron : ℕ → Cmd Verdict
unfolding cancel_scheduled get_cron
cancel_cron id w = and_then (get_cron w) λ _ v. cancel_scheduled id (emit (cron_removed id) v)

cancel_switch : TaskState → ℕ → Cmd Verdict
unfolding cancel_scheduled cancel_cron pop_mail
cancel_switch cancelled id w = done (some err_atomos_task_cannot_cancel_cancelled_task) w
cancel_switch scheduling id w =
    if (w.task id).timer
    then cancel_scheduled id (emit (timer_stopped id) w)
    else if not ((w.task id).cron_eid == 0)
    then cancel_cron id w
    else done (some err_framework_internal_error)
        (pop_mail (w.task id).helper.mailbox id (emit (framework_error id) w))
cancel_switch mailing id w =
    done none (set_state id cancelled (pop_mail (w.task id).helper.mailbox id w))
cancel_switch executing id w = done (some err_atomos_task_cannot_cancel_running_task) w
cancel_switch finished id w = done (some err_atomos_task_cannot_cancel_done_task) w

-- The end of `cancelTaskQueue`: the callback is called if the task was cancelled.
after_cancel : ℕ → Verdict → Cmd Verdict
after_cancel id none w = done none (call_back (w.task id).helper.cancel_callback w)
after_cancel id (some e) w = done (some e) w

-- `cancelTaskQueue`: on `mailbox_exit` the caller holds the lock.
pub cancel_task_queue : (mailbox_exit : Bool) → ℕ → Cmd Verdict
unfolding cancel_switch after_cancel
cancel_task_queue mailbox_exit id w =
    and_then
      (if mailbox_exit
        then cancel_switch (w.task id).state id w
        else with_lock (λ v. cancel_switch (v.task id).state id v) w)
      (after_cancel id)

-- `cancelAllSchedulingTasks`, under the lock. Go visits the tasks in any order, the model in the order of
-- `tasks`; that the crontab is stopped does not show in the model. The result starts with a 0 for each task held.
pub cancel_each : List ℕ → Cmd (List ℕ)
unfolding cancel_task_queue
cancel_each [] w = done [] w
cancel_each (id ∷ ids) w =
    and_then (cancel_task_queue true id w)
      λ e v. and_then (cancel_each ids v) λ rest u. done (if is_some e then rest else id ∷ rest) u

zeros : List ℕ → List ℕ
zeros [] = []
zeros (id ∷ ids) = 0 ∷ zeros ids

pub cancel_all_scheduling_tasks : Cmd (List ℕ)
unfolding cancel_each zeros
cancel_all_scheduling_tasks w =
    and_then (cancel_each w.tasks w) λ ids v. done (zeros w.tasks ++ ids) v

-- `HasMarking`
pub marked : (ℕ → Task) → List ℕ → (List ℕ → Bool) → Bool
marked task [] is_mark = false
marked task (id ∷ ids) is_mark = is_mark (task id).helper.mark || marked task ids is_mark

pub has_marking : (is_mark : List ℕ → Bool) → Cmd Bool
unfolding marked
has_marking is_mark = with_lock λ w. done (marked w.task w.tasks is_mark) w
