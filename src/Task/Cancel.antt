-- ===== src/Task/Cancel.antt =====
-- What `cancelTaskQueue` does to a task that waits, for a timer or in a mailbox.
use go_atomos.Common.{
  without, ℕ, ◌≡◌, refl, Bool, true, false, Option, none, some, List, [], ◌∷◌, arith, ◌==◌,
  if◌then◌else◌, has,
}
use mathlib.Core.Bool.{false≢true}
use go_atomos.Task.{
  Manager, Task, Event, scheduling, cancelled, mailing, done, callback_called, timer_stopped,
  mail_released, set_state, cancel_task_queue, handle_begin, has_marking, marked, with_lock,
  put_task,
}

-- A task whose state is `cancelled`, with the lock free, and which `handleTaskQueue` skips.
pub record IsCancelled (id : ℕ) (w : Manager) : Type 0 where
  pub state : (w.task id).state ≡ cancelled
  pub unlocked : w.locked ≡ false
  pub skipped : handle_begin id w ≡ done false w

-- What the cancelled task leaves behind.
left : ℕ → Manager → List ℕ → (ℕ → List ℕ) → List Event → Manager
left id w tasks box events =
    set_state id cancelled (record w { tasks = tasks; box = box; locked = false; trace = events })

abbrev after : Option ℕ → List Event → List Event
after none es = es
after (some f) es = callback_called f ∷ es

left-IsCancelled :
    (id : ℕ) (w : Manager) (tasks : List ℕ) (box : ℕ → List ℕ) (events : List Event)
    → IsCancelled id (left id w tasks box events)
unfolding left handle_begin with_lock
left-IsCancelled id w tasks box events = record {
  state = ground arith;
  unlocked = refl;
  skipped = ground arith;
}

-- With the lock free, cancelling a held task that waits for its timer and has no mail in its
-- mailbox returns no error: the task is cancelled and skipped from then on, it is not held any
-- more, its timer is stopped, its mail released, and then its callback, if it has one, is
-- called.
pub cancel-timer :
    (id : ℕ) (w : Manager)
    → w.locked ≡ false
    → (w.task id).state ≡ scheduling
    → (w.task id).timer ≡ true
    → has id w.tasks ≡ true
    → has id (w.box (w.task id).helper.mailbox) ≡ false
    → (v : Manager) × (cancel_task_queue false id w ≡ done none v)
      × IsCancelled id v
      × (v.tasks ≡ without id w.tasks)
      × (v.box ≡ w.box)
      × (v.trace
          ≡ after
              (w.task id).helper.cancel_callback
              (mail_released id ∷ timer_stopped id ∷ w.trace))
unfolding cancel_task_queue with_lock left
cancel-timer id w unlocked state timer held out =
    let es =
      after (w.task id).helper.cancel_callback (mail_released id ∷ timer_stopped id ∷ w.trace) in
    (
      left id w (without id w.tasks) w.box es,
      ground arith,
      left-IsCancelled id w (without id w.tasks) w.box es,
      refl,
      refl,
      refl,
    )

-- A cancelled task that is still held counts for `HasMarking`.
marked-cancelled :
    (id : ℕ) (task : ℕ → Task) (ids : List ℕ) (is_mark : List ℕ → Bool)
    → is_mark (task id).helper.mark ≡ true
    → has id ids ≡ true
    → marked (put_task task id (record (task id) { state = cancelled })) ids is_mark ≡ true
unfolding marked
marked-cancelled id task [] is_mark mark held = absurd (false≢true held)
marked-cancelled id task (x ∷ xs) is_mark mark held =
    ground (arith, marked-cancelled id task xs is_mark mark)

-- With the lock free, cancelling a held task whose mail waits returns no error: the task is
-- cancelled and skipped from then on, its mail is taken back and released, and its callback,
-- if it has one, is called; but the task is still held, and a mark that it has is still found
-- by `HasMarking`.
pub cancel-mailing :
    (id : ℕ) (w : Manager) (is_mark : List ℕ → Bool)
    → w.locked ≡ false
    → (w.task id).state ≡ mailing
    → has id w.tasks ≡ true
    → has id (w.box (w.task id).helper.mailbox) ≡ true
    → is_mark (w.task id).helper.mark ≡ true
    → (v : Manager) × (cancel_task_queue false id w ≡ done none v)
      × IsCancelled id v
      × (v.box (w.task id).helper.mailbox ≡ without id (w.box (w.task id).helper.mailbox))
      × (v.trace ≡ after (w.task id).helper.cancel_callback (mail_released id ∷ w.trace))
      × (v.tasks ≡ w.tasks)
      × (has_marking is_mark v ≡ done true v)
unfolding cancel_task_queue with_lock left has_marking
cancel-mailing id w is_mark unlocked state held inside mark =
    let b = (w.task id).helper.mailbox in
    let es = after (w.task id).helper.cancel_callback (mail_released id ∷ w.trace) in
    let box : ℕ → List ℕ = λ k. if k == b then without id (w.box b) else w.box k in
    (
      left id w w.tasks box es,
      ground arith,
      left-IsCancelled id w w.tasks box es,
      ground arith,
      refl,
      refl,
      rw (marked-cancelled id w.task w.tasks is_mark mark held),
    )
