-- ===== src/Task/Cron.antt =====
-- Crontab tasks: their cancellation, and what the crontab does after a run.
use go_atomos.Common.{
  has-without_self, without, ℕ, ◌≡◌, ◌≢◌, inl, inr, refl, sym, ap, subst, ◌∙◌, true, false, List,
  [], ◌∷◌, arith, ◌==◌, ==→eq, Bool-cases, has, Distinct,
}
use mathlib.Core.Bool.{false≢true}
use go_atomos.Task.{
  Outcome, Manager, scheduling, finished, done, deadlocks, set_state, cancel_task_queue,
  cancel_each, cancel_all_scheduling_tasks, handle_end, delay_add_to_queue, with_lock, Verdict,
  and_then,
}

-- A crontab task that waits for its time.
pub record IsCronTask (id : ℕ) (w : Manager) : Type 0 where
  pub state : (w.task id).state ≡ scheduling
  pub no_timer : (w.task id).timer ≡ false
  pub entry : (w.task id).cron_eid ≢ 0

-- With the lock free, the cancellation of a crontab task that waits for its time blocks for
-- good.
pub cancel_task_queue-cron :
    (id : ℕ) (w : Manager)
    → IsCronTask id w
    → w.locked ≡ false
    → cancel_task_queue false id w ≡ deadlocks
unfolding cancel_task_queue with_lock
cancel_task_queue-cron id w c unlocked = ground arith

abbrev Frames : ℕ → Manager → Outcome Verdict → Type 0
Frames id w deadlocks = Unit {0}
Frames id w (done e v) = (v.task id ≡ w.task id) × (v.locked ≡ w.locked)

-- Cancelling another task leaves this one and the lock as they are.
cancel_task_queue-Frames :
    (id other : ℕ) (w : Manager)
    → (id == other) ≡ false
    → w.locked ≡ true
    → Frames id w (cancel_task_queue true other w)
unfolding cancel_task_queue with_lock
cancel_task_queue-Frames id other w apart locked = ground arith

-- A call made under the lock blocks on the crontab task itself, and another task leaves it waiting.
after_other :
    (id : ℕ) (w : Manager) (o : Outcome Verdict) (next : Verdict → Manager → Outcome (List ℕ))
    → Frames id w o
    → IsCronTask id w
    → w.locked ≡ true
    → ((e : Verdict) (v : Manager) → IsCronTask id v → v.locked ≡ true → next e v ≡ deadlocks)
    → and_then o next ≡ deadlocks
after_other id w deadlocks next f c locked step = refl
after_other id w (done e v) next f c locked step =
    step e v
      (record {
        state = ap (λ t. t.state) f.0 ∙ c.state;
        no_timer = ap (λ t. t.timer) f.0 ∙ c.no_timer;
        entry = λ z. c.entry (sym (ap (λ t. t.cron_eid) f.0) ∙ z);
      })
      (f.1 ∙ locked)

cancel_here-cron :
    (id : ℕ) (w : Manager)
    → IsCronTask id w
    → w.locked ≡ true
    → cancel_task_queue true id w ≡ deadlocks
unfolding cancel_task_queue with_lock
cancel_here-cron id w c locked = ground arith

cancel_each-cron :
    (id : ℕ) (ids : List ℕ) (w : Manager)
    → IsCronTask id w
    → w.locked ≡ true
    → has id ids ≡ true
    → cancel_each ids w ≡ deadlocks
unfolding cancel_each
cancel_each-cron id [] w c locked here = absurd (false≢true here)
cancel_each-cron id (x ∷ xs) w c locked here = elim (Bool-cases (id == x)) [
  | inl same ↦ rw (
      subst (λ k. cancel_task_queue true k w ≡ deadlocks) (==→eq id x same)
        (cancel_here-cron id w c locked))
  | inr apart ↦
      after_other id w (cancel_task_queue true x w) _ (cancel_task_queue-Frames id x w apart locked)
        c locked (λ e v c2 l2. rw (cancel_each-cron id xs v c2 l2 (ground arith)))
]

-- Under the lock, as at the halt, the cancellation of all tasks blocks for good if a task that
-- is held is a crontab task that waits for its time.
pub cancel_all-cron :
    (id : ℕ) (w : Manager)
    → IsCronTask id w
    → w.locked ≡ true
    → has id w.tasks ≡ true
    → cancel_all_scheduling_tasks w ≡ deadlocks
unfolding cancel_all_scheduling_tasks
cancel_all-cron id w c locked held = rw (cancel_each-cron id w.tasks w c locked held)

-- With the lock free, after the end of the run of a task that is held, the next call of the
-- timer or the crontab for it changes nothing.
pub delay_add_to_queue-ended :
    (id : ℕ) (w : Manager)
    → w.locked ≡ false
    → has id w.tasks ≡ true
    → Distinct w.tasks
    → (v : Manager) × (handle_end id w ≡ done tt v) × (delay_add_to_queue id v ≡ done tt v)
unfolding handle_end delay_add_to_queue with_lock
delay_add_to_queue-ended id w unlocked held d = (
  record (set_state id finished w) { tasks = without id w.tasks; locked = false },
  ground arith,
  rw (has-without_self id w.tasks d),
)
