-- ===== src/Atom/Stop.antt =====
-- `mailboxOnStop` of base_atomos.go: what the loop of the mailbox calls with the exit mail and the mails
-- that were left behind it. Go's result `err` is nil until the handler of the stop has returned.
pub mod Answers
pub mod Result
pub mod Everyone
use mathlib.Core.Option
use go_atomos.AtomState.{AtomState, invalid, spawning, waiting, busy, stopping, halt}
use go_atomos.ErrorCode.{ErrorCode, err_atomos_is_stopping, err_framework_recover_from_panic}
use go_atomos.Async.{async_cancel_all}
use go_atomos.Task.{
  Manager, Outcome, Verdict, done, deadlocks, cancel_task_queue, cancel_all_scheduling_tasks,
}
use go_atomos.Atom.{
  Atom, Mail, MailType, Inner, Holder, Reply, Stopped, returns, panics, emit, with_inner, mail_kill,
  mail_sync, mail_async, mail_on_async_callback, mail_wormhole, mail_task, mail_task_callback,
  sent_async_callback, fatal, framework_error, stop_recovered, send_reply, set_stopping, set_halted,
}
use go_atomos.Common.{
  ℕ, zero, suc, ◌+◌, ◌-◌, ◌*◌, ◌/◌, ◌%◌, ◌≤◌, ◌<◌, ◌≡◌, ◌≢◌, ◌↔◌, ◌⊎◌, inl, inr, refl, sym, ap,
  subst, ◌∙◌, Bool, true, false, not, ◌&&◌, ◌||◌, Option, none, some, List, [], ◌∷◌, ◌++◌, map,
  arith, ltb, leb, ◌==◌, if◌then◌else◌, ==→eq, ==_refl, ==_ne, Bool-cases, Option-cases, is_some,
  length, length-append, last_or, last_or-append, find, erase_first, has, Distinct, has-append,
  Distinct-snoc, without, has-without_self, has-without_ne, has-erase_first, erase_first-Distinct,
}

-- `stopLock` and `stopUnlock`, once the lock is free.
abbrev pub set_lock : Bool → Atom → Atom
set_lock b a = with_inner (record a.inner { task = record a.inner.task { locked = b } }) a

-- The framework errors that a stop logs in some states.
note_state : AtomState → Atom → Atom
note_state spawning a = emit framework_error a
note_state busy a = emit framework_error a
note_state stopping a = emit framework_error a
note_state _ a = a

abbrev pub is_halt : AtomState → Bool
is_halt halt = true
is_halt _ = false

abbrev pub refusal : Reply
refusal = record { resp = none; err = some err_atomos_is_stopping }

abbrev pub no_error : Reply
no_error = record { resp = none; err = none }

-- The tasks that have been cancelled, and the atom.
abbrev pub Cancelled : Type 0
Cancelled = List ℕ × Atom

-- The end of a cancellation: `cancels` grows if it has no error.
cancel_end : ℕ → Cancelled → Outcome Verdict → Option Cancelled
cancel_end id (ids, a) deadlocks = none
cancel_end id (ids, a) (done none w) =
    some (ids ++ id ∷ [], with_inner (record a.inner { task = w }) a)
cancel_end id (ids, a) (done (some e) w) = some (ids, with_inner (record a.inner { task = w }) a)

-- `cancelTask` on a task mail that was left. A closure has no entry among the tasks, and its mail is out
-- of the mailbox already, so that its cancellation fails with no further effect.
pub cancel_left : Mail → Cancelled → Option Cancelled
unfolding cancel_end
cancel_left m (ids, a) =
    if m.closure
    then some (ids, a)
    else cancel_end m.id (ids, a) (cancel_task_queue true m.id a.inner.task)

-- An asynchronous message is called back with the error, if somebody waits for it.
unfoldable pub refuse_async : Mail → Atom → Atom
refuse_async m a =
    if m.async_id == 0
    then a
    else emit (sent_async_callback m.from m.startup_id m.async_id err_atomos_is_stopping) a

module _ (h : Holder) where
  -- A mail that was left, by its type.
  pub left : MailType → Mail → Cancelled → Option Cancelled
  unfolding cancel_left refuse_async
  left mail_kill m (ids, a) = some (ids, send_reply m.ref refusal a)
  left mail_sync m (ids, a) = some (ids, send_reply m.ref refusal a)
  left mail_async m (ids, a) = some (ids, refuse_async m a)
  left mail_on_async_callback m (ids, a) = some (ids, a)
  left mail_task m (ids, a) = cancel_left m (ids, a)
  left mail_wormhole m (ids, a) = some (ids, send_reply m.ref refusal a)
  left mail_task_callback m (ids, a) = some (ids, with_inner (h.on_fn_callback m a.inner) a)

  -- A further exit mail: only a kill mail is answered, and without an error.
  pub left_exit : MailType → Mail → Cancelled → Option Cancelled
  left_exit mail_kill m (ids, a) = some (ids, send_reply m.ref no_error a)
  left_exit _ m (ids, a) = some (ids, a)

  -- One round of the loop over the mails that were left.
  unfoldable pub stop_mail : Mail → Cancelled → Option Cancelled
  unfolding left left_exit
  stop_mail m c = if m.exit then left_exit m.mail_type m c else left m.mail_type m c

  unfoldable pub stop_mails : List Mail → Cancelled → Option Cancelled
  stop_mails [] c = some c
  stop_mails (m ∷ ms) c = elim (stop_mail m c) [ none ↦ none | some d ↦ stop_mails ms d ]

  -- The deferred calls: `setHalted` has taken its argument when it was deferred, then `stopUnlock`.
  finish : Option ErrorCode × Atom → Option ErrorCode × Atom
  unfolding set_halted
  finish (e, a) = (e, set_lock false (set_halted none a))

  -- How the stop ends with the answer to the kill, or with the recover from a panic.
  answer_kill : Mail → Stopped × Inner → Atom → Option ErrorCode × Atom
  answer_kill kill (returns e, i) a =
      (e, send_reply kill.ref (record { resp = none; err = e }) (with_inner i a))
  answer_kill kill (panics, i) a =
      (some err_framework_recover_from_panic, emit stop_recovered (with_inner i a))

  unfoldable pub reply_kill : Mail → Cancelled → Option ErrorCode × Atom
  unfolding answer_kill
  reply_kill kill (ids, a) =
      if kill.exit
      then answer_kill kill (h.on_stopping kill.from ids a.inner) a
      else (none, emit fatal a)

  -- After the tasks have been cancelled.
  unfoldable pub after_cancel :
      Mail → List Mail → Atom → Outcome (List ℕ) → Option (Option ErrorCode × Atom)
  unfolding finish
  after_cancel kill remain a deadlocks = none
  after_cancel kill remain a (done ids w) =
      Option.map (λ c. finish (reply_kill kill c))
        (stop_mails remain (ids, with_inner (record a.inner { task = w }) a))

  -- The stop of an atom that is not halted, under the lock of its tasks.
  unfoldable pub stop_locked : Mail → List Mail → Atom → Option (Option ErrorCode × Atom)
  unfolding after_cancel note_state set_stopping
  stop_locked kill remain a =
      let b = set_stopping (note_state a.state a) in
      after_cancel kill remain b (cancel_all_scheduling_tasks b.inner.task)

  -- `mailboxOnStop`; none: the goroutine blocks for good.
  unfoldable pub mailbox_on_stop : Mail → List Mail → Atom → Option (Option ErrorCode × Atom)
  mailbox_on_stop kill remain a =
      let b = with_inner (record a.inner { calls = async_cancel_all a.inner.calls }) a in
      if b.inner.task.locked
      then none
      else if is_halt b.state
      then some (none, set_lock false b)
      else stop_locked kill remain (set_lock true b)
