-- ===== src/Atom.antt =====
-- base_atomos.go, base_atomos_mails.go: the life of an atom on its mailbox goroutine: its start, the mails
-- that it receives, and its stop. A mail, a message and the sender's id are numbers; `Mail.ref` is the
-- address of a `baseAtomosMail`, whose channel and reply are kept in the atom by that address, since the
-- sender reads them through the same pointer. User code is the `Holder`: it answers, and may change the
-- atom's callbacks and tasks. A panic of a message or task function ends in the holder's own recover.
pub mod Stop
pub mod Sequence
pub mod Examples
use mathlib.Core.Option
use go_atomos.AtomState.{AtomState, waiting, busy, stopping, halt, spawning}
use go_atomos.ErrorCode.{ErrorCode}
use go_atomos.Async.{Calls, on_async_messaging_callback}
use go_atomos.Task.{Manager, Outcome, done, deadlocks, handle_begin, handle_end}
use go_atomos.Common.{
  ℕ, zero, suc, ◌+◌, ◌-◌, ◌*◌, ◌/◌, ◌%◌, ◌≤◌, ◌<◌, ◌≡◌, ◌≢◌, ◌↔◌, ◌⊎◌, inl, inr, refl, sym, ap,
  subst, ◌∙◌, Bool, true, false, not, ◌&&◌, ◌||◌, Option, none, some, List, [], ◌∷◌, ◌++◌, map,
  arith, ltb, leb, ◌==◌, if◌then◌else◌, ==→eq, ==_refl, ==_ne, Bool-cases, Option-cases, is_some,
  length, length-append, last_or, last_or-append, find, erase_first, has, Distinct, has-append,
  Distinct-snoc, without, has-without_self, has-without_ne, has-erase_first, erase_first-Distinct,
}

pub data MailType : Type 0 where
  mail_kill mail_sync mail_async mail_on_async_callback : MailType
  mail_wormhole mail_task mail_task_callback : MailType

-- `exit` tells a mail that carries a `mailExitCommand`, and `closure` one that carries a `taskClosure`.
pub record Mail : Type 0 where
  pub ref : ℕ
  pub id : ℕ
  pub exit : Bool
  pub mail_type : MailType
  pub from : ℕ
  pub name : ℕ
  pub arg : ℕ
  pub startup_id : ℕ
  pub async_id : ℕ
  pub closure : Bool

-- `mailReply`
pub record Reply : Type 0 where
  pub resp : Option ℕ
  pub err : Option ErrorCode

-- `waitCh`, which has room for one pointer, always to the mail's own `mailReply`.
pub data Channel : Type 0 where
  no_channel empty_channel holds_reply : Channel

-- The name under which a message is tracked.
pub data Message : Type 0 where
  message async_message_callback task_message fn_callback : ℕ → Message
  accept_wormhole : Message

pub data Event : Type 0 where
  id_spawning id_spawn id_stopping : Event
  id_halted : Option ErrorCode → Event
  received : (ref : ℕ) → Event
  sent_async_callback : (to_id startup_id async_id : ℕ) → ErrorCode → Event
  framework_error fatal stop_recovered : Event

-- What user code may change from inside: `a.asyncCallbackMap` and the rest, and `a.task`.
pub record Inner : Type 0 where
  pub calls : Calls
  pub task : Manager

pub record Atom : Type 0 where
  pub state : AtomState
  pub current : Option Message
  pub inner : Inner
  pub wait_ch : ℕ → Channel
  pub mail_reply : ℕ → Reply
  pub stopping_chan : Bool
  pub trace : List Event

-- How `OnStopping` ends.
pub data Stopped : Type 0 where
  returns : Option ErrorCode → Stopped
  panics : Stopped

-- `BaseAtomosHolder`, with the functions of tasks.
pub record Holder : Type 0 where
  pub on_sync_messaging : Mail → Inner → Reply × Inner
  pub on_async_messaging : Mail → Inner → Inner
  pub on_wormhole : Mail → Inner → Option ErrorCode × Inner
  pub on_fn_callback : Mail → Inner → Inner
  pub task_fn : Mail → Inner → Inner
  pub on_stopping : (from : ℕ) (cancels : List ℕ) → Inner → Stopped × Inner

abbrev pub emit : Event → Atom → Atom
emit e a = record a { trace = e ∷ a.trace }

abbrev pub with_inner : Inner → Atom → Atom
with_inner i a = record a { inner = i }

abbrev put_reply : ℕ → Reply → (ℕ → Reply) → ℕ → Reply
put_reply ref r replies k = if k == ref then r else replies k

abbrev put_channel : ℕ → (ℕ → Channel) → ℕ → Channel
put_channel ref channels k = if k == ref then holds_reply else channels k

send_on : Channel → ℕ → Reply → Atom → Atom
send_on no_channel ref r a = a
send_on _ ref r a = record a {
  wait_ch = put_channel ref a.wait_ch;
  mail_reply = put_reply ref r a.mail_reply;
}

-- `sendReply`: it never blocks, and writes the mail's reply also if the channel is full.
unfoldable pub send_reply : ℕ → Reply → Atom → Atom
unfolding send_on
send_reply ref r a = send_on (a.wait_ch ref) ref r a

-- `setSpawning`, `setSpawn`, `setBusy`, `setWaiting`, `setStopping`, `setHalted`
unfoldable pub set_spawning : Atom → Atom
set_spawning a = emit id_spawning (record a { state = spawning })

unfoldable pub set_spawn : Atom → Atom
set_spawn a = emit id_spawn (record a { state = waiting })

unfoldable pub set_busy : Message → Atom → Atom
set_busy msg a = record a { state = busy; current = some msg }

unfoldable pub set_waiting : Atom → Atom
set_waiting a = record a { state = waiting; current = none }

unfoldable pub set_stopping : Atom → Atom
set_stopping a = emit id_stopping (record a { state = stopping })

unfoldable pub set_halted : Option ErrorCode → Atom → Atom
set_halted e a = record (emit (id_halted e) (record a { state = halt })) { stopping_chan = true }

start_with : Option ErrorCode × Inner → Atom → Option ErrorCode × Atom
unfolding set_halted set_spawn
start_with (none, i) a = (none, set_spawn (with_inner i a))
start_with (some e, i) a = (some e, set_halted (some e) (with_inner i a))

-- `mailboxOnStartUp`, with the function that the mailbox is started with.
unfoldable pub mailbox_on_start_up :
    (Inner → Option ErrorCode × Inner) → Atom → Option ErrorCode × Atom
unfolding set_spawning start_with
mailbox_on_start_up fn a = let b = set_spawning a in start_with (fn b.inner) b

-- The end of `handleTaskQueue`; none: the goroutine blocks for good.
task_end : Inner → Outcome (Unit {0}) → Option Inner
task_end i deadlocks = none
task_end i (done u w) = some (record i { task = w })

task_begin : Holder → Mail → Inner → Outcome Bool → Option Inner
unfolding task_end
task_begin h m i deadlocks = none
task_begin h m i (done false w) = some (record i { task = w })
task_begin h m i (done true w) =
    let j = h.task_fn m (record i { task = w }) in task_end j (handle_end m.id j.task)

-- `handleTask`
pub handle_task : Holder → Mail → Inner → Option Inner
unfolding task_begin
handle_task h m i =
    if m.closure then some (h.task_fn m i) else task_begin h m i (handle_begin m.id i.task)

answer : Mail → Reply × Inner → Atom → Atom
unfolding send_reply
answer m (r, i) a = send_reply m.ref r (with_inner i a)

call_back : Mail → Inner → Inner
call_back m i = record i { calls = on_async_messaging_callback m.async_id m.arg i.calls }

module _ (h : Holder) where
  -- The handler of a mail, while the atom is busy; a kill mail has none.
  handle : MailType → Mail → Atom → Option Atom
  unfolding answer call_back
  handle mail_sync m a = some (answer m (h.on_sync_messaging m a.inner) a)
  handle mail_async m a = some (with_inner (h.on_async_messaging m a.inner) a)
  handle mail_on_async_callback m a = some (with_inner (call_back m a.inner) a)
  handle mail_task m a = Option.map (λ i. with_inner i a) (handle_task h m a.inner)
  handle mail_wormhole m a =
      let (e, i) = h.on_wormhole m a.inner in some (answer m (record { resp = none; err = e }, i) a)
  handle mail_task_callback m a = some (with_inner (h.on_fn_callback m a.inner) a)
  handle mail_kill m a = some a

  tracked_as : MailType → Mail → Message
  tracked_as mail_on_async_callback m = async_message_callback m.name
  tracked_as mail_task m = task_message m.name
  tracked_as mail_wormhole m = accept_wormhole
  tracked_as mail_task_callback m = fn_callback m.name
  tracked_as _ m = message m.name

  received_as : MailType → Mail → Atom → Option Atom
  unfolding handle tracked_as set_busy set_waiting
  received_as mail_kill m a = some (emit fatal a)
  received_as t m a = Option.map set_waiting (handle t m (set_busy (tracked_as t m) a))

  is_waiting : AtomState → Bool
  is_waiting waiting = true
  is_waiting _ = false

  -- `mailboxOnReceive`
  pub mailbox_on_receive : Mail → Atom → Option Atom
  unfolding received_as is_waiting
  mailbox_on_receive m a =
      received_as m.mail_type m
        (emit (received m.ref) (if is_waiting a.state then a else emit framework_error a))
