-- ===== src/Atom/Examples.antt =====
-- Concrete atoms: one that receives a synchronous mail, and one that is killed with a mail behind.
use go_atomos.AtomState.{AtomState, waiting, halt}
use go_atomos.Task.{Task, finished, plain_fn}
use go_atomos.Atom.{
  Atom, Mail, MailType, Holder, Channel, empty_channel, no_channel, returns, mail_kill, mail_sync,
  mail_async, mailbox_on_receive,
}
use go_atomos.Atom.Stop.{mailbox_on_stop}
use go_atomos.Atom.Stop.Everyone.{Back, Ended, mailbox_on_stop-Ended}
use go_atomos.Atom.Sequence.{LeavesFree, Handled, mailbox_on_receive_lem}
use go_atomos.Common.{ℕ, ◌≢◌, refl, subst, Bool, true, false, none, some, [], ◌∷◌}

abbrev no_task : ℕ → Task
no_task id = record {
  helper = record {
    work = plain_fn 0;
    mark = [];
    delay = 0;
    cron_schedule = none;
    append_to_head = false;
    cancel_callback = none;
    mailbox = 0;
  };
  timer = false;
  cron_eid = 0;
  state = finished;
}

abbrev an_atom : Atom
an_atom = record {
  state = waiting;
  current = none;
  inner = record {
    calls = record {
      async_callback_id = 1;
      async_callback_map = (1, 5) ∷ [];
      async_cleared = false;
      startup_id = 9;
      trace = [];
    };
    task = record {
      cur_id = 0;
      task = no_task;
      tasks = [];
      box = λ b. [];
      box_running = λ b. true;
      locked = false;
      trace = [];
    };
  };
  wait_ch = λ ref. empty_channel;
  mail_reply = λ ref. record { resp = none; err = none };
  stopping_chan = false;
  trace = [];
}

abbrev a_mail : (ref : ℕ) → Bool → MailType → Mail
a_mail r exit t = record {
  ref = r;
  id = 0;
  exit = exit;
  mail_type = t;
  from = 3;
  name = 4;
  arg = 6;
  startup_id = 9;
  async_id = 2;
  closure = false;
}

abbrev a_holder : Holder
a_holder = record {
  on_sync_messaging = λ m i. (record { resp = some m.arg; err = none }, i);
  on_async_messaging = λ m i. i;
  on_wormhole = λ m i. (none, i);
  on_fn_callback = λ m i. i;
  task_fn = λ m i. i;
  on_stopping = λ from cancels i. (returns none, i);
}

leaves : LeavesFree a_holder
leaves = record {
  sync = λ m i f. f;
  async = λ m i f. f;
  wormhole = λ m i f. f;
  fn_callback = λ m i f. f;
  task_fn = λ m i f. f;
}

IsSync : MailType → Type 0
IsSync mail_sync = Unit {0}
IsSync _ = ⊥

not_kill : mail_sync ≢ mail_kill
unfolding IsSync
not_kill e = subst IsSync e tt

IsOpen : Channel → Type 0
IsOpen empty_channel = Unit {0}
IsOpen _ = ⊥

IsUp : AtomState → Type 0
IsUp waiting = Unit {0}
IsUp _ = ⊥

mailbox_on_receive_lem_example :
    Back
      (Handled a_holder (a_mail 1 false mail_sync) an_atom)
      (mailbox_on_receive a_holder (a_mail 1 false mail_sync) an_atom)
mailbox_on_receive_lem_example =
    mailbox_on_receive_lem a_holder leaves (a_mail 1 false mail_sync) an_atom not_kill
      (record { state = refl; current = refl; free = refl })

open_channel : empty_channel ≢ no_channel
unfolding IsOpen
open_channel e = subst IsOpen e tt

not_halted : waiting ≢ halt
unfolding IsUp
not_halted e = subst IsUp e tt

-- The mail that was left is asynchronous; a synchronous one and a further kill are left with it.
mailbox_on_stop-Ended_example :
    Back (Ended an_atom (a_mail 0 true mail_kill) (a_mail 2 false mail_async)) (
      mailbox_on_stop a_holder
        (a_mail 0 true mail_kill)
        (a_mail 1 false mail_sync ∷ a_mail 2 false mail_async ∷ a_mail 3 true mail_kill ∷ [])
        an_atom)
mailbox_on_stop-Ended_example =
    mailbox_on_stop-Ended a_holder (λ m i n. n) (a_mail 0 true mail_kill)
      (a_mail 2 false mail_async) (a_mail 1 false mail_sync ∷ []) (a_mail 3 true mail_kill ∷ [])
      an_atom refl refl refl refl refl open_channel (λ due. open_channel) not_halted refl
      (λ k. refl)
