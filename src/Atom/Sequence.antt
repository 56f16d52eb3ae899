-- ===== src/Atom/Sequence.antt =====
-- The mails that an atom receives one after the other.
use mathlib.Core.Option
use go_atomos.AtomState.{waiting}
use mathlib.Core.Bool.{true≢false}
use go_atomos.Async.{on_async_messaging_callback}
use go_atomos.Task.{Manager, Outcome, done, deadlocks, handle_begin, handle_end}
use go_atomos.Atom.{
  fn_callback, async_message_callback, framework_error, message, Message, Atom, Mail, MailType,
  Inner, Holder, Reply, received, no_channel, mail_kill, mail_sync, mail_async,
  mail_on_async_callback, mail_wormhole, mail_task, mail_task_callback, send_reply, with_inner,
  emit, set_busy, set_waiting, handle, handle_task, received_as, mailbox_on_receive, answer,
  call_back, task_begin, task_end, is_waiting,
}
use mathlib.Core.Option.{some-injective, none-ne-some}
use go_atomos.Task.Returns.{Frees, handle_begin-Frees, handle_end-Frees}
use go_atomos.Atom.Stop.Answers.{
  Received, send_reply-trace, Frames, Frames-refl, send_reply-Frames, send_reply-Received,
  send_reply-task,
}
use go_atomos.Atom.Stop.Everyone.{Back}
use go_atomos.Common.{
  ℕ, ◌≡◌, ◌≢◌, inl, inr, refl, sym, ap, subst, ◌∙◌, Bool, true, false, Option, none, some, ◌∷◌,
  ◌==◌, if◌then◌else◌, Bool-cases,
}

-- Between two mails: the atom waits, and the lock of its tasks is free.
pub record IsIdle (a : Atom) : Type 0 where
  pub state : a.state ≡ waiting
  pub current : a.current ≡ none
  pub free : a.inner.task.locked ≡ false

-- User code gives the lock of the tasks back.
pub record LeavesFree (h : Holder) : Type 0 where
  pub sync :
      (m : Mail) (i : Inner)
      → i.task.locked ≡ false
      → (h.on_sync_messaging m i).1.task.locked ≡ false
  pub async :
      (m : Mail) (i : Inner)
      → i.task.locked ≡ false
      → (h.on_async_messaging m i).task.locked ≡ false
  pub wormhole :
      (m : Mail) (i : Inner) → i.task.locked ≡ false → (h.on_wormhole m i).1.task.locked ≡ false
  pub fn_callback :
      (m : Mail) (i : Inner) → i.task.locked ≡ false → (h.on_fn_callback m i).task.locked ≡ false
  pub task_fn : (m : Mail) (i : Inner) → i.task.locked ≡ false → (h.task_fn m i).task.locked ≡ false

-- What a mail's handler gives back to its sender.
abbrev due_by : Holder → MailType → Mail → Inner → Option Reply
due_by h mail_sync m i = some (h.on_sync_messaging m i).0
due_by h mail_wormhole m i = some (record { resp = none; err = (h.on_wormhole m i).0 })
due_by h _ m i = none

-- What a task mail leaves: the function of a closure is called at once, that of a task between the two
-- sections of the task manager, if the first one tells so; otherwise only the manager goes on.
pub record IsRun (h : Holder) (m : Mail) (i j : Inner) : Type 0 where
  pub closure : m.closure ≡ true → j ≡ h.task_fn m i
  pub skipped :
      (w : Manager)
      → m.closure ≡ false
      → handle_begin m.id i.task ≡ done false w
      → j ≡ record i { task = w }
  pub called :
      (w v : Manager)
      → m.closure ≡ false
      → handle_begin m.id i.task ≡ done true w
      → handle_end m.id (h.task_fn m (record i { task = w })).task ≡ done tt v
      → j ≡ record (h.task_fn m (record i { task = w })) { task = v }

-- What the reception of a mail leaves of what user code sees, from i to j.
abbrev Leaves : Holder → MailType → Mail → Inner → Inner → Type 0
Leaves h mail_sync m i j = j ≡ (h.on_sync_messaging m i).1
Leaves h mail_async m i j = j ≡ h.on_async_messaging m i
Leaves h mail_on_async_callback m i j =
    (j.calls ≡ on_async_messaging_callback m.async_id m.arg i.calls) × (j.task ≡ i.task)
Leaves h mail_wormhole m i j = j ≡ (h.on_wormhole m i).1
Leaves h mail_task m i j = IsRun h m i j
Leaves h mail_task_callback m i j = j ≡ h.on_fn_callback m i
Leaves h mail_kill m i j = Unit {0}

abbrev pub LeavesFrom : Holder → Mail → Inner → Inner → Type 0
LeavesFrom h m i j = Leaves h m.mail_type m i j

abbrev pub reply_from : Holder → Mail → Inner → Option Reply
reply_from h m i = due_by h m.mail_type m i

-- The atom b after a has received m.
abbrev pub Handled : Holder → Mail → Atom → Atom → Type 0
Handled h m a b =
    IsIdle b
    × (b.trace ≡ received m.ref ∷ a.trace)
    × LeavesFrom h m a.inner b.inner
    × ((k : ℕ) → (k == m.ref) ≡ false → Frames k a b)
    × ((r : Reply)
        → reply_from h m a.inner ≡ some r
        → a.wait_ch m.ref ≢ no_channel
        → Received m.ref r b)

-- What the handler of a mail leaves: the reply, and the channels of the other mails.
abbrev Kept : Holder → MailType → Mail → Atom → Atom → Type 0
Kept h t m a b =
    IsIdle b
    × (b.trace ≡ a.trace)
    × Leaves h t m a.inner b.inner
    × ((k : ℕ) → (k == m.ref) ≡ false → Frames k a b)
    × ((r : Reply)
        → due_by h t m a.inner ≡ some r
        → a.wait_ch m.ref ≢ no_channel
        → Received m.ref r b)

abbrev manager_of : {A : Type 0} → Manager → Outcome A → Manager
manager_of u deadlocks = u
manager_of u (done x w) = w

abbrev is_told : Outcome Bool → Bool
is_told deadlocks = false
is_told (done b w) = b

-- The function of a task mail was run as it should be, and the lock of the tasks is free.
abbrev Ran : Holder → Mail → Inner → Inner → Type 0
Ran h m i j = (j.task.locked ≡ false) × IsRun h m i j

module _ (h : Holder) (leaves : LeavesFree h) (m : Mail) where
  task_end-Ran :
      (i : Inner) (w : Manager) (o : Outcome (Unit {0}))
      → m.closure ≡ false
      → handle_begin m.id i.task ≡ done true w
      → handle_end m.id (h.task_fn m (record i { task = w })).task ≡ o
      → Frees o
      → Back (Ran h m i) (task_end (h.task_fn m (record i { task = w })) o)
  unfolding task_end
  task_end-Ran i w deadlocks queued begun ended f = f
  task_end-Ran i w (done u v) queued begun ended f =
      let run : Manager → Inner = λ x. h.task_fn m (record i { task = x }) in
      (
        f,
        record {
          closure = λ c. absurd (true≢false (sym c ∙ queued));
          skipped = λ x q e. absurd (true≢false (ap is_told (sym begun ∙ e)));
          called = λ x y q e g.
              let same : w ≡ x = ap (manager_of w) (sym begun ∙ e) in
              let after : v ≡ y =
                ap (manager_of v) (sym ended ∙ ap (λ z. handle_end m.id (run z).task) same ∙ g) in
              ap (λ z. record (run z) { task = v }) same
              ∙ ap (λ z. record (run x) { task = z }) after;
        },
      )

  task_begin-Ran :
      (i : Inner) (o : Outcome Bool)
      → m.closure ≡ false
      → handle_begin m.id i.task ≡ o
      → Frees o
      → Back (Ran h m i) (task_begin h m i o)
  unfolding task_begin
  task_begin-Ran i deadlocks queued begun f = f
  task_begin-Ran i (done false w) queued begun f = (
    f,
    record {
      closure = λ c. absurd (true≢false (sym c ∙ queued));
      skipped = λ x q e. ap (λ z. record i { task = z }) (ap (manager_of w) (sym begun ∙ e));
      called = λ x y q e g. absurd (true≢false (ap is_told (sym e ∙ begun)));
    },
  )
  task_begin-Ran i (done true w) queued begun f =
      let j = h.task_fn m (record i { task = w }) in
      task_end-Ran i w (handle_end m.id j.task) queued begun refl
        (handle_end-Frees m.id j.task (leaves.task_fn m (record i { task = w }) f))

  handle_task-Ran : (i : Inner) → i.task.locked ≡ false → Back (Ran h m i) (handle_task h m i)
  unfolding handle_task
  handle_task-Ran i free = elim (Bool-cases m.closure) [
    | inl c ↦
        subst
          (λ x.
            Back (Ran h m i)
              (if x then some (h.task_fn m i) else task_begin h m i (handle_begin m.id i.task)))
          (sym c)
          (
            leaves.task_fn m i free,
            record {
              closure = λ d. refl;
              skipped = λ w q. absurd (true≢false (sym c ∙ q));
              called = λ w v q. absurd (true≢false (sym c ∙ q));
            },
          )
    | inr c ↦
        subst
          (λ x.
            Back (Ran h m i)
              (if x then some (h.task_fn m i) else task_begin h m i (handle_begin m.id i.task)))
          (sym c)
          (task_begin-Ran i (handle_begin m.id i.task) c refl (handle_begin-Frees m.id i.task free))
  ]

  idle : (b : Atom) → b.inner.task.locked ≡ false → IsIdle (set_waiting b)
  unfolding set_waiting
  idle b free = record { state = refl; current = refl; free = free }

  -- A handler that answers.
  answer-Kept :
      (t : MailType) (a : Atom) (msg : Message) (r : Reply) (i : Inner)
      → due_by h t m a.inner ≡ some r
      → Leaves h t m a.inner i
      → i.task.locked ≡ false
      → Kept h t m a (set_waiting (answer m (r, i) (set_busy msg a)))
  unfolding answer set_waiting set_busy
  answer-Kept t a msg r i due left free =
      let c = with_inner i (set_busy msg a) in
      (
        idle (send_reply m.ref r c) (ap (λ i. i.task.locked) (send_reply-task m.ref r c) ∙ free),
        send_reply-trace m.ref r c,
        subst (Leaves h t m a.inner) (sym (send_reply-task m.ref r c)) left,
        (λ k apart. send_reply-Frames k m.ref r c apart),
        λ r2 d waits.
            subst (λ x. Received m.ref x (send_reply m.ref r c)) (some-injective r r2 (sym due ∙ d))
              (send_reply-Received m.ref r c waits),
      )

  -- A handler that does not.
  inner-Kept :
      (t : MailType) (a : Atom) (msg : Message) (i : Inner)
      → due_by h t m a.inner ≡ none
      → Leaves h t m a.inner i
      → i.task.locked ≡ false
      → Kept h t m a (set_waiting (with_inner i (set_busy msg a)))
  unfolding set_waiting set_busy
  inner-Kept t a msg i due left free = (
    idle (with_inner i (set_busy msg a)) free,
    refl,
    left,
    (λ k apart. Frames-refl k a),
    λ r d w. absurd (none-ne-some r (sym due ∙ d)),
  )

  task-Kept :
      (a : Atom) (msg : Message) (o : Option Inner)
      → Back (Ran h m a.inner) o
      → Back
          (Kept h mail_task m a)
          (Option.map set_waiting (Option.map (λ i. with_inner i (set_busy msg a)) o))
  task-Kept a msg none f = f
  task-Kept a msg (some i) f = inner-Kept mail_task a msg i refl f.1 f.0

  received_as-Kept :
      (t : MailType) (a : Atom)
      → t ≢ mail_kill
      → a.inner.task.locked ≡ false
      → Back (Kept h t m a) (received_as h t m a)
  unfolding received_as handle set_busy call_back
  received_as-Kept mail_kill a other free = absurd (other refl)
  received_as-Kept mail_sync a other free =
      answer-Kept mail_sync a _ (h.on_sync_messaging m a.inner).0 (h.on_sync_messaging m a.inner).1
        refl refl (leaves.sync m a.inner free)
  received_as-Kept mail_async a other free =
      inner-Kept mail_async a (message m.name) (h.on_async_messaging m a.inner) refl refl
        (leaves.async m a.inner free)
  received_as-Kept mail_on_async_callback a other free =
      inner-Kept mail_on_async_callback a (async_message_callback m.name) (call_back m a.inner) refl
        (refl, refl) free
  received_as-Kept mail_wormhole a other free =
      answer-Kept mail_wormhole a _ (record { resp = none; err = (h.on_wormhole m a.inner).0 })
        (h.on_wormhole m a.inner).1 refl refl (leaves.wormhole m a.inner free)
  received_as-Kept mail_task a other free =
      task-Kept a _ (handle_task h m a.inner) (handle_task-Ran a.inner free)
  received_as-Kept mail_task_callback a other free =
      inner-Kept mail_task_callback a (fn_callback m.name) (h.on_fn_callback m a.inner) refl refl
        (leaves.fn_callback m a.inner free)

  -- `mailboxOnReceive` on a mail other than a kill mail, when the atom waits, nobody holds the lock of its
  -- tasks, and user code gives that lock back: it comes back, the atom waits again and tracks no
  -- message, exactly the reception is recorded, the channels of other mails are as they were, and
  -- the sender that waits on a synchronous or wormhole mail finds what the handler returned. What user
  -- code sees of the atom is what the handler of the mail's type has left: for a mail of a callback the
  -- callback under its id was called on its argument; for a closure its function was run; and for a task
  -- its function was run between the two sections of the task manager if the first section said so, and
  -- otherwise not.
  pub mailbox_on_receive_lem :
      (a : Atom)
      → m.mail_type ≢ mail_kill
      → IsIdle a
      → Back (Handled h m a) (mailbox_on_receive h m a)
  unfolding mailbox_on_receive
  mailbox_on_receive_lem a other v =
      subst
        (λ s. Back (Handled h m a) (
          received_as h m.mail_type m
            (emit (received m.ref) (if is_waiting h s then a else emit framework_error a))))
        (sym v.state) (received_as-Kept m.mail_type (emit (received m.ref) a) other v.free)
