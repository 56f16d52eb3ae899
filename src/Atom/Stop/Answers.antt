-- ===== src/Atom/Stop/Answers.antt =====
-- Who is answered when an atom stops.
use go_atomos.ErrorCode.{err_atomos_is_stopping}
use go_atomos.Task.{Outcome, done, deadlocks, Verdict, cancel_task_queue}
use go_atomos.Task.Returns.{NoCron, Returns, cancel_task_queue-Returns}
use go_atomos.Atom.{
  Atom, Mail, MailType, Inner, Holder, Reply, no_channel, holds_reply, mail_kill, mail_sync,
  mail_async, mail_on_async_callback, mail_wormhole, mail_task, mail_task_callback, send_reply,
  Event, sent_async_callback, emit,
}
use go_atomos.Atom.Stop.{
  Cancelled, refusal, no_error, stop_mail, cancel_end, cancel_left, left, left_exit, refuse_async,
}
use go_atomos.Common.{
  ℕ, zero, suc, ◌∙◌, [], ◌∷◌, ◌⊎◌, ◌≡◌, ◌≢◌, inl, inr, refl, sym, ap, subst, Bool, true, false,
  Option, none, some, List, arith, ◌==◌, if◌then◌else◌, Bool-cases,
}

-- Whether the sender of a mail that was left is due a reply on the channel of its mail.
abbrev pub due_by : MailType → (exit : Bool) → Bool
due_by mail_kill _ = true
due_by mail_sync false = true
due_by mail_wormhole false = true
due_by _ _ = false

abbrev pub reply_due : Mail → Bool
reply_due m = due_by m.mail_type m.exit

-- The sender that waits on a mail finds this reply.
abbrev pub Received : ℕ → Reply → Atom → Type 0
Received ref r a = (a.wait_ch ref ≡ holds_reply) × (a.mail_reply ref ≡ r)

-- What a step leaves of the channel of another mail.
abbrev pub Frames : ℕ → Atom → Atom → Type 0
Frames k a b = (b.wait_ch k ≡ a.wait_ch k) × (b.mail_reply k ≡ a.mail_reply k)

-- The event stands in the list.
abbrev pub Occurs : Event → List Event → Type 0
Occurs x [] = ⊥
Occurs x (y ∷ ys) = (x ≡ y) ⊎ Occurs x ys

-- A step leaves the channel of another mail alone, and takes back nothing that was sent.
abbrev pub Keeps : ℕ → Atom → Atom → Type 0
Keeps k a b = Frames k a b × ((x : Event) → Occurs x a.trace → Occurs x b.trace)

-- What the sender of an asynchronous mail that was left waits for.
abbrev pub IsCalledBack : (id : ℕ) → Mail → Atom → Type 0
IsCalledBack zero m a = Unit {0}
IsCalledBack (suc n) m a =
    Occurs (sent_async_callback m.from m.startup_id (suc n) err_atomos_is_stopping) a.trace

-- The sender of a mail that was left is told: it finds the reply that is due to its type, or it is called
-- back if it has asked to be.
abbrev pub ToldBy : MailType → (exit : Bool) → Mail → Atom → Type 0
ToldBy mail_kill true m a = Received m.ref no_error a
ToldBy mail_kill false m a = Received m.ref refusal a
ToldBy mail_sync false m a = Received m.ref refusal a
ToldBy mail_wormhole false m a = Received m.ref refusal a
ToldBy mail_async false m a = IsCalledBack m.async_id m a
ToldBy _ _ m a = Unit {0}

abbrev pub IsTold : Mail → Atom → Type 0
IsTold m a = ToldBy m.mail_type m.exit m a

pub send_reply-Received :
    (ref : ℕ) (r : Reply) (a : Atom)
    → a.wait_ch ref ≢ no_channel
    → Received ref r (send_reply ref r a)
unfolding send_reply
send_reply-Received ref r a waits = ground (arith, waits)

pub send_reply-Frames :
    (k ref : ℕ) (r : Reply) (a : Atom) → (k == ref) ≡ false → Frames k a (send_reply ref r a)
unfolding send_reply
send_reply-Frames k ref r a apart = ground arith

-- The outcome of a step over the mails that were left: it comes back, no crontab task waits, and what
-- holds of the atom is P.
abbrev pub Ends : (P : Atom → Type 0) → Option Cancelled → Type 0
Ends P none = ⊥
Ends P (some (ids, a)) = NoCron a.inner.task × P a

-- User code that is called at a stop leaves no crontab task waiting.
abbrev pub IsCalm : Holder → Type 0
IsCalm h = (m : Mail) (i : Inner) → NoCron i.task → NoCron (h.on_fn_callback m i).task

pub Frames-refl : (k : ℕ) (a : Atom) → Frames k a a
Frames-refl k a = (refl, refl)

pub Keeps-refl : (k : ℕ) (a : Atom) → Keeps k a a
Keeps-refl k a = (Frames-refl k a, λ x o. o)

pub Keeps-trans : (k : ℕ) (a b c : Atom) → Keeps k a b → Keeps k b c → Keeps k a c
Keeps-trans k a b c f g = ((g.0.0 ∙ f.0.0, g.0.1 ∙ f.0.1), λ x o. g.1 x (f.1 x o))

pub send_reply-trace : (ref : ℕ) (r : Reply) (a : Atom) → (send_reply ref r a).trace ≡ a.trace
unfolding send_reply
send_reply-trace ref r a = ground arith

pub send_reply-Keeps :
    (k ref : ℕ) (r : Reply) (a : Atom) → (k == ref) ≡ false → Keeps k a (send_reply ref r a)
send_reply-Keeps k ref r a apart =
    (send_reply-Frames k ref r a apart, λ x o. subst (Occurs x) (sym (send_reply-trace ref r a)) o)

IsCalledBack-Keeps :
    (id : ℕ) (m : Mail) (a b : Atom) → Keeps m.ref a b → IsCalledBack id m a → IsCalledBack id m b
IsCalledBack-Keeps zero m a b k t = tt
IsCalledBack-Keeps (suc n) m a b k t =
    k.1 (sent_async_callback m.from m.startup_id (suc n) err_atomos_is_stopping) t

Received-Keeps :
    (ref : ℕ) (r : Reply) (a b : Atom) → Keeps ref a b → Received ref r a → Received ref r b
Received-Keeps ref r a b k got = (k.0.0 ∙ got.0, k.0.1 ∙ got.1)

ToldBy-Keeps :
    (t : MailType) (exit : Bool) (m : Mail) (a b : Atom)
    → Keeps m.ref a b
    → ToldBy t exit m a
    → ToldBy t exit m b
ToldBy-Keeps mail_kill true m a b k told = Received-Keeps m.ref no_error a b k told
ToldBy-Keeps mail_kill false m a b k told = Received-Keeps m.ref refusal a b k told
ToldBy-Keeps mail_sync true m a b k told = told
ToldBy-Keeps mail_sync false m a b k told = Received-Keeps m.ref refusal a b k told
ToldBy-Keeps mail_wormhole true m a b k told = told
ToldBy-Keeps mail_wormhole false m a b k told = Received-Keeps m.ref refusal a b k told
ToldBy-Keeps mail_async true m a b k told = told
ToldBy-Keeps mail_async false m a b k told = IsCalledBack-Keeps m.async_id m a b k told
ToldBy-Keeps mail_on_async_callback exit m a b k told = told
ToldBy-Keeps mail_task exit m a b k told = told
ToldBy-Keeps mail_task_callback exit m a b k told = told

-- Who is told stays told.
pub IsTold-Keeps : (m : Mail) (a b : Atom) → Keeps m.ref a b → IsTold m a → IsTold m b
IsTold-Keeps m a b k told = ToldBy-Keeps m.mail_type m.exit m a b k told

cancel_end-Keeps :
    (k id : ℕ) (c : Cancelled) (o : Outcome Verdict)
    → Returns o
    → Ends (Keeps k c.1) (cancel_end id c o)
unfolding cancel_end
cancel_end-Keeps k id (ids, a) deadlocks r = r
cancel_end-Keeps k id (ids, a) (done none w) r = (r, Keeps-refl k a)
cancel_end-Keeps k id (ids, a) (done (some e) w) r = (r, Keeps-refl k a)

pub cancel_left-Keeps :
    (k : ℕ) (m : Mail) (c : Cancelled)
    → NoCron c.1.inner.task
    → Ends (Keeps k c.1) (cancel_left m c)
unfolding cancel_left
cancel_left-Keeps k m (ids, a) none_waits = elim (Bool-cases m.closure) [
  | inl closed ↦
      subst
        (λ b. Ends (Keeps k a) (
          if b
          then some (ids, a)
          else cancel_end m.id (ids, a) (cancel_task_queue true m.id a.inner.task)))
        (sym closed) (none_waits, Keeps-refl k a)
  | inr queued ↦
      subst
        (λ b. Ends (Keeps k a) (
          if b
          then some (ids, a)
          else cancel_end m.id (ids, a) (cancel_task_queue true m.id a.inner.task)))
        (sym queued)
        (cancel_end-Keeps k m.id (ids, a) (cancel_task_queue true m.id a.inner.task)
          (cancel_task_queue-Returns m.id a.inner.task none_waits))
]

pub send_reply-task : (ref : ℕ) (r : Reply) (a : Atom) → (send_reply ref r a).inner ≡ a.inner
unfolding send_reply
send_reply-task ref r a = ground arith

-- The atom after a step that does not touch its tasks.
inner-NoCron : (a b : Atom) → b.inner ≡ a.inner → NoCron a.inner.task → NoCron b.inner.task
inner-NoCron a b same n = subst (λ i. NoCron i.task) (sym same) n

refuse_async-same :
    (m : Mail) (a : Atom)
    → ((refuse_async m a).inner ≡ a.inner)
      × ((refuse_async m a).wait_ch ≡ a.wait_ch)
      × ((refuse_async m a).mail_reply ≡ a.mail_reply)
unfolding refuse_async
refuse_async-same m a = ground arith

refuse_async-Keeps : (k : ℕ) (m : Mail) (a : Atom) → Keeps k a (refuse_async m a)
unfolding refuse_async
refuse_async-Keeps k m a = elim (Bool-cases (m.async_id == 0)) [
  | inl e ↦ rw e (Keeps-refl k a)
  | inr e ↦ rw e ((refl, refl), λ x o. inr o)
]

refuse_async-IsCalledBack :
    (id : ℕ) (m : Mail) (a : Atom) → m.async_id ≡ id → IsCalledBack id m (refuse_async m a)
unfolding refuse_async
refuse_async-IsCalledBack zero m a e = tt
refuse_async-IsCalledBack (suc n) m a e =
    let asked : (m.async_id == 0) ≡ false = ground (arith, e) in
    let told : IsCalledBack (suc n) m
        (emit (sent_async_callback m.from m.startup_id m.async_id err_atomos_is_stopping) a) =
      inl (ap (λ i. sent_async_callback m.from m.startup_id i err_atomos_is_stopping) (sym e)) in
    subst
      (λ b. IsCalledBack (suc n) m (
        if b
        then a
        else emit (sent_async_callback m.from m.startup_id m.async_id err_atomos_is_stopping) a))
      (sym asked) told

module _ (h : Holder) (calm : IsCalm h) where
  left-Keeps :
      (t : MailType) (k : ℕ) (m : Mail) (ids : List ℕ) (a : Atom)
      → (k == m.ref) ≡ false
      → NoCron a.inner.task
      → Ends (Keeps k a) (left h t m (ids, a))
  unfolding left
  left-Keeps mail_kill k m ids a apart n = (
    inner-NoCron a (send_reply m.ref refusal a) (send_reply-task m.ref refusal a) n,
    send_reply-Keeps k m.ref refusal a apart,
  )
  left-Keeps mail_sync k m ids a apart n = (
    inner-NoCron a (send_reply m.ref refusal a) (send_reply-task m.ref refusal a) n,
    send_reply-Keeps k m.ref refusal a apart,
  )
  left-Keeps mail_wormhole k m ids a apart n = (
    inner-NoCron a (send_reply m.ref refusal a) (send_reply-task m.ref refusal a) n,
    send_reply-Keeps k m.ref refusal a apart,
  )
  left-Keeps mail_async k m ids a apart n =
      (inner-NoCron a (refuse_async m a) (refuse_async-same m a).0 n, refuse_async-Keeps k m a)
  left-Keeps mail_on_async_callback k m ids a apart n = (n, Keeps-refl k a)
  left-Keeps mail_task k m ids a apart n = cancel_left-Keeps k m (ids, a) n
  left-Keeps mail_task_callback k m ids a apart n = (calm m a.inner n, Keeps-refl k a)

  left_exit-Keeps :
      (t : MailType) (k : ℕ) (m : Mail) (ids : List ℕ) (a : Atom)
      → (k == m.ref) ≡ false
      → NoCron a.inner.task
      → Ends (Keeps k a) (left_exit h t m (ids, a))
  unfolding left_exit
  left_exit-Keeps mail_kill k m ids a apart n = (
    inner-NoCron a (send_reply m.ref no_error a) (send_reply-task m.ref no_error a) n,
    send_reply-Keeps k m.ref no_error a apart,
  )
  left_exit-Keeps mail_sync k m ids a apart n = (n, Keeps-refl k a)
  left_exit-Keeps mail_async k m ids a apart n = (n, Keeps-refl k a)
  left_exit-Keeps mail_on_async_callback k m ids a apart n = (n, Keeps-refl k a)
  left_exit-Keeps mail_wormhole k m ids a apart n = (n, Keeps-refl k a)
  left_exit-Keeps mail_task k m ids a apart n = (n, Keeps-refl k a)
  left_exit-Keeps mail_task_callback k m ids a apart n = (n, Keeps-refl k a)

  -- A property of both branches of a step holds of the step.
  pub stop_mail-split :
      (P : Option Cancelled → Type 0) (m : Mail) (c : Cancelled)
      → (m.exit ≡ true → P (left_exit h m.mail_type m c))
      → (m.exit ≡ false → P (left h m.mail_type m c))
      → P (stop_mail h m c)
  unfolding stop_mail
  stop_mail-split P m c on_exit on_other = elim (Bool-cases m.exit) [
    | inl e ↦
        subst (λ b. P (if b then left_exit h m.mail_type m c else left h m.mail_type m c)) (sym e)
          (on_exit e)
    | inr e ↦
        subst (λ b. P (if b then left_exit h m.mail_type m c else left h m.mail_type m c)) (sym e)
          (on_other e)
  ]

  pub stop_mail-Keeps :
      (k : ℕ) (m : Mail) (ids : List ℕ) (a : Atom)
      → (k == m.ref) ≡ false
      → NoCron a.inner.task
      → Ends (Keeps k a) (stop_mail h m (ids, a))
  stop_mail-Keeps k m ids a apart n =
      stop_mail-split (Ends (Keeps k a)) m (ids, a)
        (λ e. left_exit-Keeps m.mail_type k m ids a apart n)
        (λ e. left-Keeps m.mail_type k m ids a apart n)

  pub reply-Ends :
      (m : Mail) (r : Reply) (a : Atom) (ids : List ℕ)
      → a.wait_ch m.ref ≢ no_channel
      → NoCron a.inner.task
      → Ends (Received m.ref r) (some (ids, send_reply m.ref r a))
  reply-Ends m r a ids waits n = (
    inner-NoCron a (send_reply m.ref r a) (send_reply-task m.ref r a) n,
    send_reply-Received m.ref r a waits,
  )

  pub refused-Ends :
      (m : Mail) (ids : List ℕ) (a : Atom)
      → NoCron a.inner.task
      → Ends (IsCalledBack m.async_id m) (some (ids, refuse_async m a))
  refused-Ends m ids a n = (
    inner-NoCron a (refuse_async m a) (refuse_async-same m a).0 n,
    refuse_async-IsCalledBack m.async_id m a refl,
  )
