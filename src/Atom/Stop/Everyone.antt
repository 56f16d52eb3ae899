-- ===== src/Atom/Stop/Everyone.antt =====
-- The stop from its guard to its end.
use mathlib.Core.Option
use go_atomos.AtomState.{AtomState, invalid, spawning, waiting, busy, stopping, halt}
use go_atomos.ErrorCode.{ErrorCode, err_framework_recover_from_panic}
use go_atomos.Task.{Outcome, done, deadlocks, cancel_all_scheduling_tasks}
use go_atomos.Task.Returns.{NoCron, Returns, cancel_all-Returns}
use go_atomos.Atom.{
  Atom, Mail, Inner, Holder, Reply, Stopped, no_channel, returns, panics, send_reply, set_stopping,
  with_inner, emit, fatal, stop_recovered, set_halted,
}
use go_atomos.Async.{async_cancel_all}
use go_atomos.Atom.Stop.{
  is_halt, Cancelled, stop_mails, reply_kill, mailbox_on_stop, answer_kill, after_cancel,
  stop_locked, finish, set_lock, note_state,
}
use go_atomos.Atom.Stop.Answers.{
  Received, reply_due, Ends, IsCalm, send_reply-Received, IsTold, IsTold-Keeps, Keeps,
  send_reply-Keeps,
}
use go_atomos.Atom.Stop.Result.{refs, stop_mails-IsTold, stop_mails-Keeps}
use go_atomos.Common.{
  ℕ, ◌≡◌, ◌≢◌, ◌⊎◌, inl, inr, refl, sym, ap, subst, ◌∙◌, true, false, Option, none, some, List, ◌∷◌,
  ◌++◌, ◌==◌, if◌then◌else◌, has,
}

-- The reply to a kill mail.
abbrev pub verdict : Option ErrorCode → Reply
verdict e = record { resp = none; err = e }

-- How a stop of the atom `a` ends: with the error e and the atom b.
abbrev pub Ended : Atom → (kill m : Mail) → Option ErrorCode × Atom → Type 0
Ended a kill m (e, b) =
    (b.state ≡ halt)
    × (b.inner.task.locked ≡ false)
    × IsTold m b
    × (Received kill.ref (verdict e) b
        ⊎ ((e ≡ some err_framework_recover_from_panic) × (b.wait_ch kill.ref ≡ a.wait_ch kill.ref)))

-- A call that comes back, with P.
abbrev pub Back : {A : Type 0} → (A → Type 0) → Option A → Type 0
Back P none = ⊥
Back P (some x) = P x

both-Ends :
    (P Q : Atom → Type 0) (o : Option Cancelled) → Ends P o → Ends Q o → Ends (λ b. P b × Q b) o
both-Ends P Q none e f = e
both-Ends P Q (some (ids, b)) e f = (e.0, (e.1, f.1))

note_state-wait_ch : (s : AtomState) (a : Atom) → (note_state s a).wait_ch ≡ a.wait_ch
unfolding note_state
note_state-wait_ch invalid a = refl
note_state-wait_ch spawning a = refl
note_state-wait_ch waiting a = refl
note_state-wait_ch busy a = refl
note_state-wait_ch stopping a = refl
note_state-wait_ch halt a = refl

note_state-inner : (s : AtomState) (a : Atom) → (note_state s a).inner ≡ a.inner
unfolding note_state
note_state-inner invalid a = refl
note_state-inner spawning a = refl
note_state-inner waiting a = refl
note_state-inner busy a = refl
note_state-inner stopping a = refl
note_state-inner halt a = refl

is_halt-not : (s : AtomState) → s ≢ halt → is_halt s ≡ false
is_halt-not invalid alive = refl
is_halt-not spawning alive = refl
is_halt-not waiting alive = refl
is_halt-not busy alive = refl
is_halt-not stopping alive = refl
is_halt-not halt alive = absurd (alive refl)

module _ (h : Holder) (calm : IsCalm h) (kill m : Mail) where
  halted-IsTold : (b : Atom) → IsTold m b → IsTold m (set_lock false (set_halted none b))
  unfolding set_halted
  halted-IsTold b told =
      IsTold-Keeps m b (set_lock false (set_halted none b)) ((refl, refl), λ x o. inr o) told

  answer_kill-Ended :
      (a b : Atom) (s : Stopped) (i : Inner)
      → (m.ref == kill.ref) ≡ false
      → IsTold m b
      → b.wait_ch kill.ref ≡ a.wait_ch kill.ref
      → a.wait_ch kill.ref ≢ no_channel
      → Ended a kill m (finish h (answer_kill h kill (s, i) b))
  unfolding finish answer_kill
  answer_kill-Ended a b (returns e) i apart told same waits = (
    refl,
    refl,
    halted-IsTold (send_reply kill.ref (verdict e) (with_inner i b)) (
        IsTold-Keeps m b (send_reply kill.ref (verdict e) (with_inner i b))
          (send_reply-Keeps m.ref kill.ref (verdict e) (with_inner i b) apart) told),
    inl (send_reply-Received kill.ref (verdict e) (with_inner i b) (λ z. waits (sym same ∙ z))),
  )
  answer_kill-Ended a b panics i apart told same waits = (
    refl,
    refl,
    halted-IsTold (emit stop_recovered (with_inner i b))
        (IsTold-Keeps m b (emit stop_recovered (with_inner i b)) ((refl, refl), λ x o. inr o) told),
    inr (refl, same),
  )

  reply_kill-Ended :
      (a b : Atom) (ids : List ℕ)
      → kill.exit ≡ true
      → (m.ref == kill.ref) ≡ false
      → IsTold m b
      → b.wait_ch kill.ref ≡ a.wait_ch kill.ref
      → a.wait_ch kill.ref ≢ no_channel
      → Ended a kill m (finish h (reply_kill h kill (ids, b)))
  unfolding reply_kill
  reply_kill-Ended a b ids is_exit apart got same waits =
      subst
        (λ x. Ended a kill m (
          finish h (
            if x
            then answer_kill h kill (h.on_stopping kill.from ids b.inner) b
            else (none, emit fatal b))))
        (sym is_exit)
        (answer_kill-Ended a b (h.on_stopping kill.from ids b.inner).0
          (h.on_stopping kill.from ids b.inner).1 apart got same waits)

  map-Back :
      (a c : Atom) (o : Option Cancelled)
      → kill.exit ≡ true
      → (m.ref == kill.ref) ≡ false
      → a.wait_ch kill.ref ≢ no_channel
      → c.wait_ch ≡ a.wait_ch
      → Ends (λ b. IsTold m b × Keeps kill.ref c b) o
      → Back (Ended a kill m) (Option.map (λ d. finish h (reply_kill h kill d)) o)
  map-Back a c none is_exit apart waits same e = e
  map-Back a c (some (ids, b)) is_exit apart waits same e =
      reply_kill-Ended a b ids is_exit apart e.1.0 (e.1.1.0.0 ∙ ap (λ f. f kill.ref) same) waits

  module _ (before after : List Mail) (a : Atom) (is_exit : kill.exit ≡ true)
      (apart : (m.ref == kill.ref) ≡ false) (not_before : has m.ref (refs before) ≡ false)
      (not_after : has m.ref (refs after) ≡ false)
      (kill_apart : has kill.ref (refs (before ++ m ∷ after)) ≡ false)
      (kill_waits : a.wait_ch kill.ref ≢ no_channel)
      (waits : reply_due m ≡ true → a.wait_ch m.ref ≢ no_channel) where
    after_cancel-Ended :
        (c : Atom) (o : Outcome (List ℕ))
        → c.wait_ch ≡ a.wait_ch
        → Returns o
        → Back (Ended a kill m) (after_cancel h kill (before ++ m ∷ after) c o)
    unfolding after_cancel
    after_cancel-Ended c deadlocks same back = back
    after_cancel-Ended c (done ids w) same back =
        let d = with_inner (record c.inner { task = w }) c in
        let o = stop_mails h (before ++ m ∷ after) (ids, d) in
        map-Back a d o is_exit apart kill_waits same (
          both-Ends (IsTold m) (Keeps kill.ref d) o
            (stop_mails-IsTold h calm before m after ids d not_before not_after
              (λ due z. waits due (sym (ap (λ f. f m.ref) same) ∙ z)) back)
            (stop_mails-Keeps h calm kill.ref (before ++ m ∷ after) ids d kill_apart back))

    stop_locked-Ended :
        (c : Atom)
        → c.wait_ch ≡ a.wait_ch
        → NoCron c.inner.task
        → Back (Ended a kill m) (stop_locked h kill (before ++ m ∷ after) c)
    unfolding stop_locked
    stop_locked-Ended c same none_waits =
        let b = set_stopping (note_state c.state c) in
        after_cancel-Ended b (cancel_all_scheduling_tasks b.inner.task)
          (note_state-wait_ch c.state c ∙ same)
          (cancel_all-Returns b.inner.task
            (subst (λ i. NoCron i.task) (sym (note_state-inner c.state c)) none_waits))

    -- `mailboxOnStop` with an exit mail that has a channel, on an atom that is not halted, whose task lock
    -- is free, with no crontab task that waits, and user code that leaves none: it comes back, the
    -- atom is halted and its task lock free. The sender of each mail that was left, where no other mail
    -- has its address nor that of the exit mail, is told: who waits on a kill, synchronous or wormhole
    -- mail that has a channel finds a reply, that the atom stops, or no error for a further exit mail that
    -- kills; and who has sent an asynchronous mail with an id to be called back is called back with that
    -- error. Whoever waits for the exit mail finds the result of the stop, unless the user's handler of the
    -- stop panicked: then the channel of the exit mail stays as it was.
    pub mailbox_on_stop-Ended :
        a.state ≢ halt
        → a.inner.task.locked ≡ false
        → NoCron a.inner.task
        → Back (Ended a kill m) (mailbox_on_stop h kill (before ++ m ∷ after) a)
    unfolding mailbox_on_stop
    mailbox_on_stop-Ended alive free none_waits =
        let b = with_inner (record a.inner { calls = async_cancel_all a.inner.calls }) a in
        let remain = before ++ m ∷ after in
        subst
          (λ x. Back (Ended a kill m) (
            if x
            then none
            else if is_halt a.state
            then some (none, set_lock false b)
            else stop_locked h kill remain (set_lock true b)))
          (sym free)
          (subst
            (λ x. Back (Ended a kill m) (
              if x
              then some (none, set_lock false b)
              else stop_locked h kill remain (set_lock true b)))
            (sym (is_halt-not a.state alive)) (stop_locked-Ended (set_lock true b) refl none_waits))
