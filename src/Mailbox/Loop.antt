-- ===== src/Mailbox/Loop.antt =====
-- The goroutine of mail.go: `loop` delivers the mails in order and stops at an exit mail.
use go_atomos.Common.{
  ℕ, zero, suc, ◌<◌, ◌≡◌, ◌≢◌, refl, false, Option, none, some, List, [], ◌∷◌, ◌++◌, map, arith,
  length,
}
use go_atomos.Mailbox.{
  Ptr, nil, Mail, State, Payload, plain, message, exit_command, done, exit_branch, run_on_done,
  Handler, received, stopped, loop_round, run_loop,
}
use go_atomos.Mailbox.Queue.{IsBox, Kept}
use go_atomos.Mailbox.Pop.{wait_pop_lem}
use go_atomos.Mailbox.Release.{AllMode, release_loop-plain}

abbrev IsMessage : Payload → Type 0
IsMessage p = (x : ℕ) × (p ≡ message x)

-- A handler that leaves the mailbox and its mails alone: every push of its own comes later.
pub record IsQuiet (h : Handler) : Type 0 where
  pub receive : (m : Ptr) (σ : State) → h.on_receive m σ ≡ σ
  pub stop : (k ms : Ptr) (n : ℕ) (σ : State) → h.on_stop k ms n σ ≡ σ
  pub finish : (f : ℕ) (σ : State) → h.on_done f σ ≡ σ

abbrev AllMessages : (Ptr → Mail) → List Ptr → Type 0
AllMessages mail [] = Unit {0}
AllMessages mail (p ∷ ps) = ((x : ℕ) × ((mail p).payload ≡ message x)) × AllMessages mail ps

receive_round :
    (h : Handler) (σ : State) (p : Ptr) (ps : List Ptr) (x : ℕ)
    → IsQuiet h
    → IsBox σ (p ∷ ps)
    → (σ.mail p).payload ≡ message x
    → (σ.mail p).alloc_mode ≡ plain
    → (τ : State) × (loop_round h σ ≡ done (received p) τ) × IsBox τ ps × Kept σ τ
unfolding loop_round
receive_round h σ p ps x q b is mode =
    let (τ, run, box, kept, loose) = wait_pop_lem σ p ps b in
    (τ, rw run (ground (arith, q.receive p τ, kept.mails p, b.chain)), box, kept)

abbrev first_or : Ptr → List Ptr → Ptr
first_or d [] = d
first_or d (p ∷ ps) = p

AllMode-Kept :
    (σ τ : State) (ps : List Ptr) → Kept σ τ → AllMode plain σ.mail ps → AllMode plain τ.mail ps
AllMode-Kept σ τ [] k m = tt
AllMode-Kept σ τ (p ∷ ps) k m = (ground (arith, k.mails p, m.0), AllMode-Kept σ τ ps k m.1)

AllMessages-Kept :
    (σ τ : State) (ps : List Ptr) → Kept σ τ → AllMessages σ.mail ps → AllMessages τ.mail ps
AllMessages-Kept σ τ [] k m = tt
AllMessages-Kept σ τ (p ∷ ps) k m =
    ((m.0.0, ground (arith, k.mails p, m.0.1)), AllMessages-Kept σ τ ps k m.1)

head-first : {σ : State} (ps : List Ptr) → IsBox σ ps → σ.head ≡ first_or nil ps
head-first [] b = b.chain
head-first (p ∷ ps) b = b.chain.0

quiet_done : (h : Handler) (finish : Option ℕ) (σ : State) → IsQuiet h → run_on_done h finish σ ≡ σ
unfolding run_on_done
quiet_done h none σ q = refl
quiet_done h (some f) σ q = q.finish f σ

exit_branch_lem :
    (h : Handler) (σ : State) (k : Ptr) (rs : List Ptr) (finish : Option ℕ)
    → IsQuiet h
    → IsBox σ rs
    → k ≢ nil
    → AllMode plain σ.mail (k ∷ rs)
    → (τ : State) × (exit_branch h k finish σ
        ≡ done (stopped k (first_or nil rs) (length rs) finish) τ)
      × IsBox τ []
      × (τ.running ≡ false)
unfolding exit_branch
exit_branch_lem h σ k [] finish q b pos m =
    let τ = record σ { running = false } in
    (
      τ,
      ground (
        arith,
        q.stop k nil 0 τ,
        quiet_done h finish τ q,
        release_loop-plain 1 nil [] τ (omega arith) refl tt,
      ),
      record {
        chain = b.chain;
        last = b.last;
        distinct = tt;
        counted = b.counted;
        small = omega arith;
      },
      refl,
    )
exit_branch_lem h σ k (r ∷ rs) finish q b pos m =
    let τ = record σ { running = false; num = 0; head = nil; tail = nil } in
    (
      τ,
      ground (
        arith,
        q.stop k σ.head σ.num τ,
        quiet_done h finish τ q,
        release_loop-plain (suc σ.num) σ.head (r ∷ rs) τ (omega (arith, b.counted)) b.chain m.1,
      ),
      record { chain = refl; last = refl; distinct = tt; counted = refl; small = omega arith },
      refl,
    )

stop_round :
    (h : Handler) (σ : State) (k : Ptr) (rs : List Ptr) (c : ℕ) (finish : Option ℕ)
    → IsQuiet h
    → IsBox σ (k ∷ rs)
    → (σ.mail k).payload ≡ exit_command c finish
    → AllMode plain σ.mail (k ∷ rs)
    → (τ : State) × (loop_round h σ ≡ done (stopped k (first_or nil rs) (length rs) finish) τ)
      × IsBox τ []
      × (τ.running ≡ false)
unfolding loop_round
stop_round h σ k rs c finish q b is m =
    let (τ, run, box, kept, loose) = wait_pop_lem σ k rs b in
    let (υ, ends, clear, off) =
      exit_branch_lem h τ k rs finish q box b.chain.1 (AllMode-Kept σ τ (k ∷ rs) kept m) in
    (υ, rw run (ground (arith, kept.mails k, b.chain, ends)), clear, off)

-- If a mailbox holds messages, an exit mail behind them and any mails behind that, all outside
-- the pool, and the handler leaves the mailbox alone, the loop hands out the messages in the
-- order of the queue, then stops with the rest of the chain and its length, and leaves the
-- mailbox empty and not running; one round for each message and one for the exit mail are
-- enough.
pub run_loop_lem :
    (h : Handler) (rounds : ℕ) (σ : State) (ps rs : List Ptr) (k c : ℕ) (finish : Option ℕ)
    → IsQuiet h
    → length ps < rounds
    → IsBox σ (ps ++ k ∷ rs)
    → AllMessages σ.mail ps
    → (σ.mail k).payload ≡ exit_command c finish
    → AllMode plain σ.mail (ps ++ k ∷ rs)
    → (τ : State) × (run_loop rounds h σ
        ≡ done (map received ps ++ stopped k (first_or nil rs) (length rs) finish ∷ []) τ)
      × IsBox τ []
      × (τ.running ≡ false)
unfolding run_loop
run_loop_lem h zero σ ps rs k c finish q n b ms is m = absurd (omega arith)
run_loop_lem h (suc rounds) σ [] rs k c finish q n b ms is m =
    let (τ, run, box, off) = stop_round h σ k rs c finish q b is m in (τ, rw run, box, off)
run_loop_lem h (suc rounds) σ (p ∷ ps) rs k c finish q n b ms is m =
    let (τ, run, box, kept) = receive_round h σ p (ps ++ k ∷ rs) ms.0.0 q b ms.0.1 m.0 in
    let (υ, runs, box', off) =
      run_loop_lem h rounds τ ps rs k c finish q (omega arith) box
        (AllMessages-Kept σ τ ps kept ms.1) (ground (arith, kept.mails k, is))
        (AllMode-Kept σ τ (ps ++ k ∷ rs) kept m.1) in
    (υ, rw run (rw runs), box', off)
