-- ===== src/Mailbox/Stop.antt =====
-- `stopIfNoMail` of mail.go: a mailbox stops itself only when nothing waits in it.
use go_atomos.Common.{ℕ, ◌≡◌, ◌≢◌, refl, Bool, true, false, Option, List, [], ◌∷◌, arith}
use go_atomos.Mailbox.{
  Ptr, nil, Mail, State, AllocMode, plain, pooled, tracked, empty, exit_command, done, write,
  unused, push_tail, push_head, stop_if_no_mail,
}
use go_atomos.Mailbox.Queue.{IsBox}

-- What a stop leaves: the exit mail alone, in a mailbox that takes no other.
pub record Stopped (fresh : Ptr) (finish : Option ℕ) (τ : State) : Type 0 where
  pub alone : IsBox τ (fresh ∷ [])
  pub command : (τ.mail fresh).payload ≡ exit_command 0 finish
  pub refuses : (m : Ptr) → (push_tail m τ ≡ done false τ) × (push_head m τ ≡ done false τ)

-- The state with the exit mail in it, over the heap and the debug map that the allocation left.
with_exit : Ptr → Option ℕ → (Ptr → Mail) → List Ptr → State → State
with_exit fresh finish mail debug σ = record σ {
  mail =
      write mail fresh
        (record (mail fresh) { next = nil; id = 0; payload = exit_command 0 finish });
  debug = debug;
  running = false;
  head = fresh;
  tail = fresh;
  num = 1;
}

with_exit-Stopped :
    (fresh : Ptr) (finish : Option ℕ) (mail : Ptr → Mail) (debug : List Ptr) (σ : State)
    → fresh ≢ nil
    → Stopped fresh finish (with_exit fresh finish mail debug σ)
unfolding with_exit write push_tail push_head
with_exit-Stopped fresh finish mail debug σ pos = record {
  alone = record {
    chain = (refl, pos, ground arith);
    last = refl;
    distinct = (refl, tt);
    counted = refl;
    small = omega arith;
  };
  command = ground arith;
  refuses = λ m. (refl, refl);
}

abbrev zeroed : AllocMode → Mail
zeroed mode = record { next = nil; id = 0; payload = empty; alloc_mode = mode }

-- On a running mailbox with no mail `stopIfNoMail` succeeds in every allocation mode, if the new
-- mail is not `nil` and unused: the exit mail is then alone in the mailbox, and every push is
-- refused.
pub stop_if_no_mail-empty :
    (using_pool using_debug init_check : Bool) (fresh : Ptr) (finish : Option ℕ) (σ : State)
    → IsBox σ []
    → σ.running ≡ true
    → fresh ≢ nil
    → unused (σ.mail fresh) ≡ true
    → (τ : State) × (stop_if_no_mail using_pool using_debug init_check fresh finish σ ≡ done true τ)
      × Stopped fresh finish τ
unfolding stop_if_no_mail with_exit write
stop_if_no_mail-empty true using_debug init_check fresh finish σ b run pos idle =
    let mail = write σ.mail fresh (record (σ.mail fresh) { alloc_mode = pooled }) in
    (
      with_exit fresh finish mail σ.debug σ,
      ground (arith, b.chain),
      with_exit-Stopped fresh finish mail σ.debug σ pos,
    )
stop_if_no_mail-empty false true init_check fresh finish σ b run pos idle =
    let mail = write σ.mail fresh (zeroed tracked) in
    (
      with_exit fresh finish mail (fresh ∷ σ.debug) σ,
      ground (arith, b.chain),
      with_exit-Stopped fresh finish mail (fresh ∷ σ.debug) σ pos,
    )
stop_if_no_mail-empty false false init_check fresh finish σ b run pos idle =
    let mail = write σ.mail fresh (zeroed plain) in
    (
      with_exit fresh finish mail σ.debug σ,
      ground (arith, b.chain),
      with_exit-Stopped fresh finish mail σ.debug σ pos,
    )

pub stop_if_no_mail-busy :
    (using_pool using_debug init_check : Bool) (fresh : Ptr) (finish : Option ℕ) (σ : State)
    (p : Ptr) (ps : List Ptr)
    → IsBox σ (p ∷ ps)
    → stop_if_no_mail using_pool using_debug init_check fresh finish σ ≡ done false σ
unfolding stop_if_no_mail
stop_if_no_mail-busy using_pool using_debug init_check fresh finish σ p ps b = ground arith
