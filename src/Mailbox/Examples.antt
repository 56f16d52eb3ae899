-- ===== src/Mailbox/Examples.antt =====
-- A mailbox with two mails, and what the operations of mail.go do to it.
use go_atomos.Common.{ℕ, ◌≡◌, refl, true, false, none, some, [], ◌∷◌, arith, ◌==◌, if◌then◌else◌}
use go_atomos.Mailbox.{
  Ptr, nil, Mail, State, Payload, AllocMode, plain, empty, message, exit_command, done, Handler,
  received, stopped, run_loop, pop_by_id, stop_if_no_mail, unused,
}
use go_atomos.Mailbox.Queue.{IsBox, Kept}
use go_atomos.Mailbox.Push.{IsFree}
use go_atomos.Mailbox.Unlink.{pop_by_id-IsBox}
use go_atomos.Mailbox.Stop.{Stopped, stop_if_no_mail-empty}
use go_atomos.Mailbox.Loop.{run_loop_lem}

abbrev letter : Ptr → ℕ → Payload → AllocMode → Mail
letter next id payload mode = record { next = next; id = id; payload = payload; alloc_mode = mode }

abbrev heap : AllocMode → Ptr → Mail
heap mode p =
    if p == 1
    then letter 2 7 (message 5) mode
    else if p == 2
    then letter nil 8 (exit_command 0 none) mode
    else letter nil 0 empty plain

-- Mail 1 is a message with id 7, and mail 2 behind it an exit command.
abbrev two : AllocMode → State
two mode = record {
  mail = heap mode;
  pool = [];
  debug = 1 ∷ 2 ∷ [];
  running = true;
  head = 1;
  tail = 2;
  num = 2;
}

two-IsBox : (mode : AllocMode) → IsBox (two mode) (1 ∷ 2 ∷ [])
two-IsBox mode = record {
  chain = (refl, (λ e. omega arith), (refl, (λ e. omega arith), refl));
  last = refl;
  distinct = (refl, (refl, tt));
  counted = refl;
  small = omega arith;
}

three-IsFree : IsFree (two plain) (1 ∷ 2 ∷ []) 3
three-IsFree = record {
  not_nil = λ e. omega arith;
  outside = refl;
  unlinked = refl;
  room = omega arith;
}

pop_by_id-IsBox_example :
    (τ : State) × (pop_by_id 8 (two plain) ≡ done 2 τ) × IsBox τ (1 ∷ []) × Kept (two plain) τ
pop_by_id-IsBox_example = pop_by_id-IsBox (two plain) (1 ∷ 2 ∷ []) (two-IsBox plain) 8

abbrev idle : State
idle = record (two plain) { head = nil; tail = nil; num = 0 }

idle-IsBox : IsBox idle []
idle-IsBox = record {
  chain = refl;
  last = refl;
  distinct = tt;
  counted = refl;
  small = omega arith;
}

stop_if_no_mail-empty_example :
    (τ : State) × (stop_if_no_mail true false true 3 (some 4) idle ≡ done true τ)
    × Stopped 3 (some 4) τ
unfolding unused
stop_if_no_mail-empty_example =
    stop_if_no_mail-empty true false true 3 (some 4) idle idle-IsBox refl (λ e. omega arith) refl

abbrev quiet : Handler
quiet = record { on_receive = λ m σ. σ; on_stop = λ k ms n σ. σ; on_done = λ f σ. σ }

run_loop_lem_example :
    (τ : State) × (run_loop 5 quiet (two plain) ≡ done (received 1 ∷ stopped 2 nil 0 none ∷ []) τ)
    × IsBox τ []
    × (τ.running ≡ false)
run_loop_lem_example =
    run_loop_lem quiet 5 (two plain) (1 ∷ []) [] 2 0 none
      (record { receive = λ m σ. refl; stop = λ k ms n σ. refl; finish = λ f σ. refl })
      (omega arith) (two-IsBox plain) ((5, refl), tt) refl (refl, (refl, tt))
