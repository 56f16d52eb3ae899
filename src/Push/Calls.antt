-- ===== src/Push/Calls.antt =====
-- Goroutines that call one atom synchronously, in any interleaving with the atom's own goroutine.
use go_atomos.Common.Maps.{lookup, insert, delete}
use go_atomos.Atom.{Reply}
use go_atomos.ErrorCode.{ErrorCode, err_atomos_push_timeout_reject}
use go_atomos.CallArgs.{Arg}
use go_atomos.Push.{
  Target, Started, refused, sent, waits, arrives, times_out, push_sync_message, end_sync_message,
}
use go_atomos.Common.{
  ℕ, Bool, true, false, Option, none, some, List, [], ◌∷◌, ◌++◌, ◌==◌, if◌then◌else◌, is_some, has,
}

-- `calls` has each goroutine that waits, with its mail and whether it has an edge in the wait graph;
-- `replies` what a mail's channel holds; `handled` the mails that the atom has taken, and `rejected`
-- those whose caller was told that the timeout rejected them.
pub record System : Type 0 where
  pub target : Target
  pub calls : List (ℕ × (ℕ × Bool))
  pub replies : ℕ → Option Reply
  pub handled : List ℕ
  pub rejected : List ℕ

-- A running atom without mails, and nobody waits.
abbrev pub fresh : ℕ → System
fresh go_id = record {
  target = record { go_id = go_id; running = true; box = []; next = 1; graph = [] };
  calls = [];
  replies = λ ref. none;
  handled = [];
  rejected = [];
}

pub data Act : Type 0 where
  call : (caller : ℕ) → List (Option Arg) → Act
  take : Act
  reply : (ref : ℕ) → Reply → Act
  wake time_out : (caller : ℕ) → Act
  stop : Act

abbrev put_reply : (ℕ → Option Reply) → ℕ → Reply → ℕ → Option Reply
put_reply replies ref r k = if k == ref then some r else replies k

unfoldable pub called : ℕ → Option (Started × Target) → System → System
called caller none σ = σ
called caller (some (refused e, t)) σ = record σ { target = t }
called caller (some (sent ref, t)) σ = record σ { target = t }
called caller (some (waits ref edge, t)) σ = record σ {
  target = t;
  calls = insert caller (ref, edge) σ.calls;
}

unfoldable pub taken : List ℕ → System → System
taken [] σ = σ
taken (m ∷ ms) σ = record σ { target = record σ.target { box = ms }; handled = m ∷ σ.handled }

unfoldable pub ended : ℕ → Target → System → System
ended caller t σ = record σ { target = t; calls = delete caller σ.calls }

-- The waiting goroutine finds a reply, if there is one.
unfoldable pub woken : ℕ → Option (ℕ × Bool) → System → System
unfolding ended
woken caller none σ = σ
woken caller (some (ref, edge)) σ = elim (σ.replies ref) [
  | none ↦ σ
  | some r ↦ ended caller (end_sync_message (arrives r) caller ref edge σ.target).1 σ
]

-- What the caller is told: the mails that the answer calls rejected.
unfoldable pub told : Option ErrorCode → ℕ → List ℕ → List ℕ
told (some err_atomos_push_timeout_reject) ref refs = ref ∷ refs
told _ ref refs = refs

unfoldable pub timed_out : ℕ → Option (ℕ × Bool) → System → System
unfolding ended told
timed_out caller none σ = σ
timed_out caller (some (ref, edge)) σ =
    let (answer, t) = end_sync_message times_out caller ref edge σ.target in
    ended caller t (record σ { rejected = told answer.err ref σ.rejected })

-- A goroutine that waits makes no other call; the atom replies to mails that it has taken; and its stop
-- refuses further mails and takes those that were left.
unfoldable pub step : Act → System → System
unfolding called taken woken timed_out
step (call caller ext) σ =
    if is_some (lookup caller σ.calls)
    then σ
    else called caller (push_sync_message true caller ext σ.target) σ
step take σ = taken σ.target.box σ
step (reply ref r) σ =
    if has ref σ.handled then record σ { replies = put_reply σ.replies ref r } else σ
step (wake caller) σ = woken caller (lookup caller σ.calls) σ
step (time_out caller) σ = timed_out caller (lookup caller σ.calls) σ
step stop σ = record σ {
  target = record σ.target { running = false; box = [] };
  handled = σ.target.box ++ σ.handled;
}

unfoldable pub run : List Act → System → System
run [] σ = σ
run (a ∷ acts) σ = run acts (step a σ)
