-- ===== src/Async/Examples.antt =====
-- The theorems on callbacks at a concrete atom.
use go_atomos.Common.{◌+◌, ◌≡◌, refl, true, false, List, [], ◌∷◌, ◌++◌, arith}
use go_atomos.Common.Maps.{keys, lookup}
use go_atomos.Async.{
  Calls, called, replied, async_callback_pending, push_async_message, on_async_messaging_callback,
  handler_not_found,
}
use go_atomos.Async.History.{
  Op, pushes, replies, halts, run, registered, waiting, ended, IsCalls, run-conserves,
}
use go_atomos.Async.Replies.{run-halts, reply_lem, leaves}

abbrev idle : Calls
idle = record {
  async_callback_id = 0;
  async_callback_map = [];
  async_cleared = false;
  startup_id = 1;
  trace = [];
}

idle-IsCalls : IsCalls idle
unfolding keys lookup
idle-IsCalls = record { once = tt; issued = λ k h. refl; cleared = λ h. refl }

-- Callback 5 is answered, 6 waits for the halt, and 7 comes after it.
abbrev history : List Op
history = pushes 5 true ∷ pushes 6 false ∷ replies 1 9 ∷ []

run-conserves_example :
    IsCalls (run history idle)
    × (waiting 6 (run history idle).async_callback_map + ended 6 (run history idle).trace
        ≡ registered 6 history + (waiting 6 [] + ended 6 []))
run-conserves_example = run-conserves 6 history idle idle-IsCalls (omega arith)

run-halts_example :
    (async_callback_pending (run (history ++ halts ∷ pushes 7 true ∷ []) idle) ≡ 0)
    × (ended 6 (run (history ++ halts ∷ pushes 7 true ∷ []) idle).trace
        ≡ registered 6 (history ++ halts ∷ pushes 7 true ∷ []))
unfolding ended
run-halts_example =
    run-halts 6 history (pushes 7 true ∷ []) idle idle-IsCalls refl refl (omega arith)

abbrev waits : Calls
waits = run (pushes 6 true ∷ []) (push_async_message 5 true idle).0

reply_lem_example :
    ((on_async_messaging_callback 1 9 waits).trace ≡ called 5 (replied 9) ∷ waits.trace)
    × ((on_async_messaging_callback 1 8 (on_async_messaging_callback 1 9 waits)).trace
        ≡ handler_not_found ∷ called 5 (replied 9) ∷ waits.trace)
unfolding leaves
reply_lem_example =
    reply_lem 5 9 8 true (pushes 6 true ∷ []) idle idle-IsCalls refl (omega arith) refl
