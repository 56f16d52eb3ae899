-- ===== src/WaitGraph/Examples.antt =====
-- Three goroutines of which 1 waits for 2 and 2 for 3; then 3 calls 1.
use go_atomos.Common.{arith, ℕ, ◌≡◌, refl, true, none, some, List, [], ◌∷◌}
use go_atomos.Common.Maps.{lookup, insert}
use go_atomos.WaitGraph.{Graph, begin_sync_call, detect_deadlock_and_wait, wait_chain}
use go_atomos.WaitGraph.Waits.{Leads}
use go_atomos.WaitGraph.Detect.{IsGraph}
use go_atomos.WaitGraph.History.{
  Begun, begin_sync_call_lem, nil-IsGraph, Call, begins, run, step, run_lem,
}

abbrev chain : Graph
chain = (1, 2) ∷ (2, 3) ∷ []

abbrev calls : List Call
calls = begins 1 2 ∷ begins 2 3 ∷ begins 3 1 ∷ []

-- The third call is refused, and the graph stays.
calls-run : run [] calls ≡ some chain
unfolding run step begin_sync_call detect_deadlock_and_wait insert lookup
calls-run = refl

-- The diagnosis of that refusal.
chain_printed : wait_chain chain 1 3 ≡ some (1 ∷ 2 ∷ 3 ∷ 3 ∷ [], true)
unfolding wait_chain lookup
chain_printed = refl

run_lem_example :
    (g : Graph) × (run [] calls ≡ some g)
    × IsGraph g
    × ((a : ℕ) → (b : ℕ) × Leads g a b × (lookup b g ≡ none))
run_lem_example = run_lem calls

begin_sync_call_lem_example : Begun [] 1 2 (begin_sync_call [] 1 2)
begin_sync_call_lem_example =
    begin_sync_call_lem [] 1 2 nil-IsGraph (λ e. omega (arith, e)) (λ e. omega (arith, e))
