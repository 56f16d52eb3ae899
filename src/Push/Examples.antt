-- ===== src/Push/Examples.antt =====
-- A concrete history of calls.
use go_atomos.Common.{ℕ, ◌≡◌, true, false, List, [], ◌∷◌, is_some, has}
use go_atomos.Common.Maps.{lookup}
use go_atomos.WaitGraph.Detect.{IsGraph}
use go_atomos.Push.Calls.{Act, call, take, time_out, run, fresh}
use go_atomos.Push.Edges.{has_edge}
use go_atomos.Push.History.{run-apart}

-- Goroutines 5 and 6 call atom 9; the atom takes the mail of 5, both waits time out, and 7 calls it.
abbrev acts : List Act
acts = call 5 [] ∷ call 6 [] ∷ take ∷ time_out 5 ∷ time_out 6 ∷ call 7 [] ∷ []

run-apart_example :
    let σ = run acts (fresh 9) in
    ((k : ℕ) → is_some (lookup k σ.target.graph) ≡ has_edge (lookup k σ.calls))
    × IsGraph σ.target.graph
    × ((m : ℕ) → has m σ.handled ≡ true → (has m σ.rejected ≡ false) × (has m σ.target.box ≡ false))
run-apart_example = run-apart acts 9
