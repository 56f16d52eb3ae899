-- ===== src/WaitGraph.antt =====
-- cosmos_process.go: the wait graph of synchronous calls, which finds deadlocks before they happen.
-- A goroutine is its number, and 0 is none. `waitGraph` maps a waiting goroutine to the one that it
-- waits for. Each function holds `waitMu` from its first line to its last, so it is one step.
pub mod Waits
pub mod Detect
pub mod History
pub mod Examples
use go_atomos.Common.{
  ℕ, zero, suc, ◌+◌, ◌-◌, ◌*◌, ◌/◌, ◌%◌, ◌≤◌, ◌<◌, ◌≡◌, ◌≢◌, ◌↔◌, ◌⊎◌, inl, inr, refl, sym, ap,
  subst, ◌∙◌, Bool, true, false, not, ◌&&◌, ◌||◌, Option, none, some, List, [], ◌∷◌, ◌++◌, map,
  arith, ltb, leb, ◌==◌, if◌then◌else◌, ==→eq, ==_refl, ==_ne, Bool-cases, Option-cases, is_some,
  length, length-append, last_or, last_or-append, find, erase_first, has, Distinct, has-append,
  Distinct-snoc,
}
use mathlib.Core.Option
use go_atomos.Common.Maps.{lookup, insert, delete}

abbrev pub Graph : Type 0
Graph = List (ℕ × ℕ)

-- The loop of `detectDeadlockAndWait`: whether the waits from `cur` lead to the caller. `none` means
-- that the fuel ran out.
pub walk : ℕ → Graph → (caller cur : ℕ) → Option Bool
walk zero g caller cur = none
walk (suc fuel) g caller cur =
    let rest : Option Bool = elim (lookup cur g) [
      | none ↦ some false
      | some next ↦ walk fuel g caller next
    ] in
    if cur == 0 then some false else if cur == caller then some true else rest

register : Graph → (caller target : ℕ) → Bool → Bool × Graph
register g caller target true = (true, g)
register g caller target false = (false, insert caller target g)

pub detect_deadlock_and_wait : Graph → (caller target : ℕ) → Option (Bool × Graph)
unfolding walk register
detect_deadlock_and_wait g caller target =
    Option.map (register g caller target) (walk (suc (length g)) g caller target)

unfoldable pub remove_wait_edge : Graph → ℕ → Graph
remove_wait_edge g goroutine = delete goroutine g

-- `waitChain`: the goroutines that it prints, and whether it prints the final `(cycle)`.
chain_loop : ℕ → Graph → (to cur : ℕ) → Option (List ℕ × Bool)
chain_loop zero g to cur = none
chain_loop (suc fuel) g to cur =
    let rest : Option (List ℕ × Bool) = elim (lookup cur g) [
      | none ↦ some ([], false)
      | some next ↦ Option.map (λ (ns, end). (next ∷ ns, end)) (chain_loop fuel g to next)
    ] in
    if cur == to then some (to ∷ [], true) else if cur == 0 then some ([], false) else rest

pub wait_chain : Graph → (from to : ℕ) → Option (List ℕ × Bool)
unfolding chain_loop
wait_chain g from to =
    Option.map (λ (ns, end). (from ∷ ns, end)) (chain_loop (suc (length g)) g to from)

-- What the part of `PushSyncMessage` before the push does with the graph.
pub data Verdict : Type 0 where
  self_deadlock cycle_deadlock waits_unseen waits_seen : Verdict

verdict : Bool × Graph → Verdict × Graph
verdict (true, g) = (cycle_deadlock, g)
verdict (false, g) = (waits_seen, g)

unfoldable pub begin_sync_call : Graph → (caller target : ℕ) → Option (Verdict × Graph)
unfolding verdict
begin_sync_call g caller target =
    if caller == 0 || target == 0
    then some (waits_unseen, g)
    else if caller == target
    then some (self_deadlock, g)
    else Option.map verdict (detect_deadlock_and_wait g caller target)
