-- ===== src/WaitGraph/History.antt =====
-- Whole histories of synchronous calls: calls that begin and calls that return, in any order.
use go_atomos.Common.{
  ℕ, ◌≡◌, ◌≢◌, inl, inr, refl, sym, Bool, ◌||◌, Option, none, some, List, [], ◌∷◌, arith, ◌==◌,
  ==→eq, ==_ne, Bool-cases,
}
use mathlib.Core.Option
use go_atomos.Common.Maps.{lookup, insert, keys, lookup-delete, delete-Distinct}
use go_atomos.WaitGraph.{
  Graph, Verdict, waits_unseen, waits_seen, verdict, begin_sync_call, remove_wait_edge,
}
use go_atomos.WaitGraph.Waits.{Waits, edge, more, Leads, delete-Waits}
use go_atomos.WaitGraph.Detect.{IsGraph, Detected, deadlock, safe, detect_lem, IsGraph-runner}

pub data Call : Type 0 where
  begins : (caller target : ℕ) → Call
  returns : (goroutine : ℕ) → Call

unfoldable pub step : Graph → Call → Option Graph
step g (begins caller target) = Option.map (λ (v, h). h) (begin_sync_call g caller target)
step g (returns goroutine) = some (remove_wait_edge g goroutine)

unfoldable pub run : Graph → List Call → Option Graph
run g [] = some g
run g (c ∷ cs) = elim (step g c) [ none ↦ none | some h ↦ run h cs ]

pub remove-IsGraph : (g : Graph) (k : ℕ) → IsGraph g → IsGraph (remove_wait_edge g k)
unfolding remove_wait_edge
remove-IsGraph g k w = record {
  acyclic = λ a v. w.acyclic a (delete-Waits k g w.distinct v);
  no_zero = ground (arith, lookup-delete k 0 g w.distinct, w.no_zero);
  distinct = delete-Distinct k g w.distinct;
}

-- What a synchronous call between two goroutines that the graph can see comes to.
pub data Begun (g : Graph) (caller target : ℕ) : Option (Verdict × Graph) → Type 0 where
  refused :
      {v : Verdict}
      → Leads g target caller
      → v ≢ waits_seen
      → v ≢ waits_unseen
      → Begun g caller target (some (v, g))
  waiting :
      ¬ Leads g target caller
      → IsGraph (insert caller target g)
      → Begun g caller target (some (waits_seen, insert caller target g))

Begun-verdict :
    (g : Graph) (caller target : ℕ) {r : Option (Bool × Graph)}
    → Detected g caller target r
    → Begun g caller target (Option.map verdict r)
unfolding verdict
Begun-verdict g caller target (deadlock l) = refused l (λ e. cc) (λ e. cc)
Begun-verdict g caller target (safe apart w) = waiting apart w

-- In a graph without cycles, a synchronous call between two goroutines other than 0 is refused
-- as a deadlock, with the graph as it was, if the target is the caller or waits for it through
-- any number of waits; otherwise, and only then, its wait is added, and the graph still has no
-- cycle.
pub begin_sync_call_lem :
    (g : Graph) (caller target : ℕ)
    → IsGraph g
    → caller ≢ 0
    → target ≢ 0
    → Begun g caller target (begin_sync_call g caller target)
unfolding begin_sync_call
begin_sync_call_lem g caller target w p q = elim (Bool-cases (caller == target)) [
  | inl same ↦
      rw (==_ne caller 0 p, ==_ne target 0 q, same)
        (refused (inl (sym (==→eq caller target same))) (λ e. cc) (λ e. cc))
  | inr other ↦
      rw (==_ne caller 0 p, ==_ne target 0 q, other)
        (Begun-verdict g caller target (detect_lem g caller target w p))
]

Begun-IsGraph :
    (g : Graph) (caller target : ℕ) {r : Option (Verdict × Graph)}
    → IsGraph g
    → Begun g caller target r
    → (h : Graph) × (Option.map (λ (v, h). h) r ≡ some h) × IsGraph h
Begun-IsGraph g caller target w (refused l p q) = (g, refl, w)
Begun-IsGraph g caller target w (waiting apart w') = (insert caller target g, refl, w')

step-IsGraph : (g : Graph) (c : Call) → IsGraph g → (h : Graph) × (step g c ≡ some h) × IsGraph h
unfolding step
step-IsGraph g (begins caller target) w = elim (Bool-cases (caller == 0 || target == 0)) [
  | inl unseen ↦ (g, unfold begin_sync_call in rw unseen, w)
  | inr seen ↦
      Begun-IsGraph g caller target w
        (begin_sync_call_lem g caller target w (λ e. ground arith) (λ e. ground arith))
]
step-IsGraph g (returns k) w = (remove_wait_edge g k, refl, remove-IsGraph g k w)

run-IsGraph :
    (g : Graph) (cs : List Call) → IsGraph g → (h : Graph) × (run g cs ≡ some h) × IsGraph h
unfolding run
run-IsGraph g [] w = (g, refl, w)
run-IsGraph g (c ∷ cs) w =
    let (h, one, w') = step-IsGraph g c w in
    let (k, rest, w'') = run-IsGraph h cs w' in (k, rw (one, run) rest, w'')

no_edges : (b : ℕ) (g : Graph) → g ≡ [] → lookup b g ≡ none
unfolding lookup
no_edges b g e = rw e

not-Waits-nil : {a b : ℕ} (g : Graph) → g ≡ [] → ¬ Waits g a b
not-Waits-nil g e (edge {a} h) = cc (no_edges a g e)
not-Waits-nil g e (more {a} h w) = cc (no_edges a g e)

pub nil-IsGraph : IsGraph []
unfolding keys lookup
nil-IsGraph = record { acyclic = λ a. not-Waits-nil [] refl; no_zero = refl; distinct = tt }

-- In any history of calls that begin and return from the empty graph, every check ends; after it no
-- goroutine waits for itself, and every goroutine is one, or waits through others for one, that
-- waits for nobody.
pub run_lem :
    (cs : List Call)
    → (g : Graph) × (run [] cs ≡ some g)
      × IsGraph g
      × ((a : ℕ) → (b : ℕ) × Leads g a b × (lookup b g ≡ none))
run_lem cs =
    let (g, ran, w) = run-IsGraph [] cs nil-IsGraph in (g, ran, w, λ a. IsGraph-runner g a w)
