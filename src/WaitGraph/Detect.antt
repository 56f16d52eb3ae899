-- ===== src/WaitGraph/Detect.antt =====
-- `detectDeadlockAndWait` decides whether the target waits for the caller.
use go_atomos.Common.{
  length-le_of_Distinct, ℕ, zero, suc, ◌+◌, ◌<◌, ◌≡◌, ◌≢◌, inl, inr, refl, ap, Bool, true, false,
  Option, none, some, List, [], ◌∷◌, arith, ◌==◌, ==→eq, Bool-cases, Option-cases, length, has,
  Distinct,
}
use mathlib.Core.Option
use mathlib.Core.Bool.{false≢true}
use go_atomos.Common.Maps.{lookup, insert, keys, has-keys, lookup-insert, insert-Distinct}
use go_atomos.WaitGraph.{Graph, walk, register, detect_deadlock_and_wait}
use go_atomos.WaitGraph.Waits.{
  Waits, edge, more, Leads, Leads-step, IsAcyclic, insert-IsAcyclic, Waits-trans,
}

-- A walk that finds the caller followed waits to it.
walk-true :
    (fuel : ℕ) (g : Graph) (caller cur : ℕ)
    → walk fuel g caller cur ≡ some true
    → Leads g cur caller
unfolding walk
walk-true zero g caller cur h = absurd (ground arith)
walk-true (suc fuel) g caller cur h = elim (Bool-cases (cur == caller)) [
  | inl same ↦ inl (==→eq cur caller same)
  | inr other ↦ elim (Option-cases (lookup cur g)) [
    | inl e ↦ absurd (ground arith)
    | inr (next, e) ↦ inr (Leads-step e (walk-true fuel g caller next (ground arith)))
  ]
]

-- The walk follows the only waits that there are, so one that ends elsewhere rules the caller out.
walk-false :
    (fuel : ℕ) (g : Graph) (caller cur : ℕ)
    → lookup 0 g ≡ none
    → walk fuel g caller cur ≡ some false
    → caller ≢ 0
    → ¬ Leads g cur caller
unfolding walk
walk-false zero g caller cur z h pos l = ground arith
walk-false (suc fuel) g caller cur z h pos (inl e) = ground arith
walk-false (suc fuel) g caller cur z h pos (inr (edge e)) =
    walk-false fuel g caller caller z (ground (arith, e)) pos (inl refl)
walk-false (suc fuel) g caller cur z h pos (inr (more {b = next} e w)) =
    walk-false fuel g caller next z (ground (arith, e)) pos (inr w)

-- The graphs that the process can be in: each goroutine waits for one at most, none for itself.
pub record IsGraph (g : Graph) : Type 0 where
  pub acyclic : IsAcyclic g
  pub no_zero : lookup 0 g ≡ none
  pub distinct : Distinct (keys g)

-- The goroutines that the walk has passed wait for the one where it is.
record Passed (g : Graph) (vs : List ℕ) (cur : ℕ) : Type 0 where
  distinct : Distinct vs
  waiting : (v : ℕ) → has v vs ≡ true → Waits g v cur
  inside : (v : ℕ) → has v vs ≡ true → has v (keys g) ≡ true

Passed-next :
    (g : Graph) (vs : List ℕ) (cur next : ℕ)
    → IsAcyclic g
    → lookup cur g ≡ some next
    → Passed g vs cur
    → Passed g (cur ∷ vs) next
Passed-next g vs cur next acyclic e p = record {
  distinct = (fresh, p.distinct);
  waiting = λ v i. elim (Bool-cases (v == cur)) [
    | inl same ↦ edge (ground (arith, same))
    | inr other ↦ Waits-trans (p.waiting v (ground arith)) (edge e)
  ];
  inside = λ v i. elim (Bool-cases (v == cur)) [
    | inl same ↦ ground (arith, has-keys v g)
    | inr other ↦ p.inside v (ground arith)
  ];
}
  where
    fresh : has cur vs ≡ false
    fresh = elim (Bool-cases (has cur vs)) [
      | inl there ↦ absurd (acyclic cur (p.waiting cur there))
      | inr gone ↦ gone
    ]

-- A walk passes each waiting goroutine once at most, so the fuel is enough.
walk-ne-none :
    (fuel : ℕ) (g : Graph) (caller cur : ℕ) (vs : List ℕ)
    → IsAcyclic g
    → Passed g vs cur
    → length (keys g) < fuel + length vs
    → walk fuel g caller cur ≢ none
unfolding walk
walk-ne-none zero g caller cur vs acyclic p f h =
    absurd (omega (arith, length-le_of_Distinct vs (keys g) p.distinct p.inside))
walk-ne-none (suc fuel) g caller cur vs acyclic p f h = elim (Option-cases (lookup cur g)) [
  | inl e ↦ ground arith
  | inr (next, e) ↦
      let go : walk fuel g caller next ≢ none =
        walk-ne-none fuel g caller next (cur ∷ vs) acyclic (Passed-next g vs cur next acyclic e p)
          (omega arith) in
      ground arith
]

length-keys : (g : Graph) → length (keys g) ≡ length g
unfolding keys
length-keys [] = refl
length-keys (e ∷ g) = ap suc (length-keys g)

walk_answers :
    (g : Graph) (caller target : ℕ)
    → IsGraph g
    → (r : Bool) × (walk (suc (length g)) g caller target ≡ some r)
walk_answers g caller target w = elim (Option-cases (walk (suc (length g)) g caller target)) [
  | inl e ↦ absurd (
      walk-ne-none (suc (length g)) g caller target [] w.acyclic
        (record {
          distinct = tt;
          waiting = λ v i. absurd (false≢true i);
          inside = λ v i. absurd (false≢true i);
        })
        (omega (arith, length-keys g)) e)
  | inr a ↦ a
]

insert-IsGraph :
    (g : Graph) (caller target : ℕ)
    → IsGraph g
    → caller ≢ 0
    → ¬ Leads g target caller
    → IsGraph (insert caller target g)
insert-IsGraph g caller target w pos apart = record {
  acyclic = insert-IsAcyclic g caller target w.acyclic apart;
  no_zero = ground (arith, lookup-insert caller 0 target g, w.no_zero);
  distinct = insert-Distinct caller target g w.distinct;
}

-- The two ways in which the check can end.
pub data Detected (g : Graph) (caller target : ℕ) : Option (Bool × Graph) → Type 0 where
  deadlock : Leads g target caller → Detected g caller target (some (true, g))
  safe :
      ¬ Leads g target caller
      → IsGraph (insert caller target g)
      → Detected g caller target (some (false, insert caller target g))

pub detect_lem :
    (g : Graph) (caller target : ℕ)
    → IsGraph g
    → caller ≢ 0
    → Detected g caller target (detect_deadlock_and_wait g caller target)
unfolding detect_deadlock_and_wait
detect_lem g caller target w pos = let (r, run) = walk_answers g caller target w in decide r run
  where
    decide :
        (r : Bool)
        → walk (suc (length g)) g caller target ≡ some r
        → Detected g caller target
            (Option.map (register g caller target) (walk (suc (length g)) g caller target))
    decide true run = rw run (deadlock (walk-true (suc (length g)) g caller target run))
    decide false run =
        let apart = walk-false (suc (length g)) g caller target w.no_zero run pos in
        rw run (safe apart (insert-IsGraph g caller target w pos apart))

-- Every goroutine waits, through others, for one that waits for nobody.
runner :
    (fuel : ℕ) (g : Graph) (cur : ℕ) (vs : List ℕ)
    → IsAcyclic g
    → Passed g vs cur
    → length (keys g) < fuel + length vs
    → (b : ℕ) × Leads g cur b × (lookup b g ≡ none)
runner zero g cur vs acyclic p f =
    absurd (omega (arith, length-le_of_Distinct vs (keys g) p.distinct p.inside))
runner (suc fuel) g cur vs acyclic p f = elim (Option-cases (lookup cur g)) [
  | inl e ↦ (cur, inl refl, e)
  | inr (next, e) ↦
      let (b, l, free) =
        runner fuel g next (cur ∷ vs) acyclic (Passed-next g vs cur next acyclic e p)
          (omega arith) in
      (b, inr (Leads-step e l), free)
]

pub IsGraph-runner : (g : Graph) (a : ℕ) → IsGraph g → (b : ℕ) × Leads g a b × (lookup b g ≡ none)
IsGraph-runner g a w =
    runner (suc (length g)) g a [] w.acyclic
      (record {
        distinct = tt;
        waiting = λ v i. absurd (false≢true i);
        inside = λ v i. absurd (false≢true i);
      })
      (omega (arith, length-keys g))
