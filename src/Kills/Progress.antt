-- ===== src/Kills/Progress.antt =====
-- Every run of the kills ends, and kills each atom once.
use go_atomos.Common.{
  ℕ, suc, ◌+◌, ◌*◌, ◌≤◌, ◌<◌, ◌≡◌, inl, inr, refl, sym, ap, ◌∙◌, true, false, ◌||◌, List, [], ◌∷◌,
  ◌++◌, arith, if◌then◌else◌, Bool-cases, ◌==◌, ==→eq, ==_refl, length, length-append, has,
  Distinct, without, has-without_ne,
}
use mathlib.Core.Bool.{false≢true, true≢false}
use go_atomos.Kills.{
  Kills, start, leave, Step, passes_over, finds, starts, ends, leaves, goes_on, Steps, none_yet,
  and_then, count, has-count, count-has_no, Distinct-count, count-append, count-without,
  length-without, count-snapshot, length-snapshot,
}

-- How often a name had a turn that led to a kill.
abbrev turns : ℕ → Kills → ℕ
turns m k = count m k.found + (count m k.running + count m k.killed)

-- The kills that run are no more than the slots; no name has got lost or come in; and an atom of the start
-- is still there, or had its turn, or has left before, as have those that were passed over.
record IsFair (slots : ℕ) (names atoms : List ℕ) (k : Kills) : Type 0 where
  few : length k.running ≤ slots
  kept : (m : ℕ) → count m k.names + (turns m k + count m k.gone) ≡ count m names
  idle : k.halts ≡ true → (k.names ≡ []) × (k.found ≡ []) × (k.running ≡ [])
  there : (m : ℕ) → has m atoms ≡ true → has m k.away ≡ false → 0 ≡ turns m k → has m k.atoms ≡ true
  passed : (m : ℕ) → has m atoms ≡ true → has m k.gone ≡ true → has m k.away ≡ true

-- The steps that may follow.
left : Kills → ℕ
left k =
    (3 * length k.names + 2 * length k.found)
    + (length k.running + (length k.atoms + (if k.halts then 0 else 1)))

Step-left : {slots : ℕ} {k l : Kills} → Step slots k l → suc (left l) ≤ left k
unfolding left leave
Step-left (passes_over f e h) = omega (arith, ap length e)
Step-left (finds f e h) = omega (arith, ap length e, ap length f)
Step-left {k = k} (starts {n = n} f h) =
    omega (arith, ap length f, length-append k.running (n ∷ []))
Step-left {k = k} (ends {n = n} h) = omega (arith, length-without n k.running h)
Step-left {k = k} (leaves n h) = omega (arith, length-without n k.atoms h)
Step-left (goes_on e f g h) = ground (arith, h)

Steps-left : {slots n : ℕ} {k l : Kills} → Steps slots k n l → n + left l ≤ left k
Steps-left none_yet = omega arith
Steps-left (and_then ss s) = omega (arith, Steps-left ss, Step-left s)

module _ (slots : ℕ) (names atoms : List ℕ) (once : (m : ℕ) → count m names ≤ 1) where
  -- The next name had no turn yet.
  next-turns :
      {k : Kills} {n : ℕ} {ns : List ℕ}
      → IsFair slots names atoms k
      → k.names ≡ n ∷ ns
      → 0 ≡ turns n k
  unfolding count
  next-turns {k} {n} {ns} f e =
      let h : count n k.names ≡ 1 + count n ns =
        ap (count n) e ∙ ap (λ b. (if b then 1 else 0) + count n ns) (==_refl n) in
      omega (arith, f.kept n, once n, h)

  passes_over-IsFair :
      {k : Kills} {n : ℕ} {ns : List ℕ}
      → k.names ≡ n ∷ ns
      → has n k.atoms ≡ false
      → IsFair slots names atoms k
      → IsFair slots names atoms (record k { names = ns; gone = n ∷ k.gone })
  unfolding count
  passes_over-IsFair {k} {n} {ns} e h f = record {
    few = f.few;
    kept = λ m. omega (arith, f.kept m, ap (count m) e);
    idle = λ z. ground (arith, (f.idle z).0, e);
    there = f.there;
    passed = λ m was i. elim (Bool-cases (has m k.away)) [
      | inl a ↦ a
      | inr a ↦ ground (arith, f.passed m was, i, h, f.there m was a, next-turns f e, ==→eq m n)
    ];
  }

  finds-IsFair :
      {k : Kills} {n : ℕ} {ns : List ℕ}
      → k.found ≡ []
      → k.names ≡ n ∷ ns
      → IsFair slots names atoms k
      → IsFair slots names atoms (record k { names = ns; found = n ∷ [] })
  unfolding count
  finds-IsFair {k} {n} {ns} g e f = record {
    few = f.few;
    kept = λ m. omega (arith, f.kept m, ap (count m) e, ap (count m) g);
    idle = λ z. ground (arith, (f.idle z).0, e);
    there = λ m was near z. f.there m was near (omega (arith, z, ap (count m) g));
    passed = f.passed;
  }

  starts-IsFair :
      {k : Kills} {n : ℕ} {ns : List ℕ}
      → k.found ≡ n ∷ ns
      → length k.running < slots
      → IsFair slots names atoms k
      → IsFair slots names atoms (record k { found = ns; running = k.running ++ n ∷ [] })
  unfolding count
  starts-IsFair {k} {n} {ns} g h f = record {
    few = omega (arith, h, length-append k.running (n ∷ []));
    kept = λ m. omega (arith, f.kept m, ap (count m) g, count-append m k.running (n ∷ []));
    idle = λ z. ground (arith, (f.idle z).1, g);
    there = λ m was near z.
        f.there m was near (omega (arith, z, ap (count m) g, count-append m k.running (n ∷ [])));
    passed = f.passed;
  }

  ends-IsFair :
      {k : Kills} {n : ℕ}
      → has n k.running ≡ true
      → IsFair slots names atoms k
      → IsFair slots names atoms (record k { running = without n k.running; killed = n ∷ k.killed })
  unfolding count
  ends-IsFair {k} {n} h f = record {
    few = omega (arith, f.few, length-without n k.running h);
    kept = λ m. omega (arith, f.kept m, count-without m n k.running h);
    idle = λ z. absurd (false≢true (ap (has n) (sym (f.idle z).2) ∙ h));
    there = λ m was near z. f.there m was near (omega (arith, z, count-without m n k.running h));
    passed = f.passed;
  }

  leave-IsFair :
      {k : Kills} (n : ℕ) → IsFair slots names atoms k → IsFair slots names atoms (leave n k)
  unfolding leave
  leave-IsFair {k} n f = record {
    few = f.few;
    kept = f.kept;
    idle = f.idle;
    there = λ m was near z. elim (Bool-cases (m == n)) [
      | inl e ↦ ground (
        arith,
        near,
        z,
        ==→eq m n e,
        ==_refl n,
        has-count n k.found,
        has-count n k.running,
        has-count n k.killed,
      )
      | inr e ↦
          let still : has m k.atoms ≡ true = f.there m was (ground (arith, near)) z in
          has-without_ne m n k.atoms e ∙ still
    ];
    passed = λ m was i. ground (arith, f.passed m was i);
  }

  Step-IsFair :
      {k l : Kills} → Step slots k l → IsFair slots names atoms k → IsFair slots names atoms l
  Step-IsFair (passes_over g e h) f = passes_over-IsFair e h f
  Step-IsFair (finds g e h) f = finds-IsFair g e f
  Step-IsFair (starts g h) f = starts-IsFair g h f
  Step-IsFair (ends h) f = ends-IsFair h f
  Step-IsFair (leaves n h) f = leave-IsFair n f
  Step-IsFair (goes_on e g r h) f = record {
    few = f.few;
    kept = f.kept;
    idle = λ z. (e, g, r);
    there = f.there;
    passed = f.passed;
  }

  Steps-IsFair :
      {n : ℕ} {k l : Kills}
      → Steps slots k n l
      → IsFair slots names atoms k
      → IsFair slots names atoms l
  Steps-IsFair none_yet f = f
  Steps-IsFair (and_then ss s) f = Step-IsFair s (Steps-IsFair ss f)

  start-IsFair : IsFair slots names atoms (start names atoms)
  unfolding start count
  start-IsFair = record {
    few = omega arith;
    kept = λ m. omega (arith, count-snapshot m names);
    idle = λ z. absurd (false≢true z);
    there = λ m was near z. was;
    passed = λ m was i. absurd (false≢true i);
  }

  -- While the element has not gone on, something can happen, even if no atom goes by itself.
  goes_further :
      (k : Kills) (ns fs rs : List ℕ)
      → k.names ≡ ns
      → k.found ≡ fs
      → k.running ≡ rs
      → k.halts ≡ false
      → 0 < slots
      → (l : Kills) × Step slots k l × (l.away ≡ k.away)
  goes_further k ns fs (r ∷ rs) e g q h p = (
    record k { running = without r k.running; killed = r ∷ k.killed },
    ends (ap (has r) q ∙ ap (λ b. b || has r rs) (==_refl r)),
    refl,
  )
  goes_further k ns (a ∷ fs) [] e g q h p = (
    record k { found = fs; running = k.running ++ a ∷ [] },
    starts g (omega (arith, p, ap length q)),
    refl,
  )
  goes_further k (n ∷ ns) [] [] e g q h p = elim (Bool-cases (has n k.atoms)) [
    | inl i ↦ (record k { names = ns; found = n ∷ [] }, finds g e i, refl)
    | inr i ↦ (record k { names = ns; gone = n ∷ k.gone }, passes_over g e i, refl)
  ]
  goes_further k [] [] [] e g q h p = (record k { halts = true }, goes_on e g q h, refl)

left-start : (names atoms : List ℕ) → left (start names atoms) ≡ 3 * length names + length atoms + 1
unfolding left start
left-start names atoms = omega (arith, length-snapshot names)

all_killed :
    {slots : ℕ} {names atoms : List ℕ} {k : Kills}
    → IsFair slots names atoms k
    → k.halts ≡ true
    → (m : ℕ) → has m atoms ≡ true
    → has m k.away ≡ false
    → count m k.killed ≡ count m names
unfolding count
all_killed {k = k} f z m was near =
    let i = f.idle z in
    let none_gone : has m k.gone ≡ false = elim (Bool-cases (has m k.gone)) [
      | inl g ↦ absurd (true≢false (sym (f.passed m was g) ∙ near))
      | inr g ↦ g
    ] in
    omega (
      arith,
      f.kept m,
      ap (count m) i.0,
      ap (count m) i.1,
      ap (count m) i.2,
      count-has_no m k.gone none_gone,
    )

-- An element that stops with at least one slot and with distinct names, in any order in which the loop looks
-- up its atoms and waits for slots, kills begin and end, and atoms halt: at most `slots` kills run at a
-- time; no kill begins more often than its name stands in the list; the stop takes at most one step, three
-- for each name and one for each atom that halts; until the element goes on to its own stop a step of the
-- loop or of a kill can always be taken; and when it does, each of the atoms that it had at the start was
-- killed once if its name is in the list, unless that atom had left the element before it was looked up.
pub Steps-killed :
    (slots : ℕ) (names atoms : List ℕ) {n : ℕ} {k : Kills}
    → 0 < slots
    → Distinct names
    → Steps slots (start names atoms) n k
    → (n ≤ 3 * length names + length atoms + 1)
      × (length k.running ≤ slots)
      × ((m : ℕ) → count m k.running + count m k.killed ≤ count m names)
      × (k.halts ≡ true
          → (m : ℕ) → has m atoms ≡ true
          → has m k.away ≡ false
          → count m k.killed ≡ count m names)
      × (k.halts ≡ false → (l : Kills) × Step slots k l × (l.away ≡ k.away))
Steps-killed slots names atoms {n = n} {k = k} p d ss =
    let once : (m : ℕ) → count m names ≤ 1 = λ m. Distinct-count m names d in
    let f = Steps-IsFair slots names atoms once ss (start-IsFair slots names atoms once) in
    (
      omega (arith, Steps-left ss, left-start names atoms),
      f.few,
      (λ m. omega (arith, f.kept m)),
      (λ z m. all_killed f z m),
      (λ z. goes_further slots names atoms once k k.names k.found k.running refl refl refl z p),
    )
