-- ===== src/Kills.antt =====
-- element_local.go: `ElementLocal.OnStopping` up to the stop of the element itself: it kills its atoms, the
-- last one first, on goroutines of which at most `slots` run at a time, and waits for all of them. A
-- goroutine ends when the kill comes back, which is at its timeout at the latest, or panics. An atom is its
-- name, and an atom that has gone since the names were read is passed over.
pub mod Progress
pub mod Examples
use go_atomos.Common.{
  ℕ, zero, suc, ◌+◌, ◌-◌, ◌*◌, ◌/◌, ◌%◌, ◌≤◌, ◌<◌, ◌≡◌, ◌≢◌, ◌↔◌, ◌⊎◌, inl, inr, refl, sym, ap,
  subst, ◌∙◌, Bool, true, false, not, ◌&&◌, ◌||◌, Option, none, some, List, [], ◌∷◌, ◌++◌, map,
  arith, ltb, leb, ◌==◌, if◌then◌else◌, ==→eq, ==_refl, ==_ne, Bool-cases, Option-cases, is_some,
  length, length-append, last_or, last_or-append, find, erase_first, has, Distinct, has-append,
  Distinct-snoc, without, has-without_self, has-without_ne, has-erase_first, erase_first-Distinct,
}
use mathlib.Core.Bool.{false≢true}

-- `names` are left; `found` is the atom that waits for a slot, for `running` a kill runs, `killed` had theirs,
-- and `gone` were passed over. `atoms` are those in `e.atoms`, `away` those that have left it before they
-- were found; and whether the element has gone on to its own stop.
pub record Kills : Type 0 where
  pub names : List ℕ
  pub found : List ℕ
  pub running : List ℕ
  pub killed : List ℕ
  pub gone : List ℕ
  pub atoms : List ℕ
  pub away : List ℕ
  pub halts : Bool

-- The names in `e.names`, from the last to the first.
unfoldable pub snapshot : List ℕ → List ℕ
snapshot [] = []
snapshot (n ∷ ns) = snapshot ns ++ n ∷ []

unfoldable pub start : (names atoms : List ℕ) → Kills
unfolding snapshot
start names atoms = record {
  names = snapshot names;
  found = [];
  running = [];
  killed = [];
  gone = [];
  atoms = atoms;
  away = [];
  halts = false;
}

-- An atom halts and leaves `e.atoms`, on its own goroutine.
unfoldable pub leave : ℕ → Kills → Kills
leave n k = record k {
  atoms = without n k.atoms;
  away = if has n k.found || (has n k.running || has n k.killed) then k.away else n ∷ k.away;
}

-- The loop looks each name up in `e.atoms`, and takes a slot for the kill of an atom.
pub data Step (slots : ℕ) (k : Kills) : Kills → Type 0 where
  passes_over :
      {n : ℕ} {ns : List ℕ}
      → k.found ≡ []
      → k.names ≡ n ∷ ns
      → has n k.atoms ≡ false
      → Step slots k (record k { names = ns; gone = n ∷ k.gone })
  finds :
      {n : ℕ} {ns : List ℕ}
      → k.found ≡ []
      → k.names ≡ n ∷ ns
      → has n k.atoms ≡ true
      → Step slots k (record k { names = ns; found = n ∷ [] })
  starts :
      {n : ℕ} {ns : List ℕ}
      → k.found ≡ n ∷ ns
      → length k.running < slots
      → Step slots k (record k { found = ns; running = k.running ++ n ∷ [] })
  ends :
      {n : ℕ}
      → has n k.running ≡ true
      → Step slots k (record k { running = without n k.running; killed = n ∷ k.killed })
  leaves : (n : ℕ) → has n k.atoms ≡ true → Step slots k (leave n k)
  goes_on :
      k.names ≡ []
      → k.found ≡ []
      → k.running ≡ []
      → k.halts ≡ false
      → Step slots k (record k { halts = true })

-- A number of steps.
pub data Steps (slots : ℕ) : Kills → ℕ → Kills → Type 0 where
  none_yet : {k : Kills} → Steps slots k 0 k
  and_then : {k l m : Kills} {n : ℕ} → Steps slots k n l → Step slots l m → Steps slots k (suc n) m

-- How often a name stands in a list.
unfoldable pub count : ℕ → List ℕ → ℕ
count m [] = 0
count m (n ∷ ns) = (if m == n then 1 else 0) + count m ns

has-count : (m : ℕ) (xs : List ℕ) → has m xs ≡ true → 1 ≤ count m xs
unfolding count
has-count m [] h = absurd (false≢true h)
has-count m (x ∷ xs) h = ground (arith, has-count m xs)

count-has_no : (m : ℕ) (xs : List ℕ) → has m xs ≡ false → count m xs ≡ 0
unfolding count
count-has_no m [] h = refl
count-has_no m (x ∷ xs) h = ground (arith, count-has_no m xs)

Distinct-count : (m : ℕ) (xs : List ℕ) → Distinct xs → count m xs ≤ 1
unfolding count
Distinct-count m [] d = omega arith
Distinct-count m (x ∷ xs) d = elim (Bool-cases (m == x)) [
  | inl e ↦
      let away : has m xs ≡ false = subst (λ y. has y xs ≡ false) (sym (==→eq m x e)) d.0 in
      rw e (omega (arith, count-has_no m xs away))
  | inr e ↦ rw e (omega (arith, Distinct-count m xs d.1))
]

count-append : (m : ℕ) (xs ys : List ℕ) → count m (xs ++ ys) ≡ count m xs + count m ys
unfolding count
count-append m [] ys = omega arith
count-append m (x ∷ xs) ys = omega (arith, count-append m xs ys)

count-without :
    (m n : ℕ) (xs : List ℕ)
    → has n xs ≡ true
    → count m xs ≡ (if m == n then 1 else 0) + count m (without n xs)
unfolding count
count-without m n [] h = absurd (false≢true h)
count-without m n (x ∷ xs) h = ground (arith, count-without m n xs)

length-without : (n : ℕ) (xs : List ℕ) → has n xs ≡ true → length xs ≡ suc (length (without n xs))
length-without n [] h = absurd (false≢true h)
length-without n (x ∷ xs) h = ground (arith, length-without n xs)

count-snapshot : (m : ℕ) (xs : List ℕ) → count m (snapshot xs) ≡ count m xs
unfolding count snapshot
count-snapshot m [] = refl
count-snapshot m (x ∷ xs) =
    omega (arith, count-append m (snapshot xs) (x ∷ []), count-snapshot m xs)

length-snapshot : (xs : List ℕ) → length (snapshot xs) ≡ length xs
unfolding snapshot
length-snapshot [] = refl
length-snapshot (x ∷ xs) = omega (arith, length-append (snapshot xs) (x ∷ []), length-snapshot xs)
