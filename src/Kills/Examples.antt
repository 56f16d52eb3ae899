-- ===== src/Kills/Examples.antt =====
-- Two atoms and one slot.
use go_atomos.Common.{ℕ, ◌+◌, ◌*◌, ◌≤◌, ◌≡◌, refl, true, false, [], ◌∷◌, arith, has}
use go_atomos.Kills.{
  Kills, snapshot, start, leave, Step, passes_over, finds, starts, ends, leaves, goes_on, Steps,
  none_yet, and_then, count,
}
use go_atomos.Kills.Progress.{Steps-killed}

abbrev over : Kills
over = record {
  names = [];
  found = [];
  running = [];
  killed = 2 ∷ [];
  gone = 1 ∷ [];
  atoms = 2 ∷ [];
  away = 1 ∷ [];
  halts = true;
}

-- Atom 2 is killed; atom 1 has left while the kill runs.
run : Steps 1 (start (1 ∷ 2 ∷ []) (1 ∷ 2 ∷ [])) 6 over
unfolding start snapshot leave
run =
    and_then
      (and_then
        (and_then
          (and_then
            (and_then (and_then none_yet (finds refl refl refl)) (starts refl (omega arith)))
            (leaves 1 refl))
          (ends {n = 2} refl))
        (passes_over refl refl refl))
      (goes_on refl refl refl refl)

Steps-killed_example :
    (6 ≤ 3 * 2 + 2 + 1)
    × (0 ≤ 1)
    × ((m : ℕ) → 0 + count m (2 ∷ []) ≤ count m (1 ∷ 2 ∷ []))
    × (true ≡ true
        → (m : ℕ) → has m (1 ∷ 2 ∷ []) ≡ true
        → has m (1 ∷ []) ≡ false
        → count m (2 ∷ []) ≡ count m (1 ∷ 2 ∷ []))
    × (true ≡ false → (l : Kills) × Step 1 over l × (l.away ≡ 1 ∷ []))
unfolding count
Steps-killed_example = Steps-killed 1 (1 ∷ 2 ∷ []) (1 ∷ 2 ∷ []) (omega arith) (refl, (refl, tt)) run
