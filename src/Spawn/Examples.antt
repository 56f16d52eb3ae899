-- ===== src/Spawn/Examples.antt =====
-- The lock under a name, with two goroutines that spawn an atom of name 5.
use go_atomos.Common.{ℕ, ◌<◌, ◌≡◌, refl, false, none, [], arith}
use go_atomos.Common.Maps.{lookup, insert}
use go_atomos.Spawn.RefMap.{get_or_put}
use go_atomos.Spawn.Locks.{
  idle, spawning, Locks, enter, take, enters, takes, Steps, none_yet, then_step,
}
use go_atomos.Spawn.Exclusion.{Steps-exclusive, uses}

abbrev quiet : Locks
quiet = record {
  spawn_lock_map = record { m = []; r = [] };
  held = λ l. false;
  next_lock = 0;
  pc = λ i. idle;
}

-- Both enter, and the first one gets the lock.
abbrev busy : Locks
busy = take 0 5 0 (enter 1 5 (enter 0 5 quiet))

to_busy : Steps 2 quiet busy
unfolding take enter get_or_put lookup insert
to_busy =
    then_step
      (then_step (then_step none_yet (enters 0 5 (omega arith) refl))
        (enters 1 5 (omega arith) refl))
      (takes 0 5 0 (omega arith) refl refl)

Steps-exclusive_example :
    ((i j name l k : ℕ)
      → i < 2
      → j < 2
      → busy.pc i ≡ spawning name l
      → busy.pc j ≡ spawning name k
      → i ≡ j)
    × ((name : ℕ)
        → ((i : ℕ) → i < 2 → uses name (busy.pc i) ≡ 0)
        → lookup name busy.spawn_lock_map.m ≡ none)
Steps-exclusive_example =
    Steps-exclusive 2 quiet busy (record { pc = λ i. refl; m = refl; r = refl }) to_busy
