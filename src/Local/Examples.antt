-- ===== src/Local/Examples.antt =====
-- Programs with two and three elements.
use go_atomos.Common.{ℕ, ◌≡◌, refl, true, false, Option, none, some, List, [], ◌∷◌}
use go_atomos.ErrorCode.{ErrorCode, err_framework_internal_error}
use go_atomos.Common.Maps.{lookup, insert, delete}
use go_atomos.Local.{
  Impl, spawned, killed, log, try_spawning_elements, on_stopping, Build, adds, spawns, build,
  no_runnable, set_element_spawn, add_implementation, add_element_implementation, spawn_loop,
  spawn_round, round_spawned, cosmos_element_spawn, after_spawn, after_loop, kills, start_runnings,
}
use go_atomos.Local.Stopping.{no_cosmos, kills_back, program, on_stopping-try_spawning_elements}

abbrev impl : ℕ → Option ErrorCode → Impl
impl name e = record {
  name = name;
  constructor_panics = false;
  spawn_error = e;
  start_running = true;
}

-- Elements 1 and 2; 1 is asked for twice, 2 later, and 9 is not known.
abbrev two : List Build
two = adds (impl 1 none) true ∷ spawns 9 ∷ adds (impl 2 none) false ∷ spawns 1 ∷ spawns 2 ∷ []

-- Element 3 fails.
abbrev three : List Build
three =
    adds (impl 1 none) true
    ∷ adds (impl 3 (some err_framework_internal_error)) true
    ∷ adds (impl 2 none) true
    ∷ []

two_test : (build two no_runnable).spawn_order ≡ 1 ∷ 2 ∷ []
unfolding build add_element_implementation add_implementation set_element_spawn lookup insert
two_test = refl

begins : (try_spawning_elements (program two) no_cosmos).0 ≡ none
unfolding build add_element_implementation add_implementation set_element_spawn lookup insert
    try_spawning_elements spawn_loop spawn_round round_spawned cosmos_element_spawn after_spawn
    after_loop start_runnings
begins = refl

rolls_back_test :
    (try_spawning_elements (program three) no_cosmos).1.trace ≡ spawned 1 ∷ killed 1 ∷ []
unfolding build add_element_implementation add_implementation set_element_spawn lookup insert delete
    try_spawning_elements spawn_loop spawn_round round_spawned cosmos_element_spawn after_spawn
    after_loop kills
rolls_back_test = refl

-- An element that was killed stays in the map.
rolled_back_test :
    (try_spawning_elements (program three) no_cosmos).1.elements ≡ (1, impl 1 none) ∷ []
unfolding build add_element_implementation add_implementation set_element_spawn lookup insert delete
    try_spawning_elements spawn_loop spawn_round round_spawned cosmos_element_spawn after_spawn
    after_loop kills
rolled_back_test = refl

on_stopping-try_spawning_elements_example :
    let c = (try_spawning_elements (program two) no_cosmos).1 in
    (on_stopping (some (program two)) c).1 ≡ log (kills_back (program two).spawn_order) c
on_stopping-try_spawning_elements_example = on_stopping-try_spawning_elements two begins
