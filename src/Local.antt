-- ===== src/Local.antt =====
-- cosmos.go, cosmos_local.go: the elements that a program asks for, their spawn at the start of the process
-- with its roll-back, and their stop; and the element that a call is routed to. An element is known by its
-- name, and what the spawn of an element answers (module Persist) is a parameter of its implementation.
pub mod Builder
pub mod Spawning
pub mod Stopping
pub mod Examples
use go_atomos.Common.{
  ℕ, zero, suc, ◌+◌, ◌-◌, ◌*◌, ◌/◌, ◌%◌, ◌≤◌, ◌<◌, ◌≡◌, ◌≢◌, ◌↔◌, ◌⊎◌, inl, inr, refl, sym, ap,
  subst, ◌∙◌, Bool, true, false, not, ◌&&◌, ◌||◌, Option, none, some, List, [], ◌∷◌, ◌++◌, map,
  arith, ltb, leb, ◌==◌, if◌then◌else◌, ==→eq, ==_refl, ==_ne, Bool-cases, Option-cases, is_some,
  length, length-append, last_or, last_or-append, find, erase_first, has, Distinct, has-append,
  Distinct-snoc, without, has-without_self, has-without_ne, has-erase_first, erase_first-Distinct,
}
use go_atomos.Common.Maps.{lookup, insert, delete}
use go_atomos.ErrorCode.{
  ErrorCode, err_framework_recover_from_panic, err_element_loaded, err_main_element_not_found,
  err_main_runnable_not_found,
}

-- `ElementImplementation`: whether the constructor panics, what the spawn answers, and whether the instance
-- is an `ElementStartRunning`.
pub record Impl : Type 0 where
  pub name : ℕ
  pub constructor_panics : Bool
  pub spawn_error : Option ErrorCode
  pub start_running : Bool

-- `CosmosRunnable`
pub record Runnable : Type 0 where
  pub implements : List (ℕ × Impl)
  pub spawn_element : List (ℕ × Bool)
  pub spawn_order : List ℕ

unfoldable pub set_element_spawn : ℕ → Runnable → Runnable
set_element_spawn name r =
    if not (is_some (lookup name r.implements))
    then r
    else if is_some (lookup name r.spawn_element)
    then r
    else record r {
      spawn_element = insert name true r.spawn_element;
      spawn_order = r.spawn_order ++ name ∷ [];
    }

unfoldable pub add_implementation : Impl → Runnable → Runnable
add_implementation i r =
    if is_some (lookup i.name r.implements)
    then r
    else record r { implements = insert i.name i r.implements }

unfoldable pub add_element_implementation : Impl → (set_spawn : Bool) → Runnable → Runnable
unfolding set_element_spawn add_implementation
add_element_implementation i set_spawn r =
    if set_spawn then set_element_spawn i.name (add_implementation i r) else add_implementation i r

pub data Build : Type 0 where
  adds : Impl → (set_spawn : Bool) → Build
  spawns : (name : ℕ) → Build

unfoldable pub build : List Build → Runnable → Runnable
unfolding set_element_spawn add_element_implementation
build [] r = r
build (adds i set_spawn ∷ bs) r = build bs (add_element_implementation i set_spawn r)
build (spawns name ∷ bs) r = build bs (set_element_spawn name r)

-- `&CosmosRunnable{}`
abbrev pub no_runnable : Runnable
no_runnable = record { implements = []; spawn_element = []; spawn_order = [] }

-- What happens to elements: the spawn that succeeds, the kill mail, and the call of `StartRunning`.
pub data Event : Type 0 where
  spawned killed started_running : (name : ℕ) → Event

-- `CosmosLocal`, with what has happened.
pub record Cosmos : Type 0 where
  pub elements : List (ℕ × Impl)
  pub trace : List Event

abbrev pub log : List Event → Cosmos → Cosmos
log es c = record c { trace = c.trace ++ es }

-- The element is in the map while its spawn runs.
unfoldable pub after_spawn : Impl → Option ErrorCode → Cosmos → Option ErrorCode × Cosmos
after_spawn i none c = (none, log (spawned i.name ∷ []) c)
after_spawn i (some e) c = (some e, record c { elements = delete i.name c.elements })

-- `CosmosLocal.cosmosElementSpawn`
unfoldable pub cosmos_element_spawn : Impl → Cosmos → Option ErrorCode × Cosmos
unfolding after_spawn
cosmos_element_spawn i c =
    if i.constructor_panics
    then (some err_framework_recover_from_panic, c)
    else if is_some (lookup i.name c.elements)
    then (some err_element_loaded, c)
    else after_spawn i i.spawn_error (record c { elements = insert i.name i c.elements })

-- How the loop of `trySpawningElements` ends: its error, and the elements that it has loaded.
abbrev pub Loop : Type 0
Loop = Option ErrorCode × (List Impl × Cosmos)

unfoldable pub round_spawned :
    (next : List Impl → Cosmos → Loop)
    → Impl
    → (loaded : List Impl) → Option ErrorCode × Cosmos
    → Loop
round_spawned next i loaded (none, d) = next (loaded ++ i ∷ []) d
round_spawned next i loaded (some e, d) = (some e, (loaded, d))

unfoldable pub spawn_round :
    (next : List Impl → Cosmos → Loop) → Option Impl → (loaded : List Impl) → Cosmos → Loop
unfolding round_spawned cosmos_element_spawn
spawn_round next none loaded c = (some err_main_element_not_found, (loaded, c))
spawn_round next (some i) loaded c = round_spawned next i loaded (cosmos_element_spawn i c)

unfoldable pub spawn_loop : Runnable → (names : List ℕ) (loaded : List Impl) → Cosmos → Loop
unfolding spawn_round
spawn_loop r [] loaded c = (none, (loaded, c))
spawn_loop r (name ∷ names) loaded c =
    spawn_round (spawn_loop r names) (lookup name r.implements) loaded c

unfoldable pub kills : List Impl → List Event
kills [] = []
kills (i ∷ is) = killed i.name ∷ kills is

unfoldable pub start_runnings : List Impl → List Event
start_runnings [] = []
start_runnings (i ∷ is) =
    if i.start_running then started_running i.name ∷ start_runnings is else start_runnings is

-- The roll-back, or the goroutines that call `StartRunning`, in the order in which they are started.
unfoldable pub after_loop : Loop → Option ErrorCode × Cosmos
unfolding kills start_runnings
after_loop (some e, (loaded, c)) = (some e, log (kills loaded) c)
after_loop (none, (loaded, c)) = (none, log (start_runnings loaded) c)

unfoldable pub try_spawning_elements : Runnable → Cosmos → Option ErrorCode × Cosmos
unfolding spawn_loop after_loop
try_spawning_elements r c = after_loop (spawn_loop r r.spawn_order [] c)

-- The loop of `OnStopping`, from the last name to the first; a kill that fails is logged only.
unfoldable pub stop_loop : List ℕ → Cosmos → Cosmos
stop_loop [] c = c
stop_loop (name ∷ names) c =
    let d = stop_loop names c in
    if is_some (lookup name d.elements) then log (killed name ∷ []) d else d

unfoldable pub on_stopping : Option Runnable → Cosmos → Option ErrorCode × Cosmos
unfolding stop_loop
on_stopping none c = (none, c)
on_stopping (some r) c = (none, stop_loop r.spawn_order c)
