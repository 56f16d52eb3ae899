-- ===== src/Local/Stopping.antt =====
-- A start of the elements and the stop that follows it.
use go_atomos.Common.{
  ℕ, ◌≡◌, refl, sym, ap, ◌∙◌, true, Option, none, some, List, [], ◌∷◌, ◌++◌, map, if◌then◌else◌,
  arith, ==_refl, is_some, has, Distinct,
}
use mathlib.Core.List.{append-nil, append_assoc}
use mathlib.Core.Option.{none-ne-some}
use go_atomos.Common.Maps.{lookup, keys}
use go_atomos.ErrorCode.{ErrorCode}
use go_atomos.Local.{
  Impl, Runnable, Event, killed, started_running, Cosmos, log, Loop, kills, start_runnings,
  after_loop, try_spawning_elements, stop_loop, on_stopping, Build, build, no_runnable,
}
use go_atomos.Local.Builder.{program-IsBuilt}
use go_atomos.Local.Spawning.{names_of, spawns_of, Adds, Looped, all, failed, spawn_loop-Looped}

-- A process in which no element was spawned yet.
abbrev pub no_cosmos : Cosmos
no_cosmos = record { elements = []; trace = [] }

-- The kills of elements with these names, the last one first.
unfoldable pub kills_back : List ℕ → List Event
kills_back [] = []
kills_back (n ∷ ns) = kills_back ns ++ killed n ∷ []

-- The program that some calls of the builder make.
abbrev pub program : List Build → Runnable
program bs = build bs no_runnable

stop_loop-kills_back :
    (ns : List ℕ) (c : Cosmos)
    → ((n : ℕ) → has n ns ≡ true → is_some (lookup n c.elements) ≡ true)
    → stop_loop ns c ≡ log (kills_back ns) c
unfolding stop_loop kills_back
stop_loop-kills_back [] c h = ap (λ t. record c { trace = t }) (sym (append-nil c.trace))
stop_loop-kills_back (n ∷ ns) c h =
    let rest = stop_loop-kills_back ns c (λ m i. h m (ground arith)) in
    let here : is_some (lookup n c.elements) ≡ true = h n (ground (arith, ==_refl n)) in
    rw (rest, here)
      (ap (λ t. record c { trace = t }) (append_assoc c.trace (kills_back ns) (killed n ∷ [])))

-- A kill mail to each of the elements, in their order.
abbrev pub kills_of : List Impl → List Event
kills_of is = map (λ i. killed i.name) is

-- The calls of `StartRunning`, of the elements that have it.
abbrev pub starts_of : List Impl → List Event
starts_of [] = []
starts_of (i ∷ is) = (if i.start_running then started_running i.name ∷ [] else []) ++ starts_of is

kills-kills_of : (is : List Impl) → kills is ≡ kills_of is
unfolding kills
kills-kills_of [] = refl
kills-kills_of (i ∷ is) = ap (λ es. killed i.name ∷ es) (kills-kills_of is)

start_runnings-starts_of : (is : List Impl) → start_runnings is ≡ starts_of is
unfolding start_runnings
start_runnings-starts_of [] = refl
start_runnings-starts_of (i ∷ is) = ground (arith, start_runnings-starts_of is)

-- How a start of the elements comes out.
pub data Began (order : List ℕ) : Option ErrorCode × Cosmos → Type 0 where
  began :
      {d : Cosmos} (new : List Impl)
      → names_of new ≡ order
      → d.trace ≡ spawns_of new ++ starts_of new
      → ((k : ℕ) → is_some (lookup k d.elements) ≡ has k order)
      → Began order (none, d)
  rolled_back :
      {e : ErrorCode} {d : Cosmos} (new : List Impl) (n : ℕ) (rest : List ℕ)
      → order ≡ names_of new ++ n ∷ rest
      → d.trace ≡ spawns_of new ++ kills_of new
      → Began order (some e, d)

append_to : {t u v w : List Event} → t ≡ u → v ≡ w → t ++ v ≡ u ++ w
append_to e f = rw (e, f) refl

after_loop-Began :
    (order : List ℕ) {l : Loop} → Looped no_cosmos order [] l → Began order (after_loop l)
unfolding after_loop Adds lookup
after_loop-Began order (all {d = d} new names l a t) =
    began new names (append_to t (ap start_runnings l ∙ start_runnings-starts_of new))
      (λ k. ground (arith, a.1 k))
after_loop-Began order (failed {d = d} new n rest names l a t) =
    rolled_back new n rest names (append_to t (ap kills l ∙ kills-kills_of new))

holds_after :
    (n : ℕ) (order : List ℕ) {o : Option ErrorCode × Cosmos}
    → Began order o
    → o.0 ≡ none
    → has n order ≡ true
    → is_some (lookup n o.1.elements) ≡ true
holds_after n order (began new names t here) e i = here n ∙ i
holds_after n order (rolled_back new m rest names t) e i = absurd (none-ne-some _ (sym e))

pub try_spawning_elements-Began :
    (bs : List Build)
    → Distinct (program bs).spawn_order
      × Began (program bs).spawn_order (try_spawning_elements (program bs) no_cosmos)
unfolding try_spawning_elements keys
try_spawning_elements-Began bs =
    let b = program-IsBuilt bs in
    (
      b.distinct,
      after_loop-Began (program bs).spawn_order
          (spawn_loop-Looped (program bs) b (program bs).spawn_order [] no_cosmos tt),
    )

-- A process whose elements were spawned without an error sends a kill mail, when it stops, to each of them,
-- in the reverse of the order in which they were spawned.
pub on_stopping-try_spawning_elements :
    (bs : List Build)
    → (try_spawning_elements (program bs) no_cosmos).0 ≡ none
    → let c = (try_spawning_elements (program bs) no_cosmos).1 in
      (on_stopping (some (program bs)) c).1 ≡ log (kills_back (program bs).spawn_order) c
unfolding on_stopping
on_stopping-try_spawning_elements bs e =
    stop_loop-kills_back (program bs).spawn_order (try_spawning_elements (program bs) no_cosmos).1
      (λ n i. holds_after n (program bs).spawn_order (try_spawning_elements-Began bs).1 e i)
