-- ===== src/Persist.antt =====
-- atom_local.go, element_local.go: how an atom and an element are spawned and stopped around the code of
-- the user, with the data that is kept for them. Everything that the user answers is a parameter, which may
-- also panic; `S` is the state of what keeps the data, and `D` the type of the data.
pub mod Stopping
pub mod Trip
pub mod Examples
use go_atomos.Common.{
  ℕ, zero, suc, ◌+◌, ◌-◌, ◌*◌, ◌/◌, ◌%◌, ◌≤◌, ◌<◌, ◌≡◌, ◌≢◌, ◌↔◌, ◌⊎◌, inl, inr, refl, sym, ap,
  subst, ◌∙◌, Bool, true, false, not, ◌&&◌, ◌||◌, Option, none, some, List, [], ◌∷◌, ◌++◌, map,
  arith, ltb, leb, ◌==◌, if◌then◌else◌, ==→eq, ==_refl, ==_ne, Bool-cases, Option-cases, is_some,
  length, length-append, last_or, last_or-append, find, erase_first, has, Distinct, has-append,
  Distinct-snoc, without, has-without_self, has-without_ne, has-erase_first, erase_first-Distinct,
}
use go_atomos.ErrorCode.{
  ErrorCode, err_framework_recover_from_panic, err_atom_kill_element_no_implement,
  err_atom_kill_element_not_implement_auto_data_persistence, err_atom_data_not_found,
}

pub data Answer {ℓ} (A : Type ℓ) : Type ℓ where
  answers : A → Answer A
  panics : Answer A

-- The calls of the user's code; `stopping_called` is `elementAtomStopping`, the framework's.
pub data Event (D : Type 0) : Type 0 where
  load_called unload_called get_called halt_called recover_called stopping_called : Event D
  spawn_called : (arg d : Option D) → Event D
  set_called : Option D → Event D

-- How a function's body ends: it returns, or it panics when its named result `err` is this.
pub data End : Type 0 where
  ends panicked : Option ErrorCode → End

module _ (D S : Type 0) where
  -- `AtomAutoData` (by the name of the atom) and `ElementAutoData` (by any name).
  pub record Keeper : Type 0 where
    pub get_data : ℕ → S → Answer (Option D × Option ErrorCode) × S
    pub set_data : ℕ → Option D → S → Answer (Option ErrorCode) × S

  -- `ElementLoader`
  pub record Loader : Type 0 where
    pub load : S → Answer (Option ErrorCode) × S
    pub unload : S → Answer (Option ErrorCode) × S

  -- The code of an atom or an element. `auto_data` is `none` if the developer is no `AutoData`;
  -- otherwise it is what `AtomAutoData()` or `ElementAutoData()` answers, which may be nil. An atom has no
  -- loader. `has_impl`: the element has an implementation. `hook_panics`: the hook of a panic panics.
  pub record Code : Type 0 where
    pub has_impl : Bool
    pub loader : Option Loader
    pub auto_data : Option (Answer (Option Keeper))
    pub spawner : (arg d : Option D) → S → Answer (Option ErrorCode) × S
    pub halt : S → Answer (Bool × Option D) × S
    pub hook_panics : Bool

-- The deferred function: a panic becomes an error, and the hook is called with it.
unfoldable pub recover_calls : {D : Type 0} → End → List (Event D)
recover_calls (ends e) = []
recover_calls (panicked e) = recover_called ∷ []

unfoldable pub final_error : End → Option ErrorCode
final_error (ends e) = e
final_error (panicked none) = some err_framework_recover_from_panic
final_error (panicked (some e)) = some e

-- After a panic whose hook panics too, the deferred function does not go on.
unfoldable pub calls_stopping : (hook_panics : Bool) → End → Bool
calls_stopping hook_panics (ends e) = true
calls_stopping hook_panics (panicked e) = not hook_panics

-- What was called, how it ended, and the state.
abbrev pub Run : (D S : Type 0) → Type 0
Run D S = List (Event D) × (End × S)

module _ {D S : Type 0} where
  abbrev pub stop_with : Option ErrorCode → S → Run D S
  stop_with e s = ([], (ends e, s))

  abbrev pub before : Event D → Run D S → Run D S
  before ev (evs, r) = (ev ∷ evs, r)

  -- A call of the user's code, and what follows if it comes back; `err` is the named result at the time.
  unfoldable pub then_on :
      {A : Type 0} → Option ErrorCode → Answer A × S → (A → S → Run D S) → Run D S
  then_on err (panics, s) next = ([], (panicked err, s))
  then_on err (answers a, s) next = next a s

  abbrev pub on_error : (S → Run D S) → Option ErrorCode → S → Run D S
  on_error next none s = next s
  on_error next (some e) s = stop_with (some e) s

  spawn_last : Code D S → (arg d : Option D) → S → Run D S
  unfolding then_on
  spawn_last c arg d s =
      before (spawn_called arg d) (then_on none (c.spawner arg d s) (λ e t. stop_with e t))

  -- `GetAtomData`, and the check that there is an argument or data.
  unfoldable pub with_data :
      (required : Bool) → Code D S → (arg : Option D) → Option D × Option ErrorCode → S → Run D S
  unfolding spawn_last
  with_data required c arg (d, some e) s = stop_with (some e) s
  with_data required c arg (none, none) s =
      if required && not (is_some arg)
      then stop_with (some err_atom_data_not_found) s
      else spawn_last c arg none s
  with_data required c arg (some x, none) s = spawn_last c arg (some x) s

  unfoldable pub with_keeper :
      (required : Bool) → Code D S → ℕ → (arg : Option D) → Option (Keeper D S) → S → Run D S
  unfolding then_on spawn_last with_data
  with_keeper required c name arg none s = spawn_last c arg none s
  with_keeper required c name arg (some k) s =
      before get_called (then_on none (k.get_data name s) (with_data required c arg))

  unfoldable pub spawn_body :
      (required : Bool)
      → Code D S
      → ℕ
      → (arg : Option D) → Option (Answer (Option (Keeper D S)))
      → S
      → Run D S
  unfolding then_on with_keeper spawn_last
  spawn_body required c name arg none s = spawn_last c arg none s
  spawn_body required c name arg (some a) s = then_on none (a, s) (with_keeper required c name arg)

  unfoldable pub with_recover : Run D S → List (Event D) × (Option ErrorCode × S)
  unfolding recover_calls final_error
  with_recover (evs, (end, s)) = (evs ++ recover_calls end, (final_error end, s))

  -- `AtomLocal.elementAtomSpawn`
  unfoldable pub atom_spawn :
      Code D S → (name : ℕ) (arg : Option D) → S → List (Event D) × (Option ErrorCode × S)
  unfolding with_recover spawn_body
  atom_spawn c name arg s = with_recover (spawn_body true c name arg c.auto_data s)

  -- `ElementLocal.cosmosElementSpawn`
  unfoldable pub load_first : Option (Loader D S) → (S → Run D S) → S → Run D S
  unfolding then_on
  load_first none next s = next s
  load_first (some l) next s = before load_called (then_on none (l.load s) (on_error next))

  unfoldable pub element_spawn : Code D S → S → List (Event D) × (Option ErrorCode × S)
  unfolding with_recover load_first spawn_body
  element_spawn c s = with_recover (load_first c.loader (spawn_body false c 0 none c.auto_data) s)

  -- `AtomLocal.OnStopping` from the data on that `Halt` gives.
  unfoldable pub save_atom : ℕ → (d : Option D) → Option (Keeper D S) → S → Run D S
  unfolding then_on
  save_atom name d none s =
      stop_with (some err_atom_kill_element_not_implement_auto_data_persistence) s
  save_atom name d (some k) s =
      before (set_called d) (then_on none (k.set_data name d s) (λ e t. stop_with e t))

  unfoldable pub keep_atom :
      ℕ → (d : Option D) → Option (Answer (Option (Keeper D S))) → S → Run D S
  unfolding then_on save_atom
  keep_atom name d none s =
      stop_with (some err_atom_kill_element_not_implement_auto_data_persistence) s
  keep_atom name d (some a) s = then_on none (a, s) (save_atom name d)

  unfoldable pub halted_atom : Code D S → ℕ → Bool × Option D → S → Run D S
  unfolding keep_atom
  halted_atom c name (save, d) s =
      if not save
      then stop_with none s
      else if not c.has_impl
      then stop_with (some err_atom_kill_element_no_implement) s
      else keep_atom name d c.auto_data s

  unfoldable pub atom_deferred : Bool → Run D S → List (Event D) × (Option ErrorCode × S)
  unfolding with_recover calls_stopping
  atom_deferred hook_panics r = (
    (with_recover r).0 ++ (if calls_stopping hook_panics r.1.0 then stopping_called ∷ [] else []),
    (with_recover r).1,
  )

  unfoldable pub atom_on_stopping :
      Code D S → (name : ℕ) → S → List (Event D) × (Option ErrorCode × S)
  unfolding atom_deferred then_on halted_atom
  atom_on_stopping c name s =
      atom_deferred c.hook_panics
        (before halt_called (then_on none (c.halt s) (halted_atom c name)))

  -- `ElementLocal.OnStopping` from the label `autoLoad` on, where `err` is this.
  unfoldable pub auto_load : Option ErrorCode → Option (Loader D S) → S → Run D S
  unfolding then_on
  auto_load err none s = stop_with none s
  auto_load err (some l) s = before unload_called (then_on err (l.unload s) (λ e t. stop_with e t))

  unfoldable pub save_element : Code D S → (d : Option D) → Option (Keeper D S) → S → Run D S
  unfolding then_on auto_load
  save_element c d none s =
      stop_with (some err_atom_kill_element_not_implement_auto_data_persistence) s
  save_element c d (some k) s =
      before (set_called d) (then_on none (k.set_data 0 d s) (λ e t. auto_load e c.loader t))

  unfoldable pub keep_element :
      Code D S → (d : Option D) → Option (Answer (Option (Keeper D S))) → S → Run D S
  unfolding then_on save_element auto_load
  keep_element c d none s =
      auto_load (some err_atom_kill_element_not_implement_auto_data_persistence) c.loader s
  keep_element c d (some a) s = then_on none (a, s) (save_element c d)

  unfoldable pub halted_element : Code D S → Bool × Option D → S → Run D S
  unfolding keep_element auto_load
  halted_element c (save, d) s =
      if save then keep_element c d c.auto_data s else auto_load none c.loader s

  -- `ElementLocal.OnStopping` after its atoms are killed (module Kills).
  unfoldable pub element_on_stopping : Code D S → S → List (Event D) × (Option ErrorCode × S)
  unfolding with_recover then_on halted_element
  element_on_stopping c s =
      with_recover (before halt_called (then_on none (c.halt s) (halted_element c)))
