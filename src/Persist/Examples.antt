-- ===== src/Persist/Examples.antt =====
-- A concrete keeper of numbers, and atoms that use it.
use go_atomos.Common.{
  ℕ, ◌≡◌, refl, ap, subst, true, false, Option, none, some, [], ◌∷◌, arith, ◌==◌, if◌then◌else◌,
  ==_refl,
}
use go_atomos.ErrorCode.{ErrorCode, err_framework_internal_error}
use go_atomos.Persist.{
  Answer, answers, panics, get_called, spawn_called, set_called, halt_called, stopping_called,
  Keeper, Code, atom_on_stopping, atom_spawn, element_on_stopping, with_recover, then_on,
  halted_element, keep_element, save_element, auto_load, final_error, atom_deferred, halted_atom,
  keep_atom, save_atom, recover_calls, calls_stopping,
}
use go_atomos.Persist.Stopping.{has_stopping, IsKept, atom_on_stopping_lem}
use go_atomos.Persist.Trip.{IsKeeper, set_all, mentions, atom_spawn-atom_on_stopping}

abbrev Store : Type 0
Store = ℕ → Option ℕ

abbrev put_data : ℕ → Option ℕ → Store → Store
put_data name none s = s
put_data name (some d) s = λ k. if k == name then some d else s k

abbrev numbers : Keeper ℕ Store
numbers = record {
  get_data = λ name s. (answers (s name, none), s);
  set_data = λ name d s. (answers none, put_data name d s);
}

numbers-get_set :
    (name : ℕ) (d : ℕ) (s : Store)
    → numbers.get_data name (put_data name (some d) s)
      ≡ (answers (some d, none), put_data name (some d) s)
numbers-get_set name d s = rw (==_refl name) refl

numbers-get_set_ne :
    (name other d : ℕ) (x : Option ℕ) (s : Store)
    → (other == name) ≡ false
    → s name ≡ some d
    → put_data other x s name ≡ some d
numbers-get_set_ne name other d none s n e = e
numbers-get_set_ne name other d (some x) s n e = ground arith

abbrev answered : Answer (Option ℕ × Option ErrorCode) → Option ℕ
answered panics = none
answered (answers a) = a.0

numbers-IsKeeper : IsKeeper numbers
numbers-IsKeeper = record {
  get_set = λ name d s t e.
      subst (λ v. numbers.get_data name v ≡ (answers (some d, none), v)) (ap (λ p. p.1) e)
        (numbers-get_set name d s);
  get_set_ne = λ name other d x s n e.
      ap (λ o. (answers (o, none), put_data other x s))
        (numbers-get_set_ne name other d x s n (ap (λ p. answered p.0) e));
}

-- An atom that keeps 7.
abbrev code : Code ℕ Store
code = record {
  has_impl = true;
  loader = none;
  auto_data = some (answers (some numbers));
  spawner = λ arg d s. (answers none, s);
  halt = λ s. (answers (true, some 7), s);
  hook_panics = false;
}

abbrev empty : Store
empty k = none

atom_spawn-atom_on_stopping_example :
    (◌≡◌ {A = Option ErrorCode × Store}
      (atom_on_stopping code 3 empty).1
      (none, put_data 3 (some 7) empty))
    × (atom_spawn code 3 none (set_all numbers ((4, some 9) ∷ []) (put_data 3 (some 7) empty)) ≡ (
      get_called ∷ spawn_called none (some 7) ∷ [],
      (none, set_all numbers ((4, some 9) ∷ []) (put_data 3 (some 7) empty)),
    ))
unfolding mentions
atom_spawn-atom_on_stopping_example =
    atom_spawn-atom_on_stopping code numbers refl numbers-IsKeeper 3 none 7 empty empty
      (put_data 3 (some 7) empty) (set_all numbers ((4, some 9) ∷ []) (put_data 3 (some 7) empty))
      ((4, some 9) ∷ []) none refl refl refl refl refl

atom_on_stopping_lem_example :
    (code.hook_panics ≡ false → has_stopping (atom_on_stopping code 3 empty).0 ≡ true)
    × ((atom_on_stopping code 3 empty).1.0 ≡ none
        → IsKept code 3 empty (atom_on_stopping code 3 empty).1.1)
atom_on_stopping_lem_example = atom_on_stopping_lem code 3 empty

-- A keeper that refuses, and an element without a loader.
abbrev refusing : Keeper ℕ Store
refusing = record {
  get_data = λ name s. (answers (none, none), s);
  set_data = λ name d s. (answers (some err_framework_internal_error), s);
}

abbrev element : Code ℕ Store
element = record code { auto_data = some (answers (some refusing)) }

-- The error of the keeper is lost.
lost_test : (element_on_stopping element empty).1.0 ≡ none
unfolding element_on_stopping with_recover then_on halted_element keep_element save_element
    auto_load final_error
lost_test = refl

calls_test :
    (atom_on_stopping code 3 empty).0 ≡ halt_called ∷ set_called (some 7) ∷ stopping_called ∷ []
unfolding atom_on_stopping atom_deferred with_recover then_on halted_atom keep_atom save_atom
    recover_calls calls_stopping
calls_test = refl

-- An atom whose `Halt` panics, and then the hook.
abbrev twice : Code ℕ Store
twice = record code { halt = λ s. (panics, s); hook_panics = true }

twice_test : has_stopping (atom_on_stopping twice 3 empty).0 ≡ false
unfolding atom_on_stopping atom_deferred with_recover then_on recover_calls calls_stopping
twice_test = refl
