-- ===== src/Persist/Stopping.antt =====
-- What the stop of an atom keeps.
use go_atomos.Common.{
  ℕ, ◌≡◌, inl, inr, refl, sym, subst, Bool, true, false, not, ◌||◌, Option, none, some, List, [],
  ◌∷◌, ◌++◌, arith, if◌then◌else◌, Bool-cases,
}
use go_atomos.ErrorCode.{ErrorCode, err_atom_kill_element_no_implement}
use mathlib.Core.Option.{none-ne-some}
use go_atomos.Persist.{
  Answer, answers, panics, Event, stopping_called, ends, panicked, Keeper, Code, Run, then_on,
  before, stop_with, halt_called, recover_called, final_error, recover_calls, with_recover,
  calls_stopping, atom_deferred, atom_on_stopping, halted_atom, keep_atom, save_atom,
}

module _ {D : Type 0} where
  abbrev pub is_stopping : Event D → Bool
  is_stopping stopping_called = true
  is_stopping _ = false

  abbrev pub has_stopping : List (Event D) → Bool
  has_stopping [] = false
  has_stopping (e ∷ es) = is_stopping e || has_stopping es

  has_stopping-append : (es : List (Event D)) → has_stopping (es ++ stopping_called ∷ []) ≡ true
  has_stopping-append [] = refl
  has_stopping-append (e ∷ es) = ground (arith, has_stopping-append es)

module _ {D S : Type 0} where
  module _ (c : Code D S) (name : ℕ) (s : S) where
    -- Nothing had to be kept, or the keeper has taken it; `t` is the state after it.
    pub data IsKept (t : S) : Type 0 where
      nothing : (d : Option D) → c.halt s ≡ (answers (false, d), t) → IsKept t
      taken :
          (d : Option D) (k : Keeper D S) (u : S)
          → c.halt s ≡ (answers (true, d), u)
          → c.auto_data ≡ some (answers (some k))
          → k.set_data name d u ≡ (answers none, t)
          → IsKept t

    -- If the run ends without an error, all is kept.
    Keeps : Run D S → Type 0
    Keeps r = final_error r.1.0 ≡ none → IsKept r.1.1

    end-Keeps :
        (d : Option D) (k : Keeper D S) (u : S)
        → c.halt s ≡ (answers (true, d), u)
        → c.auto_data ≡ some (answers (some k))
        → (r : Answer (Option ErrorCode) × S) → k.set_data name d u ≡ r
        → Keeps (then_on none r (λ e t. stop_with e t))
    unfolding Keeps then_on final_error
    end-Keeps d k u h a (panics, t) e z = absurd (none-ne-some _ (sym z))
    end-Keeps d k u h a (answers none, t) e z = taken d k u h a e
    end-Keeps d k u h a (answers (some x), t) e z = absurd (none-ne-some _ (sym z))

    keep-Keeps :
        (d : Option D) (u : S)
        → c.halt s ≡ (answers (true, d), u)
        → (o : Option (Answer (Option (Keeper D S)))) → c.auto_data ≡ o
        → Keeps (keep_atom name d o u)
    unfolding Keeps then_on final_error keep_atom save_atom
    keep-Keeps d u h none a z = absurd (none-ne-some _ (sym z))
    keep-Keeps d u h (some panics) a z = absurd (none-ne-some _ (sym z))
    keep-Keeps d u h (some (answers none)) a z = absurd (none-ne-some _ (sym z))
    keep-Keeps d u h (some (answers (some k))) a z =
        end-Keeps d k u h a (k.set_data name d u) refl z

    halted-Keeps :
        (r : Answer (Bool × Option D) × S)
        → c.halt s ≡ r
        → Keeps (then_on none r (halted_atom c name))
    unfolding Keeps then_on final_error halted_atom
    halted-Keeps (panics, u) h = λ z. absurd (none-ne-some _ (sym z))
    halted-Keeps (answers (false, d), u) h = λ z. nothing d h
    halted-Keeps (answers (true, d), u) h = elim (Bool-cases c.has_impl) [
      | inl e ↦
          subst
            (λ b. Keeps (
              if not b
              then stop_with (some err_atom_kill_element_no_implement) u
              else keep_atom name d c.auto_data u))
            (sym e) (keep-Keeps d u h c.auto_data refl)
      | inr e ↦
          subst
            (λ b. Keeps (
              if not b
              then stop_with (some err_atom_kill_element_no_implement) u
              else keep_atom name d c.auto_data u))
            (sym e) (λ z. absurd (none-ne-some _ (sym z)))
    ]

    deferred-stopping :
        (r : Run D S)
        → c.hook_panics ≡ false
        → has_stopping (atom_deferred c.hook_panics r).0 ≡ true
    unfolding atom_deferred with_recover recover_calls calls_stopping
    deferred-stopping (es, (ends e, t)) q = has_stopping-append (es ++ [])
    deferred-stopping (es, (panicked e, t)) q =
        rw q (has_stopping-append (es ++ recover_called ∷ []))

    -- The stop of an atom whose hook of panics does not panic itself reaches `elementAtomStopping`, whatever
    -- the user's code answers or wherever it panics. And if it answers no error, then `Halt` had nothing to
    -- keep, or the keeper of the element's implementation has taken, without an error, the data that
    -- `Halt` gave.
    pub atom_on_stopping_lem :
        (c.hook_panics ≡ false → has_stopping (atom_on_stopping c name s).0 ≡ true)
        × ((atom_on_stopping c name s).1.0 ≡ none → IsKept (atom_on_stopping c name s).1.1)
    unfolding atom_on_stopping atom_deferred with_recover Keeps
    atom_on_stopping_lem = (
      deferred-stopping (before halt_called (then_on none (c.halt s) (halted_atom c name))),
      halted-Keeps (c.halt s) refl,
    )
