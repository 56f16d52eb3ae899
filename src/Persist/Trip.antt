-- ===== src/Persist/Trip.antt =====
-- An atom that stops and is spawned again under its name.
use go_atomos.Common.{
  ℕ, ◌≡◌, refl, sym, subst, Bool, true, false, not, ◌||◌, Option, none, some, List, [], ◌∷◌, arith,
  ◌==◌, if◌then◌else◌,
}
use go_atomos.ErrorCode.{ErrorCode, err_atom_kill_element_no_implement}
use go_atomos.Persist.{
  set_called, answers, get_called, spawn_called, Keeper, Code, Run, then_on, before, stop_with,
  final_error, with_recover, recover_calls, atom_deferred, atom_on_stopping, halted_atom, keep_atom,
  save_atom, atom_spawn, spawn_body, with_keeper, with_data, spawn_last,
}

unfoldable pub mentions : {D : Type 0} → ℕ → List (ℕ × Option D) → Bool
mentions name [] = false
mentions name ((other, d) ∷ sets) = (other == name) || mentions name sets

module _ {D S : Type 0} where
  -- A keeper of data: what it has taken for a name it gives back, until something else is set for the name.
  pub record IsKeeper (k : Keeper D S) : Type 0 where
    pub get_set :
        (name : ℕ) (d : D) (s t : S)
        → k.set_data name (some d) s ≡ (answers none, t)
        → k.get_data name t ≡ (answers (some d, none), t)
    pub get_set_ne :
        (name other : ℕ) (d : D) (x : Option D) (s : S)
        → (other == name) ≡ false
        → k.get_data name s ≡ (answers (some d, none), s)
        → k.get_data name (k.set_data other x s).1
          ≡ (answers (some d, none), (k.set_data other x s).1)

  -- Other atoms set their data.
  unfoldable pub set_all : Keeper D S → List (ℕ × Option D) → S → S
  set_all k [] s = s
  set_all k ((name, d) ∷ sets) s = set_all k sets (k.set_data name d s).1

  get-set_all :
      (k : Keeper D S)
      → IsKeeper k
      → (name : ℕ) (d : D) (sets : List (ℕ × Option D)) (s : S) → mentions name sets ≡ false
      → k.get_data name s ≡ (answers (some d, none), s)
      → k.get_data name (set_all k sets s) ≡ (answers (some d, none), set_all k sets s)
  unfolding set_all mentions
  get-set_all k w name d [] s m e = e
  get-set_all k w name d ((other, x) ∷ sets) s m e =
      get-set_all k w name d sets (k.set_data other x s).1 (ground arith)
        (w.get_set_ne name other d x s (ground arith) e)

  module _ (c : Code D S) (k : Keeper D S) (kept : c.auto_data ≡ some (answers (some k))) where
    on_stopping-set :
        (name : ℕ) (d : Option D) (s u t : S)
        → c.has_impl ≡ true
        → c.halt s ≡ (answers (true, d), u)
        → k.set_data name d u ≡ (answers none, t)
        → ◌≡◌ {A = Option ErrorCode × S} (atom_on_stopping c name s).1 (none, t)
    unfolding atom_on_stopping atom_deferred with_recover then_on halted_atom keep_atom save_atom
    on_stopping-set name d s u t i h z =
        let P : Run D S → Type 0 =
          λ r. ◌≡◌ {A = Option ErrorCode × S} (final_error r.1.0, r.1.1) (none, t) in
        subst (λ r. P (then_on none r (halted_atom c name))) (sym h)
          (subst
            (λ b. P (
              if not b
              then stop_with (some err_atom_kill_element_no_implement) u
              else keep_atom name d c.auto_data u))
            (sym i)
            (subst (λ o. P (keep_atom name d o u)) (sym kept)
              (subst (λ r. P (before (set_called d) (then_on none r (λ e v. stop_with e v))))
                (sym z) refl)))

    spawn-get :
        (name : ℕ) (arg : Option D) (d : D) (s u : S) (e : Option ErrorCode)
        → k.get_data name s ≡ (answers (some d, none), s)
        → c.spawner arg (some d) s ≡ (answers e, u)
        → atom_spawn c name arg s ≡ (get_called ∷ spawn_called arg (some d) ∷ [], (e, u))
    unfolding atom_spawn with_recover spawn_body with_keeper with_data spawn_last then_on
        recover_calls final_error
    spawn-get name arg d s u e g z =
        let P : Run D S → Type 0 =
          λ r. with_recover r ≡ (get_called ∷ spawn_called arg (some d) ∷ [], (e, u)) in
        subst (λ o. P (spawn_body true c name arg o s)) (sym kept)
          (subst (λ r. P (before get_called (then_on none r (with_data true c arg)))) (sym g)
            (subst
              (λ r. P (
                before get_called
                  (before (spawn_called arg (some d)) (then_on none r (λ x v. stop_with x v)))))
              (sym z) refl))

    -- An atom whose `Halt` gives data `d` to keep, with a keeper that takes it and keeps the laws of
    -- `IsKeeper`, stops without an error. If it is spawned again after other atoms have set what they
    -- like under other names, its spawner gets the argument of the spawn and `d`, and the spawn answers what
    -- the spawner answers.
    pub atom_spawn-atom_on_stopping :
        IsKeeper k
        → (name : ℕ) (arg : Option D) (d : D) (s u t v : S) (sets : List (ℕ × Option D))
          (e : Option ErrorCode)
        → c.has_impl ≡ true
        → c.halt s ≡ (answers (true, some d), u)
        → k.set_data name (some d) u ≡ (answers none, t)
        → mentions name sets ≡ false
        → c.spawner arg (some d) (set_all k sets t) ≡ (answers e, v)
        → (◌≡◌ {A = Option ErrorCode × S} (atom_on_stopping c name s).1 (none, t))
          × (atom_spawn c name arg (set_all k sets t)
              ≡ (get_called ∷ spawn_called arg (some d) ∷ [], (e, v)))
    atom_spawn-atom_on_stopping w name arg d s u t v sets e i h z m sp = (
      on_stopping-set name (some d) s u t i h z,
      spawn-get name arg d (set_all k sets t) v e
          (get-set_all k w name d sets t m (w.get_set name d u t z)) sp,
    )
