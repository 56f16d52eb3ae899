-- ===== src/Common/Lists.antt =====
-- Lists measured by native numbers, and lists of numbers that hold each entry once.
use Prim.Native.Nat.{ℕ, suc, ◌+◌, ◌≤◌}
use mathlib.Core.Path.{◌≡◌, refl}
use mathlib.Core.Bool.{false≢true, Bool, true, false, ◌||◌}
use mathlib.Core.Option.{Option, none, some}
use mathlib.Core.List.{List, [], ◌∷◌, ◌++◌}
use native.Mathlib.Omega.{arith}
use go_atomos.Common.Tests.{◌==◌, if◌then◌else◌}

module _ {ℓ} {A : Type ℓ} where
  abbrev pub length : List A → ℕ
  length [] = 0
  length (x ∷ xs) = suc (length xs)

  pub length-append : (xs ys : List A) → length (xs ++ ys) ≡ length xs + length ys
  length-append [] ys = omega arith
  length-append (x ∷ xs) ys = omega (arith, length-append xs ys)

  -- The last entry, or `d` of an empty list.
  abbrev pub last_or : A → List A → A
  last_or d [] = d
  last_or d (x ∷ xs) = last_or x xs

  pub last_or-append : (d : A) (xs : List A) (y : A) → last_or d (xs ++ y ∷ []) ≡ y
  last_or-append d [] y = refl
  last_or-append d (x ∷ xs) y = last_or-append x xs y

  -- The first entry that passes a test, and the list without it.
  abbrev pub find : (A → Bool) → List A → Option A
  find hit [] = none
  find hit (x ∷ xs) = if hit x then some x else find hit xs

  abbrev pub erase_first : (A → Bool) → List A → List A
  erase_first hit [] = []
  erase_first hit (x ∷ xs) = if hit x then xs else x ∷ erase_first hit xs

-- Whether a number stands in a list.
abbrev pub has : ℕ → List ℕ → Bool
has a [] = false
has a (x ∷ xs) = (a == x) || has a xs

-- No entry stands twice.
abbrev pub Distinct : List ℕ → Type 0
Distinct [] = Unit {0}
Distinct (x ∷ xs) = (has x xs ≡ false) × Distinct xs

pub has-append : (a : ℕ) (xs ys : List ℕ) → has a (xs ++ ys) ≡ (has a xs || has a ys)
has-append a [] ys = refl
has-append a (x ∷ xs) ys = ground (arith, has-append a xs ys)

pub Distinct-snoc : (xs : List ℕ) (y : ℕ) → Distinct xs → has y xs ≡ false → Distinct (xs ++ y ∷ [])
Distinct-snoc [] y d h = (refl, tt)
Distinct-snoc (x ∷ xs) y d h =
    (ground (arith, has-append x xs (y ∷ [])), Distinct-snoc xs y d.1 (ground arith))

module _ (hit : ℕ → Bool) where
  pub has-erase_first :
      (a : ℕ) (xs : List ℕ) → has a xs ≡ false → has a (erase_first hit xs) ≡ false
  has-erase_first a [] h = refl
  has-erase_first a (x ∷ xs) h = ground (arith, has-erase_first a xs)

  pub erase_first-Distinct : (xs : List ℕ) → Distinct xs → Distinct (erase_first hit xs)
  erase_first-Distinct [] d = tt
  erase_first-Distinct (x ∷ xs) d =
      ground (arith, erase_first-Distinct xs d.1, has-erase_first x xs d.0)

  pub length-erase_first-le : (xs : List ℕ) → length (erase_first hit xs) ≤ length xs
  length-erase_first-le [] = omega arith
  length-erase_first-le (x ∷ xs) = ground (arith, length-erase_first-le xs)

-- A list without the first entry that is `x`.
abbrev pub without : ℕ → List ℕ → List ℕ
without x = erase_first (λ k. k == x)

length-without : (x : ℕ) (ks : List ℕ) → has x ks ≡ true → length ks ≡ suc (length (without x ks))
length-without x [] h = absurd (false≢true h)
length-without x (k ∷ ks) h = ground (arith, length-without x ks)

has-without :
    (v x : ℕ) (ks : List ℕ) → (v == x) ≡ false → has v ks ≡ true → has v (without x ks) ≡ true
has-without v x [] ne h = h
has-without v x (k ∷ ks) ne h = ground (arith, has-without v x ks)

pub has-without_self : (x : ℕ) (ks : List ℕ) → Distinct ks → has x (without x ks) ≡ false
has-without_self x [] d = refl
has-without_self x (k ∷ ks) d = ground (arith, has-without_self x ks)

pub has-without_ne : (v x : ℕ) (ks : List ℕ) → (v == x) ≡ false → has v (without x ks) ≡ has v ks
has-without_ne v x [] ne = refl
has-without_ne v x (k ∷ ks) ne = ground (arith, has-without_ne v x ks)

-- Pigeonhole: a list without repeats, all of whose entries stand in `ks`, is no longer than `ks`.
pub length-le_of_Distinct :
    (vs ks : List ℕ)
    → Distinct vs
    → ((v : ℕ) → has v vs ≡ true → has v ks ≡ true)
    → length vs ≤ length ks
length-le_of_Distinct [] ks d h = omega arith
length-le_of_Distinct (x ∷ xs) ks d h =
    let first : has x ks ≡ true = h x (ground arith) in
    omega (
      arith,
      length-without x ks first,
      length-le_of_Distinct xs (without x ks) d.1
          (λ v i. has-without v x ks (ground (arith, d.0)) (h v (ground arith))),
    )
