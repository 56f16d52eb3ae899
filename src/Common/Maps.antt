-- ===== src/Common/Maps.antt =====
-- Go maps with numeric keys, as association lists that hold each key once.
use Prim.Native.Nat.{ℕ}
use mathlib.Core.Path.{◌≡◌, refl}
use mathlib.Core.Bool.{true}
use mathlib.Core.Option.{Option, none, some}
use mathlib.Core.List.{List, [], ◌∷◌}
use native.Mathlib.Omega.{arith}
use go_atomos.Common.Tests.{◌==◌, if◌then◌else◌, is_some}
use go_atomos.Common.Lists.{has, Distinct}

module _ {ℓ} {V : Type ℓ} where
  -- `m[k]`, with `none` where Go's second result is false.
  unfoldable pub lookup : ℕ → List (ℕ × V) → Option V
  lookup k [] = none
  lookup k ((q, v) ∷ table) = if q == k then some v else lookup k table

  -- `m[k] = v`
  unfoldable pub insert : ℕ → V → List (ℕ × V) → List (ℕ × V)
  insert k v [] = (k, v) ∷ []
  insert k v ((q, u) ∷ table) = if q == k then (k, v) ∷ table else (q, u) ∷ insert k v table

  -- `delete(m, k)`
  unfoldable pub delete : ℕ → List (ℕ × V) → List (ℕ × V)
  delete k [] = []
  delete k ((q, u) ∷ table) = if q == k then table else (q, u) ∷ delete k table

  unfoldable pub keys : List (ℕ × V) → List ℕ
  keys [] = []
  keys ((q, u) ∷ table) = q ∷ keys table

  pub lookup-insert :
      (k q : ℕ) (v : V) (table : List (ℕ × V))
      → lookup q (insert k v table) ≡ (if k == q then some v else lookup q table)
  unfolding lookup insert
  lookup-insert k q v [] = refl
  lookup-insert k q v ((i, u) ∷ table) = ground (arith, lookup-insert k q v table)

  pub has-keys : (k : ℕ) (table : List (ℕ × V)) → has k (keys table) ≡ is_some (lookup k table)
  unfolding keys lookup
  has-keys k [] = refl
  has-keys k ((q, u) ∷ table) = ground (arith, has-keys k table)

  pub lookup-delete :
      (k q : ℕ) (table : List (ℕ × V))
      → Distinct (keys table)
      → lookup q (delete k table) ≡ (if k == q then none else lookup q table)
  unfolding lookup delete keys
  lookup-delete k q [] d = ground arith
  lookup-delete k q ((i, u) ∷ table) d =
      ground (arith, lookup-delete k q table d.1, has-keys q table)

  has-keys-insert :
      (k q : ℕ) (v : V) (table : List (ℕ × V))
      → has q (keys (insert k v table)) ≡ (if k == q then true else has q (keys table))
  has-keys-insert k q v table =
      ground (arith, has-keys q (insert k v table), lookup-insert k q v table, has-keys q table)

  pub insert-Distinct :
      (k : ℕ) (v : V) (table : List (ℕ × V))
      → Distinct (keys table)
      → Distinct (keys (insert k v table))
  unfolding insert keys
  insert-Distinct k v [] d = (refl, tt)
  insert-Distinct k v ((i, u) ∷ table) d =
      ground (arith, insert-Distinct k v table d.1, has-keys-insert k i v table)

  pub delete-Distinct :
      (k : ℕ) (table : List (ℕ × V)) → Distinct (keys table) → Distinct (keys (delete k table))
  unfolding delete keys
  delete-Distinct k [] d = tt
  delete-Distinct k ((i, u) ∷ table) d = ground (
    arith,
    delete-Distinct k table d.1,
    has-keys i table,
    has-keys i (delete k table),
    lookup-delete k i table d.1,
  )
