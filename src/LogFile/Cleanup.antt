-- ===== src/LogFile/Cleanup.antt =====
-- What the clean-up leaves.
use go_atomos.Common.{
  ℕ, ◌+◌, ◌≤◌, ◌<◌, ◌≡◌, ◌⊎◌, Bool, Option, none, List, [], ◌∷◌, ◌++◌, ltb, last_or,
}
use mathlib.Core.List.{Perm}
use mathlib.Core.List.Perm
use go_atomos.ErrorCode.{ErrorCode}
use go_atomos.LogFile.{Entry, total}

-- The key of none of the files is below the bound.
abbrev pub Bounds : (key : Entry → ℕ) → ℕ → List Entry → Type 0
Bounds key t [] = Unit {0}
Bounds key t (x ∷ xs) = (t ≤ key x) × Bounds key t xs

abbrev pub IsOrdered : (key : Entry → ℕ) → List Entry → Type 0
IsOrdered key [] = Unit {0}
IsOrdered key (x ∷ xs) = Bounds key (key x) xs × IsOrdered key xs

-- No file of the first list is newer than one of the second.
abbrev pub Older : List Entry → List Entry → Type 0
Older [] ys = Unit {0}
Older (x ∷ xs) ys = Bounds (λ e. e.mod_time) x.mod_time ys × Older xs ys

-- What `sort.Slice` does: it rearranges, and by a comparison of keys it leaves the keys ascending.
pub record IsSort (sort : (Entry → Entry → Bool) → List Entry → List Entry) : Type 0 where
  pub rearranges : (less : Entry → Entry → Bool) (files : List Entry) → Perm (sort less files) files
  pub orders :
      (key : Entry → ℕ) (files : List Entry)
      → IsOrdered key (sort (λ a b. ltb (key a) (key b)) files)

-- The files of `gone` were removed, which are not newer than any of the others. If there was no error then
-- the others fit; and before the last one was removed, they did not.
pub record IsCleaned (max_size : ℕ) (files : List Entry) (r : Option ErrorCode × List Entry)
    : Type 0 where
  pub gone : List Entry
  pub split : Perm (gone ++ r.1) files
  pub oldest : Older gone r.1
  pub fits : r.0 ≡ none → total r.1 ≤ max_size
  pub needed : (gone ≡ []) ⊎ ((d : Entry) → max_size < (last_or d gone).size + total r.1)

-- The loop takes a first part of the list.
record Cut (max_size : ℕ) (files : List Entry) (r : Option ErrorCode × List Entry) : Type 0 where
  gone : List Entry
  split : files ≡ gone ++ r.1
  fits : r.0 ≡ none → total r.1 ≤ max_size
  needed : (gone ≡ []) ⊎ ((d : Entry) → max_size < (last_or d gone).size + total r.1)
