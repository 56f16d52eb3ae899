-- ===== src/Refs/History.antt =====
-- The references of an element over a history.
use go_atomos.AtomState.{AtomState, is_not_halt}
use go_atomos.Common.{◌⊎◌, false, ◌≡◌, ℕ, List, [], ◌∷◌, ◌==◌, if◌then◌else◌}
use go_atomos.Refs.{
  Element, add_ref_atom, release_tracker, element_atom_release, element_atom_stopping,
}

-- What users, halting atoms and failed spawns do to the references of an element.
pub data Op : Type 0 where
  acquires halts stops drops : (inst_id : ℕ) → Op
  releases : (tracker : ℕ) → Op

pub halt : ℕ → Element → Element
halt i e = record e {
  atom = λ k. if k == i then record (e.atom i) { state = AtomState.halt } else e.atom k;
}

pub act : Op → Element → Element
act (acquires i) e = add_ref_atom i e
act (halts i) e = halt i e
act (stops i) e = element_atom_stopping i e
act (drops i) e = element_atom_release i e
act (releases k) e = release_tracker k e

unfoldable pub run : List Op → Element → Element
run [] e = e
run (o ∷ os) e = run os (act o e)

-- Why an entry of an instance may go.
abbrev pub IsOver : Op → ℕ → Element → Type 0
IsOver o i e = (is_not_halt (e.atom i).state ≡ false) ⊎ (o ≡ stops i)
