-- ===== src/Refs/Spawn.antt =====
-- element_local.go: what a spawn does under its lock, on an element that may hold an atom of the name.
pub mod Entry
use go_atomos.Common.{
  ℕ, zero, suc, ◌+◌, ◌-◌, ◌*◌, ◌/◌, ◌%◌, ◌≤◌, ◌<◌, ◌≡◌, ◌≢◌, ◌↔◌, ◌⊎◌, inl, inr, refl, sym, ap,
  subst, ◌∙◌, Bool, true, false, not, ◌&&◌, ◌||◌, Option, none, some, List, [], ◌∷◌, ◌++◌, map,
  arith, ltb, leb, ◌==◌, if◌then◌else◌, ==→eq, ==_refl, ==_ne, Bool-cases, Option-cases, is_some,
  length, length-append, last_or, last_or-append, find, erase_first, has, Distinct, has-append,
  Distinct-snoc, without, has-without_self, has-without_ne, has-erase_first, erase_first-Distinct,
}
use go_atomos.AtomState.{AtomState, invalid, spawning, waiting, busy, stopping, halt, is_not_halt}
use go_atomos.ErrorCode.{ErrorCode, err_atom_spawning_an_existed_atom}
use go_atomos.Common.Maps.{
  lookup, insert, delete, keys, lookup-insert, lookup-delete, insert-Distinct,
}
use go_atomos.Refs.{
  RefState, Tracker, Atom, Element, count_of, ref_count, add_ref_atom, add_ref_under,
  element_atom_release, refs_under, forget, remove_name, remove_node, retire, report_running,
  is_current, add_ref, new_state,
}
use go_atomos.Refs.Same.{Same, view-Same, element_atom_release-Same}
use go_atomos.Refs.Count.{IsCounted, Same-IsCounted, add_ref_under-IsCounted, holders}

-- What the caller asks for, and what the user's code answers: the constructor of the atom and its spawn.
pub record Request : Type 0 where
  pub name : ℕ
  pub spawn_or_get : Bool
  pub from_local : Bool
  pub constructor_error : Option ErrorCode
  pub spawn_error : Option ErrorCode

-- The atom that is returned, whether a tracker comes with it, and the error.
abbrev pub Answer : Type 0
Answer = Option ℕ × (Bool × Option ErrorCode)

-- The node in `names` and the id counter of callbacks of a new atom: those of the atom it replaces.
node_for : Option ℕ → ℕ → Element → Option ℕ
node_for none inst_id e = some inst_id
node_for (some old) inst_id e = (e.atom old).name_element

callbacks_for : Option ℕ → Element → ℕ
callbacks_for none e = 0
callbacks_for (some old) e = (e.atom old).async_callback_id

-- The entry of a new atom, before it starts.
register : (inst_id name : ℕ) → Option ℕ → Element → Element
unfolding node_for callbacks_for
register inst_id name old e = record e {
  atoms = insert name inst_id e.atoms;
  names = if is_some old then e.names else e.names ++ inst_id ∷ [];
  atom = λ k.
      if k == inst_id
      then record {
        name = name;
        state = spawning;
        name_element = node_for old inst_id e;
        mailbox_running = true;
        async_callback_id = callbacks_for old e;
      }
      else e.atom k;
}

-- The end of `mailboxOnStartUp` and of the mailbox's start.
settle : (inst_id : ℕ) (state : AtomState) (running : Bool) → Element → Element
settle inst_id state running e = record e {
  atom = λ k.
      if k == inst_id
      then record (e.atom inst_id) { state = state; mailbox_running = running }
      else e.atom k;
}

track : Bool → (inst_id : ℕ) → Element → Answer × Element
track true inst_id e = ((some inst_id, (true, none)), add_ref_atom inst_id e)
track false inst_id e = ((some inst_id, (false, none)), e)

started : Option ErrorCode → (from_local : Bool) (inst_id : ℕ) → Element → Answer × Element
unfolding track settle
started none from_local inst_id e = track from_local inst_id (settle inst_id waiting true e)
started (some err) from_local inst_id e =
    ((none, (false, some err)), element_atom_release inst_id (settle inst_id halt false e))

-- `elementAtomSpawnNewAtom`; `inst_id` is what `allocInstanceID` gives.
spawn_new : Request → (inst_id : ℕ) (old : Option ℕ) → Element → Answer × Element
unfolding register started
spawn_new q inst_id old e = elim q.constructor_error [
  | some err ↦ ((none, (false, some err)), e)
  | none ↦ started q.spawn_error q.from_local inst_id (register inst_id q.name old e)
]

-- `elementAtomSpawnInternalFoundRunning`
found_running : Request → (old : ℕ) → Element → Answer × Element
unfolding track
found_running q old e =
    if q.spawn_or_get
    then ((some old, (false, some err_atom_spawning_an_existed_atom)), e)
    else track q.from_local old e

-- `elementAtomSpawnMeetsExistAtom`; a stopping atom is waited for, at most ten seconds, and then replaced.
meet : AtomState → Request → (inst_id old : ℕ) → Element → Answer × Element
unfolding found_running spawn_new
meet spawning q inst_id old e = found_running q old e
meet waiting q inst_id old e = found_running q old e
meet busy q inst_id old e = found_running q old e
meet _ q inst_id old e = spawn_new q inst_id (some old) e

spawn_at : Option ℕ → Request → (inst_id : ℕ) → Element → Answer × Element
unfolding meet spawn_new
spawn_at none q inst_id e = spawn_new q inst_id none e
spawn_at (some old) q inst_id e = meet (e.atom old).state q inst_id old e

-- `elementAtomSpawnUnderLocking`
pub spawn_under_locking : Request → (inst_id : ℕ) → Element → Answer × Element
unfolding spawn_at
spawn_under_locking q inst_id e = spawn_at (lookup q.name e.atoms) q inst_id e

-- The states in which an atom is found running.
abbrev pub is_live : AtomState → Bool
is_live spawning = true
is_live waiting = true
is_live busy = true
is_live _ = false

settle-Same : (i : ℕ) (s : AtomState) (b : Bool) (e : Element) → Same e (settle i s b e)
unfolding settle
settle-Same i s b e =
    view-Same e.atoms e.names
      (λ k. if k == i then record (e.atom i) { state = s; mailbox_running = b } else e.atom k)
      e.framework_errors e

register-Same : (i name : ℕ) (old : Option ℕ) (e : Element) → Same e (register i name old e)
unfolding register
register-Same i name old e = view-Same _ _ _ e.framework_errors e
