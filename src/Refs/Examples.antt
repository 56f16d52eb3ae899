-- ===== src/Refs/Examples.antt =====
-- The theorems on references at a concrete element.
use go_atomos.AtomState.{AtomState, is_not_halt}
use go_atomos.Common.{
  ℕ, ◌≡◌, ◌≢◌, ◌↔◌, ◌⊎◌, inl, inr, refl, true, false, none, some, [], ◌∷◌, arith, ◌==◌,
  if◌then◌else◌,
}
use go_atomos.Common.Maps.{keys, lookup}
use go_atomos.ErrorCode.{err_atom_instance_mismatch}
use go_atomos.Refs.{Tracker, Element, release_tracker, get_atom_from_remote}
use go_atomos.Refs.Count.{IsCounted, holders}
use go_atomos.Refs.Spawn.{Request, spawn_under_locking}
use go_atomos.Refs.Spawn.Entry.{spawn_under_locking-atoms}
use go_atomos.Refs.Collect.{get_atom_from_remote_lem, release_tracker-halted}

abbrev tracker : Tracker
tracker = record { state = 0; inst_id = 7; id = 1; released = false }

-- Atom 7 has the name 3, and is halted with one reference.
abbrev halted : Element
halted = record {
  atoms = (3, 7) ∷ [];
  names = 7 ∷ [];
  atom = λ k. record {
    name = 3;
    state = AtomState.halt;
    name_element = some 7;
    mailbox_running = false;
    async_callback_id = 0;
  };
  ref_states = (3, 0) ∷ [];
  ref = λ p. record { name = 3; cells = if p == 0 then (7, 1) ∷ [] else []; counter = 1 };
  next_ref = 1;
  trackers = tracker ∷ [];
  framework_errors = 0;
}

halted-IsCounted : IsCounted halted
unfolding keys lookup holders
halted-IsCounted = record {
  counts = λ p i. ground arith;
  once = λ p. ground arith;
  fresh = λ p i h. ground arith;
  states_once = (refl, tt);
  known = λ n p h. ground (arith, h);
}

abbrev caller : ℕ
caller = 7

get_atom_from_remote_lem_example :
    ((get_atom_from_remote 3 7 halted ≡ inl err_atom_instance_mismatch)
      ⊎ (get_atom_from_remote 3 7 halted ≡ inr 7))
    × (get_atom_from_remote 3 caller halted ≡ inr caller ↔ (
        (caller ≢ 0)
        × (lookup 3 halted.atoms ≡ some caller)
        × (is_not_halt (halted.atom caller).state ≡ true)))
get_atom_from_remote_lem_example = get_atom_from_remote_lem 3 caller halted

release_tracker-halted_example : lookup 3 (release_tracker 0 halted).atoms ≡ none
unfolding lookup keys holders
release_tracker-halted_example =
    release_tracker-halted 0 tracker halted halted-IsCounted (refl, tt) refl refl refl refl

-- A spawn under the name of the halted atom.
abbrev request : Request
request = record {
  name = 3;
  spawn_or_get = true;
  from_local = true;
  constructor_error = none;
  spawn_error = none;
}

spawn_under_locking-atoms_example : lookup 3 (spawn_under_locking request 8 halted).1.atoms ≡ some 8
unfolding lookup keys holders
spawn_under_locking-atoms_example =
    spawn_under_locking-atoms request 8 3 halted halted-IsCounted (refl, tt) (λ p. ground arith)
