-- ===== src/Refs.antt =====
-- atomos_id_tracker.go and the references of element_local.go: who holds an atom, and when an element
-- forgets it. Names and instance ids are numbers; an atom is known by its instance id, which is its own
-- in the process. `ref` is what a pointer to an `atomRefState` leads to, and a tracker is known by its
-- place in `trackers`. Debug records and finalizers are left out. Each call is one step.
pub mod Same
pub mod Count
pub mod Found
pub mod Reached
pub mod Released
pub mod Entries
pub mod Once
pub mod History
pub mod Collect
pub mod Spawn
pub mod Examples
use go_atomos.AtomState.{AtomState, is_not_halt, halt}
use go_atomos.Common.{
  ℕ, zero, suc, ◌+◌, ◌-◌, ◌*◌, ◌/◌, ◌%◌, ◌≤◌, ◌<◌, ◌≡◌, ◌≢◌, ◌↔◌, ◌⊎◌, inl, inr, refl, sym, ap,
  subst, ◌∙◌, Bool, true, false, not, ◌&&◌, ◌||◌, Option, none, some, List, [], ◌∷◌, ◌++◌, map,
  arith, ltb, leb, ◌==◌, if◌then◌else◌, ==→eq, ==_refl, ==_ne, Bool-cases, Option-cases, is_some,
  length, length-append, last_or, last_or-append, find, erase_first, has, Distinct, has-append,
  Distinct-snoc, without, has-without_self, has-without_ne, has-erase_first, erase_first-Distinct,
}
use go_atomos.ErrorCode.{ErrorCode, err_atom_instance_mismatch}
use go_atomos.Common.Maps.{lookup, insert, delete, keys}

abbrev u64_mod : ℕ
u64_mod = 18446744073709551616

pub record RefState : Type 0 where
  pub name : ℕ
  pub cells : List (ℕ × ℕ)
  pub counter : ℕ

pub record Tracker : Type 0 where
  pub state : ℕ
  pub inst_id : ℕ
  pub id : ℕ
  pub released : Bool

-- `name_element` is the node of the atom in `names`.
pub record Atom : Type 0 where
  pub name : ℕ
  pub state : AtomState
  pub name_element : Option ℕ
  pub mailbox_running : Bool
  pub async_callback_id : ℕ

pub record Element : Type 0 where
  pub atoms : List (ℕ × ℕ)
  pub names : List ℕ
  pub atom : ℕ → Atom
  pub ref_states : List (ℕ × ℕ)
  pub ref : ℕ → RefState
  pub next_ref : ℕ
  pub trackers : List Tracker
  pub framework_errors : ℕ

abbrev pub count_of : Option ℕ → ℕ
count_of none = 0
count_of (some n) = n

abbrev set_ref : (ℕ → RefState) → ℕ → RefState → ℕ → RefState
set_ref ref p r k = if k == p then r else ref k

-- `refCount` and `isEmpty`
pub ref_count : RefState → (inst_id : ℕ) → ℕ
ref_count r inst_id = count_of (lookup inst_id r.cells)

pub is_empty : RefState → Bool
is_empty r = length r.cells == 0

-- `addRef`: the tracker goes to the end of `trackers`.
pub add_ref : (state inst_id : ℕ) → Element → Element
add_ref state inst_id e =
    let r = e.ref state in
    record e {
      ref = set_ref e.ref state (record r {
        cells = insert inst_id (count_of (lookup inst_id r.cells) + 1) r.cells;
        counter = (r.counter + 1) % u64_mod;
      });
      trackers =
          e.trackers
          ++ record {
            state = state;
            inst_id = inst_id;
            id = (r.counter + 1) % u64_mod;
            released = false;
          }
            ∷ [];
    }

pub release_cell : (inst_id : ℕ) → Option ℕ → RefState → RefState × Bool
release_cell inst_id none r = (r, false)
release_cell inst_id (some cnt) r =
    if leb (cnt - 1) 0
    then (record r { cells = delete inst_id r.cells }, true)
    else (record r { cells = insert inst_id (cnt - 1) r.cells }, false)

-- `atomRefState.release`, with whether the cell is drained.
pub release : (state inst_id : ℕ) → Element → Element × Bool
unfolding release_cell
release state inst_id e =
    let out = release_cell inst_id (lookup inst_id (e.ref state).cells) (e.ref state) in
    (record e { ref = set_ref e.ref state out.0 }, out.1)

-- The state for a name, new at the pointer `next_ref`.
pub new_state : (name : ℕ) → Element → Element
new_state name e = record e {
  ref_states = insert name e.next_ref e.ref_states;
  ref = set_ref e.ref e.next_ref (record { name = name; cells = []; counter = 0 });
  next_ref = e.next_ref + 1;
}

pub add_ref_under : Option ℕ → (name inst_id : ℕ) → Element → Element
unfolding add_ref new_state
add_ref_under none name inst_id e = add_ref e.next_ref inst_id (new_state name e)
add_ref_under (some p) name inst_id e = add_ref p inst_id e

-- `addRefAtom`
pub add_ref_atom : (inst_id : ℕ) → Element → Element
unfolding add_ref_under
add_ref_atom inst_id e = add_ref_under (lookup name e.ref_states) name inst_id e
  where
    name : ℕ
    name = (e.atom inst_id).name

-- `e.names.Remove(atom.nameElement)` and the reset of the node.
remove_node : Option ℕ → (inst_id : ℕ) → Element → Element
remove_node none inst_id e = e
remove_node (some node) inst_id e = record e {
  names = without node e.names;
  atom = λ k. if k == inst_id then record (e.atom inst_id) { name_element = none } else e.atom k;
}

pub remove_name : (inst_id : ℕ) → Element → Element
unfolding remove_node
remove_name inst_id e = remove_node (e.atom inst_id).name_element inst_id e

pub forget : (inst_id name : ℕ) → Element → Element
forget inst_id name e = remove_name inst_id (record e { atoms = delete name e.atoms })

-- Whether the entry under a name is this instance.
pub is_current : Option ℕ → ℕ → Bool
is_current none inst_id = false
is_current (some k) inst_id = k == inst_id

pub report_running : (inst_id : ℕ) → Element → Element
report_running inst_id e =
    if (e.atom inst_id).mailbox_running
    then record e { framework_errors = e.framework_errors + 1 }
    else e

-- The end of `onInstanceRefsDrained`: a state without references and without an atom is dropped.
pub retire_unused : (state name : ℕ) → Element → Element
unfolding is_empty
retire_unused state name e =
    if is_empty (e.ref state) && not (is_some (lookup name e.atoms))
    then record e { ref_states = delete name e.ref_states }
    else e

-- `onInstanceRefsDrained`
pub on_instance_refs_drained : (state inst_id : ℕ) → Element → Element
on_instance_refs_drained state inst_id e =
    if current && is_not_halt (e.atom inst_id).state
    then e
    else if current
    then report_running inst_id (retire_unused state name (forget inst_id name e))
    else retire_unused state name e
  where
    name : ℕ
    name = (e.ref state).name

    current : Bool
    current = is_current (lookup name e.atoms) inst_id

abbrev pub tracker_at : ℕ → List Tracker → Option Tracker
tracker_at k [] = none
tracker_at zero (t ∷ ts) = some t
tracker_at (suc k) (t ∷ ts) = tracker_at k ts

abbrev pub mark_released : ℕ → List Tracker → List Tracker
mark_released k [] = []
mark_released zero (t ∷ ts) = record t { released = true } ∷ ts
mark_released (suc k) (t ∷ ts) = t ∷ mark_released k ts

pub after_release : (state inst_id : ℕ) → Element × Bool → Element
unfolding on_instance_refs_drained
after_release state inst_id (e, drained) =
    if drained then on_instance_refs_drained state inst_id e else e

pub release_open : ℕ → Option Tracker → Element → Element
unfolding release after_release
release_open k none e = e
release_open k (some t) e =
    if t.released
    then e
    else after_release t.state t.inst_id
        (release t.state t.inst_id (record e { trackers = mark_released k e.trackers }))

-- `IDTracker.Release` of the tracker at place `k`
pub release_tracker : ℕ → Element → Element
unfolding release_open
release_tracker k e = release_open k (tracker_at k e.trackers) e

-- The references of an instance under a name, as `elementAtomRelease` and `elementAtomStopping` see them.
pub refs_under : Option ℕ → ℕ → Element → ℕ
unfolding ref_count
refs_under none inst_id e = 0
refs_under (some p) inst_id e = ref_count (e.ref p) inst_id

pub retire : Option ℕ → (name : ℕ) → Element → Element
unfolding is_empty
retire none name e = e
retire (some p) name e =
    if is_empty (e.ref p) then record e { ref_states = delete name e.ref_states } else e

-- `elementAtomRelease`
pub element_atom_release : (inst_id : ℕ) → Element → Element
element_atom_release inst_id e =
    if is_not_halt (e.atom inst_id).state
    then e
    else if ltb 0 (refs_under (lookup name e.ref_states) inst_id e)
    then e
    else if not (is_current (lookup name e.atoms) inst_id)
    then e
    else report_running inst_id (retire (lookup name e.ref_states) name (forget inst_id name e))
  where
    name : ℕ
    name = (e.atom inst_id).name

pub drop_entry : Bool → (name : ℕ) → Element → Element
drop_entry current name e = if current then record e { atoms = delete name e.atoms } else e

-- `elementAtomStopping`
pub element_atom_stopping : (inst_id : ℕ) → Element → Element
element_atom_stopping inst_id e =
    if ltb 0 (refs_under (lookup name e.ref_states) inst_id e)
    then e
    else report_running inst_id (
        retire (lookup name e.ref_states) name (
          remove_name inst_id (
            if is_current (lookup name e.atoms) inst_id
            then record e { atoms = delete name e.atoms }
            else e)))
  where
    name : ℕ
    name = (e.atom inst_id).name

-- `getAtomFromRemote`: the instance, or the error.
pub get_atom_from_remote : (name caller_instance_id : ℕ) → Element → ErrorCode ⊎ ℕ
get_atom_from_remote name caller_instance_id e =
    if caller_instance_id == 0 then inl err_atom_instance_mismatch else elim (lookup name e.atoms) [
      | none ↦ inl err_atom_instance_mismatch
      | some inst_id ↦
          if is_not_halt (e.atom inst_id).state
          then (if inst_id == caller_instance_id
              then inr inst_id
              else inl err_atom_instance_mismatch)
          else inl err_atom_instance_mismatch
    ]
