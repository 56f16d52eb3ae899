-- ===== src/Refs/Spawn/Entry.antt =====
-- The entries of an element after a spawn.
use go_atomos.Common.{
  ℕ, ◌≡◌, inl, inr, refl, ap, ◌∙◌, Bool, true, false, not, ◌||◌, Option, none, some, arith, ◌==◌,
  if◌then◌else◌, Option-cases, is_some, Distinct,
}
use go_atomos.AtomState.{AtomState, invalid, spawning, waiting, busy, stopping, halt}
use go_atomos.ErrorCode.{ErrorCode}
use go_atomos.Common.Maps.{
  lookup, insert, delete, keys, lookup-insert, lookup-delete, insert-Distinct,
}
use go_atomos.Refs.{
  Element, ref_count, add_ref_atom, add_ref_under, element_atom_release, refs_under, forget,
  remove_name, remove_node, retire, report_running, is_current, add_ref, new_state,
}
use go_atomos.Refs.Count.{IsCounted, Same-IsCounted, holders}
use go_atomos.Refs.Spawn.{
  Request, Answer, register, settle, track, started, spawn_new, found_running, meet, spawn_at,
  spawn_under_locking, is_live, settle-Same, register-Same,
}

-- The release of a new atom whose spawn failed.
released :
    (i name : ℕ) (e : Element)
    → (e.atom i).state ≡ halt
    → (e.atom i).name ≡ name
    → lookup name e.atoms ≡ some i
    → refs_under (lookup name e.ref_states) i e ≡ 0
    → (element_atom_release i e).atoms ≡ delete name e.atoms
unfolding element_atom_release forget remove_name remove_node retire report_running is_current
released i name e at named here free = ground arith

refs_under-zero :
    (o : Option ℕ) (i : ℕ) (e : Element)
    → IsCounted e
    → ((p : ℕ) → holders p i e.trackers ≡ 0)
    → refs_under o i e ≡ 0
unfolding refs_under ref_count
refs_under-zero none i e c free = refl
refs_under-zero (some p) i e c free = c.counts p i ∙ free p

track-atoms : (b : Bool) (i : ℕ) (e : Element) → (track b i e).1.atoms ≡ e.atoms
unfolding track add_ref_atom add_ref_under add_ref new_state
track-atoms b i e = ground arith

started-atoms :
    (o : Option ErrorCode) (b : Bool) (i name : ℕ) (e : Element)
    → IsCounted e
    → ((p : ℕ) → holders p i e.trackers ≡ 0)
    → (e.atom i).name ≡ name
    → lookup name e.atoms ≡ some i
    → (started o b i e).1.atoms ≡ (if is_some o then delete name e.atoms else e.atoms)
unfolding started settle
started-atoms none b i name e c free named here = track-atoms b i (settle i waiting true e)
started-atoms (some err) b i name e c free named here =
    let s = settle i halt false e in
    released i name s (ground arith) (ground (arith, named)) here (
      refs_under-zero (lookup name e.ref_states) i s
        (Same-IsCounted e s (settle-Same i halt false e) c) free)

spawn_new-atoms :
    (q : Request) (i n : ℕ) (old : Option ℕ) (e : Element)
    → IsCounted e
    → Distinct (keys e.atoms)
    → ((p : ℕ) → holders p i e.trackers ≡ 0)
    → lookup n (spawn_new q i old e).1.atoms ≡ (
        if is_some q.constructor_error || not (q.name == n)
        then lookup n e.atoms
        else if is_some q.spawn_error
        then none
        else some i)
unfolding spawn_new register
spawn_new-atoms q i n old e c d free = elim (Option-cases q.constructor_error) [
  | inr (err, fails) ↦ ground (arith, fails)
  | inl fine ↦
      let r = register i q.name old e in
      ground (
        arith,
        fine,
        started-atoms q.spawn_error q.from_local i q.name r
            (Same-IsCounted e r (register-Same i q.name old e) c) free (ground arith)
            (ground (arith, lookup-insert q.name q.name i e.atoms)),
        lookup-insert q.name n i e.atoms,
        lookup-delete q.name n (insert q.name i e.atoms) (insert-Distinct q.name i e.atoms d),
      )
]

-- The atoms after a spawn: an atom that is found running stays.
abbrev pub After : Request → ℕ → ℕ → Element → AtomState → Answer × Element → Type 0
After q i n e s out = lookup n out.1.atoms ≡ (
    if is_live s || (is_some q.constructor_error || not (q.name == n))
    then lookup n e.atoms
    else if is_some q.spawn_error
    then none
    else some i)

found_running-atoms :
    (q : Request) (old : ℕ) (e : Element) → (found_running q old e).1.atoms ≡ e.atoms
unfolding found_running
found_running-atoms q old e = ground (arith, track-atoms q.from_local old e)

meet-atoms :
    (s : AtomState) (q : Request) (i n old : ℕ) (e : Element)
    → IsCounted e
    → Distinct (keys e.atoms)
    → ((p : ℕ) → holders p i e.trackers ≡ 0)
    → After q i n e s (meet s q i old e)
unfolding meet
meet-atoms invalid q i n old e c d free = spawn_new-atoms q i n (some old) e c d free
meet-atoms spawning q i n old e c d free = ap (lookup n) (found_running-atoms q old e)
meet-atoms waiting q i n old e c d free = ap (lookup n) (found_running-atoms q old e)
meet-atoms busy q i n old e c d free = ap (lookup n) (found_running-atoms q old e)
meet-atoms stopping q i n old e c d free = spawn_new-atoms q i n (some old) e c d free
meet-atoms halt q i n old e c d free = spawn_new-atoms q i n (some old) e c d free

-- The state under a name, `invalid` where there is no atom.
abbrev pub state_under : Option ℕ → Element → AtomState
state_under none e = invalid
state_under (some old) e = (e.atom old).state

spawn_at-atoms :
    (o : Option ℕ) (q : Request) (i n : ℕ) (e : Element)
    → IsCounted e
    → Distinct (keys e.atoms)
    → ((p : ℕ) → holders p i e.trackers ≡ 0)
    → After q i n e (state_under o e) (spawn_at o q i e)
unfolding spawn_at
spawn_at-atoms none q i n e c d free = spawn_new-atoms q i n none e c d free
spawn_at-atoms (some old) q i n e c d free = meet-atoms (e.atom old).state q i n old e c d free

-- On a well-formed element in which nothing refers to the new instance yet, a spawn changes the entry of its
-- name alone: it leaves an atom that is found running, and the entry where the constructor fails; otherwise the
-- entry is the new atom if its spawn has no error, and there is none if it has one, also where an older
-- atom had the name.
pub spawn_under_locking-atoms :
    (q : Request) (i n : ℕ) (e : Element)
    → IsCounted e
    → Distinct (keys e.atoms)
    → ((p : ℕ) → holders p i e.trackers ≡ 0)
    → After q i n e (state_under (lookup q.name e.atoms) e) (spawn_under_locking q i e)
unfolding spawn_under_locking
spawn_under_locking-atoms q i n e c d free = spawn_at-atoms (lookup q.name e.atoms) q i n e c d free
