-- ===== src/Refs/Once.antt =====
-- An element holds one atom under a name.
use go_atomos.Common.{
  ℕ, ◌≡◌, refl, sym, subst, ◌∙◌, Bool, true, false, not, ◌&&◌, Option, none, some, ltb,
  if◌then◌else◌, Distinct,
}
use go_atomos.Common.Maps.{lookup, keys, delete, delete-Distinct}
use go_atomos.AtomState.{is_not_halt}
use go_atomos.Refs.{
  Tracker, Element, add_ref_under, add_ref, new_state, release, after_release, release_open,
  remove_name, forget, report_running, retire_unused, on_instance_refs_drained, is_current,
  refs_under, retire, element_atom_release, drop_entry, element_atom_stopping, mark_released,
}
use go_atomos.Refs.Entries.{
  report-atoms, retire-atoms, retire_unused-atoms, remove_name-atoms, forget-atoms,
}

-- No name stands twice in the map of atoms.
abbrev pub IsOnce : Element → Type 0
IsOnce e = Distinct (keys e.atoms)

same-IsOnce : (e v : Element) → v.atoms ≡ e.atoms → IsOnce e → IsOnce v
same-IsOnce e v same d = subst (λ t. Distinct (keys t)) (sym same) d

deleted-IsOnce : (name : ℕ) (e v : Element) → v.atoms ≡ delete name e.atoms → IsOnce e → IsOnce v
deleted-IsOnce name e v gone d =
    subst (λ t. Distinct (keys t)) (sym gone) (delete-Distinct name e.atoms d)

if-IsOnce : (b : Bool) (u v : Element) → IsOnce u → IsOnce v → IsOnce (if b then u else v)
if-IsOnce true u v c d = c
if-IsOnce false u v c d = d

pub add_ref_under-atoms :
    (o : Option ℕ) (name i : ℕ) (e : Element) → (add_ref_under o name i e).atoms ≡ e.atoms
unfolding add_ref_under add_ref new_state
add_ref_under-atoms none name i e = refl
add_ref_under-atoms (some p) name i e = refl

pub element_atom_release-IsOnce :
    (j : ℕ) (e : Element) → IsOnce e → IsOnce (element_atom_release j e)
unfolding element_atom_release
element_atom_release-IsOnce j e d =
    let name = (e.atom j).name in
    let q = lookup name e.ref_states in
    let g = retire q name (forget j name e) in
    if-IsOnce (is_not_halt (e.atom j).state) e _ d (
      if-IsOnce (ltb 0 (refs_under q j e)) e _ d (
        if-IsOnce (not (is_current (lookup name e.atoms) j)) e (report_running j g) d (
          deleted-IsOnce name e (report_running j g)
            (report-atoms j g ∙ retire-atoms q name (forget j name e) ∙ forget-atoms j name e) d)))

pub element_atom_stopping-IsOnce :
    (j : ℕ) (e : Element) → IsOnce e → IsOnce (element_atom_stopping j e)
unfolding element_atom_stopping drop_entry
element_atom_stopping-IsOnce j e d =
    let name = (e.atom j).name in
    let q = lookup name e.ref_states in
    let c = drop_entry (is_current (lookup name e.atoms) j) name e in
    let g = remove_name j c in
    if-IsOnce (ltb 0 (refs_under q j e)) e _ d (
      same-IsOnce c (report_running j (retire q name g))
        (report-atoms j (retire q name g) ∙ retire-atoms q name g ∙ remove_name-atoms j c)
        (if-IsOnce (is_current (lookup name e.atoms) j) (record e { atoms = delete name e.atoms }) e
          (deleted-IsOnce name e (record e { atoms = delete name e.atoms }) refl d) d))

drained-IsOnce : (p j : ℕ) (e : Element) → IsOnce e → IsOnce (on_instance_refs_drained p j e)
unfolding on_instance_refs_drained
drained-IsOnce p j e d =
    let name = (e.ref p).name in
    let b = is_current (lookup name e.atoms) j in
    let g = retire_unused p name (forget j name e) in
    if-IsOnce (b && is_not_halt (e.atom j).state) e _ d (
      if-IsOnce b (report_running j g) (retire_unused p name e)
        (deleted-IsOnce name e (report_running j g)
          (report-atoms j g ∙ retire_unused-atoms p name (forget j name e) ∙ forget-atoms j name e)
          d)
        (same-IsOnce e (retire_unused p name e) (retire_unused-atoms p name e) d))

after_release-IsOnce :
    (p j : ℕ) (out : Element × Bool) → IsOnce out.0 → IsOnce (after_release p j out)
unfolding after_release
after_release-IsOnce p j (e, false) d = d
after_release-IsOnce p j (e, true) d = drained-IsOnce p j e d

pub release_open-IsOnce :
    (k : ℕ) (o : Option Tracker) (e : Element) → IsOnce e → IsOnce (release_open k o e)
unfolding release_open release
release_open-IsOnce k none e d = d
release_open-IsOnce k (some t) e d = if-IsOnce t.released e _ d (
    after_release-IsOnce t.state t.inst_id
      (release t.state t.inst_id (record e { trackers = mark_released k e.trackers })) d)
