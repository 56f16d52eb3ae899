-- ===== src/Refs/Same.antt =====
-- The parts of an element that its counts of references do not read.
use go_atomos.AtomState.{is_not_halt}
use go_atomos.Common.{
  ℕ, ◌+◌, ◌≡◌, refl, ◌∙◌, Bool, true, false, not, Option, none, some, List, arith, ltb, ◌==◌,
  if◌then◌else◌, Distinct, without,
}
use go_atomos.Common.Maps.{lookup, delete, keys, lookup-delete, delete-Distinct}
use go_atomos.Refs.{
  is_not_halt, Atom, Element, on_instance_refs_drained, element_atom_release, element_atom_stopping,
  forget, remove_name, retire, report_running, retire_unused, remove_node, drop_entry, is_current,
  refs_under,
}

-- Nothing that is counted changes, and no pointer is new.
pub record Same (e v : Element) : Type 0 where
  pub ref : v.ref ≡ e.ref
  pub trackers : v.trackers ≡ e.trackers
  pub next_ref : v.next_ref ≡ e.next_ref
  pub states_once : Distinct (keys e.ref_states) → Distinct (keys v.ref_states)
  pub known :
      Distinct (keys e.ref_states)
      → (n p : ℕ) → lookup n v.ref_states ≡ some p
      → lookup n e.ref_states ≡ some p

Same-refl : (e : Element) → Same e e
Same-refl e = record {
  ref = refl;
  trackers = refl;
  next_ref = refl;
  states_once = λ d. d;
  known = λ d n p h. h;
}

pub Same-trans : (e u v : Element) → Same e u → Same u v → Same e v
Same-trans e u v s t = record {
  ref = t.ref ∙ s.ref;
  trackers = t.trackers ∙ s.trackers;
  next_ref = t.next_ref ∙ s.next_ref;
  states_once = λ d. t.states_once (s.states_once d);
  known = λ d n p h. s.known d n p (t.known (s.states_once d) n p h);
}

if-Same : (b : Bool) (e u v : Element) → Same e u → Same e v → Same e (if b then u else v)
if-Same true e u v s t = s
if-Same false e u v s t = t

-- A state that is dropped from `ref_states` goes on with what points to it.
drop-Same : (name : ℕ) (e : Element) → Same e (record e { ref_states = delete name e.ref_states })
drop-Same name e = record {
  ref = refl;
  trackers = refl;
  next_ref = refl;
  states_once = λ d. delete-Distinct name e.ref_states d;
  known = λ d n p h. ground (arith, h, lookup-delete name n e.ref_states d);
}

pub retire_unused-Same : (p name : ℕ) (e : Element) → Same e (retire_unused p name e)
unfolding retire_unused
retire_unused-Same p name e = if-Same _ e _ e (drop-Same name e) (Same-refl e)

pub retire-Same : (q : Option ℕ) (name : ℕ) (e : Element) → Same e (retire q name e)
unfolding retire
retire-Same none name e = Same-refl e
retire-Same (some p) name e = if-Same _ e _ e (drop-Same name e) (Same-refl e)

-- The atoms, their names and the log are not counted.
pub view-Same :
    (atoms : List (ℕ × ℕ)) (names : List ℕ) (atom : ℕ → Atom) (errors : ℕ) (e : Element)
    → Same e (record e { atoms = atoms; names = names; atom = atom; framework_errors = errors })
view-Same atoms names atom errors e = record {
  ref = refl;
  trackers = refl;
  next_ref = refl;
  states_once = λ d. d;
  known = λ d n p h. h;
}

pub entry-Same : (atoms : List (ℕ × ℕ)) (e : Element) → Same e (record e { atoms = atoms })
entry-Same atoms e = view-Same atoms e.names e.atom e.framework_errors e

remove_node-Same : (o : Option ℕ) (i : ℕ) (e : Element) → Same e (remove_node o i e)
unfolding remove_node
remove_node-Same none i e = Same-refl e
remove_node-Same (some node) i e =
    view-Same e.atoms (without node e.names)
      (λ k. if k == i then record (e.atom i) { name_element = none } else e.atom k)
      e.framework_errors e

pub remove_name-Same : (i : ℕ) (e : Element) → Same e (remove_name i e)
unfolding remove_name
remove_name-Same i e = remove_node-Same (e.atom i).name_element i e

pub forget-Same : (i name : ℕ) (e : Element) → Same e (forget i name e)
unfolding forget
forget-Same i name e =
    Same-trans e (record e { atoms = delete name e.atoms }) _ (entry-Same (delete name e.atoms) e)
      (remove_name-Same i (record e { atoms = delete name e.atoms }))

pub report-Same : (i : ℕ) (e : Element) → Same e (report_running i e)
unfolding report_running
report-Same i e =
    if-Same (e.atom i).mailbox_running e (record e { framework_errors = e.framework_errors + 1 }) e
      (view-Same e.atoms e.names e.atom (e.framework_errors + 1) e) (Same-refl e)

pub drained-Same : (p i : ℕ) (e : Element) → Same e (on_instance_refs_drained p i e)
unfolding on_instance_refs_drained
drained-Same p i e =
    let name = (e.ref p).name in
    let f = forget i name e in
    if-Same _ e e _ (Same-refl e) (
      if-Same _ e _ _
        (Same-trans e (retire_unused p name f) _
          (Same-trans e f _ (forget-Same i name e) (retire_unused-Same p name f))
          (report-Same i (retire_unused p name f)))
        (retire_unused-Same p name e))

pub element_atom_release-Same : (i : ℕ) (e : Element) → Same e (element_atom_release i e)
unfolding element_atom_release
element_atom_release-Same i e =
    let name = (e.atom i).name in
    let f = forget i name e in
    let q = lookup name e.ref_states in
    if-Same (is_not_halt (e.atom i).state) e e _ (Same-refl e) (
      if-Same (ltb 0 (refs_under q i e)) e e _ (Same-refl e) (
        if-Same (not (is_current (lookup name e.atoms) i)) e e _ (Same-refl e) (
          Same-trans e (retire q name f) _
            (Same-trans e f _ (forget-Same i name e) (retire-Same q name f))
            (report-Same i (retire q name f)))))

pub drop_entry-Same : (b : Bool) (name : ℕ) (e : Element) → Same e (drop_entry b name e)
unfolding drop_entry
drop_entry-Same b name e = if-Same b e _ e (entry-Same (delete name e.atoms) e) (Same-refl e)

pub element_atom_stopping-Same : (i : ℕ) (e : Element) → Same e (element_atom_stopping i e)
unfolding element_atom_stopping is_current drop_entry
element_atom_stopping-Same i e =
    let name = (e.atom i).name in
    let d = drop_entry (is_current (lookup name e.atoms) i) name e in
    let f = remove_name i d in
    let q = lookup name e.ref_states in
    if-Same _ e e _ (Same-refl e) (
      Same-trans e (retire q name f) _
        (Same-trans e f _
          (Same-trans e d _ (drop_entry-Same (is_current (lookup name e.atoms) i) name e)
            (remove_name-Same i d))
          (retire-Same q name f))
        (report-Same i (retire q name f)))
