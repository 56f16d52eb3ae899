-- ===== src/Refs/Reached.antt =====
-- The references of an instance over each operation, and what is seen of them under its name.
use go_atomos.Common.{
  ℕ, ◌+◌, ◌%◌, ◌≡◌, refl, sym, ap, subst, ◌∙◌, Bool, false, not, ◌&&◌, Option, none, some, arith,
  ltb, if◌then◌else◌, ==→eq, ==_refl, Distinct,
}
use go_atomos.AtomState.{is_not_halt}
use go_atomos.Common.Maps.{lookup, keys, delete, lookup-insert}
use go_atomos.Refs.{
  RefState, Element, add_ref, new_state, add_ref_under, release_cell, remove_name, forget,
  retire_unused, on_instance_refs_drained, is_current, refs_under, retire, element_atom_release,
  drop_entry, element_atom_stopping, u64_mod,
}
use go_atomos.Refs.Same.{
  forget-Same, drop_entry-Same, remove_name-Same, retire-Same, retire_unused-Same,
}
use go_atomos.Refs.Count.{IsCounted, holders-snoc}
use go_atomos.Refs.Found.{
  IsFound, Drops, Drops-refl, Drops-trans, if-Drops, view-Drops, remove_name-Drops, forget-Drops,
  report-Drops, retire_unused-Drops, retire-Drops, forget-ref_states, remove_name-ref_states,
  drop_entry-ref_states,
}

pub drained-Drops :
    (p i : ℕ) (e : Element)
    → Distinct (keys e.ref_states)
    → lookup (e.ref p).name e.ref_states ≡ some p
    → Drops e (on_instance_refs_drained p i e)
unfolding on_instance_refs_drained
drained-Drops p i e d here =
    let name = (e.ref p).name in
    let f = forget i name e in
    let at : lookup name f.ref_states ≡ some p =
      ap (lookup name) (forget-ref_states i name e) ∙ here in
    let df : Distinct (keys f.ref_states) =
      subst (λ t. Distinct (keys t)) (sym (forget-ref_states i name e)) d in
    if-Drops (is_current (lookup name e.atoms) i && is_not_halt (e.atom i).state) e e _
      (λ b. Drops-refl e)
      (if-Drops (is_current (lookup name e.atoms) i) e _ _
        (λ b. Drops-trans e f _ (forget-Same i name e) (forget-Drops i name e) (
          Drops-trans f (retire_unused p name f) _ (retire_unused-Same p name f)
            (retire_unused-Drops p name f df at) (report-Drops i (retire_unused p name f))))
        (retire_unused-Drops p name e d here))

pub element_atom_release-Drops :
    (i : ℕ) (e : Element) → Distinct (keys e.ref_states) → Drops e (element_atom_release i e)
unfolding element_atom_release
element_atom_release-Drops i e d =
    let name = (e.atom i).name in
    let f = forget i name e in
    let q = lookup name e.ref_states in
    let at : lookup name f.ref_states ≡ q = ap (lookup name) (forget-ref_states i name e) in
    let df : Distinct (keys f.ref_states) =
      subst (λ t. Distinct (keys t)) (sym (forget-ref_states i name e)) d in
    if-Drops (is_not_halt (e.atom i).state) e e _ (λ b. Drops-refl e)
      (if-Drops (ltb 0 (refs_under q i e)) e e _ (λ b. Drops-refl e)
        (if-Drops (not (is_current (lookup name e.atoms) i)) e e _ (λ b. Drops-refl e)
          (Drops-trans e f _ (forget-Same i name e) (forget-Drops i name e) (
            Drops-trans f (retire q name f) _ (retire-Same q name f) (retire-Drops q name f df at)
              (report-Drops i (retire q name f))))))

drop_entry-Drops : (b : Bool) (name : ℕ) (e : Element) → Drops e (drop_entry b name e)
unfolding drop_entry
drop_entry-Drops b name e =
    if-Drops b e _ e
      (λ c. view-Drops (delete name e.atoms) e.names e.atom e.framework_errors e (λ k. refl))
      (Drops-refl e)

pub element_atom_stopping-Drops :
    (i : ℕ) (e : Element) → Distinct (keys e.ref_states) → Drops e (element_atom_stopping i e)
unfolding element_atom_stopping is_current drop_entry
element_atom_stopping-Drops i e d =
    let name = (e.atom i).name in
    let b = is_current (lookup name e.atoms) i in
    let c = drop_entry b name e in
    let f = remove_name i c in
    let q = lookup name e.ref_states in
    let same : f.ref_states ≡ e.ref_states =
      remove_name-ref_states i c ∙ drop_entry-ref_states b name e in
    let df : Distinct (keys f.ref_states) = subst (λ t. Distinct (keys t)) (sym same) d in
    if-Drops (ltb 0 (refs_under q i e)) e e _ (λ z. Drops-refl e)
      (Drops-trans e c _ (drop_entry-Same b name e) (drop_entry-Drops b name e) (
        Drops-trans c f _ (remove_name-Same i c) (remove_name-Drops i c) (
          Drops-trans f (retire q name f) _ (retire-Same q name f)
            (retire-Drops q name f df (ap (lookup name) same)) (report-Drops i (retire q name f)))))

add_ref-IsFound :
    (p i : ℕ) (e : Element)
    → IsFound e
    → lookup (e.atom i).name e.ref_states ≡ some p
    → IsFound (add_ref p i e)
unfolding add_ref
add_ref-IsFound p i e f here = record {
  found = λ q j h. ground (
    arith,
    h,
    f.found q j,
    here,
    ==→eq p q,
    ==→eq i j,
    holders-snoc q j e.trackers (record {
      state = p;
      inst_id = i;
      id = ((e.ref p).counter + 1) % u64_mod;
      released = false;
    }),
  );
  named = λ n q h. ground (arith, f.named n q h, ==→eq q p);
}

new_state-IsFound :
    (name : ℕ) (e : Element)
    → IsCounted e
    → IsFound e
    → lookup name e.ref_states ≡ none
    → IsFound (new_state name e)
unfolding new_state
new_state-IsFound name e c f unused = record {
  found = λ p i h. ground (
    arith,
    f.found p i h,
    unused,
    ==→eq name (e.atom i).name,
    lookup-insert name (e.atom i).name e.next_ref e.ref_states,
  );
  named = λ n p h. ground (
    arith,
    h,
    f.named n p,
    c.known n p,
    ==→eq name n,
    lookup-insert name n e.next_ref e.ref_states,
  );
}

new_state-lookup :
    (name : ℕ) (e : Element) → lookup name (new_state name e).ref_states ≡ some e.next_ref
unfolding new_state
new_state-lookup name e =
    lookup-insert name name e.next_ref e.ref_states
    ∙ ap (λ b. if b then some e.next_ref else lookup name e.ref_states) (==_refl name)

new_state-atom : (name : ℕ) (e : Element) → (new_state name e).atom ≡ e.atom
unfolding new_state
new_state-atom name e = refl

pub add_ref_under-IsFound :
    (o : Option ℕ) (i : ℕ) (e : Element)
    → IsCounted e
    → IsFound e
    → lookup (e.atom i).name e.ref_states ≡ o
    → IsFound (add_ref_under o (e.atom i).name i e)
unfolding add_ref_under
add_ref_under-IsFound none i e c f here =
    add_ref-IsFound e.next_ref i (new_state (e.atom i).name e)
      (new_state-IsFound (e.atom i).name e c f here) (new_state-lookup (e.atom i).name e)
add_ref_under-IsFound (some p) i e c f here = add_ref-IsFound p i e f here

pub release_cell-name : (i : ℕ) (o : Option ℕ) (r : RefState) → (release_cell i o r).0.name ≡ r.name
unfolding release_cell
release_cell-name i none r = refl
release_cell-name i (some n) r = ground arith
