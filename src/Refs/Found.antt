-- ===== src/Refs/Found.antt =====
-- The references of an instance are found under its name.
use go_atomos.Common.{
  ℕ, ◌+◌, ◌<◌, ◌≡◌, ◌⊎◌, inl, inr, refl, sym, ap, subst, ◌∙◌, Bool, true, false, not, ◌&&◌, Option,
  none, some, List, [], ◌∷◌, arith, ◌==◌, if◌then◌else◌, ==→eq, Bool-cases, is_some, length,
  Distinct,
}
use go_atomos.Common.Maps.{lookup, keys, delete, lookup-delete}
use go_atomos.Refs.{
  Atom, RefState, Element, is_empty, remove_node, remove_name, forget, report_running,
  retire_unused, retire, drop_entry, count_of,
}
use go_atomos.Refs.Same.{Same}
use go_atomos.Refs.Count.{IsCounted, holders}
use mathlib.Core.Option.{some-injective}

-- A state with an open tracker of an instance stands under the name of the instance, and every state
-- under its own name.
pub record IsFound (e : Element) : Type 0 where
  pub found : (p i : ℕ) → 0 < holders p i e.trackers → lookup (e.atom i).name e.ref_states ≡ some p
  pub named : (n p : ℕ) → lookup n e.ref_states ≡ some p → (e.ref p).name ≡ n

-- No atom is renamed, and only states without references are dropped.
pub record Drops (e v : Element) : Type 0 where
  pub names : (i : ℕ) → (v.atom i).name ≡ (e.atom i).name
  pub stays :
      (n p : ℕ)
      → lookup n e.ref_states ≡ some p
      → (lookup n v.ref_states ≡ some p) ⊎ (is_empty (e.ref p) ≡ true)

empty-lookup : (i : ℕ) (cells : List (ℕ × ℕ)) → (length cells == 0) ≡ true → lookup i cells ≡ none
unfolding lookup
empty-lookup i [] h = refl
empty-lookup i (c ∷ cs) h = ground (arith, h)

is_empty-count : (i : ℕ) (r : RefState) → is_empty r ≡ true → count_of (lookup i r.cells) ≡ 0
unfolding is_empty
is_empty-count i r h = ap count_of (empty-lookup i r.cells h)

pub Drops-IsFound : (e v : Element) → Same e v → Drops e v → IsCounted e → IsFound e → IsFound v
Drops-IsFound e v s d c f = record {
  found = λ p i h.
      let held : 0 < holders p i e.trackers = subst (λ ts. 0 < holders p i ts) s.trackers h in
      elim (d.stays (e.atom i).name p (f.found p i held)) [
        | inl here ↦ ap (λ n. lookup n v.ref_states) (d.names i) ∙ here
        | inr none_left ↦
            absurd (omega (arith, held, c.counts p i, is_empty-count i (e.ref p) none_left))
      ];
  named = λ n p h. ap (λ r. (r p).name) s.ref ∙ f.named n p (s.known c.states_once n p h);
}

pub Drops-refl : (e : Element) → Drops e e
Drops-refl e = record { names = λ i. refl; stays = λ n p h. inl h }

pub Drops-trans : (e u v : Element) → Same e u → Drops e u → Drops u v → Drops e v
Drops-trans e u v s d g = record {
  names = λ i. g.names i ∙ d.names i;
  stays = λ n p h. elim (d.stays n p h) [
    | inl here ↦ elim (g.stays n p here) [
      | inl there ↦ inl there
      | inr none_left ↦ inr (ap (λ r. is_empty (r p)) (sym s.ref) ∙ none_left)
    ]
    | inr none_left ↦ inr none_left
  ];
}

pub if-Drops :
    (b : Bool) (e u v : Element) → (b ≡ true → Drops e u) → Drops e v → Drops e (if b then u else v)
if-Drops true e u v d g = d refl
if-Drops false e u v d g = g

drop-Drops :
    (name p : ℕ) (e : Element)
    → Distinct (keys e.ref_states)
    → lookup name e.ref_states ≡ some p
    → is_empty (e.ref p) ≡ true
    → Drops e (record e { ref_states = delete name e.ref_states })
drop-Drops name p e d here none_left = record {
  names = λ i. refl;
  stays = λ n q h. elim (Bool-cases (name == n)) [
    | inl same ↦
        let at : lookup n e.ref_states ≡ some p =
          ap (λ k. lookup k e.ref_states) (sym (==→eq name n same)) ∙ here in
        inr (ap (λ k. is_empty (e.ref k)) (some-injective q p (sym h ∙ at)) ∙ none_left)
    | inr apart ↦ inl (
        lookup-delete name n e.ref_states d
        ∙ ap (λ b. if b then none else lookup n e.ref_states) apart
        ∙ h)
  ];
}

pub view-Drops :
    (atoms : List (ℕ × ℕ)) (names : List ℕ) (atom : ℕ → Atom) (errors : ℕ) (e : Element)
    → ((i : ℕ) → (atom i).name ≡ (e.atom i).name)
    → Drops e (record e { atoms = atoms; names = names; atom = atom; framework_errors = errors })
view-Drops atoms names atom errors e same = record { names = same; stays = λ n p h. inl h }

pub remove_name-Drops : (i : ℕ) (e : Element) → Drops e (remove_name i e)
unfolding remove_name remove_node
remove_name-Drops i e = record {
  names = λ k. ground (arith, ==→eq k i);
  stays = λ n p h. inl (ground (arith, h));
}

pub forget-Drops : (i name : ℕ) (e : Element) → Drops e (forget i name e)
unfolding forget remove_name remove_node
forget-Drops i name e = record {
  names = λ k. ground (arith, ==→eq k i);
  stays = λ n p h. inl (ground (arith, h));
}

pub report-Drops : (i : ℕ) (e : Element) → Drops e (report_running i e)
unfolding report_running
report-Drops i e =
    if-Drops (e.atom i).mailbox_running e (record e { framework_errors = e.framework_errors + 1 }) e
      (λ b. view-Drops e.atoms e.names e.atom (e.framework_errors + 1) e (λ k. refl)) (Drops-refl e)

pub retire_unused-Drops :
    (p name : ℕ) (e : Element)
    → Distinct (keys e.ref_states)
    → lookup name e.ref_states ≡ some p
    → Drops e (retire_unused p name e)
unfolding retire_unused
retire_unused-Drops p name e d here =
    if-Drops (is_empty (e.ref p) && not (is_some (lookup name e.atoms))) e _ e
      (λ b. drop-Drops name p e d here (ground (arith, b))) (Drops-refl e)

pub retire-Drops :
    (q : Option ℕ) (name : ℕ) (e : Element)
    → Distinct (keys e.ref_states)
    → lookup name e.ref_states ≡ q
    → Drops e (retire q name e)
unfolding retire
retire-Drops none name e d here = Drops-refl e
retire-Drops (some p) name e d here =
    if-Drops (is_empty (e.ref p)) e _ e (λ b. drop-Drops name p e d here b) (Drops-refl e)

-- The states, as the removal of an atom leaves them.
pub forget-ref_states : (i name : ℕ) (e : Element) → (forget i name e).ref_states ≡ e.ref_states
unfolding forget remove_name remove_node
forget-ref_states i name e = ground arith

pub remove_name-ref_states : (i : ℕ) (e : Element) → (remove_name i e).ref_states ≡ e.ref_states
unfolding remove_name remove_node
remove_name-ref_states i e = ground arith

pub drop_entry-ref_states :
    (b : Bool) (name : ℕ) (e : Element) → (drop_entry b name e).ref_states ≡ e.ref_states
unfolding drop_entry
drop_entry-ref_states b name e = ground arith
