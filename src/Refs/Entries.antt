-- ===== src/Refs/Entries.antt =====
-- When the entry of an instance goes.
use go_atomos.Common.{
  ℕ, ◌<◌, ◌≡◌, ◌⊎◌, inl, inr, refl, sym, ap, ◌∙◌, Bool, true, false, not, ◌&&◌, Option, none, some,
  arith, ltb, ◌==◌, if◌then◌else◌, ==→eq, ==_refl, Bool-cases, Distinct,
}
use go_atomos.AtomState.{is_not_halt}
use go_atomos.Common.Maps.{lookup, keys, delete, lookup-delete}
use go_atomos.Refs.{
  Tracker, Element, RefState, count_of, ref_count, release, release_cell, after_release,
  release_open, remove_name, forget, remove_node, report_running, retire_unused,
  on_instance_refs_drained, is_current, refs_under, retire, element_atom_release, drop_entry,
  element_atom_stopping, tracker_at, mark_released,
}
use go_atomos.Refs.Same.{
  report-Same, retire-Same, forget-Same, retire_unused-Same, remove_name-Same, drop_entry-Same,
}
use go_atomos.Refs.Count.{IsCounted, holders, holders-mark_released, release-IsCounted}
use go_atomos.Refs.Found.{IsFound}
use go_atomos.Refs.Released.{open_trackers, refs_under-open_trackers, release-IsFound}
use mathlib.Core.Option.{some-injective}

-- The entry of an instance stays, or the instance has no open tracker and Q.
abbrev pub IsKept : (n i : ℕ) → Type 0 → Element → Type 0
IsKept n i Q v = (lookup n v.atoms ≡ some i) ⊎ ((open_trackers i v.trackers ≡ 0) × Q)

pub report-atoms : (i : ℕ) (e : Element) → (report_running i e).atoms ≡ e.atoms
unfolding report_running
report-atoms i e = ground arith

pub retire-atoms : (q : Option ℕ) (name : ℕ) (e : Element) → (retire q name e).atoms ≡ e.atoms
unfolding retire
retire-atoms none name e = refl
retire-atoms (some p) name e = ground arith

pub retire_unused-atoms : (p name : ℕ) (e : Element) → (retire_unused p name e).atoms ≡ e.atoms
unfolding retire_unused
retire_unused-atoms p name e = ground arith

pub remove_name-atoms : (i : ℕ) (e : Element) → (remove_name i e).atoms ≡ e.atoms
unfolding remove_name remove_node
remove_name-atoms i e = ground arith

report-trackers : (i : ℕ) (e : Element) → (report_running i e).trackers ≡ e.trackers
report-trackers i e = (report-Same i e).trackers

retire-trackers : (q : Option ℕ) (name : ℕ) (e : Element) → (retire q name e).trackers ≡ e.trackers
retire-trackers q name e = (retire-Same q name e).trackers

forget-trackers : (i name : ℕ) (e : Element) → (forget i name e).trackers ≡ e.trackers
forget-trackers i name e = (forget-Same i name e).trackers

pub forget-atoms : (i name : ℕ) (e : Element) → (forget i name e).atoms ≡ delete name e.atoms
unfolding forget
forget-atoms i name e = remove_name-atoms i (record e { atoms = delete name e.atoms })

is_current-some : (o : Option ℕ) (i : ℕ) → is_current o i ≡ true → o ≡ some i
unfolding is_current
is_current-some none i h = ground (arith, h)
is_current-some (some k) i h = ap some (==→eq k i h)

-- The entry under a name is deleted, where it is the one of j.
deleted-IsKept :
    (n i j name : ℕ) (Q : Type 0) (e v : Element)
    → Distinct (keys e.atoms)
    → lookup n e.atoms ≡ some i
    → is_current (lookup name e.atoms) j ≡ true
    → v.atoms ≡ delete name e.atoms
    → (i ≡ j → (open_trackers i v.trackers ≡ 0) × Q)
    → IsKept n i Q v
deleted-IsKept n i j name Q e v d here current gone over = elim (Bool-cases (name == n)) [
  | inl same ↦
      let at : lookup n e.atoms ≡ some j =
        ap (λ k. lookup k e.atoms) (sym (==→eq name n same))
        ∙ is_current-some (lookup name e.atoms) j current in
      inr (over (some-injective i j (sym here ∙ at)))
  | inr apart ↦ inl (
      ap (lookup n) gone
      ∙ lookup-delete name n e.atoms d
      ∙ ap (λ b. if b then none else lookup n e.atoms) apart
      ∙ here)
]

if-IsKept :
    (n i : ℕ) (Q : Type 0) (b : Bool) (u v : Element)
    → (b ≡ true → IsKept n i Q u)
    → (b ≡ false → IsKept n i Q v)
    → IsKept n i Q (if b then u else v)
if-IsKept n i Q true u v f g = f refl
if-IsKept n i Q false u v f g = g refl

none_under :
    (e : Element) (j : ℕ)
    → IsCounted e
    → IsFound e
    → ltb 0 (refs_under (lookup (e.atom j).name e.ref_states) j e) ≡ false
    → open_trackers j e.trackers ≡ 0
none_under e j c f h = ground (arith, h, refs_under-open_trackers e j c f)

module _ (n i : ℕ) where
  pub element_atom_release-IsKept :
      (j : ℕ) (e : Element)
      → IsCounted e
      → IsFound e
      → Distinct (keys e.atoms)
      → lookup n e.atoms ≡ some i
      → IsKept n i (is_not_halt (e.atom i).state ≡ false) (element_atom_release j e)
  unfolding element_atom_release
  element_atom_release-IsKept j e c f d here =
      let Q : Type 0 = is_not_halt (e.atom i).state ≡ false in
      let name = (e.atom j).name in
      let q = lookup name e.ref_states in
      let g = retire q name (forget j name e) in
      if-IsKept n i Q (is_not_halt (e.atom j).state) e _ (λ z. inl here)
        (λ halted.
          if-IsKept n i Q (ltb 0 (refs_under q j e)) e _ (λ z. inl here)
            (λ unused.
              if-IsKept n i Q (not (is_current (lookup name e.atoms) j)) e (report_running j g)
                (λ z. inl here)
                (λ current.
                  deleted-IsKept n i j name Q e (report_running j g) d here
                    (ground (arith, current))
                    (report-atoms j g
                      ∙ retire-atoms q name (forget j name e)
                      ∙ forget-atoms j name e)
                    (λ same. (
                      ap (open_trackers i) (
                            report-trackers j g
                            ∙ retire-trackers q name (forget j name e)
                            ∙ forget-trackers j name e)
                          ∙ ap (λ k. open_trackers k e.trackers) same
                          ∙ none_under e j c f unused,
                      ap (λ k. is_not_halt (e.atom k).state) same ∙ halted,
                    )))))

  pub element_atom_stopping-IsKept :
      (j : ℕ) (e : Element)
      → IsCounted e
      → IsFound e
      → Distinct (keys e.atoms)
      → lookup n e.atoms ≡ some i
      → IsKept n i (i ≡ j) (element_atom_stopping j e)
  unfolding element_atom_stopping drop_entry
  element_atom_stopping-IsKept j e c f d here =
      let name = (e.atom j).name in
      let q = lookup name e.ref_states in
      let b = is_current (lookup name e.atoms) j in
      let g = remove_name j (drop_entry b name e) in
      let v = report_running j (retire q name g) in
      let same : v.atoms ≡ (drop_entry b name e).atoms =
        report-atoms j (retire q name g)
        ∙ retire-atoms q name g
        ∙ remove_name-atoms j (drop_entry b name e) in
      if-IsKept n i (i ≡ j) (ltb 0 (refs_under q j e)) e v (λ z. inl here)
        (λ unused. elim (Bool-cases b) [
          | inl current ↦
              deleted-IsKept n i j name (i ≡ j) e v d here current
                (same
                  ∙ ap (λ x. (if x then record e { atoms = delete name e.atoms } else e).atoms)
                      current)
                (λ at. (
                  ap (open_trackers i) (
                        report-trackers j (retire q name g)
                        ∙ retire-trackers q name g
                        ∙ (remove_name-Same j (drop_entry b name e)).trackers
                        ∙ (drop_entry-Same b name e).trackers)
                      ∙ ap (λ k. open_trackers k e.trackers) at
                      ∙ none_under e j c f unused,
                  at,
                ))
          | inr other ↦ inl (
              ap (lookup n) (
                same
                ∙ ap (λ x. (if x then record e { atoms = delete name e.atoms } else e).atoms) other)
              ∙ here)
        ])

  drained-IsKept :
      (p j : ℕ) (e : Element)
      → Distinct (keys e.atoms)
      → lookup n e.atoms ≡ some i
      → open_trackers j e.trackers ≡ 0
      → IsKept n i (is_not_halt (e.atom i).state ≡ false) (on_instance_refs_drained p j e)
  unfolding on_instance_refs_drained
  drained-IsKept p j e d here unused =
      let Q : Type 0 = is_not_halt (e.atom i).state ≡ false in
      let name = (e.ref p).name in
      let b = is_current (lookup name e.atoms) j in
      let g = retire_unused p name (forget j name e) in
      if-IsKept n i Q (b && is_not_halt (e.atom j).state) e _ (λ z. inl here)
        (λ over.
          if-IsKept n i Q b (report_running j g) (retire_unused p name e)
            (λ current.
              deleted-IsKept n i j name Q e (report_running j g) d here current
                (report-atoms j g
                  ∙ retire_unused-atoms p name (forget j name e)
                  ∙ forget-atoms j name e)
                (λ at. (
                  ap (open_trackers i) (
                        report-trackers j g
                        ∙ (retire_unused-Same p name (forget j name e)).trackers
                        ∙ forget-trackers j name e)
                      ∙ ap (λ k. open_trackers k e.trackers) at
                      ∙ unused,
                  ap (λ k. is_not_halt (e.atom k).state) at ∙ ground (arith, over, current),
                )))
            (λ other. inl (ap (lookup n) (retire_unused-atoms p name e) ∙ here)))

  after_release-IsKept :
      (p j : ℕ) (out : Element × Bool)
      → Distinct (keys out.0.atoms)
      → lookup n out.0.atoms ≡ some i
      → (out.1 ≡ true → open_trackers j out.0.trackers ≡ 0)
      → IsKept n i (is_not_halt (out.0.atom i).state ≡ false) (after_release p j out)
  unfolding after_release
  after_release-IsKept p j (e, false) d here unused = inl here
  after_release-IsKept p j (e, true) d here unused = drained-IsKept p j e d here (unused refl)

release_cell-drained :
    (j : ℕ) (o : Option ℕ) (r : RefState)
    → Distinct (keys r.cells)
    → (release_cell j o r).1 ≡ true
    → count_of (lookup j (release_cell j o r).0.cells) ≡ 0
unfolding release_cell
release_cell-drained j none r d drained = ground (arith, drained)
release_cell-drained j (some cnt) r d drained =
    ground (arith, drained, lookup-delete j j r.cells d, ==_refl j)

-- A release that drains the cell of an instance leaves no open tracker of the instance.
release-drained :
    (k : ℕ) (t : Tracker) (e : Element)
    → IsCounted e
    → IsFound e
    → tracker_at k e.trackers ≡ some t
    → t.released ≡ false
    → let out = release t.state t.inst_id (record e { trackers = mark_released k e.trackers }) in
      out.1 ≡ true → open_trackers t.inst_id out.0.trackers ≡ 0
unfolding release refs_under ref_count
release-drained k t e c f here free drained =
    let j = t.inst_id in
    let p = t.state in
    let held : 0 < holders p j e.trackers =
      ground (arith, holders-mark_released p j k e.trackers t here free, ==_refl p, ==_refl j) in
    let out = release p j (record e { trackers = mark_released k e.trackers }) in
    let cell = lookup j (e.ref p).cells in
    let under =
      refs_under-open_trackers out.0 j (release-IsCounted k t e c here free)
        (release-IsFound k t e f here free) in
    let seen : refs_under (some p) j out.0 ≡ 0 =
      ap (λ b. count_of (lookup j (if b then (release_cell j cell (e.ref p)).0 else e.ref p).cells))
        (==_refl p)
      ∙ release_cell-drained j cell (e.ref p) (c.once p) drained in
    sym under ∙ ap (λ o. refs_under o j out.0) (f.found p j held) ∙ seen

pub release_open-IsKept :
    (n i k : ℕ) (o : Option Tracker) (e : Element)
    → IsCounted e
    → IsFound e
    → Distinct (keys e.atoms)
    → lookup n e.atoms ≡ some i
    → tracker_at k e.trackers ≡ o
    → IsKept n i (is_not_halt (e.atom i).state ≡ false) (release_open k o e)
unfolding release_open release
release_open-IsKept n i k none e c f d here at = inl here
release_open-IsKept n i k (some t) e c f d here at =
    let out = release t.state t.inst_id (record e { trackers = mark_released k e.trackers }) in
    if-IsKept n i (is_not_halt (e.atom i).state ≡ false) t.released e _ (λ z. inl here)
      (λ free.
        after_release-IsKept n i t.state t.inst_id out d here (release-drained k t e c f at free))
