-- ===== src/Refs/Collect.antt =====
-- When an element forgets an atom, and whom a remote caller reaches.
use go_atomos.AtomState.{is_not_halt}
use go_atomos.Common.{
  ℕ, zero, suc, ◌<◌, ◌≡◌, ◌≢◌, ◌↔◌, ◌⊎◌, inl, inr, refl, sym, ap, ◌∙◌, Bool, true, false, Option,
  none, some, List, [], ◌∷◌, arith, ◌==◌, if◌then◌else◌, Bool-cases, Option-cases, Distinct,
}
use go_atomos.Common.Maps.{lookup, keys, lookup-delete}
use go_atomos.ErrorCode.{err_atom_instance_mismatch}
use go_atomos.Refs.{
  RefState, Tracker, Element, count_of, release, release_cell, on_instance_refs_drained, tracker_at,
  mark_released, release_tracker, after_release, release_open, get_atom_from_remote, forget,
  remove_name, report_running, retire_unused, remove_node, is_current,
}
use go_atomos.Refs.Same.{drained-Same}
use go_atomos.Refs.Count.{holders-mark_released, IsCounted, holders}

tracker_at-mark_released :
    (k : ℕ) (t : Tracker) (ts : List Tracker)
    → tracker_at k ts ≡ some t
    → tracker_at k (mark_released k ts) ≡ some (record t { released = true })
tracker_at-mark_released k t [] here = ground arith
tracker_at-mark_released zero t (u ∷ us) here = ground arith
tracker_at-mark_released (suc k) t (u ∷ us) here = tracker_at-mark_released k t us here

after_release-trackers :
    (p i : ℕ) (out : Element × Bool) → (after_release p i out).trackers ≡ out.0.trackers
unfolding after_release
after_release-trackers p i (e, false) = refl
after_release-trackers p i (e, true) = (drained-Same p i e).trackers

release-released :
    (k : ℕ) (t : Tracker) (e : Element)
    → tracker_at k e.trackers ≡ some t
    → t.released ≡ true
    → release_tracker k e ≡ e
unfolding release_tracker release_open
release-released k t e here gone =
    ap (λ o. release_open k o e) here
    ∙ ap
        (λ b.
          if b
          then e
          else after_release t.state t.inst_id
              (release t.state t.inst_id (record e { trackers = mark_released k e.trackers })))
        gone

release-none : (k : ℕ) (e : Element) → tracker_at k e.trackers ≡ none → release_tracker k e ≡ e
unfolding release_tracker release_open
release-none k e here = ap (λ o. release_open k o e) here

release_twice :
    (k : ℕ) (o : Option Tracker) (e : Element)
    → tracker_at k e.trackers ≡ o
    → release_tracker k (release_open k o e) ≡ release_open k o e
unfolding release_open release
release_twice k none e here = release-none k e here
release_twice k (some t) e here =
    let v =
      after_release t.state t.inst_id
        (release t.state t.inst_id (record e { trackers = mark_released k e.trackers })) in
    elim (Bool-cases t.released)
      as (λ x. release_tracker k (if t.released then e else v) ≡ (if t.released then e else v)) [
        | inl gone ↦ rw (gone, release-released k t e here gone)
        | inr free ↦ rw (
          free,
          release-released k (record t { released = true }) v
              (ap (tracker_at k) (
                  after_release-trackers t.state t.inst_id (
                    release t.state t.inst_id (record e { trackers = mark_released k e.trackers })))
                ∙ tracker_at-mark_released k t e.trackers here)
              refl,
        )
      ]

-- Releasing a tracker twice leaves the element as releasing it once does.
pub release_tracker-release_tracker :
    (k : ℕ) (e : Element) → release_tracker k (release_tracker k e) ≡ release_tracker k e
unfolding release_tracker
release_tracker-release_tracker k e = release_twice k (tracker_at k e.trackers) e refl

-- A remote caller gets the instance that it asks for or one error, and it gets the instance
-- exactly when the number is not 0, the entry under the name is this instance, and that is not
-- halted.
pub get_atom_from_remote_lem :
    (name caller : ℕ) (e : Element)
    → ((get_atom_from_remote name caller e ≡ inl err_atom_instance_mismatch)
        ⊎ (get_atom_from_remote name caller e ≡ inr caller))
      × (get_atom_from_remote name caller e ≡ inr caller ↔ (
          (caller ≢ 0)
          × (lookup name e.atoms ≡ some caller)
          × (is_not_halt (e.atom caller).state ≡ true)))
unfolding get_atom_from_remote
get_atom_from_remote_lem name caller e = elim (Option-cases (lookup name e.atoms)) [
  | inl gone ↦ (ground arith, (ground arith, ground arith))
  | inr (i, here) ↦ (ground arith, (ground arith, ground arith))
]

forgotten :
    (p i : ℕ) (e : Element)
    → Distinct (keys e.atoms)
    → lookup (e.ref p).name e.atoms ≡ some i
    → is_not_halt (e.atom i).state ≡ false
    → lookup (e.ref p).name (on_instance_refs_drained p i e).atoms ≡ none
unfolding on_instance_refs_drained forget remove_name remove_node is_current retire_unused
    report_running
forgotten p i e d here halted =
    ground (arith, lookup-delete (e.ref p).name (e.ref p).name e.atoms d)

forgotten_after :
    (p i : ℕ) (name : ℕ) (out : Element × Bool)
    → name ≡ (out.0.ref p).name
    → Distinct (keys out.0.atoms)
    → lookup name out.0.atoms ≡ some i
    → is_not_halt (out.0.atom i).state ≡ false
    → lookup name (after_release p i out).atoms ≡ (if out.1 then none else some i)
unfolding after_release
forgotten_after p i name (e, false) same d here halted = here
forgotten_after p i name (e, true) same d here halted =
    ap (λ n. lookup n (on_instance_refs_drained p i e).atoms) same
    ∙ forgotten p i e d (ap (λ n. lookup n e.atoms) (sym same) ∙ here) halted

release_name : (i : ℕ) (o : Option ℕ) (r : RefState) → (release_cell i o r).0.name ≡ r.name
unfolding release_cell
release_name i o r = ground arith

release_drained :
    (i n : ℕ) (o : Option ℕ) (r : RefState)
    → count_of o ≡ n
    → 0 < n
    → (release_cell i o r).1 ≡ (n == 1)
unfolding release_cell
release_drained i n o r cell positive = ground arith

holders_positive :
    (k : ℕ) (ts : List Tracker) (t : Tracker)
    → tracker_at k ts ≡ some t
    → t.released ≡ false
    → 0 < holders t.state t.inst_id ts
holders_positive k ts t here free =
    ground (arith, holders-mark_released t.state t.inst_id k ts t here free)

-- In a well-formed element, the release of an open tracker of a halted atom that is the entry
-- under its name takes the entry out if it was the last open tracker, and else leaves the
-- entry.
pub release_tracker-halted :
    (k : ℕ) (t : Tracker) (e : Element)
    → IsCounted e
    → Distinct (keys e.atoms)
    → tracker_at k e.trackers ≡ some t
    → t.released ≡ false
    → lookup (e.ref t.state).name e.atoms ≡ some t.inst_id
    → is_not_halt (e.atom t.inst_id).state ≡ false
    → lookup (e.ref t.state).name (release_tracker k e).atoms
      ≡ (if holders t.state t.inst_id e.trackers == 1 then none else some t.inst_id)
unfolding release_tracker release_open release
release_tracker-halted k t e c d here free entry halted =
    let r = e.ref t.state in
    let out = release t.state t.inst_id (record e { trackers = mark_released k e.trackers }) in
    rw (
      here,
      free,
      forgotten_after t.state t.inst_id r.name out
          (ground (arith, release_name t.inst_id (lookup t.inst_id r.cells) r)) d entry halted,
      release_drained t.inst_id (holders t.state t.inst_id e.trackers) (lookup t.inst_id r.cells) r
          (c.counts t.state t.inst_id) (holders_positive k e.trackers t here free),
    )
