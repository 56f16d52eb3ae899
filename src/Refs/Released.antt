-- ===== src/Refs/Released.antt =====
-- The release of a reference, and the references of an instance as they are seen under its name.
use go_atomos.Common.{
  ℕ, suc, ◌<◌, ◌≡◌, inl, inr, refl, sym, ap, ◌∙◌, Bool, true, false, not, ◌&&◌, Option, none, some,
  List, [], ◌∷◌, arith, ◌==◌, if◌then◌else◌, ==→eq, ==_refl, Option-cases,
}
use go_atomos.Common.Maps.{lookup}
use go_atomos.Refs.{
  Tracker, Element, ref_count, release, after_release, release_open, refs_under,
  on_instance_refs_drained, tracker_at, mark_released,
}
use go_atomos.Refs.Same.{drained-Same}
use go_atomos.Refs.Count.{IsCounted, holders, holders-mark_released, release-IsCounted}
use go_atomos.Refs.Found.{IsFound, Drops-IsFound}
use go_atomos.Refs.Reached.{drained-Drops, release_cell-name}

-- The open trackers of an instance, whatever state they point to.
unfoldable pub open_trackers : ℕ → List Tracker → ℕ
open_trackers i [] = 0
open_trackers i (t ∷ ts) =
    let rest = open_trackers i ts in if not t.released && t.inst_id == i then suc rest else rest

none_open : (i : ℕ) (ts : List Tracker) → ((p : ℕ) → holders p i ts ≡ 0) → open_trackers i ts ≡ 0
unfolding open_trackers holders
none_open i [] h = refl
none_open i (t ∷ ts) h =
    let rest = none_open i ts (λ p. ground (arith, h p)) in
    ground (arith, rest, h t.state, ==_refl t.state)

-- All open trackers of an instance point to one state.
one_open :
    (p i : ℕ) (ts : List Tracker)
    → ((q : ℕ) → (q == p) ≡ false → holders q i ts ≡ 0)
    → open_trackers i ts ≡ holders p i ts
unfolding open_trackers holders
one_open p i [] h = refl
one_open p i (t ∷ ts) h =
    let rest = one_open p i ts (λ q apart. ground (arith, h q apart)) in
    ground (arith, rest, h t.state, ==_refl t.state)

held_by_one :
    (e : Element) (i p : ℕ)
    → IsFound e
    → lookup (e.atom i).name e.ref_states ≡ some p
    → (q : ℕ) → (q == p) ≡ false
    → holders q i e.trackers ≡ 0
held_by_one e i p f here q apart = ground (arith, f.found q i, here, ==_refl p)

-- What `elementAtomRelease` and `elementAtomStopping` see is the number of open trackers.
pub refs_under-open_trackers :
    (e : Element) (i : ℕ)
    → IsCounted e
    → IsFound e
    → refs_under (lookup (e.atom i).name e.ref_states) i e ≡ open_trackers i e.trackers
unfolding refs_under ref_count
refs_under-open_trackers e i c f = elim (Option-cases (lookup (e.atom i).name e.ref_states)) [
  | inl z ↦
      ap (λ o. refs_under o i e) z
      ∙ sym (none_open i e.trackers (λ p. ground (arith, f.found p i, z)))
  | inr (p, z) ↦
      ap (λ o. refs_under o i e) z
      ∙ c.counts p i
      ∙ sym (one_open p i e.trackers (held_by_one e i p f z))
]

pub release-IsFound :
    (k : ℕ) (t : Tracker) (e : Element)
    → IsFound e
    → tracker_at k e.trackers ≡ some t
    → t.released ≡ false
    → IsFound (release t.state t.inst_id (record e { trackers = mark_released k e.trackers })).0
unfolding release
release-IsFound k t e f here free =
    let cell = lookup t.inst_id (e.ref t.state).cells in
    record {
      found = λ q j h.
          f.found q j (omega (arith, h, holders-mark_released q j k e.trackers t here free));
      named = λ n q h.
          ground (
            arith,
            f.named n q h,
            release_cell-name t.inst_id cell (e.ref t.state),
            ==→eq q t.state,
          );
    }

-- The state of an open tracker stands under its own name.
tracked-lookup :
    (k : ℕ) (t : Tracker) (e : Element)
    → IsFound e
    → tracker_at k e.trackers ≡ some t
    → t.released ≡ false
    → lookup (e.ref t.state).name e.ref_states ≡ some t.state
tracked-lookup k t e f here free =
    let held : 0 < holders t.state t.inst_id e.trackers = ground (
      arith,
      holders-mark_released t.state t.inst_id k e.trackers t here free,
      ==_refl t.state,
      ==_refl t.inst_id,
    ) in
    let at = f.found t.state t.inst_id held in
    ap (λ n. lookup n e.ref_states) (f.named (e.atom t.inst_id).name t.state at) ∙ at

released-lookup :
    (p i : ℕ) (e : Element) (ts : List Tracker)
    → lookup (e.ref p).name e.ref_states ≡ some p
    → let v = (release p i (record e { trackers = ts })).0 in
      lookup (v.ref p).name v.ref_states ≡ some p
unfolding release
released-lookup p i e ts here =
    ground (arith, here, ==_refl p, release_cell-name i (lookup i (e.ref p).cells) (e.ref p))

after_release-IsFound :
    (p i : ℕ) (out : Element × Bool)
    → IsCounted out.0
    → IsFound out.0
    → lookup (out.0.ref p).name out.0.ref_states ≡ some p
    → IsFound (after_release p i out)
unfolding after_release
after_release-IsFound p i (e, false) c f here = f
after_release-IsFound p i (e, true) c f here =
    Drops-IsFound e (on_instance_refs_drained p i e) (drained-Same p i e)
      (drained-Drops p i e c.states_once here) c f

if_IsFound :
    (b : Bool) (e v : Element) → IsFound e → (b ≡ false → IsFound v) → IsFound (if b then e else v)
if_IsFound true e v f g = f
if_IsFound false e v f g = g refl

pub release_open-IsFound :
    (k : ℕ) (o : Option Tracker) (e : Element)
    → IsCounted e
    → IsFound e
    → tracker_at k e.trackers ≡ o
    → IsFound (release_open k o e)
unfolding release_open
release_open-IsFound k none e c f here = f
release_open-IsFound k (some t) e c f here = if_IsFound t.released e _ f (λ free.
    after_release-IsFound t.state t.inst_id
      (release t.state t.inst_id (record e { trackers = mark_released k e.trackers }))
      (release-IsCounted k t e c here free) (release-IsFound k t e f here free)
      (released-lookup t.state t.inst_id e (mark_released k e.trackers)
        (tracked-lookup k t e f here free)))
