-- ===== src/Refs/Count.antt =====
-- The counts of references against the trackers that are not released.
use go_atomos.Common.{
  ℕ, zero, suc, ◌+◌, ◌-◌, ◌%◌, ◌≤◌, ◌<◌, ◌≡◌, refl, Bool, true, false, not, ◌&&◌, Option, none,
  some, List, [], ◌∷◌, ◌++◌, arith, ◌==◌, if◌then◌else◌, Distinct,
}
use go_atomos.Common.Maps.{
  lookup, keys, lookup-insert, lookup-delete, insert-Distinct, delete-Distinct,
}
use go_atomos.Refs.{
  u64_mod, RefState, Tracker, Element, count_of, add_ref, release, release_cell,
  on_instance_refs_drained, tracker_at, mark_released, after_release, release_open, new_state,
  add_ref_under,
}
use go_atomos.Refs.Same.{Same, drained-Same}

-- The trackers of an instance under a state that are not released.
unfoldable pub holders : (state inst_id : ℕ) → List Tracker → ℕ
holders p i [] = 0
holders p i (t ∷ ts) =
    let rest = holders p i ts in
    if not t.released && (t.state == p && t.inst_id == i) then suc rest else rest

-- Each cell holds the number of open trackers, and the pointers in use were given out.
pub record IsCounted (e : Element) : Type 0 where
  pub counts : (p i : ℕ) → count_of (lookup i (e.ref p).cells) ≡ holders p i e.trackers
  pub once : (p : ℕ) → Distinct (keys (e.ref p).cells)
  pub fresh : (p i : ℕ) → e.next_ref ≤ p → holders p i e.trackers ≡ 0
  pub states_once : Distinct (keys e.ref_states)
  pub known : (n p : ℕ) → lookup n e.ref_states ≡ some p → p < e.next_ref

pub holders-snoc :
    (p i : ℕ) (ts : List Tracker) (t : Tracker)
    → holders p i (ts ++ t ∷ [])
      ≡ holders p i ts + (if not t.released && (t.state == p && t.inst_id == i) then 1 else 0)
unfolding holders
holders-snoc p i [] t = ground arith
holders-snoc p i (u ∷ us) t = ground (arith, holders-snoc p i us t)

pub holders-mark_released :
    (p i k : ℕ) (ts : List Tracker) (t : Tracker)
    → tracker_at k ts ≡ some t
    → t.released ≡ false
    → holders p i ts
      ≡ holders p i (mark_released k ts) + (if t.state == p && t.inst_id == i then 1 else 0)
unfolding holders
holders-mark_released p i k [] t here free = ground arith
holders-mark_released p i zero (u ∷ us) t here free = ground arith
holders-mark_released p i (suc k) (u ∷ us) t here free =
    ground (arith, holders-mark_released p i k us t here free)

pub Same-IsCounted : (e v : Element) → Same e v → IsCounted e → IsCounted v
Same-IsCounted e v s c = record {
  counts = λ p i. ground (arith, c.counts p i, s.ref, s.trackers);
  once = λ p. ground (arith, c.once p, s.ref);
  fresh = λ p i h. ground (arith, c.fresh p i, s.trackers, s.next_ref, h);
  states_once = s.states_once c.states_once;
  known = λ n p h. omega (arith, s.next_ref, c.known n p (s.known c.states_once n p h));
}

pub add_ref-IsCounted :
    (p i : ℕ) (e : Element) → IsCounted e → p < e.next_ref → IsCounted (add_ref p i e)
unfolding add_ref
add_ref-IsCounted p i e c old = record {
  counts = λ q j. ground (
    arith,
    c.counts q j,
    lookup-insert i j (count_of (lookup i (e.ref p).cells) + 1) (e.ref p).cells,
    c.counts p i,
    holders-snoc q j e.trackers (record {
      state = p;
      inst_id = i;
      id = ((e.ref p).counter + 1) % u64_mod;
      released = false;
    }),
  );
  once = λ q. ground (
    arith,
    c.once q,
    insert-Distinct i (count_of (lookup i (e.ref p).cells) + 1) (e.ref p).cells (c.once p),
  );
  fresh = λ q j h. ground (
    arith,
    h,
    c.fresh q j,
    holders-snoc q j e.trackers (record {
      state = p;
      inst_id = i;
      id = ((e.ref p).counter + 1) % u64_mod;
      released = false;
    }),
  );
  states_once = c.states_once;
  known = c.known;
}

release_cell_lem :
    (i j : ℕ) (o : Option ℕ) (r : RefState)
    → lookup i r.cells ≡ o
    → Distinct (keys r.cells)
    → (count_of (lookup j (release_cell i o r).0.cells)
        ≡ count_of (lookup j r.cells) - (if j == i then 1 else 0))
      × Distinct (keys (release_cell i o r).0.cells)
unfolding release_cell
release_cell_lem i j none r here d = (ground (arith, here), d)
release_cell_lem i j (some cnt) r here d = (
  ground (arith, here, lookup-delete i j r.cells d, lookup-insert i j (cnt - 1) r.cells),
  ground (arith, delete-Distinct i r.cells d, insert-Distinct i (cnt - 1) r.cells d),
)

-- A release takes one from the cell of the tracker that it marks.
pub release-IsCounted :
    (k : ℕ) (t : Tracker) (e : Element)
    → IsCounted e
    → tracker_at k e.trackers ≡ some t
    → t.released ≡ false
    → IsCounted (release t.state t.inst_id (record e { trackers = mark_released k e.trackers })).0
unfolding release
release-IsCounted k t e c here free =
    let r = e.ref t.state in
    let cell = lookup t.inst_id r.cells in
    record {
      counts = λ q j. ground (
        arith,
        c.counts q j,
        c.counts t.state j,
        holders-mark_released q j k e.trackers t here free,
        release_cell_lem t.inst_id j cell r refl (c.once t.state),
      );
      once =
          λ q. ground (arith, c.once q, release_cell_lem t.inst_id 0 cell r refl (c.once t.state));
      fresh =
          λ q j h. omega (arith, c.fresh q j h, holders-mark_released q j k e.trackers t here free);
      states_once = c.states_once;
      known = c.known;
    }

after_release-IsCounted :
    (p i : ℕ) (out : Element × Bool) → IsCounted out.0 → IsCounted (after_release p i out)
unfolding after_release
after_release-IsCounted p i (e, false) c = c
after_release-IsCounted p i (e, true) c =
    Same-IsCounted e (on_instance_refs_drained p i e) (drained-Same p i e) c

if_IsCounted :
    (b : Bool) (e v : Element)
    → IsCounted e
    → (b ≡ false → IsCounted v)
    → IsCounted (if b then e else v)
if_IsCounted true e v c d = c
if_IsCounted false e v c d = d refl

pub release_open-IsCounted :
    (k : ℕ) (o : Option Tracker) (e : Element)
    → IsCounted e
    → tracker_at k e.trackers ≡ o
    → IsCounted (release_open k o e)
unfolding release_open
release_open-IsCounted k none e c here = c
release_open-IsCounted k (some t) e c here = if_IsCounted t.released e _ c (λ free.
    after_release-IsCounted t.state t.inst_id
      (release t.state t.inst_id (record e { trackers = mark_released k e.trackers }))
      (release-IsCounted k t e c here free))

pub new_state-IsCounted : (name : ℕ) (e : Element) → IsCounted e → IsCounted (new_state name e)
unfolding new_state lookup keys
new_state-IsCounted name e c = record {
  counts = λ p i. ground (arith, c.counts p i, c.fresh p i);
  once = λ p. ground (arith, c.once p);
  fresh = λ p i h. c.fresh p i (omega (arith, h));
  states_once = insert-Distinct name e.next_ref e.ref_states c.states_once;
  known = λ n p h. ground (arith, h, c.known n p, lookup-insert name n e.next_ref e.ref_states);
}

pub new_state_next : (name : ℕ) (e : Element) → e.next_ref < (new_state name e).next_ref
unfolding new_state
new_state_next name e = omega arith

pub add_ref_under-IsCounted :
    (o : Option ℕ) (name i : ℕ) (e : Element)
    → IsCounted e
    → lookup name e.ref_states ≡ o
    → IsCounted (add_ref_under o name i e)
unfolding add_ref_under
add_ref_under-IsCounted none name i e c here =
    add_ref-IsCounted e.next_ref i (new_state name e) (new_state-IsCounted name e c)
      (new_state_next name e)
add_ref_under-IsCounted (some p) name i e c here = add_ref-IsCounted p i e c (c.known name p here)
