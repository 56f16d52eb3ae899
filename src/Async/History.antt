-- ===== src/Async/History.antt =====
-- The callbacks of an atom over a history of messages, replies and its halt.
use go_atomos.Common.{
  ℕ, suc, ◌+◌, ◌%◌, ◌≤◌, ◌<◌, ◌≡◌, inl, inr, refl, sym, subst, ◌∙◌, Bool, true, none, some, List,
  [], ◌∷◌, arith, ◌==◌, if◌then◌else◌, Option-cases, length, Distinct,
}
use go_atomos.Common.Maps.{
  lookup, insert, delete, keys, lookup-insert, lookup-delete, insert-Distinct, delete-Distinct,
}
use go_atomos.Async.{
  Calls, Event, called, cancelled_by_halt, async_cancel_all, push_async_message,
  on_async_messaging_callback, call_pending, u64_mod,
}

-- How many entries of the table hold a callback, and how often it was called.
unfoldable pub waiting : ℕ → List (ℕ × ℕ) → ℕ
waiting c [] = 0
waiting c ((id, f) ∷ table) = if f == c then suc (waiting c table) else waiting c table

unfoldable pub ended : ℕ → List Event → ℕ
ended c [] = 0
ended c (called f answer ∷ es) = if f == c then suc (ended c es) else ended c es
ended c (e ∷ es) = ended c es

-- What happens to the callbacks of an atom: messages that it sends, replies, and its halt.
pub data Op : Type 0 where
  pushes : (callback : ℕ) (pushed : Bool) → Op
  replies : (async_id reply : ℕ) → Op
  halts : Op

unfoldable pub act : Op → Calls → Calls
act (pushes c pushed) s = (push_async_message c pushed s).0
act (replies id reply) s = on_async_messaging_callback id reply s
act halts s = async_cancel_all s

unfoldable pub run : List Op → Calls → Calls
run [] s = s
run (o ∷ os) s = run os (act o s)

-- How often a callback is registered.
pub registered : ℕ → List Op → ℕ
registered c [] = 0
registered c (pushes f pushed ∷ os) = if f == c then suc (registered c os) else registered c os
registered c (o ∷ os) = registered c os

-- The ids in the table have been given out, each once, and after the halt there are none.
pub record IsCalls (s : Calls) : Type 0 where
  pub once : Distinct (keys s.async_callback_map)
  pub issued : (k : ℕ) → s.async_callback_id < k → lookup k s.async_callback_map ≡ none
  pub cleared : s.async_cleared ≡ true → s.async_callback_map ≡ []

waiting-insert :
    (c id f : ℕ) (table : List (ℕ × ℕ))
    → lookup id table ≡ none
    → waiting c (insert id f table) ≡ waiting c table + (if f == c then 1 else 0)
unfolding waiting insert lookup
waiting-insert c id f [] free = ground arith
waiting-insert c id f ((q, u) ∷ table) free = ground (arith, waiting-insert c id f table)

waiting-delete :
    (c id f : ℕ) (table : List (ℕ × ℕ))
    → lookup id table ≡ some f
    → waiting c table ≡ waiting c (delete id table) + (if f == c then 1 else 0)
unfolding waiting delete lookup
waiting-delete c id f [] here = ground arith
waiting-delete c id f ((q, u) ∷ table) here = ground (arith, waiting-delete c id f table)

ended-call_pending :
    (c : ℕ) (table : List (ℕ × ℕ)) (trace : List Event)
    → ended c (call_pending table trace) ≡ waiting c table + ended c trace
unfolding ended call_pending waiting
ended-call_pending c [] trace = omega arith
ended-call_pending c ((id, f) ∷ table) trace =
    ground (arith, ended-call_pending c table (called f cancelled_by_halt ∷ trace))

-- The callbacks that wait or have been called.
abbrev known : ℕ → Calls → ℕ
known c s = waiting c s.async_callback_map + ended c s.trace

push-known :
    (c f : ℕ) (pushed : Bool) (s : Calls)
    → IsCalls s
    → suc s.async_callback_id < u64_mod
    → known c (push_async_message f pushed s).0 ≡ known c s + (if f == c then 1 else 0)
unfolding push_async_message ended
push-known c f pushed s w bound =
    let free : lookup ((s.async_callback_id + 1) % u64_mod) s.async_callback_map ≡ none =
      w.issued ((s.async_callback_id + 1) % u64_mod) (omega (arith, bound)) in
    ground
      (arith, waiting-insert c ((s.async_callback_id + 1) % u64_mod) f s.async_callback_map free)

reply-known :
    (c id reply : ℕ) (s : Calls) → known c (on_async_messaging_callback id reply s) ≡ known c s
unfolding on_async_messaging_callback ended
reply-known c id reply s = elim (Option-cases (lookup id s.async_callback_map)) [
  | inl free ↦ ground arith
  | inr (f, here) ↦ ground (arith, waiting-delete c id f s.async_callback_map here)
]

halt-known : (c : ℕ) (s : Calls) → known c (async_cancel_all s) ≡ known c s
unfolding async_cancel_all waiting
halt-known c s = omega (arith, ended-call_pending c s.async_callback_map s.trace)

-- A registered callback gets an id that was not given out before.
pub push-IsCalls :
    (f : ℕ) (pushed : Bool) (s : Calls)
    → IsCalls s
    → suc s.async_callback_id < u64_mod
    → IsCalls (push_async_message f pushed s).0
      × ((push_async_message f pushed s).0.async_callback_id ≤ suc s.async_callback_id)
unfolding push_async_message
push-IsCalls f pushed s w bound = (
  record {
    once = ground (
      arith,
      w.once,
      insert-Distinct ((s.async_callback_id + 1) % u64_mod) f s.async_callback_map w.once,
    );
    issued = λ k h. ground (
      arith,
      h,
      w.issued k,
      lookup-insert ((s.async_callback_id + 1) % u64_mod) k f s.async_callback_map,
    );
    cleared = ground (arith, w.cleared);
  },
  ground arith,
)

lookup-nil : (id : ℕ) → lookup {V = ℕ} id [] ≡ none
unfolding lookup
lookup-nil id = refl

lookup-empty : (id : ℕ) (table : List (ℕ × ℕ)) → table ≡ [] → lookup id table ≡ none
lookup-empty id table e = subst (λ t. lookup id t ≡ none) (sym e) (lookup-nil id)

reply-IsCalls :
    (id reply : ℕ) (s : Calls)
    → IsCalls s
    → IsCalls (on_async_messaging_callback id reply s)
      × ((on_async_messaging_callback id reply s).async_callback_id ≡ s.async_callback_id)
unfolding on_async_messaging_callback
reply-IsCalls id reply s w = (
  record {
    once = ground (arith, w.once, delete-Distinct id s.async_callback_map w.once);
    issued = λ k h. ground (arith, h, w.issued k, lookup-delete id k s.async_callback_map w.once);
    cleared = ground (arith, w.cleared, lookup-empty id s.async_callback_map);
  },
  ground arith,
)

halt-IsCalls : (s : Calls) → IsCalls (async_cancel_all s)
unfolding async_cancel_all keys lookup
halt-IsCalls s = record { once = tt; issued = λ k h. refl; cleared = λ h. refl }

halt-id : (s : Calls) → (async_cancel_all s).async_callback_id ≤ suc s.async_callback_id
unfolding async_cancel_all
halt-id s = omega arith

pub act-IsCalls :
    (o : Op) (s : Calls)
    → IsCalls s
    → suc s.async_callback_id < u64_mod
    → IsCalls (act o s) × ((act o s).async_callback_id ≤ suc s.async_callback_id)
unfolding act
act-IsCalls (pushes f pushed) s w bound = push-IsCalls f pushed s w bound
act-IsCalls (replies id reply) s w bound =
    ((reply-IsCalls id reply s w).0, omega (arith, (reply-IsCalls id reply s w).1))
act-IsCalls halts s w bound = (halt-IsCalls s, halt-id s)

act-known :
    (c : ℕ) (o : Op) (os : List Op) (s : Calls)
    → IsCalls s
    → suc s.async_callback_id < u64_mod
    → registered c os + known c (act o s) ≡ registered c (o ∷ os) + known c s
unfolding act registered
act-known c (pushes f pushed) os s w bound = ground (arith, push-known c f pushed s w bound)
act-known c (replies id reply) os s w bound = omega (arith, reply-known c id reply s)
act-known c halts os s w bound = omega (arith, halt-known c s)

-- From well-formed calls, over any history of messages, replies and halts that does not use up
-- the ids: the calls stay well-formed, and the entries of each callback in the table plus the
-- calls of it grow by exactly the number of its registrations.
pub run-conserves :
    (c : ℕ) (os : List Op) (s : Calls)
    → IsCalls s
    → s.async_callback_id + length os < u64_mod
    → IsCalls (run os s)
      × (waiting c (run os s).async_callback_map + ended c (run os s).trace
          ≡ registered c os + (waiting c s.async_callback_map + ended c s.trace))
unfolding run registered
run-conserves c [] s w bound = (w, omega arith)
run-conserves c (o ∷ os) s w bound =
    let next = act-IsCalls o s w (omega (arith, bound)) in
    let rest = run-conserves c os (act o s) next.0 (omega (arith, bound, next.1)) in
    (rest.0, rest.1 ∙ act-known c o os s w (omega (arith, bound)))
