-- ===== src/Async/Replies.antt =====
-- Replies to the callbacks of an atom, and its halt.
use go_atomos.Common.{
  ℕ, suc, ◌+◌, ◌%◌, ◌≤◌, ◌<◌, ◌≡◌, refl, sym, ap, subst, Bool, true, false, not, ◌&&◌, some, List,
  [], ◌∷◌, ◌++◌, arith, ◌==◌, length, Distinct,
}
use go_atomos.Common.Maps.{lookup, keys, lookup-insert, lookup-delete}
use go_atomos.Async.{
  Calls, called, replied, async_cancel_all, push_async_message, on_async_messaging_callback,
  async_callback_pending, u64_mod, handler_not_found,
}
use go_atomos.Async.History.{
  waiting, ended, Op, pushes, replies, halts, act, run, registered, IsCalls, run-conserves,
  act-IsCalls, push-IsCalls,
}

act-async_cleared : (o : Op) (s : Calls) → s.async_cleared ≡ true → (act o s).async_cleared ≡ true
unfolding act push_async_message on_async_messaging_callback async_cancel_all
act-async_cleared o s c = ground arith

run-async_cleared :
    (os : List Op) (s : Calls) → s.async_cleared ≡ true → (run os s).async_cleared ≡ true
unfolding run
run-async_cleared [] s c = c
run-async_cleared (o ∷ os) s c = run-async_cleared os (act o s) (act-async_cleared o s c)

run-halted : (os ps : List Op) (s : Calls) → (run (os ++ halts ∷ ps) s).async_cleared ≡ true
unfolding run act async_cancel_all
run-halted [] ps s = run-async_cleared ps (async_cancel_all s) refl
run-halted (o ∷ os) ps s = run-halted os ps (act o s)

waiting-nil : (c : ℕ) → waiting c [] ≡ 0
unfolding waiting
waiting-nil c = refl

waiting-empty : (c : ℕ) (table : List (ℕ × ℕ)) → table ≡ [] → waiting c table ≡ 0
waiting-empty c table e = subst (λ t. waiting c t ≡ 0) (sym e) (waiting-nil c)

-- From well-formed calls with an empty table, over any history that holds a halt and does not
-- use up the ids: no callback is pending at the end, and a callback that had not been called
-- before has been called exactly as often as it was registered, before the halt or after it.
pub run-halts :
    (c : ℕ) (os ps : List Op) (s : Calls)
    → IsCalls s
    → s.async_callback_map ≡ []
    → ended c s.trace ≡ 0
    → s.async_callback_id + length (os ++ halts ∷ ps) < u64_mod
    → (async_callback_pending (run (os ++ halts ∷ ps) s) ≡ 0)
      × (ended c (run (os ++ halts ∷ ps) s).trace ≡ registered c (os ++ halts ∷ ps))
unfolding async_callback_pending
run-halts c os ps s w none_yet silent bound =
    let r = run-conserves c (os ++ halts ∷ ps) s w bound in
    let gone : (run (os ++ halts ∷ ps) s).async_callback_map ≡ [] =
      r.0.cleared (run-halted os ps s) in
    (
      ap length gone,
      omega (
        arith,
        r.1,
        silent,
        waiting-empty c s.async_callback_map none_yet,
        waiting-empty c (run (os ++ halts ∷ ps) s).async_callback_map gone,
      ),
    )

-- Neither a reply to the id nor the halt is among the steps.
unfoldable pub leaves : ℕ → List Op → Bool
leaves id [] = true
leaves id (pushes f pushed ∷ os) = leaves id os
leaves id (replies k reply ∷ os) = not (k == id) && leaves id os
leaves id (halts ∷ os) = false

-- An id that is in the table was given out.
issued_below :
    (id c : ℕ) (s : Calls)
    → IsCalls s
    → lookup id s.async_callback_map ≡ some c
    → id ≤ s.async_callback_id
issued_below id c s w here = ground (arith, w.issued id)

act-lookup :
    (id c : ℕ) (o : Op) (os : List Op) (s : Calls)
    → IsCalls s
    → suc s.async_callback_id < u64_mod
    → lookup id s.async_callback_map ≡ some c
    → leaves id (o ∷ os) ≡ true
    → (lookup id (act o s).async_callback_map ≡ some c) × (leaves id os ≡ true)
unfolding act push_async_message on_async_messaging_callback leaves
act-lookup id c (pushes f pushed) os s w bound here l = ground (
  arith,
  lookup-insert ((s.async_callback_id + 1) % u64_mod) id f s.async_callback_map,
  w.issued ((s.async_callback_id + 1) % u64_mod),
  issued_below id c s w here,
)
act-lookup id c (replies k reply) os s w bound here l =
    ground (arith, lookup-delete k id s.async_callback_map w.once)
act-lookup id c halts os s w bound here l = ground arith

run-lookup :
    (id c : ℕ) (os : List Op) (s : Calls)
    → IsCalls s
    → s.async_callback_id + length os < u64_mod
    → lookup id s.async_callback_map ≡ some c
    → leaves id os ≡ true
    → lookup id (run os s).async_callback_map ≡ some c
unfolding run
run-lookup id c [] s w bound here l = here
run-lookup id c (o ∷ os) s w bound here l =
    let next = act-IsCalls o s w (omega (arith, bound)) in
    let kept = act-lookup id c o os s w (omega (arith, bound)) here l in
    run-lookup id c os (act o s) next.0 (omega (arith, bound, next.1)) kept.0 kept.1

push-lookup :
    (c : ℕ) (pushed : Bool) (s : Calls)
    → s.async_cleared ≡ false
    → suc s.async_callback_id < u64_mod
    → lookup (suc s.async_callback_id) (push_async_message c pushed s).0.async_callback_map ≡ some c
unfolding push_async_message
push-lookup c pushed s running bound = ground (
  arith,
  lookup-insert ((s.async_callback_id + 1) % u64_mod) (suc s.async_callback_id) c
      s.async_callback_map,
)

replied_twice :
    (id c reply again : ℕ) (t : Calls)
    → Distinct (keys t.async_callback_map)
    → lookup id t.async_callback_map ≡ some c
    → 0 < id
    → ((on_async_messaging_callback id reply t).trace ≡ called c (replied reply) ∷ t.trace)
      × ((on_async_messaging_callback id again (on_async_messaging_callback id reply t)).trace
          ≡ handler_not_found ∷ called c (replied reply) ∷ t.trace)
unfolding on_async_messaging_callback
replied_twice id c reply again t d here some_id =
    ground (arith, lookup-delete id id t.async_callback_map d)

-- If an atom that is not halted registers a callback in well-formed calls, then after any
-- history without its halt and without a reply to the new id, ids not used up, a reply to that
-- id calls this callback, and a second one finds no handler.
pub reply_lem :
    (c reply again : ℕ) (pushed : Bool) (os : List Op) (s : Calls)
    → IsCalls s
    → s.async_cleared ≡ false
    → suc (s.async_callback_id + length os) < u64_mod
    → leaves (suc s.async_callback_id) os ≡ true
    → ((on_async_messaging_callback
          (suc s.async_callback_id)
          reply
          (run os (push_async_message c pushed s).0)).trace
        ≡ called c (replied reply) ∷ (run os (push_async_message c pushed s).0).trace)
      × ((on_async_messaging_callback (suc s.async_callback_id) again (
            on_async_messaging_callback
              (suc s.async_callback_id)
              reply
              (run os (push_async_message c pushed s).0))).trace
          ≡ handler_not_found
            ∷ called c (replied reply)
            ∷ (run os (push_async_message c pushed s).0).trace)
reply_lem c reply again pushed os s w running bound l =
    let first = push-lookup c pushed s running (omega (arith, bound)) in
    let next = push-IsCalls c pushed s w (omega (arith, bound)) in
    let s1 = (push_async_message c pushed s).0 in
    replied_twice (suc s.async_callback_id) c reply again (run os s1)
      (run-conserves c os s1 next.0 (omega (arith, bound, next.1))).0.once
      (run-lookup (suc s.async_callback_id) c os s1 next.0 (omega (arith, bound, next.1)) first l)
      (omega arith)
