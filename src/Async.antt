-- ===== src/Async.antt =====
-- base_atomos.go: the callbacks that an atom waits for. A callback is a number, and so is a reply.
-- The table maps ids to callbacks; Go's `range` visits a map in any order, the model in the table's.
pub mod History
pub mod Replies
pub mod Examples
use go_atomos.Common.{
  ℕ, zero, suc, ◌+◌, ◌-◌, ◌*◌, ◌/◌, ◌%◌, ◌≤◌, ◌<◌, ◌≡◌, ◌≢◌, ◌↔◌, ◌⊎◌, inl, inr, refl, sym, ap,
  subst, ◌∙◌, Bool, true, false, not, ◌&&◌, ◌||◌, Option, none, some, List, [], ◌∷◌, ◌++◌, map,
  arith, ltb, leb, ◌==◌, if◌then◌else◌, ==→eq, ==_refl, ==_ne, Bool-cases, Option-cases, is_some,
  length, length-append, last_or, last_or-append, find, erase_first, has, Distinct, has-append,
  Distinct-snoc, without, has-without_self, has-without_ne, has-erase_first, erase_first-Distinct,
}
use go_atomos.Common.Maps.{lookup, insert, delete, keys}

abbrev pub u64_mod : ℕ
u64_mod = 18446744073709551616

-- How a callback was called: with what came back, or with `ErrAsyncCallbackCancelledByHalt`.
pub data Answer : Type 0 where
  replied : ℕ → Answer
  cancelled_by_halt : Answer

pub data Event : Type 0 where
  called : (callback : ℕ) → Answer → Event
  zero_id handler_not_found fatal : Event
  message_sent : (async_id : ℕ) → Event

pub record Calls : Type 0 where
  pub async_callback_id : ℕ
  pub async_callback_map : List (ℕ × ℕ)
  pub async_cleared : Bool
  pub startup_id : ℕ
  pub trace : List Event

abbrev emit : Event → Calls → Calls
emit e s = record s { trace = e ∷ s.trace }

-- `asyncSet`: the new state with the startup id and the id of the callback.
pub async_set : (callback : ℕ) → Calls → Calls × (ℕ × ℕ)
async_set callback s =
    if s.async_cleared
    then (emit (called callback cancelled_by_halt) s, (s.startup_id, 0))
    else (let id = (s.async_callback_id + 1) % u64_mod in
        (
          record s {
            async_callback_id = id;
            async_callback_map = insert id callback s.async_callback_map;
          },
          (s.startup_id, id),
        ))

-- `asyncPop`
pub async_pop : ℕ → Calls → Calls × Option ℕ
async_pop id s = elim (lookup id s.async_callback_map) [
  | none ↦ (s, none)
  | some callback ↦
      (record s { async_callback_map = delete id s.async_callback_map }, some callback)
]

call_handler : Calls × Option ℕ → (reply : ℕ) → Calls
call_handler (s, none) reply = emit handler_not_found s
call_handler (s, some callback) reply = emit (called callback (replied reply)) s

-- `OnAsyncMessagingCallback`
pub on_async_messaging_callback : (async_id reply : ℕ) → Calls → Calls
unfolding async_pop call_handler
on_async_messaging_callback async_id reply s =
    if async_id == 0 then emit zero_id s else call_handler (async_pop async_id s) reply

-- `AsyncCallbackPending`
pub async_callback_pending : Calls → ℕ
async_callback_pending s = length s.async_callback_map

-- The calls of the pending callbacks at the end of `asyncCancelAll`; a callback that is registered is not
-- nil, and a panic of one counts as its call.
call_pending : List (ℕ × ℕ) → List Event → List Event
call_pending [] trace = trace
call_pending ((id, callback) ∷ table) trace =
    call_pending table (called callback cancelled_by_halt ∷ trace)

-- `asyncCancelAll`
pub async_cancel_all : Calls → Calls
unfolding call_pending
async_cancel_all s = record s {
  async_cleared = true;
  async_callback_map = [];
  trace = call_pending s.async_callback_map s.trace;
}

-- The part of `PushAsyncMessage` after the registration: `pushed` is what the target's mailbox answers.
send : (pushed : Bool) → Calls × (ℕ × ℕ) → Calls × Bool
send pushed (s, (startup, id)) =
    if id == 0
    then (s, true)
    else if startup == 0
    then (emit fatal s, true)
    else if pushed
    then (emit (message_sent id) s, true)
    else (s, false)

-- `PushAsyncMessage` with a callback and valid arguments, on the caller's side; false is an error.
pub push_async_message : (callback : ℕ) (pushed : Bool) → Calls → Calls × Bool
unfolding async_set send
push_async_message callback pushed s = send pushed (async_set callback s)
