-- ===== src/Push.antt =====
-- base_atomos.go, base_atomos_mails.go: the pushes to an atom, and the wait for a reply. The mailbox is the
-- list of the mails that wait in it (module Mailbox shows that the linked queue is such a list); a mail is
-- known by its address. A push that waits has two parts, since the atom and other callers go on between.
pub mod Calls
pub mod Steps
pub mod Edges
pub mod History
pub mod Examples
use go_atomos.ErrorCode.{
  ErrorCode, err_framework_incorrect_usage, err_atomos_invalid_arguments,
  err_id_first_sync_call_deadlock, err_atomos_is_not_running, err_atomos_push_timeout_reject,
  err_atomos_push_timeout_handling,
}
use go_atomos.WaitGraph.{
  Graph, Verdict, self_deadlock, cycle_deadlock, waits_unseen, waits_seen, begin_sync_call,
  remove_wait_edge,
}
use go_atomos.Atom.{MailType, mail_kill, mail_sync, mail_async, mail_wormhole, Reply}
use go_atomos.CallArgs.{Arg, Helper, create_base_atomos_helper, has_errors}
use go_atomos.Common.{
  ℕ, zero, suc, ◌+◌, ◌-◌, ◌*◌, ◌/◌, ◌%◌, ◌≤◌, ◌<◌, ◌≡◌, ◌≢◌, ◌↔◌, ◌⊎◌, inl, inr, refl, sym, ap,
  subst, ◌∙◌, Bool, true, false, not, ◌&&◌, ◌||◌, Option, none, some, List, [], ◌∷◌, ◌++◌, map,
  arith, ltb, leb, ◌==◌, if◌then◌else◌, ==→eq, ==_refl, ==_ne, Bool-cases, Option-cases, is_some,
  length, length-append, last_or, last_or-append, find, erase_first, has, Distinct, has-append,
  Distinct-snoc, without, has-without_self, has-without_ne, has-erase_first, erase_first-Distinct,
}

-- The atom that mails are pushed to, with the next address that is free, and the process's wait graph.
pub record Target : Type 0 where
  pub go_id : ℕ
  pub running : Bool
  pub box : List ℕ
  pub next : ℕ
  pub graph : Graph

-- What the first part of a push comes to: an error, a mail that nobody waits for, or a wait for the reply
-- to a mail, with or without an edge in the wait graph.
pub data Started : Type 0 where
  refused : ErrorCode → Started
  sent : (ref : ℕ) → Started
  waits : (ref : ℕ) (has_wait_edge : Bool) → Started

abbrev refuse : ErrorCode → Target → Started × Target
refuse e t = (refused e, t)

-- `allocBaseAtomosMail` and `pushHead` or `pushTail`.
unfoldable pub push_mail : (to_head : Bool) → Target → Target
push_mail to_head t = record t {
  next = suc t.next;
  box = if t.running then (if to_head then t.next ∷ t.box else t.box ++ t.next ∷ []) else t.box;
}

-- The checks that the pushes begin with.
checked : Bool → Helper → (Helper → Target → Started × Target) → Target → Started × Target
checked from_id h go_on t =
    if not from_id
    then refuse err_framework_incorrect_usage t
    else if has_errors h
    then refuse err_atomos_invalid_arguments t
    else go_on h t

unfoldable pub remove_edge : Bool → ℕ → Target → Target
remove_edge has_wait_edge caller t =
    if has_wait_edge then record t { graph = remove_wait_edge t.graph caller } else t

-- `PushSyncMessage` from the push on.
unfoldable pub sync_push : (caller : ℕ) (to_head has_wait_edge : Bool) → Target → Started × Target
unfolding push_mail remove_edge
sync_push caller to_head has_wait_edge t =
    if t.running
    then (waits t.next has_wait_edge, push_mail to_head t)
    else (refused err_atomos_is_not_running, remove_edge has_wait_edge caller (push_mail to_head t))

-- What follows on the check of the wait graph; `none`: the check has run out of fuel.
unfoldable pub sync_begun :
    (caller : ℕ) (to_head : Bool) → Option (Verdict × Graph) → Target → Option (Started × Target)
unfolding sync_push
sync_begun caller to_head none t = none
sync_begun caller to_head (some (self_deadlock, g)) t =
    some (refuse err_id_first_sync_call_deadlock (record t { graph = g }))
sync_begun caller to_head (some (cycle_deadlock, g)) t =
    some (refuse err_id_first_sync_call_deadlock (record t { graph = g }))
sync_begun caller to_head (some (waits_unseen, g)) t =
    some (sync_push caller to_head false (record t { graph = g }))
sync_begun caller to_head (some (waits_seen, g)) t =
    some (sync_push caller to_head true (record t { graph = g }))

unfoldable pub sync_checked : Bool → ℕ → Helper → Target → Option (Started × Target)
unfolding sync_begun
sync_checked from_id caller h t =
    if not from_id
    then some (refuse err_framework_incorrect_usage t)
    else if has_errors h
    then some (refuse err_atomos_invalid_arguments t)
    else sync_begun caller h.to_head (begin_sync_call t.graph caller t.go_id) t

-- `PushSyncMessage` up to the wait; `from_id` is false for a nil id, `caller` is `getGoID()`.
unfoldable pub push_sync_message :
    Bool → (caller : ℕ) → List (Option Arg) → Target → Option (Started × Target)
unfolding sync_checked
push_sync_message from_id caller ext t =
    sync_checked from_id caller (create_base_atomos_helper mail_sync ext) t

plain_push : (waits_for_it : Helper → Bool) → Helper → Target → Started × Target
unfolding push_mail
plain_push waits_for_it h t =
    if not t.running
    then refuse err_atomos_is_not_running (push_mail h.to_head t)
    else if waits_for_it h
    then (waits t.next false, push_mail h.to_head t)
    else (sent t.next, push_mail h.to_head t)

-- `PushKillMail` and `PushWormholeMailAndWaitReply`, up to the wait; `PushAsyncMessage` without a
-- callback (module Async treats the callback).
unfoldable pub push_kill_mail : Bool → List (Option Arg) → Target → Started × Target
unfolding checked plain_push
push_kill_mail from_id ext t =
    checked from_id (create_base_atomos_helper mail_kill ext) (plain_push (λ h. h.killed)) t

unfoldable pub push_wormhole_mail : Bool → List (Option Arg) → Target → Started × Target
unfolding checked plain_push
push_wormhole_mail from_id ext t =
    checked from_id (create_base_atomos_helper mail_wormhole ext) (plain_push (λ h. true)) t

unfoldable pub push_async_message : Bool → List (Option Arg) → Target → Started × Target
unfolding checked plain_push
push_async_message from_id ext t =
    checked from_id (create_base_atomos_helper mail_async ext) (plain_push (λ h. false)) t

-- `PushAsyncMessageCallback` and `PushTaskCallbackMail`: whether the mail was taken, which is only logged.
unfoldable pub push_async_message_callback : (async_id : ℕ) → Target → Bool × Target
unfolding push_mail
push_async_message_callback async_id t =
    if async_id == 0 then (false, t) else (t.running, push_mail false t)

unfoldable pub push_task_callback_mail : Target → Bool × Target
unfolding push_mail
push_task_callback_mail t = (t.running, push_mail false t)

-- What ends a wait.
pub data Wake : Type 0 where
  arrives : Reply → Wake
  times_out : Wake

abbrev pub failure : ErrorCode → Reply
failure e = record { resp = none; err = some e }

-- `waitReply`: after a timeout the mail is taken out of the mailbox, if it still waits there.
unfoldable pub wait_reply : Wake → ℕ → Target → Reply × Target
wait_reply (arrives r) ref t = (r, t)
wait_reply times_out ref t =
    if has ref t.box
    then (failure err_atomos_push_timeout_reject, record t { box = without ref t.box })
    else (failure err_atomos_push_timeout_handling, t)

-- An error that the atom is not running comes without a response.
unfoldable pub sync_result : Option ErrorCode → Reply → Reply
sync_result (some err_atomos_is_not_running) r = record r { resp = none }
sync_result _ r = r

-- `PushSyncMessage` from the wait on.
unfoldable pub end_sync_message :
    Wake → (caller ref : ℕ) (has_wait_edge : Bool) → Target → Reply × Target
unfolding wait_reply remove_edge sync_result
end_sync_message w caller ref has_wait_edge t =
    let (r, u) = wait_reply w ref t in (sync_result r.err r, remove_edge has_wait_edge caller u)
