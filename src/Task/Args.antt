-- ===== src/Task/Args.antt =====
-- `createTaskHelper`: which arguments of a task are accepted, and what they set. `parse_standard`
-- stands for `cron.ParseStandard`; texts are lists of numbers, and functions are numbers.
use go_atomos.Common.{
  ℕ, suc, Bool, true, false, not, ◌&&◌, ◌||◌, Option, none, some, List, [], ◌∷◌, ◌++◌,
  if◌then◌else◌, is_some,
}
use go_atomos.Common.{ℤ, pos, negsuc, is_negative, is_nonzero, to_nat}
use go_atomos.Task.{
  error_helper, add_to_atomos, and_then, done, Cmd, Helper, Work, plain_fn, with_callback,
}

pub data Arg : Type 0 where
  nil_arg task_append_to_head unknown_arg : Arg
  task_mark : List ℕ → Arg
  task_delay : ℤ → Arg
  task_like_crontab : List ℕ → Arg
  task_cancel_callback task_recover_func : Option ℕ → Arg

pub data Reason : Type 0 where
  task_is_nil both_fns_provided argument_is_nil unknown_argument_type : Reason
  duplicate_mark duplicate_delay duplicate_cron duplicate_append_to_head : Reason
  duplicate_cancel_callback duplicate_recover_func : Reason
  invalid_delay invalid_crontab nil_cancel_callback nil_recover_func : Reason

abbrev pub Complaint : Type 0
Complaint = ℤ × Reason

-- `taskHelper` while it is filled.
pub record Draft : Type 0 where
  pub task : Option ℕ
  pub task_with_callback : Option ℕ
  pub invalid_args : List Complaint
  pub conflict_args : List Complaint
  pub mark : List ℕ
  pub delay : ℤ
  pub cron_schedule : Option ℕ
  pub append_to_head : Bool
  pub cancel_callback : Option ℕ
  pub recover_fn : Option ℕ

abbrev add_invalid_arg : ℤ → Reason → Draft → Draft
add_invalid_arg i r h = record h { invalid_args = h.invalid_args ++ (i, r) ∷ [] }

abbrev add_conflict_arg : ℤ → Reason → Draft → Draft
add_conflict_arg i r h = record h { conflict_args = h.conflict_args ++ (i, r) ∷ [] }

abbrev pub is_empty {ℓ} : {A : Type ℓ} → List A → Bool
is_empty [] = true
is_empty (x ∷ xs) = false

-- `hasErrors`
unfoldable pub has_errors : Draft → Bool
has_errors h = not (is_empty h.invalid_args) || not (is_empty h.conflict_args)

-- The start of `createTaskHelper`: one of the two functions must be given.
unfoldable pub new_draft : (t t_cb : Option ℕ) → Draft
new_draft t t_cb =
    if not (is_some t) && not (is_some t_cb)
    then add_invalid_arg (negsuc 0) task_is_nil blank
    else if is_some t && is_some t_cb
    then add_invalid_arg (negsuc 0) both_fns_provided blank
    else record blank { task = t; task_with_callback = t_cb }
  where
    blank : Draft
    blank = record {
      task = none;
      task_with_callback = none;
      invalid_args = [];
      conflict_args = [];
      mark = [];
      delay = pos 0;
      cron_schedule = none;
      append_to_head = false;
      cancel_callback = none;
      recover_fn = none;
    }

set_cron : ℤ → Option ℕ → Draft → Draft
set_cron i none h = add_invalid_arg i invalid_crontab h
set_cron i (some schedule) h = record h { cron_schedule = some schedule }

set_cancel_callback : ℤ → Option ℕ → Draft → Draft
set_cancel_callback i none h = add_invalid_arg i nil_cancel_callback h
set_cancel_callback i (some f) h = record h { cancel_callback = some f }

set_recover_fn : ℤ → Option ℕ → Draft → Draft
set_recover_fn i none h = add_invalid_arg i nil_recover_func h
set_recover_fn i (some f) h = record h { recover_fn = some f }

module _ (parse_standard : List ℕ → Option ℕ) where
  -- The `switch` of `createTaskHelper`, on the argument at index `i`.
  unfoldable pub take_arg : ℤ → Arg → Draft → Draft
  unfolding set_cron set_cancel_callback set_recover_fn
  take_arg i nil_arg h = add_invalid_arg i argument_is_nil h
  take_arg i (task_mark text) h =
      if not (is_empty h.mark)
      then add_conflict_arg i duplicate_mark h
      else record h { mark = text }
  take_arg i (task_delay d) h =
      if is_nonzero h.delay
      then (if is_negative h.delay
          then add_invalid_arg i invalid_delay h
          else add_conflict_arg i duplicate_delay h)
      else if is_some h.cron_schedule
      then add_conflict_arg i duplicate_cron h
      else if is_negative d
      then add_invalid_arg i invalid_delay h
      else record h { delay = d }
  take_arg i (task_like_crontab text) h =
      if is_some h.cron_schedule
      then add_conflict_arg i duplicate_cron h
      else if is_nonzero h.delay
      then add_conflict_arg i duplicate_delay h
      else set_cron i (parse_standard text) h
  take_arg i task_append_to_head h =
      if h.append_to_head
      then add_conflict_arg i duplicate_append_to_head h
      else record h { append_to_head = true }
  take_arg i (task_cancel_callback f) h =
      if is_some h.cancel_callback
      then add_conflict_arg i duplicate_cancel_callback h
      else set_cancel_callback i f h
  take_arg i (task_recover_func f) h =
      if is_some h.recover_fn
      then add_conflict_arg i duplicate_recover_func h
      else set_recover_fn i f h
  take_arg i unknown_arg h = add_invalid_arg i unknown_argument_type h

  -- Its loop, from index `i` on.
  unfoldable pub take_args : ℕ → List Arg → Draft → Draft
  unfolding take_arg
  take_args i [] h = h
  take_args i (a ∷ args) h = take_args (suc i) args (take_arg (pos i) a h)

  unfoldable pub create_task_helper : (t t_cb : Option ℕ) → List Arg → Draft
  unfolding new_draft take_args
  create_task_helper t t_cb ext = take_args 0 ext (new_draft t t_cb)

-- `buildAtomosTask`: the helper of the task, which has one of the two functions.
work_of : Option ℕ → Option ℕ → Work
work_of (some f) g = plain_fn f
work_of none (some g) = with_callback g
work_of none none = plain_fn 0

pub build_atomos_task : (mailbox : ℕ) → Draft → Helper
unfolding work_of
build_atomos_task mailbox h = record {
  work = work_of h.task h.task_with_callback;
  mark = h.mark;
  delay = to_nat h.delay;
  cron_schedule = h.cron_schedule;
  append_to_head = h.append_to_head;
  cancel_callback = h.cancel_callback;
  mailbox = mailbox;
}

issued : ℕ → Cmd (Option ℕ)
issued id w = done (some id) w

-- `addToAtomos`: the id of the new task, or nothing where the arguments are refused.
pub add_task :
    (parse_standard : List ℕ → Option ℕ) (eid mailbox : ℕ) (t t_cb : Option ℕ)
    → List Arg
    → Cmd (Option ℕ)
unfolding create_task_helper build_atomos_task issued
add_task parse_standard eid mailbox t t_cb ext w =
    let h = create_task_helper parse_standard t t_cb ext in
    if has_errors h
    then done none (error_helper 0 h.cancel_callback w)
    else and_then (add_to_atomos eid (build_atomos_task mailbox h) w) issued
