-- ===== src/Task/Fields.antt =====
-- What `createTaskHelper` sets from arguments that it accepts.
use go_atomos.Common.{
  ℕ, suc, ◌≡◌, refl, Bool, true, false, not, ◌&&◌, ◌||◌, Option, none, some, List, [], ◌∷◌, arith,
  if◌then◌else◌, is_some,
}
use go_atomos.Common.{ℤ, pos, negsuc, is_negative, is_nonzero}
use go_atomos.Task.Args.{
  Arg, task_append_to_head, task_mark, task_delay, task_like_crontab, task_cancel_callback,
  task_recover_func, Draft, has_errors, new_draft, take_arg, take_args, create_task_helper,
  is_empty,
}
use go_atomos.Task.Accepts.{rules_out, all, has_errors-take_args, agree, is_empty-snoc}

keep_list : {A : Type 0} (xs : List A) → xs ≡ (if is_empty xs then [] else xs)
keep_list [] = refl
keep_list (x ∷ xs) = refl

keep_delay : (d : ℤ) → d ≡ (if is_nonzero d then d else pos 0)
keep_delay (pos n) = ground arith
keep_delay (negsuc n) = refl

keep_option : {A : Type 0} (o : Option A) → o ≡ (if is_some o then o else none)
keep_option none = refl
keep_option (some a) = refl

-- The draft before any argument is blank, and holds the functions if they were accepted.
new_draft_lem :
    (t t_cb : Option ℕ)
    → ((new_draft t t_cb).mark ≡ [])
      × ((new_draft t t_cb).delay ≡ pos 0)
      × ((new_draft t t_cb).cron_schedule ≡ none)
      × ((new_draft t t_cb).append_to_head ≡ false)
      × ((new_draft t t_cb).cancel_callback ≡ none)
      × ((new_draft t t_cb).recover_fn ≡ none)
      × (has_errors (new_draft t t_cb) ≡ false
          → ((new_draft t t_cb).task ≡ t) × ((new_draft t t_cb).task_with_callback ≡ t_cb))
unfolding new_draft has_errors
new_draft_lem t t_cb = ground arith

module _ (parse_standard : List ℕ → Option ℕ) where
  -- What the arguments ask for, each field on its own.
  abbrev pub mark_of : List Arg → List ℕ
  mark_of [] = []
  mark_of (task_mark text ∷ args) = if is_empty text then mark_of args else text
  mark_of (a ∷ args) = mark_of args

  abbrev pub delay_of : List Arg → ℤ
  delay_of [] = pos 0
  delay_of (task_delay d ∷ args) = if is_nonzero d then d else delay_of args
  delay_of (a ∷ args) = delay_of args

  abbrev pub cron_of : List Arg → Option ℕ
  cron_of [] = none
  cron_of (task_like_crontab text ∷ args) = parse_standard text
  cron_of (a ∷ args) = cron_of args

  abbrev pub head_of : List Arg → Bool
  head_of [] = false
  head_of (task_append_to_head ∷ args) = true
  head_of (a ∷ args) = head_of args

  abbrev pub cancel_of : List Arg → Option ℕ
  cancel_of [] = none
  cancel_of (task_cancel_callback f ∷ args) = f
  cancel_of (a ∷ args) = cancel_of args

  abbrev pub recover_of : List Arg → Option ℕ
  recover_of [] = none
  recover_of (task_recover_func f ∷ args) = f
  recover_of (a ∷ args) = recover_of args

  -- The fields of `r` are those of `h`, and where `h` has none, what the arguments ask for.
  abbrev pub Fills : List Arg → Draft → Draft → Type 0
  Fills args h r =
      (r.mark ≡ (if is_empty h.mark then mark_of args else h.mark))
      × (r.delay ≡ (if is_nonzero h.delay then h.delay else delay_of args))
      × (r.cron_schedule ≡ (if is_some h.cron_schedule then h.cron_schedule else cron_of args))
      × (r.append_to_head ≡ (h.append_to_head || head_of args))
      × (r.cancel_callback
          ≡ (if is_some h.cancel_callback then h.cancel_callback else cancel_of args))
      × (r.recover_fn ≡ (if is_some h.recover_fn then h.recover_fn else recover_of args))
      × (r.task ≡ h.task)
      × (r.task_with_callback ≡ h.task_with_callback)

  Fills-nil : (h : Draft) → Fills [] h h
  Fills-nil h = (
    keep_list h.mark,
    keep_delay h.delay,
    keep_option h.cron_schedule,
    ground arith,
    keep_option h.cancel_callback,
    keep_option h.recover_fn,
    refl,
    refl,
  )

  take_arg-Fills :
      (i : ℤ) (a : Arg) (args : List Arg) (h r : Draft)
      → has_errors (take_arg parse_standard i a h) ≡ false
      → Fills args (take_arg parse_standard i a h) r
      → Fills (a ∷ args) h r
  unfolding take_arg has_errors
  take_arg-Fills i a args h r ok fills = grind (arith, is_empty-snoc)

  take_args-Fills :
      (i : ℕ) (args : List Arg) (h : Draft)
      → has_errors (take_args parse_standard i args h) ≡ false
      → Fills args h (take_args parse_standard i args h)
  unfolding take_args
  take_args-Fills i [] h ok = Fills-nil h
  take_args-Fills i (a ∷ args) h ok =
      take_arg-Fills (pos i) a args h
        (take_args parse_standard (suc i) args (take_arg parse_standard (pos i) a h))
        (ground (
          arith,
          has_errors-take_args parse_standard (suc i) args (take_arg parse_standard (pos i) a h),
        ))
        (take_args-Fills (suc i) args (take_arg parse_standard (pos i) a h) ok)

  cron_of-ruled_out :
      (d : ℤ) (args : List Arg)
      → is_nonzero d ≡ true
      → all (λ b. not (rules_out (task_delay d) b)) args ≡ true
      → cron_of args ≡ none
  cron_of-ruled_out d [] n h = refl
  cron_of-ruled_out d (a ∷ args) n h = ground (arith, cron_of-ruled_out d args n)

  delay_of-ruled_out :
      (text : List ℕ) (args : List Arg)
      → all (λ b. not (rules_out (task_like_crontab text) b)) args ≡ true
      → delay_of args ≡ pos 0
  delay_of-ruled_out text [] h = refl
  delay_of-ruled_out text (a ∷ args) h = ground (arith, delay_of-ruled_out text args)

  one_time_of :
      (args : List Arg)
      → agree parse_standard args ≡ true
      → (is_negative (delay_of args) ≡ false)
        × ((is_nonzero (delay_of args) && is_some (cron_of args)) ≡ false)
  one_time_of [] h = (refl, refl)
  one_time_of (task_delay d ∷ args) h = ground (arith, one_time_of args, cron_of-ruled_out d args)
  one_time_of (task_like_crontab text ∷ args) h =
      ground (arith, one_time_of args, delay_of-ruled_out text args)
  one_time_of (a ∷ args) h = ground (arith, one_time_of args)

  -- What a helper holds of its arguments.
  pub record IsAsked (t t_cb : Option ℕ) (ext : List Arg) (h : Draft) : Type 0 where
    pub task : h.task ≡ t
    pub task_with_callback : h.task_with_callback ≡ t_cb
    pub mark : h.mark ≡ mark_of ext
    pub delay : h.delay ≡ delay_of ext
    pub cron_schedule : h.cron_schedule ≡ cron_of ext
    pub append_to_head : h.append_to_head ≡ head_of ext
    pub cancel_callback : h.cancel_callback ≡ cancel_of ext
    pub recover_fn : h.recover_fn ≡ recover_of ext
    pub not_negative : is_negative h.delay ≡ false
    pub one_time : (is_nonzero h.delay && is_some h.cron_schedule) ≡ false

  -- If the arguments of a task are accepted, the helper holds the given function, each of its
  -- fields is what the arguments ask for, its delay is not negative, and it has no schedule
  -- beside a positive delay.
  pub create_task_helper-Fills :
      (t t_cb : Option ℕ) (ext : List Arg)
      → has_errors (create_task_helper parse_standard t t_cb ext) ≡ false
      → IsAsked t t_cb ext (create_task_helper parse_standard t t_cb ext)
  unfolding create_task_helper
  create_task_helper-Fills t t_cb ext ok =
      let fills = take_args-Fills 0 ext (new_draft t t_cb) ok in
      let facts = new_draft_lem t t_cb in
      let accepted = has_errors-take_args parse_standard 0 ext (new_draft t t_cb) in
      let once = one_time_of ext (ground (arith, accepted, ok)) in
      record {
        task = ground (arith, fills, facts, accepted, ok);
        task_with_callback = ground (arith, fills, facts, accepted, ok);
        mark = ground (arith, fills, facts);
        delay = ground (arith, fills, facts);
        cron_schedule = ground (arith, fills, facts);
        append_to_head = ground (arith, fills, facts);
        cancel_callback = ground (arith, fills, facts);
        recover_fn = ground (arith, fills, facts);
        not_negative = ground (arith, fills, facts, once);
        one_time = ground (arith, fills, facts, once);
      }
