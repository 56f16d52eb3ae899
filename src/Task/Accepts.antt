-- ===== src/Task/Accepts.antt =====
-- Which arguments `createTaskHelper` accepts.
use go_atomos.Common.{
  ℕ, suc, ◌≡◌, refl, Bool, true, false, not, ◌&&◌, ◌||◌, Option, List, [], ◌∷◌, ◌++◌, arith,
  is_some,
}
use go_atomos.Common.{ℤ, pos, is_negative, is_nonzero}
use go_atomos.Task.Args.{
  Arg, nil_arg, task_append_to_head, unknown_arg, task_mark, task_delay, task_like_crontab,
  task_cancel_callback, task_recover_func, Draft, has_errors, new_draft, take_arg, take_args,
  create_task_helper, is_empty,
}

module _ (parse_standard : List ℕ → Option ℕ) where
  -- An argument that can be accepted at all.
  abbrev pub fits : Arg → Bool
  fits nil_arg = false
  fits unknown_arg = false
  fits task_append_to_head = true
  fits (task_mark text) = true
  fits (task_delay d) = not (is_negative d)
  fits (task_like_crontab text) = is_some (parse_standard text)
  fits (task_cancel_callback f) = is_some f
  fits (task_recover_func f) = is_some f

-- Whether an argument rules out a later one: a second one of its kind, or a second time to run at.
-- An empty mark and a delay of 0 rule nothing out.
abbrev pub rules_out : Arg → Arg → Bool
rules_out (task_mark text) (task_mark other) = not (is_empty text)
rules_out (task_delay d) (task_delay other) = is_nonzero d
rules_out (task_delay d) (task_like_crontab text) = is_nonzero d
rules_out (task_like_crontab text) (task_delay d) = true
rules_out (task_like_crontab text) (task_like_crontab other) = true
rules_out task_append_to_head task_append_to_head = true
rules_out (task_cancel_callback f) (task_cancel_callback g) = true
rules_out (task_recover_func f) (task_recover_func g) = true
rules_out a b = false

abbrev pub all {ℓ} : {A : Type ℓ} → (A → Bool) → List A → Bool
all p [] = true
all p (x ∷ xs) = p x && all p xs

module _ (parse_standard : List ℕ → Option ℕ) where
  -- Each argument fits, and none is ruled out by one before it.
  abbrev pub agree : List Arg → Bool
  agree [] = true
  agree (a ∷ args) = fits parse_standard a && (all (λ b. not (rules_out a b)) args && agree args)

  -- Whether the draft has no place for an argument any more.
  abbrev taken : Draft → Arg → Bool
  taken h (task_mark text) = not (is_empty h.mark)
  taken h (task_delay d) = is_nonzero h.delay || is_some h.cron_schedule
  taken h (task_like_crontab text) = is_nonzero h.delay || is_some h.cron_schedule
  taken h task_append_to_head = h.append_to_head
  taken h (task_cancel_callback f) = is_some h.cancel_callback
  taken h (task_recover_func f) = is_some h.recover_fn
  taken h _ = false

  pub is_empty-snoc : {A : Type 0} (xs : List A) (x : A) → is_empty (xs ++ x ∷ []) ≡ false
  is_empty-snoc [] x = refl
  is_empty-snoc (y ∷ ys) x = refl

  has_errors-take_arg :
      (i : ℤ) (a : Arg) (h : Draft)
      → has_errors (take_arg parse_standard i a h)
        ≡ (has_errors h || (taken h a || not (fits parse_standard a)))
  unfolding has_errors take_arg
  has_errors-take_arg i a h = grind (arith, is_empty-snoc)

  taken-take_arg :
      (i : ℤ) (a b : Arg) (h : Draft)
      → (taken h a || not (fits parse_standard a)) ≡ false
      → taken (take_arg parse_standard i a h) b ≡ (taken h b || rules_out a b)
  unfolding take_arg
  taken-take_arg i a b h ok = ground arith

  all-taken :
      (i : ℤ) (a : Arg) (args : List Arg) (h : Draft)
      → (taken h a || not (fits parse_standard a)) ≡ false
      → all (λ b. not (taken (take_arg parse_standard i a h) b)) args
        ≡ (all (λ b. not (taken h b)) args && all (λ b. not (rules_out a b)) args)
  all-taken i a [] h ok = refl
  all-taken i a (b ∷ args) h ok = ground (arith, all-taken i a args h ok, taken-take_arg i a b h ok)

  pub has_errors-take_args :
      (i : ℕ) (args : List Arg) (h : Draft)
      → not (has_errors (take_args parse_standard i args h))
        ≡ (not (has_errors h) && (all (λ b. not (taken h b)) args && agree args))
  unfolding take_args
  has_errors-take_args i [] h = ground arith
  has_errors-take_args i (a ∷ args) h = ground (
    arith,
    has_errors-take_args (suc i) args (take_arg parse_standard (pos i) a h),
    has_errors-take_arg (pos i) a h,
    all-taken (pos i) a args h,
  )

  draft_errors :
      (t t_cb : Option ℕ)
      → not (has_errors (new_draft t t_cb))
        ≡ ((is_some t || is_some t_cb) && not (is_some t && is_some t_cb))
  unfolding new_draft has_errors
  draft_errors t t_cb = ground arith

  all-new_draft :
      (t t_cb : Option ℕ) (args : List Arg)
      → all (λ b. not (taken (new_draft t t_cb) b)) args ≡ true
  unfolding new_draft
  all-new_draft t t_cb [] = refl
  all-new_draft t t_cb (b ∷ args) = ground (arith, all-new_draft t t_cb args)

  -- The arguments of a task are accepted exactly when one of the two functions is given and not
  -- both, each argument fits on its own, and none is ruled out by an earlier one.
  pub has_errors-create_task_helper :
      (t t_cb : Option ℕ) (ext : List Arg)
      → not (has_errors (create_task_helper parse_standard t t_cb ext))
        ≡ ((is_some t || is_some t_cb) && (not (is_some t && is_some t_cb) && agree ext))
  unfolding create_task_helper
  has_errors-create_task_helper t t_cb ext = ground (
    arith,
    has_errors-take_args 0 ext (new_draft t t_cb),
    all-new_draft t t_cb ext,
    draft_errors t t_cb,
  )
