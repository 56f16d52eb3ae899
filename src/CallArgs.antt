-- ===== src/CallArgs.antt =====
-- base_atomos.go: the arguments of a push, from `createBaseAtomosHelper`, to another node and back. The
-- reason of a refused argument is left out. A duration is an integer of nanoseconds.
pub mod Trip
pub mod Examples
use go_atomos.Atom.{
  MailType, mail_kill, mail_sync, mail_async, mail_on_async_callback, mail_wormhole, mail_task,
  mail_task_callback,
}
use go_atomos.Common.{
  negsuc, pos, ℤ, ℕ, zero, suc, ◌+◌, ◌-◌, ◌*◌, ◌/◌, ◌%◌, ◌≤◌, ◌<◌, ◌≡◌, ◌≢◌, ◌↔◌, ◌⊎◌, inl, inr,
  refl, sym, ap, subst, ◌∙◌, Bool, true, false, not, ◌&&◌, ◌||◌, Option, none, some, List, [], ◌∷◌,
  ◌++◌, map, arith, ltb, leb, ◌==◌, if◌then◌else◌, ==→eq, ==_refl, ==_ne, Bool-cases, Option-cases,
  is_some, length, length-append, last_or, last_or-append, find, erase_first, has, Distinct,
  has-append, Distinct-snoc, without, has-without_self, has-without_ne, has-erase_first,
  erase_first-Distinct,
}

-- `ArgsForBaseAtomos`: a value or a pointer, and arguments of a type that does not fit.
pub data Arg : Type 0 where
  timeout_value timeout_pointer : (nanoseconds : ℤ) → Arg
  append_to_head wait_killed other_type : Arg

-- `CosmosArgs`; `types` is not read by `createExtForCosmosArgs`.
pub record CosmosArgs : Type 0 where
  pub types : List ℕ
  pub base_atomos_timeout_in_nano : ℤ
  pub base_atomos_append_to_head : Bool
  pub base_atomos_wait_killed : Bool

-- `baseAtomosHelper`: the positions of the refused arguments, and what the others ask for.
pub record Helper : Type 0 where
  pub invalid_args : List ℕ
  pub conflict_args : List ℕ
  pub fields : List ℕ
  pub timeout : ℤ
  pub to_head : Bool
  pub killed : Bool

-- `ArgTypeBaseAtomosTimeout` and those after it.
abbrev arg_type_timeout : ℕ
arg_type_timeout = 2

abbrev arg_type_append_to_head : ℕ
arg_type_append_to_head = 3

abbrev arg_type_wait_killed : ℕ
arg_type_wait_killed = 4

unfoldable pub is_zero : ℤ → Bool
is_zero (pos n) = n == 0
is_zero (negsuc n) = false

-- `addInvalidArg` and `addConflictArg`
abbrev add_invalid_arg : ℕ → Helper → Helper
add_invalid_arg idx h = record h { invalid_args = h.invalid_args ++ idx ∷ [] }

abbrev add_conflict_arg : ℕ → Helper → Helper
add_conflict_arg idx h = record h { conflict_args = h.conflict_args ++ idx ∷ [] }

-- The mail types for which each argument is valid.
unfoldable takes_timeout : MailType → Bool
takes_timeout mail_kill = true
takes_timeout mail_sync = true
takes_timeout mail_wormhole = true
takes_timeout _ = false

unfoldable takes_append_to_head : MailType → Bool
takes_append_to_head mail_kill = true
takes_append_to_head mail_sync = true
takes_append_to_head mail_async = true
takes_append_to_head mail_wormhole = true
takes_append_to_head _ = false

unfoldable takes_wait_killed : MailType → Bool
takes_wait_killed mail_kill = true
takes_wait_killed _ = false

module _ (mail_type : MailType) where
  take_timeout : ℕ → ℤ → Helper → Helper
  take_timeout idx d h =
      if not (takes_timeout mail_type)
      then add_invalid_arg idx h
      else if not (is_zero h.timeout)
      then add_conflict_arg idx h
      else record h { fields = h.fields ++ arg_type_timeout ∷ []; timeout = d }

  take_append_to_head : ℕ → Helper → Helper
  take_append_to_head idx h =
      if not (takes_append_to_head mail_type)
      then add_invalid_arg idx h
      else if h.to_head
      then add_conflict_arg idx h
      else record h { fields = h.fields ++ arg_type_append_to_head ∷ []; to_head = true }

  take_wait_killed : ℕ → Helper → Helper
  take_wait_killed idx h =
      if not (takes_wait_killed mail_type)
      then add_invalid_arg idx h
      else if h.killed
      then add_conflict_arg idx h
      else record h { fields = h.fields ++ arg_type_wait_killed ∷ []; killed = true }

  -- One round of the loop; none: the argument is nil.
  pub take_arg : ℕ → Option Arg → Helper → Helper
  unfolding take_timeout take_append_to_head take_wait_killed
  take_arg idx none h = add_invalid_arg idx h
  take_arg idx (some (timeout_value d)) h = take_timeout idx d h
  take_arg idx (some (timeout_pointer d)) h = take_timeout idx d h
  take_arg idx (some append_to_head) h = take_append_to_head idx h
  take_arg idx (some wait_killed) h = take_wait_killed idx h
  take_arg idx (some other_type) h = add_invalid_arg idx h

  pub take_args : ℕ → List (Option Arg) → Helper → Helper
  unfolding take_arg
  take_args idx [] h = h
  take_args idx (v ∷ ext) h = take_args (suc idx) ext (take_arg idx v h)

abbrev pub new_helper : Helper
new_helper = record {
  invalid_args = [];
  conflict_args = [];
  fields = [];
  timeout = pos 0;
  to_head = false;
  killed = false;
}

-- `createBaseAtomosHelper`
pub create_base_atomos_helper : MailType → List (Option Arg) → Helper
unfolding take_args
create_base_atomos_helper mail_type ext = take_args mail_type 0 ext new_helper

-- `hasErrors`
unfoldable pub has_errors : Helper → Bool
has_errors h = ltb 0 (length h.invalid_args) || ltb 0 (length h.conflict_args)

-- `getRemoteArg`
unfoldable pub get_remote_arg : Helper → CosmosArgs
get_remote_arg h = record {
  types = h.fields;
  base_atomos_timeout_in_nano = h.timeout;
  base_atomos_append_to_head = h.to_head;
  base_atomos_wait_killed = h.killed;
}

-- `createExtForCosmosArgs`; none: a nil pointer.
pub create_ext_for_cosmos_args : Option CosmosArgs → List (Option Arg)
unfolding is_zero
create_ext_for_cosmos_args none = []
create_ext_for_cosmos_args (some arg) =
    (if is_zero arg.base_atomos_timeout_in_nano
      then []
      else some (timeout_value arg.base_atomos_timeout_in_nano) ∷ [])
    ++ (if arg.base_atomos_append_to_head then some append_to_head ∷ [] else [])
    ++ (if arg.base_atomos_wait_killed then some wait_killed ∷ [] else [])
