-- ===== src/CallArgs/Trip.antt =====
-- What a remote node parses is what the caller's node has parsed.
use go_atomos.Atom.{MailType}
use go_atomos.CallArgs.{
  negsuc, pos, ℤ, Arg, timeout_value, timeout_pointer, append_to_head, wait_killed, other_type,
  Helper, is_zero, takes_timeout, takes_append_to_head, takes_wait_killed, take_arg, take_args,
  new_helper, take_timeout, take_append_to_head, take_wait_killed, create_base_atomos_helper,
  has_errors, get_remote_arg, create_ext_for_cosmos_args,
}
use go_atomos.Common.{
  ℕ, suc, ◌≡◌, refl, sym, ap, Bool, true, false, not, ◌||◌, Option, none, some, List, [], ◌∷◌, ◌++◌,
  arith, if◌then◌else◌, ==→eq,
}

-- What the parse of a mail type has accepted is valid for that type.
pub record IsAllowed (t : MailType) (h : Helper) : Type 0 where
  pub timeout : (is_zero h.timeout || takes_timeout t) ≡ true
  pub to_head : (not h.to_head || takes_append_to_head t) ≡ true
  pub killed : (not h.killed || takes_wait_killed t) ≡ true

take_timeout-IsAllowed :
    (t : MailType) (idx : ℕ) (d : ℤ) (h : Helper)
    → IsAllowed t h
    → IsAllowed t (take_timeout t idx d h)
unfolding take_timeout
take_timeout-IsAllowed t idx d h v = record {
  timeout = ground (arith, v.timeout);
  to_head = ground (arith, v.to_head);
  killed = ground (arith, v.killed);
}

take_append_to_head-IsAllowed :
    (t : MailType) (idx : ℕ) (h : Helper)
    → IsAllowed t h
    → IsAllowed t (take_append_to_head t idx h)
unfolding take_append_to_head
take_append_to_head-IsAllowed t idx h v = record {
  timeout = ground (arith, v.timeout);
  to_head = ground (arith, v.to_head);
  killed = ground (arith, v.killed);
}

take_wait_killed-IsAllowed :
    (t : MailType) (idx : ℕ) (h : Helper) → IsAllowed t h → IsAllowed t (take_wait_killed t idx h)
unfolding take_wait_killed
take_wait_killed-IsAllowed t idx h v = record {
  timeout = ground (arith, v.timeout);
  to_head = ground (arith, v.to_head);
  killed = ground (arith, v.killed);
}

take_arg-IsAllowed :
    (t : MailType) (idx : ℕ) (a : Option Arg) (h : Helper)
    → IsAllowed t h
    → IsAllowed t (take_arg t idx a h)
unfolding take_arg
take_arg-IsAllowed t idx none h v = record {
  timeout = v.timeout;
  to_head = v.to_head;
  killed = v.killed;
}
take_arg-IsAllowed t idx (some (timeout_value d)) h v = take_timeout-IsAllowed t idx d h v
take_arg-IsAllowed t idx (some (timeout_pointer d)) h v = take_timeout-IsAllowed t idx d h v
take_arg-IsAllowed t idx (some append_to_head) h v = take_append_to_head-IsAllowed t idx h v
take_arg-IsAllowed t idx (some wait_killed) h v = take_wait_killed-IsAllowed t idx h v
take_arg-IsAllowed t idx (some other_type) h v = record {
  timeout = v.timeout;
  to_head = v.to_head;
  killed = v.killed;
}

take_args-IsAllowed :
    (t : MailType) (idx : ℕ) (ext : List (Option Arg)) (h : Helper)
    → IsAllowed t h
    → IsAllowed t (take_args t idx ext h)
unfolding take_args
take_args-IsAllowed t idx [] h v = v
take_args-IsAllowed t idx (a ∷ ext) h v =
    take_args-IsAllowed t (suc idx) ext (take_arg t idx a h) (take_arg-IsAllowed t idx a h v)

create_base_atomos_helper-IsAllowed :
    (t : MailType) (ext : List (Option Arg)) → IsAllowed t (create_base_atomos_helper t ext)
unfolding create_base_atomos_helper is_zero
create_base_atomos_helper-IsAllowed t ext =
    take_args-IsAllowed t 0 ext new_helper
      (record { timeout = refl; to_head = refl; killed = refl })

zero-eq : (d : ℤ) → is_zero d ≡ true → pos 0 ≡ d
unfolding is_zero
zero-eq (pos n) z = ap pos (sym (==→eq n 0 z))
zero-eq (negsuc n) z = ground arith

-- The list that is sent for these requests, and its parse.
abbrev sent : ℤ → (none_set head kill : Bool) → List (Option Arg)
sent d none_set head kill =
    (if none_set then [] else some (timeout_value d) ∷ [])
    ++ (if head then some append_to_head ∷ [] else [])
    ++ (if kill then some wait_killed ∷ [] else [])

abbrev pub Parsed : ℤ → (head kill : Bool) → Helper → Type 0
Parsed d head kill h =
    (has_errors h ≡ false) × (h.timeout ≡ d) × (h.to_head ≡ head) × (h.killed ≡ kill)

sent-Parsed :
    (t : MailType) (d : ℤ) (none_set head kill : Bool)
    → (none_set ≡ true → pos 0 ≡ d)
    → (none_set || takes_timeout t) ≡ true
    → (not head || takes_append_to_head t) ≡ true
    → (not kill || takes_wait_killed t) ≡ true
    → Parsed d head kill (create_base_atomos_helper t (sent d none_set head kill))
unfolding create_base_atomos_helper take_args take_arg take_timeout take_append_to_head
    take_wait_killed is_zero has_errors
sent-Parsed t d true true true z a b c =
    (ground arith, ground (arith, z refl), ground arith, ground arith)
sent-Parsed t d true true false z a b c =
    (ground arith, ground (arith, z refl), ground arith, ground arith)
sent-Parsed t d true false true z a b c =
    (ground arith, ground (arith, z refl), ground arith, ground arith)
sent-Parsed t d true false false z a b c = (refl, z refl, refl, refl)
sent-Parsed t d false true true z a b c = (ground arith, ground arith, ground arith, ground arith)
sent-Parsed t d false true false z a b c = (ground arith, ground arith, ground arith, ground arith)
sent-Parsed t d false false true z a b c = (ground arith, ground arith, ground arith, ground arith)
sent-Parsed t d false false false z a b c = (ground arith, ground arith, ground arith, ground arith)

-- For arguments of any kind and any mail type: what the caller's helper holds, sent to another node and
-- parsed there for the same mail type, gives a helper without errors that holds the same timeout
-- and the same two flags.
pub create_base_atomos_helper-get_remote_arg :
    (t : MailType) (ext : List (Option Arg))
    → let h = create_base_atomos_helper t ext in
      Parsed h.timeout h.to_head h.killed
        (create_base_atomos_helper t (create_ext_for_cosmos_args (some (get_remote_arg h))))
unfolding create_ext_for_cosmos_args get_remote_arg
create_base_atomos_helper-get_remote_arg t ext =
    let h = create_base_atomos_helper t ext in
    let v = create_base_atomos_helper-IsAllowed t ext in
    sent-Parsed t h.timeout (is_zero h.timeout) h.to_head h.killed (zero-eq h.timeout) v.timeout
      v.to_head v.killed
