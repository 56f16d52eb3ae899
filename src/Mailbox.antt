-- ===== src/Mailbox.antt =====
-- mail.go: mails on a heap, and the mailbox, a linked queue of them.
-- A pointer is a number and `nil` is 0; a mail behind a pointer that is not `nil` is there to read,
-- since Go collects no mail that is still pointed to. A method that holds the mutex from its first
-- line to its last is one function on the state. `num` is a uint32 and wraps.
pub mod Queue
pub mod Push
pub mod Pop
pub mod Unlink
pub mod Loop
pub mod Stop
pub mod Release
pub mod Examples
use go_atomos.ErrorCode.{ErrorCode, err_framework_recover_from_panic, err_framework_internal_error}
use go_atomos.Common.{
  ℕ, zero, suc, ◌+◌, ◌-◌, ◌%◌, ◌≡◌, Bool, true, false, not, ◌&&◌, ◌||◌, Option, none, some, List,
  [], ◌∷◌, ◌==◌, ltb, if◌then◌else◌, has,
}

abbrev pub Ptr : Type 0
Ptr = ℕ

abbrev pub nil : Ptr
nil = 0

abbrev pub u32_mod : ℕ
u32_mod = 4294967296

-- `mailAllocPlain`, `mailAllocPool`, `mailAllocDebug`.
pub data AllocMode : Type 0 where
  plain pooled tracked : AllocMode

-- What `data any` holds: nothing, a message (known by a number), or a `*mailExitCommand` with its
-- own data and its `onDone`.
pub data Payload : Type 0 where
  empty : Payload
  message : ℕ → Payload
  exit_command : (content : ℕ) (on_done : Option ℕ) → Payload

pub record Mail : Type 0 where
  pub next : Ptr
  pub id : ℕ
  pub payload : Payload
  pub alloc_mode : AllocMode

-- The heap of mails, `mailPool`, the keys of `allocMailDebugMap`, and the fields of `mailBox`.
pub record State : Type 0 where
  pub mail : Ptr → Mail
  pub pool : List Ptr
  pub debug : List Ptr
  pub running : Bool
  pub head : Ptr
  pub tail : Ptr
  pub num : ℕ

-- How a call ends: it returns, it waits on the condition variable, it panics, or (in the model only)
-- its fuel is spent.
pub data Outcome (A : Type 0) : Type 0 where
  done : A → State → Outcome A
  waits : State → Outcome A
  panics : Outcome A
  out_of_fuel : Outcome A

abbrev pub Cmd : Type 0 → Type 0
Cmd A = State → Outcome A

abbrev pub and_then : {A B : Type 0} → Outcome A → (A → Cmd B) → Outcome B
and_then (done a σ) k = k a σ
and_then (waits σ) k = waits σ
and_then panics k = panics
and_then out_of_fuel k = out_of_fuel

infixl 5 ◌>>=◌ ◌>>◌
abbrev pub ◌>>=◌ : {A B : Type 0} → Cmd A → (A → Cmd B) → Cmd B
m >>= k = λ σ. and_then (m σ) k

abbrev pub ◌>>◌ : {B : Type 0} → Cmd (Unit {0}) → Cmd B → Cmd B
m >> k = m >>= λ _. k

abbrev pub pure : {A : Type 0} → A → Cmd A
pure = done

abbrev modify : (State → State) → Cmd (Unit {0})
modify f σ = done tt (f σ)

unfoldable pub write : (Ptr → Mail) → Ptr → Mail → Ptr → Mail
write mail p m q = if q == p then m else mail q

-- `p.next = q`, a panic at `nil`.
set_next : Ptr → Ptr → Cmd (Unit {0})
set_next p q σ =
    if p == nil
    then panics
    else done tt (record σ { mail = write σ.mail p (record (σ.mail p) { next = q }) })

-- `allocMail`: `fresh` is the pointer that `mailPool.Get` or `&mail{}` returns.
pub alloc_mail : (using_pool using_debug : Bool) (fresh : Ptr) → Cmd Ptr
alloc_mail using_pool using_debug fresh σ =
    if using_pool
    then done fresh
        (record σ { mail = write σ.mail fresh (record (σ.mail fresh) { alloc_mode = pooled }) })
    else if using_debug
    then done fresh
        (record σ { mail = write σ.mail fresh (zeroed tracked); debug = fresh ∷ σ.debug })
    else done fresh (record σ { mail = write σ.mail fresh (zeroed plain) })
  where
    zeroed : AllocMode → Mail
    zeroed mode = record { next = nil; id = 0; payload = empty; alloc_mode = mode }

is_empty : Payload → Bool
is_empty empty = true
is_empty (message x) = false
is_empty (exit_command x y) = false

-- The checks that `initMail` and `initKillMail` make of a mail that is to be filled.
pub unused : Mail → Bool
unfolding is_empty
unused m = m.next == nil && (m.id == 0 && is_empty m.payload)

-- `initMail`, and `initKillMail` with a payload `exit_command`.
pub init_mail : (init_check : Bool) → Ptr → ℕ → Payload → Cmd (Unit {0})
unfolding unused
init_mail init_check m id payload σ =
    if init_check && not (unused (σ.mail m))
    then panics
    else done tt (record σ {
      mail = write σ.mail m (record (σ.mail m) { next = nil; id = id; payload = payload });
    })

-- `delete(m, p)` on the keys of the debug map.
pub drop_key : Ptr → List Ptr → List Ptr
drop_key p [] = []
drop_key p (q ∷ qs) = if p == q then qs else q ∷ drop_key p qs

-- `releaseMail`, by the mode that the mail was allocated in.
pub release_mail_in : AllocMode → Ptr → Cmd (Unit {0})
unfolding drop_key
release_mail_in plain m σ = done tt σ
release_mail_in pooled m σ = done tt (record σ {
  mail = write σ.mail m (record (σ.mail m) { next = nil; id = 0; payload = empty });
  pool = m ∷ σ.pool;
})
release_mail_in tracked m σ =
    if has m σ.debug then done tt (record σ { debug = drop_key m σ.debug }) else panics

pub release_mail : Ptr → Cmd (Unit {0})
unfolding release_mail_in
release_mail m σ = if m == nil then panics else release_mail_in (σ.mail m).alloc_mode m σ

-- `waitPop`: with no mail it waits; a wait that wakes runs the same test again.
pub wait_pop : Cmd Ptr
unfolding set_next
wait_pop σ =
    if σ.num == 0
    then waits σ
    else if σ.head == σ.tail
    then if σ.head == nil
      then done nil (record σ { num = count; head = nil; tail = nil })
      else (do set_next σ.head nil; pure σ.head) (record σ { num = count; head = nil; tail = nil })
    else if σ.head == nil
    then panics
    else (do set_next σ.head nil; pure σ.head)
        (record σ { num = count; head = (σ.mail σ.head).next })
  where
    count : ℕ
    count = (σ.num + u32_mod - 1) % u32_mod

get_by_id_loop : ℕ → ℕ → Ptr → Cmd Ptr
get_by_id_loop id zero m σ = out_of_fuel
get_by_id_loop id (suc fuel) m σ =
    let rest = get_by_id_loop id fuel (σ.mail m).next σ in
    if m == nil then done nil σ else if (σ.mail m).id == id then done m σ else rest

pub get_by_id : ℕ → Cmd Ptr
unfolding get_by_id_loop
get_by_id id σ = get_by_id_loop id (σ.num + 1) σ.head σ

-- The part that `pushHead` and `stopIfNoMail` share.
pub put_head : Ptr → Cmd Bool
unfolding set_next
put_head m σ =
    if σ.head == nil
    then done true (record σ { num = count; head = m; tail = m })
    else (do set_next m σ.head; modify (λ τ. record τ { head = m }); pure true)
        (record σ { num = count })
  where
    count : ℕ
    count = (σ.num + 1) % u32_mod

pub push_head : Ptr → Cmd Bool
unfolding put_head
push_head m σ = if σ.running then put_head m σ else done false σ

pub push_tail : Ptr → Cmd Bool
unfolding set_next
push_tail m σ =
    if not σ.running
    then done false σ
    else if σ.head == nil
    then done true (record σ { num = count; head = m; tail = m })
    else (do set_next σ.tail m; modify (λ τ. record τ { tail = m }); pure true)
        (record σ { num = count })
  where
    count : ℕ
    count = (σ.num + 1) % u32_mod

pub pop_all : Cmd (Ptr × ℕ)
pop_all σ =
    if σ.head == nil
    then done (nil, 0) σ
    else done (σ.head, σ.num) (record σ { num = 0; head = nil; tail = nil })

-- The branch of `popByID` and `removeMail` that takes the mail `m` out behind `prev`.
unlink : (prev m : Ptr) → Cmd Ptr
unfolding set_next
unlink prev m σ =
    if prev == nil
    then (do set_next m nil; pure m)
        (record σ { num = count; head = after; tail = if m == σ.tail then nil else σ.tail })
    else (do
      set_next prev after
      if m == σ.tail
          then (do modify (λ τ. record τ { tail = prev }); set_next prev nil)
          else pure tt
      set_next m nil
      pure m)
        (record σ { num = count })
  where
    count : ℕ
    count = (σ.num + u32_mod - 1) % u32_mod

    after : Ptr
    after = (σ.mail m).next

-- The loop that `popByID` and `removeMail` share, over their test.
unlink_loop : (Ptr → Mail → Bool) → ℕ → (prev m : Ptr) → Cmd Ptr
unlink_loop hit zero prev m σ = out_of_fuel
unlink_loop hit (suc fuel) prev m σ =
    let rest = unlink_loop hit fuel m (σ.mail m).next σ in
    if m == nil then done nil σ else if hit m (σ.mail m) then unlink prev m σ else rest

pub pop_by_id : ℕ → Cmd Ptr
unfolding unlink_loop unlink
pop_by_id id σ = unlink_loop (λ p m. m.id == id) (σ.num + 1) nil σ.head σ

pub remove_mail : Ptr → Cmd Bool
unfolding unlink_loop unlink
remove_mail dm σ =
    (do m ← unlink_loop (λ p m. p == dm) (σ.num + 1) nil σ.head; pure (not (m == nil))) σ

-- `stopIfNoMail`: the exit mail is pushed past the `running` that it has just cleared.
pub stop_if_no_mail : (using_pool using_debug init_check : Bool) (fresh : Ptr) → Option ℕ → Cmd Bool
unfolding alloc_mail init_mail put_head
stop_if_no_mail using_pool using_debug init_check fresh on_done σ =
    if not σ.running
    then done false σ
    else if ltb 0 σ.num
    then done false σ
    else (do
      m ← alloc_mail using_pool using_debug fresh
      init_mail init_check m 0 (exit_command 0 on_done)
      put_head m)
        (record σ { running = false })

-- `for ; mails != nil; mails = mails.next { releaseMail(mails) }`, the end of the exit branch.
pub release_loop : ℕ → Ptr → Cmd (Unit {0})
unfolding release_mail
release_loop zero m σ = out_of_fuel
release_loop (suc fuel) m σ =
    let rest = (do release_mail m; λ τ. release_loop fuel (τ.mail m).next τ) σ in
    if m == nil then done tt σ else rest

-- What one round of the loop's inner `for` did.
pub data Event : Type 0 where
  skipped : Event
  received : (m : Ptr) → Event
  stopped : (kill mails : Ptr) (count : ℕ) (on_done : Option ℕ) → Event

-- The handler's `mailboxOnReceive` and `mailboxOnStop`, and `onDone`: what they do to the state.
pub record Handler : Type 0 where
  pub on_receive : Ptr → State → State
  pub on_stop : Ptr → Ptr → ℕ → State → State
  pub on_done : ℕ → State → State

run_on_done : Handler → Option ℕ → State → State
run_on_done h none σ = σ
run_on_done h (some f) σ = h.on_done f σ

-- The exit branch of `loop`: refuse new mails, take the rest, stop the handler, release.
exit_branch : Handler → Ptr → Option ℕ → Cmd Event
unfolding pop_all run_on_done release_mail release_loop
exit_branch h kill on_done σ =
    (do
      (mails, count) ← pop_all
      λ τ.
          (do
            release_mail kill
            release_loop (suc count) mails
            pure (stopped kill mails count on_done))
            (run_on_done h on_done (h.on_stop kill mails count τ)))
      (record σ { running = false })

-- The `switch` on the data of the mail that `waitPop` returned.
dispatch : Handler → Ptr → Payload → Cmd Event
unfolding exit_branch release_mail
dispatch h m (exit_command content on_done) σ = exit_branch h m on_done σ
dispatch h m empty σ = (do release_mail m; pure (received m)) (h.on_receive m σ)
dispatch h m (message x) σ = (do release_mail m; pure (received m)) (h.on_receive m σ)

-- One round of `loop`, up to the mail that it handles; a `nil` mail is passed over.
pub loop_round : Handler → Cmd Event
unfolding wait_pop dispatch
loop_round h = do
  m ← wait_pop
  λ σ. if m == nil then done skipped σ else dispatch h m (σ.mail m).payload σ

-- After an exit the loop is left; otherwise it goes on.
go_on : Cmd (List Event) → Event → Cmd (List Event)
go_on rest (stopped kill mails count on_done) σ = done (stopped kill mails count on_done ∷ []) σ
go_on rest skipped σ = (do es ← rest; pure (skipped ∷ es)) σ
go_on rest (received m) σ = (do es ← rest; pure (received m ∷ es)) σ

-- The two nested `for` of `loop`, for at most `rounds` mails.
pub run_loop : ℕ → Handler → Cmd (List Event)
unfolding loop_round go_on
run_loop zero h σ = done [] σ
run_loop (suc rounds) h σ = and_then (loop_round h σ) (go_on (run_loop rounds h))

started : Option ErrorCode × State → Option ErrorCode × State
started (none, σ) = (none, σ)
started (some e, σ) = (some e, record σ { running = false })

-- `start` and `startLoop`: `go_id` is what `getGoID` gives, and `on_start_up` the handler's
-- `mailboxOnStartUp`. The result is the error, if there is one.
pub start :
    (go_id : ℕ) (on_start_up : State → Option ErrorCode × State) → State → Option ErrorCode × State
unfolding started
start go_id on_start_up σ =
    if σ.running
    then (some err_framework_recover_from_panic, σ)
    else if go_id == 0
    then (some err_framework_internal_error, record σ { running = false })
    else started (on_start_up (record σ { running = true }))
