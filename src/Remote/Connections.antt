-- ===== src/Remote/Connections.antt =====
-- The connections that a remote holds, over one step.
use mathlib.Core.Option.{some-injective, none-ne-some}
use mathlib.Core.Bool.{true≢false}
use go_atomos.Common.Maps.{lookup, insert, delete}
use go_atomos.Remote.{Event, closed, Remote, set_disable, close_client}
use go_atomos.Remote.Route.{pointers}
use go_atomos.Common.{
  ℕ, ◌<◌, ◌≡◌, inl, inr, refl, sym, ap, subst, ◌∙◌, Bool, true, false, ◌||◌, Option, none, some,
  List, [], ◌∷◌, arith, ◌==◌, if◌then◌else◌, ==→eq, ==_refl, Bool-cases, has,
}

-- Whether a connection has been closed.
abbrev pub was_closed : ℕ → List Event → Bool
was_closed n [] = false
was_closed n (closed k ∷ es) = (n == k) || was_closed n es
was_closed n (e ∷ es) = was_closed n es

-- Every connection that was opened is closed, or the client of one registered version.
pub record IsWired (c : Remote) : Type 0 where
  pub held : (p n : ℕ) → (c.heap p).client ≡ some n → has p (pointers c.version) ≡ true
  pub opened : (p n : ℕ) → (c.heap p).client ≡ some n → n < c.next_connection
  pub alive : (p n : ℕ) → (c.heap p).client ≡ some n → was_closed n c.trace ≡ false
  pub own : (p q n : ℕ) → (c.heap p).client ≡ some n → (c.heap q).client ≡ some n → p ≡ q
  pub kept :
      (n : ℕ)
      → n < c.next_connection
      → was_closed n c.trace ≡ false
      → (p : ℕ) × ((c.heap p).client ≡ some n)
  pub past : (n : ℕ) → was_closed n c.trace ≡ true → n < c.next_connection
  pub fresh : (p : ℕ) → has p (pointers c.version) ≡ true → p < c.next

-- Nothing that the wires depend on has changed.
pub record SameWires (c d : Remote) : Type 0 where
  pub client : (p : ℕ) → (d.heap p).client ≡ (c.heap p).client
  pub version : d.version ≡ c.version
  pub next : d.next ≡ c.next
  pub next_connection : d.next_connection ≡ c.next_connection
  pub trace : (n : ℕ) → was_closed n d.trace ≡ was_closed n c.trace

pub SameWires-IsWired : (c d : Remote) → SameWires c d → IsWired c → IsWired d
SameWires-IsWired c d s v = record {
  held = λ p n h. ap (λ t. has p (pointers t)) s.version ∙ v.held p n (client-of p n h);
  opened = λ p n h. subst (λ k. n < k) (sym s.next_connection) (v.opened p n (client-of p n h));
  alive = λ p n h. s.trace n ∙ v.alive p n (client-of p n h);
  own = λ p q n h g. v.own p q n (client-of p n h) (client-of q n g);
  kept = λ n l a.
      let k = v.kept n (subst (λ k. n < k) s.next_connection l) (sym (s.trace n) ∙ a) in
      (k.0, s.client k.0 ∙ k.1);
  past = λ n e. subst (λ k. n < k) (sym s.next_connection) (v.past n (sym (s.trace n) ∙ e));
  fresh = λ p e.
      subst (λ k. p < k) (sym s.next)
        (v.fresh p (sym (ap (λ t. has p (pointers t)) s.version) ∙ e));
}
  where
    client-of : (p n : ℕ) → (d.heap p).client ≡ some n → (c.heap p).client ≡ some n
    client-of p n h = sym (s.client p) ∙ h

-- A pointer survives the change of another key's entry, and a key's new pointer is there.
pub kept-insert :
    (key p q v : ℕ) (table : List (ℕ × ℕ))
    → has q (pointers table) ≡ true
    → lookup key table ≡ some p
    → (q == p) ≡ false
    → has q (pointers (insert key v table)) ≡ true
unfolding insert lookup
kept-insert key p q v [] e h apart = ground arith
kept-insert key p q v ((k, u) ∷ table) e h apart = ground (arith, kept-insert key p q v table)

pub kept-append :
    (key q v : ℕ) (table : List (ℕ × ℕ))
    → has q (pointers table) ≡ true
    → lookup key table ≡ none
    → has q (pointers (insert key v table)) ≡ true
unfolding insert lookup
kept-append key q v [] e h = ground arith
kept-append key q v ((k, u) ∷ table) e h = ground (arith, kept-append key q v table)

pub kept-delete :
    (key p q : ℕ) (table : List (ℕ × ℕ))
    → has q (pointers table) ≡ true
    → lookup key table ≡ some p
    → (q == p) ≡ false
    → has q (pointers (delete key table)) ≡ true
unfolding delete lookup
kept-delete key p q [] e h apart = ground arith
kept-delete key p q ((k, u) ∷ table) e h apart = ground (arith, kept-delete key p q table)

pub insert-only :
    (key q v : ℕ) (table : List (ℕ × ℕ))
    → has q (pointers (insert key v table)) ≡ true
    → (q == v) ≡ false
    → has q (pointers table) ≡ true
unfolding insert
insert-only key q v [] e apart = ground arith
insert-only key q v ((k, u) ∷ table) e apart = ground (arith, insert-only key q v table)

pub delete-only :
    (key q : ℕ) (table : List (ℕ × ℕ))
    → has q (pointers (delete key table)) ≡ true
    → has q (pointers table) ≡ true
unfolding delete
delete-only key q [] e = ground arith
delete-only key q ((k, u) ∷ table) e = ground (arith, delete-only key q table)

-- `setDisable` closes the connection of its version.
closed_by : Option ℕ → ℕ → Bool
closed_by none n = false
closed_by (some k) n = n == k

pub set_disable-heap :
    (p q : ℕ) (c : Remote)
    → ((set_disable p c).heap q).client ≡ (if q == p then none else (c.heap q).client)
unfolding set_disable
set_disable-heap p q c = ground arith

close_client-closed :
    (o : Option ℕ) (n : ℕ) (c : Remote)
    → was_closed n (close_client o c).trace ≡ (closed_by o n || was_closed n c.trace)
unfolding closed_by close_client
close_client-closed none n c = refl
close_client-closed (some k) n c = refl

set_disable-closed :
    (p n : ℕ) (c : Remote)
    → was_closed n (set_disable p c).trace ≡ (closed_by (c.heap p).client n || was_closed n c.trace)
unfolding set_disable closed_by
set_disable-closed p n c = close_client-closed (c.heap p).client n c

pub set_disable-same :
    (p : ℕ) (c : Remote)
    → ((set_disable p c).version ≡ c.version)
      × ((set_disable p c).next ≡ c.next)
      × ((set_disable p c).next_connection ≡ c.next_connection)
unfolding set_disable
set_disable-same p c = ground arith

-- The client of a version after another version, or itself, was disabled.
pub set_disable-client :
    (p q n : ℕ) (c : Remote)
    → ((set_disable p c).heap q).client ≡ some n
    → ((c.heap q).client ≡ some n) × ((q == p) ≡ false)
set_disable-client p q n c h =
    (ground (arith, set_disable-heap p q c), ground (arith, set_disable-heap p q c))

closed_by-some : (o : Option ℕ) (n : ℕ) → closed_by o n ≡ true → o ≡ some n
unfolding closed_by
closed_by-some none n e = ground arith
closed_by-some (some k) n e = ap some (sym (==→eq n k e))

closed_by-hit : (o : Option ℕ) (n : ℕ) → o ≡ some n → closed_by o n ≡ true
unfolding closed_by
closed_by-hit none n e = absurd (none-ne-some n e)
closed_by-hit (some k) n e = ground (arith, some-injective k n e)

-- Only the version's own connection is closed.
set_disable-alive :
    (p q n : ℕ) (c : Remote)
    → IsWired c
    → ((set_disable p c).heap q).client ≡ some n
    → was_closed n (set_disable p c).trace ≡ false
set_disable-alive p q n c v h =
    let k = set_disable-client p q n c h in
    elim (Bool-cases (closed_by (c.heap p).client n)) [
      | inl hit ↦ absurd (
          true≢false (
            sym (
              ap (λ x. x == p) (v.own q p n k.0 (closed_by-some (c.heap p).client n hit))
              ∙ ==_refl p)
            ∙ k.1))
      | inr miss ↦
          set_disable-closed p n c ∙ ap (λ b. b || was_closed n c.trace) miss ∙ v.alive q n k.0
    ]

set_disable-kept :
    (p n : ℕ) (c : Remote)
    → IsWired c
    → n < c.next_connection
    → was_closed n (set_disable p c).trace ≡ false
    → (q : ℕ) × (((set_disable p c).heap q).client ≡ some n)
set_disable-kept p n c v l alive =
    let split = sym (set_disable-closed p n c) ∙ alive in
    let k = v.kept n l (ground arith) in
    elim (Bool-cases (k.0 == p)) [
      | inl same ↦ absurd (
          true≢false (
            sym (
              closed_by-hit (c.heap p).client n
                (subst (λ x. (c.heap x).client ≡ some n) (==→eq k.0 p same) k.1))
            ∙ ground (arith, split)))
      | inr apart ↦ (
        k.0,
        set_disable-heap p k.0 c ∙ (ap (λ b. if b then none else (c.heap k.0).client) apart ∙ k.1),
      )
    ]

set_disable-past :
    (p n : ℕ) (c : Remote)
    → IsWired c
    → was_closed n (set_disable p c).trace ≡ true
    → n < c.next_connection
set_disable-past p n c v e = elim (Bool-cases (closed_by (c.heap p).client n)) [
  | inl hit ↦ v.opened p n (closed_by-some (c.heap p).client n hit)
  | inr miss ↦ v.past n (ground (arith, set_disable-closed p n c))
]

pub set_disable-IsWired : (p : ℕ) (c : Remote) → IsWired c → IsWired (set_disable p c)
unfolding closed_by
set_disable-IsWired p c v = record {
  held = λ q n h.
      ap (λ t. has q (pointers t)) (set_disable-same p c).0
      ∙ v.held q n (set_disable-client p q n c h).0;
  opened = λ q n h.
      subst (λ k. n < k) (sym (set_disable-same p c).2)
        (v.opened q n (set_disable-client p q n c h).0);
  alive = λ q n h. set_disable-alive p q n c v h;
  own = λ q r n h g. v.own q r n (set_disable-client p q n c h).0 (set_disable-client p r n c g).0;
  kept = λ n l. set_disable-kept p n c v (subst (λ k. n < k) (set_disable-same p c).2 l);
  past = λ n e. subst (λ k. n < k) (sym (set_disable-same p c).2) (set_disable-past p n c v e);
  fresh = λ q e.
      subst (λ k. q < k) (sym (set_disable-same p c).1)
        (v.fresh q (sym (ap (λ t. has q (pointers t)) (set_disable-same p c).0) ∙ e));
}
