-- ===== src/Remote/Steps.antt =====
-- The other changes of the versions: a new one, one taken out, new information, and a dial.
use mathlib.Core.Option.{some-injective, none-ne-some}
use go_atomos.Common.Maps.{insert, delete}
use go_atomos.Remote.{Info, Remote, add_version, set_info, connect, give_up}
use go_atomos.Remote.Route.{pointers}
use go_atomos.Remote.Connections.{was_closed, IsWired, SameWires-IsWired, insert-only, delete-only}
use go_atomos.Common.{
  ℕ, ◌≡◌, ◌≢◌, ◌⊎◌, inl, inr, refl, sym, ap, ◌∙◌, true, false, none, some, arith, ◌==◌,
  if◌then◌else◌, ==→eq, ==_refl, ==_ne, Bool-cases, has,
}

add_version-client :
    (key q n : ℕ) (info : Info) (c : Remote)
    → ((add_version key info c).heap q).client ≡ some n
    → ((c.heap q).client ≡ some n) × ((q == c.next) ≡ false)
unfolding add_version
add_version-client key q n info c h = (ground arith, ground arith)

-- A version is added, and every version that holds a connection stays in the map.
pub add_version-IsWired :
    (key : ℕ) (info : Info) (c : Remote)
    → IsWired c
    → ((q n : ℕ)
        → (c.heap q).client ≡ some n
        → has q (pointers (insert key c.next c.version)) ≡ true)
    → IsWired (add_version key info c)
unfolding add_version
add_version-IsWired key info c v stays = record {
  held = λ q n h. stays q n (add_version-client key q n info c h).0;
  opened = λ q n h. v.opened q n (add_version-client key q n info c h).0;
  alive = λ q n h. v.alive q n (add_version-client key q n info c h).0;
  own = λ q r n h g.
      v.own q r n (add_version-client key q n info c h).0 (add_version-client key r n info c g).0;
  kept =
      λ n l a. let k = v.kept n l a in (k.0, ground (arith, k.1, v.fresh k.0 (v.held k.0 n k.1)));
  past = v.past;
  fresh = λ q e. ground (arith, insert-only key q c.next c.version e, v.fresh q);
}

-- A version is taken out, and every version that holds a connection stays in the map.
pub delete-IsWired :
    (key : ℕ) (c : Remote)
    → IsWired c
    → ((q n : ℕ) → (c.heap q).client ≡ some n → has q (pointers (delete key c.version)) ≡ true)
    → IsWired (record c { version = delete key c.version; current = none })
delete-IsWired key c v stays = record {
  held = stays;
  opened = v.opened;
  alive = v.alive;
  own = v.own;
  kept = v.kept;
  past = v.past;
  fresh = λ q e. v.fresh q (delete-only key q c.version e);
}

pub set_info-IsWired : (p : ℕ) (info : Info) (c : Remote) → IsWired c → IsWired (set_info p info c)
unfolding set_info
set_info-IsWired p info c v =
    SameWires-IsWired c (set_info p info c)
      (record {
        client = λ q. ground (arith, ==→eq q p);
        version = refl;
        next = refl;
        next_connection = refl;
        trace = λ n. refl;
      })
      v

-- The clients after a dial.
connect-client :
    (p q : ℕ) (c : Remote)
    → ((connect p c).heap q).client ≡ (if q == p then some c.next_connection else (c.heap q).client)
unfolding connect
connect-client p q c = ground (arith, ==→eq q p)

connect-cases :
    (p q n : ℕ) (c : Remote)
    → ((connect p c).heap q).client ≡ some n
    → ((q ≡ p) × (n ≡ c.next_connection)) ⊎ ((c.heap q).client ≡ some n)
connect-cases p q n c h = elim (Bool-cases (q == p)) [
  | inl same ↦ inl (
    ==→eq q p same,
    some-injective n c.next_connection (
        sym h
        ∙ (connect-client p q c
            ∙ ap (λ b. if b then some c.next_connection else (c.heap q).client) same)),
  )
  | inr apart ↦ inr (
      sym (ap (λ b. if b then some c.next_connection else (c.heap q).client) apart)
      ∙ (sym (connect-client p q c) ∙ h))
]

-- No version holds the connection that comes next.
not_next : (q : ℕ) (c : Remote) → IsWired c → (c.heap q).client ≢ some c.next_connection
not_next q c v h = ground (arith, v.opened q c.next_connection h)

not_closed : (c : Remote) → IsWired c → was_closed c.next_connection c.trace ≡ false
not_closed c v = ground (arith, v.past c.next_connection)

pub connect-IsWired :
    (p : ℕ) (c : Remote)
    → IsWired c
    → (c.heap p).client ≡ none
    → has p (pointers c.version) ≡ true
    → IsWired (connect p c)
unfolding connect
connect-IsWired p c v idle here = record {
  held = λ q n h. elim (connect-cases p q n c h) [
    | inl s ↦ ap (λ x. has x (pointers c.version)) s.0 ∙ here
    | inr o ↦ v.held q n o
  ];
  opened = λ q n h. elim (connect-cases p q n c h) [
    | inl s ↦ ground (arith, s.1)
    | inr o ↦ ground (arith, v.opened q n o)
  ];
  alive = λ q n h. elim (connect-cases p q n c h) [
    | inl s ↦ ap (λ x. was_closed x c.trace) s.1 ∙ not_closed c v
    | inr o ↦ v.alive q n o
  ];
  own = λ q r n h g. elim (connect-cases p q n c h) [
    | inl s ↦ elim (connect-cases p r n c g) [
      | inl t ↦ s.0 ∙ sym t.0
      | inr o ↦ absurd (not_next r c v (o ∙ ap some s.1))
    ]
    | inr o ↦ elim (connect-cases p r n c g) [
      | inl t ↦ absurd (not_next q c v (o ∙ ap some t.1))
      | inr u ↦ v.own q r n o u
    ]
  ];
  kept = λ n l a. elim (Bool-cases (n == c.next_connection)) [
    | inl e ↦ (
      p,
      connect-client p p c
          ∙ (ap (λ b. if b then some c.next_connection else (c.heap p).client) (==_refl p)
              ∙ ap some (sym (==→eq n c.next_connection e))),
    )
    | inr e ↦
        let k = v.kept n (ground arith) a in
        (
          k.0,
          connect-client p k.0 c
              ∙ (ap (λ b. if b then some c.next_connection else (c.heap k.0).client)
                    (==_ne k.0 p (λ z.
                      none-ne-some n (sym idle ∙ (ap (λ x. (c.heap x).client) (sym z) ∙ k.1))))
                  ∙ k.1),
        )
  ];
  past = λ n e. ground (arith, v.past n e);
  fresh = v.fresh;
}

pub give_up-IsWired : (p : ℕ) (c : Remote) → IsWired c → IsWired (give_up p c)
unfolding give_up
give_up-IsWired p c v =
    SameWires-IsWired c (give_up p c)
      (record {
        client = λ q. ground (arith, ==→eq q p);
        version = refl;
        next = refl;
        next_connection = refl;
        trace = λ n. refl;
      })
      v
