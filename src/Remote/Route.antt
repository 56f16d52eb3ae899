-- ===== src/Remote/Route.antt =====
-- Which version calls are routed to after a `refresh`.
use mathlib.Core.Option.{some-injective, none-ne-some}
use mathlib.Core.Bool.{true≢false}
use go_atomos.Common.Maps.{lookup}
use go_atomos.Remote.{
  ClusterNodeState, Version, Remote, Setting, is_draining, is_started, first_started, refresh,
  refresh_with, refresh_lock, fall_back, disabled, route_to,
}
use go_atomos.Common.{
  ℕ, ◌≡◌, ◌≢◌, inl, inr, refl, sym, ap, subst, ◌∙◌, true, false, Option, none, some, List, [], ◌∷◌,
  arith, ◌==◌, if◌then◌else◌, ==→eq, ==_refl, Bool-cases, has,
}

-- The versions in the map.
abbrev pub pointers : List (ℕ × ℕ) → List ℕ
pointers [] = []
pointers ((key, p) ∷ table) = p ∷ pointers table

abbrev pub state_of : Remote → ℕ → ClusterNodeState
state_of c p = (c.heap p).info.node_state

pub lookup-pointers :
    (key p : ℕ) (table : List (ℕ × ℕ)) → lookup key table ≡ some p → has p (pointers table) ≡ true
unfolding lookup
lookup-pointers key p [] h = ground arith
lookup-pointers key p ((k, q) ∷ table) h = ground (arith, lookup-pointers key p table)

first_started-some :
    (heap : ℕ → Version) (p : ℕ) (table : List (ℕ × ℕ))
    → first_started heap table ≡ some p
    → (has p (pointers table) ≡ true) × (is_started (heap p).info.node_state ≡ true)
unfolding first_started
first_started-some heap p [] h = (ground arith, ground arith)
first_started-some heap p ((k, q) ∷ table) h = (
  ground (arith, first_started-some heap p table, ==_refl q),
  ground (arith, first_started-some heap p table, ==→eq p q),
)

first_started-none :
    (heap : ℕ → Version) (p : ℕ) (table : List (ℕ × ℕ))
    → first_started heap table ≡ none
    → has p (pointers table) ≡ true
    → is_started (heap p).info.node_state ≡ false
unfolding first_started
first_started-none heap p [] h e = ground arith
first_started-none heap p ((k, q) ∷ table) h e =
    ground (arith, first_started-none heap p table, ==→eq p q)

-- A remote that calls go to: its current version is in the map.
abbrev pub IsReached : Remote → Type 0
IsReached d = (p : ℕ) × (d.current ≡ some p) × (has p (pointers d.version) ≡ true)

-- How a search among the versions of c ends, under a lock that names a version.
record Searched (c d : Remote) : Type 0 where
  version : d.version ≡ c.version
  heap : d.heap ≡ c.heap
  reached : d.enable ≡ true → IsReached d
  best :
      (p q : ℕ)
      → d.enable ≡ true
      → d.current ≡ some p
      → is_draining (state_of c p) ≡ true
      → has q (pointers c.version) ≡ true
      → is_started (state_of c q) ≡ false
  finds :
      (q : ℕ)
      → has q (pointers c.version) ≡ true
      → is_started (state_of c q) ≡ true
      → d.enable ≡ true

started-not_draining : (t : ClusterNodeState) → is_started t ≡ true → is_draining t ≡ false
started-not_draining t s = ground arith

route_to-Searched :
    (c : Remote) (p : ℕ)
    → has p (pointers c.version) ≡ true
    → (is_draining (state_of c p) ≡ true
        → (q : ℕ) → has q (pointers c.version) ≡ true
        → is_started (state_of c q) ≡ false)
    → Searched c (route_to p c)
route_to-Searched c p here best = record {
  version = refl;
  heap = refl;
  reached = λ e. (p, refl, here);
  best = λ q r e same d known.
      best (subst (λ x. is_draining (state_of c x) ≡ true) (sym (some-injective p q same)) d) r
        known;
  finds = λ q known on. refl;
}

fall_back-Searched :
    (c : Remote) (first g : Option ℕ)
    → first ≡ first_started c.heap c.version
    → ((p : ℕ) → g ≡ some p → has p (pointers c.version) ≡ true)
    → Searched c (fall_back first g c)
unfolding fall_back
fall_back-Searched c (some p) g h known =
    let f = first_started-some c.heap p c.version (sym h) in
    route_to-Searched c p f.0
      (λ d. absurd (true≢false (sym d ∙ started-not_draining (state_of c p) f.1)))
fall_back-Searched c none (some p) h known =
    route_to-Searched c p (known p refl) (λ d q e. first_started-none c.heap q c.version (sym h) e)
fall_back-Searched c none none h known = record {
  version = refl;
  heap = refl;
  reached = λ e. absurd (true≢false (sym e));
  best = λ p q e. absurd (true≢false (sym e));
  finds = λ q e on. absurd (true≢false (sym on ∙ first_started-none c.heap q c.version (sym h) e));
}

refresh_with-Searched :
    (c : Remote) (g : Option ℕ)
    → ((p : ℕ) → g ≡ some p → has p (pointers c.version) ≡ true)
    → Searched c (refresh_with g c)
unfolding refresh_with
refresh_with-Searched c none known =
    fall_back-Searched c (first_started c.heap c.version) none refl known
refresh_with-Searched c (some p) known = elim (Bool-cases (is_draining (state_of c p))) [
  | inl d ↦
      subst
        (λ b.
          Searched c
            (if b then fall_back (first_started c.heap c.version) (some p) c else route_to p c))
        (sym d) (fall_back-Searched c (first_started c.heap c.version) (some p) refl known)
  | inr d ↦
      subst
        (λ b.
          Searched c
            (if b then fall_back (first_started c.heap c.version) (some p) c else route_to p c))
        (sym d) (route_to-Searched c p (known p refl) (λ e. absurd (true≢false (sym e ∙ d))))
]

-- The version that the lock names is taken, unless it drains; and then it is still taken if no version
-- is started.
abbrev pub Named : Remote → ℕ → Remote → Type 0
Named c p d =
    (is_draining (state_of c p) ≡ false → (d.enable ≡ true) × (d.current ≡ some p))
    × (is_draining (state_of c p) ≡ true
        → ((q : ℕ) → has q (pointers c.version) ≡ true → is_started (state_of c q) ≡ false)
        → (d.enable ≡ true) × (d.current ≡ some p))

fall_back-some :
    (c : Remote) (p : ℕ) (first : Option ℕ)
    → first ≡ first_started c.heap c.version
    → ((q : ℕ) → has q (pointers c.version) ≡ true → is_started (state_of c q) ≡ false)
    → ((fall_back first (some p) c).enable ≡ true) × ((fall_back first (some p) c).current ≡ some p)
unfolding fall_back
fall_back-some c p (some q) h idle =
    let f = first_started-some c.heap q c.version (sym h) in
    absurd (true≢false (sym f.1 ∙ idle q f.0))
fall_back-some c p none h idle = (refl, refl)

refresh_with-Named : (c : Remote) (p : ℕ) → Named c p (refresh_with (some p) c)
unfolding refresh_with
refresh_with-Named c p = (
  λ d.
      subst
        (λ b.
          let r =
            if b then fall_back (first_started c.heap c.version) (some p) c else route_to p c in
          (r.enable ≡ true) × (r.current ≡ some p))
        (sym d) (refl, refl),
  λ d idle.
      subst
        (λ b.
          let r =
            if b then fall_back (first_started c.heap c.version) (some p) c else route_to p c in
          (r.enable ≡ true) × (r.current ≡ some p))
        (sym d) (fall_back-some c p (first_started c.heap c.version) refl idle),
)

-- Where calls go after a refresh of c.
pub record Routed (format_int : ℕ → ℕ) (c d : Remote) : Type 0 where
  pub reached : d.enable ≡ true → IsReached d
  pub locked : d.enable ≡ true → (n : ℕ) × (c.lock ≡ some n) × (n ≢ 0)
  pub best :
      (p q : ℕ)
      → d.enable ≡ true
      → d.current ≡ some p
      → is_draining (state_of c p) ≡ true
      → has q (pointers c.version) ≡ true
      → is_started (state_of c q) ≡ false
  pub finds :
      (n q : ℕ)
      → c.lock ≡ some n
      → n ≢ 0
      → has q (pointers c.version) ≡ true
      → is_started (state_of c q) ≡ true
      → d.enable ≡ true
  pub named :
      (n p : ℕ) → c.lock ≡ some n → n ≢ 0 → lookup (format_int n) c.version ≡ some p → Named c p d

-- No route, because no lock names a version.
unlocked-Routed :
    (f : ℕ → ℕ) (c : Remote) → ((n : ℕ) → c.lock ≡ some n → n ≡ 0) → Routed f c (disabled c)
unlocked-Routed f c nameless = record {
  reached = λ e. absurd (true≢false (sym e));
  locked = λ e. absurd (true≢false (sym e));
  best = λ p q e. absurd (true≢false (sym e));
  finds = λ n q l some_version. absurd (some_version (nameless n l));
  named = λ n p l some_version. absurd (some_version (nameless n l));
}

locked-Routed :
    (f : ℕ → ℕ) (c d : Remote) (n : ℕ)
    → c.lock ≡ some n
    → n ≢ 0
    → Searched c d
    → ((p : ℕ) → lookup (f n) c.version ≡ some p → Named c p d)
    → Routed f c d
locked-Routed f c d n l named v taken = record {
  reached = v.reached;
  locked = λ e. (n, l, named);
  best = v.best;
  finds = λ k q l2 z. v.finds q;
  named = λ k p l2 z e.
      taken p (ap (λ m. lookup (f m) c.version) (some-injective n k (sym l ∙ l2)) ∙ e);
}

refresh_lock-Routed :
    (s : Setting) (c : Remote) (l : Option ℕ)
    → c.lock ≡ l
    → Routed s.format_int c (refresh_lock s.format_int l c)
unfolding refresh_lock
refresh_lock-Routed s c none h =
    unlocked-Routed s.format_int c (λ n l. absurd (none-ne-some n (sym h ∙ l)))
refresh_lock-Routed s c (some n) h =
    let found = lookup (s.format_int n) c.version in
    elim (Bool-cases (n == 0)) [
      | inl z ↦
          subst (λ b. Routed s.format_int c (if b then disabled c else refresh_with found c))
            (sym z)
            (unlocked-Routed s.format_int c (λ k l. some-injective k n (sym l ∙ h) ∙ ==→eq n 0 z))
      | inr z ↦
          subst (λ b. Routed s.format_int c (if b then disabled c else refresh_with found c))
            (sym z)
            (locked-Routed s.format_int c (refresh_with found c) n h
              (λ e. true≢false (sym (ap (λ k. k == 0) e) ∙ z))
              (refresh_with-Searched c found
                (λ p e. lookup-pointers (s.format_int n) p c.version e))
              (λ p e. subst (λ o. Named c p (refresh_with o c)) (sym e) (refresh_with-Named c p)))
    ]

-- `refresh`, for any state and any order of the map. Calls go only to a registered version, and only under
-- a lock that names a version. If the version that the lock names is registered and does not drain, calls
-- go to it; if it drains, they go to it only while no registered version is started. Calls go to a draining
-- version only then; and they go somewhere whenever the lock names a version and some version is started.
pub refresh_lem : (s : Setting) (c : Remote) → Routed s.format_int c (refresh s c)
unfolding refresh
refresh_lem s c = refresh_lock-Routed s c c.lock refl
