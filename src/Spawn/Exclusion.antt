-- ===== src/Spawn/Exclusion.antt =====
-- Who holds the lock under a name.
use go_atomos.Common.{
  ℕ, zero, suc, ◌+◌, ◌≤◌, ◌<◌, ◌≡◌, inl, inr, refl, sym, ◌∙◌, Bool, true, false, ◌&&◌, none, some,
  [], map, arith, ◌==◌, if◌then◌else◌, Option-cases,
}
use go_atomos.Common.Maps.{lookup, keys}
use go_atomos.Spawn.RefMap.{
  IsRefMap, uses_of, get_or_put, get_or_put_lem, remove_lem, get_or_put-IsRefMap, remove-IsRefMap,
}
use go_atomos.Spawn.Family.{sum_below, sum_below-set_at, pair-sum_below}
use go_atomos.Spawn.Locks.{
  Pc, idle, waiting, spawning, leaving, Locks, enter, take, give_back, release, Step, enters, takes,
  gives_back, releases, Steps, none_yet, then_step,
}

-- Whether a goroutine counts as a user of the entry under a name, and of which mutex.
abbrev pub claims : ℕ → ℕ → Pc → Bool
claims name lock (waiting n l) = n == name && l == lock
claims name lock (spawning n l) = n == name && l == lock
claims name lock _ = false

abbrev pub uses : ℕ → Pc → ℕ
uses name (waiting n l) = if n == name then 1 else 0
uses name (spawning n l) = if n == name then 1 else 0
uses name _ = 0

abbrev pub owns : ℕ → Pc → Bool
owns lock (spawning n l) = l == lock
owns lock (leaving n l) = l == lock
owns lock _ = false

-- The count of a name is the number of its users, who all have the mutex in the map; a mutex that a
-- goroutine owns is locked, and owned by it alone.
pub record Inv (n : ℕ) (s : Locks) : Type 0 where
  pub map : IsRefMap s.spawn_lock_map
  pub counts : (name : ℕ) → uses_of (lookup name s.spawn_lock_map.r) ≡ sum_below (uses name) n s.pc
  pub current :
      (i name lock : ℕ)
      → i < n
      → claims name lock (s.pc i) ≡ true
      → lookup name s.spawn_lock_map.m ≡ some lock
  pub locked : (i lock : ℕ) → i < n → owns lock (s.pc i) ≡ true → s.held lock ≡ true
  pub unique :
      (i j lock : ℕ) → i < n → j < n → owns lock (s.pc i) ≡ true → owns lock (s.pc j) ≡ true → i ≡ j
  pub made : (name lock : ℕ) → lookup name s.spawn_lock_map.m ≡ some lock → lock < s.next_lock
  pub owned : (i lock : ℕ) → i < n → owns lock (s.pc i) ≡ true → lock < s.next_lock

made_after :
    (name q lock : ℕ) (s : Locks)
    → IsRefMap s.spawn_lock_map
    → ((n l : ℕ) → lookup n s.spawn_lock_map.m ≡ some l → l < s.next_lock)
    → lookup q (get_or_put name s.next_lock s.spawn_lock_map).1.m ≡ some lock
    → lock < s.next_lock + 1
made_after name q lock s map made g =
    let out = get_or_put_lem name q s.next_lock s.spawn_lock_map map in
    elim (Option-cases (lookup name s.spawn_lock_map.m)) [
      | inl gone ↦ ground (arith, g, out.1, out.2 gone, made q lock)
      | inr (old, here) ↦ ground (arith, g, out.1, out.3 old here, made name old here, made q lock)
    ]

-- Beside the one that gives a name back, each other user of the name counts.
pair_uses :
    (n i j name lock : ℕ) (s : Locks)
    → i < n
    → j < n
    → s.pc i ≡ spawning name lock
    → (j == i) ≡ false
    → 1 + uses name (s.pc j) ≤ sum_below (uses name) n s.pc
pair_uses n i j name lock s hi hj at apart =
    ground (arith, at, pair-sum_below (uses name) n i j idle s.pc hi hj apart refl)

enter-Inv : (n i name : ℕ) (s : Locks) → i < n → s.pc i ≡ idle → Inv n s → Inv n (enter i name s)
unfolding enter
enter-Inv n i name s h at v =
    let new = s.next_lock in
    let t = s.spawn_lock_map in
    let out = get_or_put name new t in
    let p = waiting name out.0.0 in
    record {
      map = get_or_put-IsRefMap name new t v.map;
      counts = λ q. ground (
        arith,
        v.counts q,
        (get_or_put_lem name q new t v.map).0,
        sum_below-set_at (uses q) n i p s.pc h,
        at,
      );
      current = λ j q l hj c. ground (
        arith,
        c,
        at,
        v.current j q l hj,
        (get_or_put_lem name q new t v.map).1,
        (get_or_put_lem name q new t v.map).3 l,
      );
      locked = λ j l hj c. ground (arith, at, c, v.locked j l hj, v.owned j l hj);
      unique = λ j k l hj hk c d. ground (arith, at, c, d, v.unique j k l hj hk);
      made = λ q l g. made_after name q l s v.map v.made g;
      owned = λ j l hj c. ground (arith, at, c, v.owned j l hj);
    }

take-Inv :
    (n i name lock : ℕ) (s : Locks)
    → i < n
    → s.pc i ≡ waiting name lock
    → s.held lock ≡ false
    → Inv n s
    → Inv n (take i name lock s)
unfolding take
take-Inv n i name lock s h at free v = record {
  map = v.map;
  counts = λ q.
      ground (arith, v.counts q, sum_below-set_at (uses q) n i (spawning name lock) s.pc h, at);
  current = λ j q l hj c. ground (arith, c, at, v.current j q l hj, v.current i q l h);
  locked = λ j l hj c. ground (arith, c, at, v.locked j l hj);
  unique = λ j k l hj hk c d.
      ground (arith, at, c, d, v.unique j k l hj hk, free, v.locked j l hj, v.locked k l hk);
  made = v.made;
  owned =
      λ j l hj c. ground (arith, at, c, v.owned j l hj, v.made name lock, v.current i name lock h);
}

give_back-Inv :
    (n i name lock : ℕ) (s : Locks)
    → i < n
    → s.pc i ≡ spawning name lock
    → Inv n s
    → Inv n (give_back i name lock s)
unfolding give_back
give_back-Inv n i name lock s h at v = record {
  map = remove-IsRefMap name s.spawn_lock_map v.map;
  counts = λ q. ground (
    arith,
    v.counts q,
    (remove_lem name q s.spawn_lock_map v.map).0,
    sum_below-set_at (uses q) n i (leaving name lock) s.pc h,
    at,
  );
  current = λ j q l hj c. ground (
    arith,
    c,
    at,
    v.current j q l hj,
    v.counts name,
    (remove_lem name q s.spawn_lock_map v.map).1,
    pair_uses n i j name lock s h hj at,
  );
  locked = λ j l hj c. ground (arith, c, at, v.locked j l hj, v.locked i l h);
  unique = λ j k l hj hk c d. ground (arith, at, c, d, v.unique j k l hj hk);
  made = λ q l g. ground (arith, g, v.made q l, (remove_lem name q s.spawn_lock_map v.map).1);
  owned = λ j l hj c. ground (arith, at, c, v.owned j l hj, v.owned i l h);
}

release-Inv :
    (n i name lock : ℕ) (s : Locks)
    → i < n
    → s.pc i ≡ leaving name lock
    → Inv n s
    → Inv n (release i lock s)
unfolding release
release-Inv n i name lock s h at v = record {
  map = v.map;
  counts = λ q. ground (arith, v.counts q, sum_below-set_at (uses q) n i idle s.pc h, at);
  current = λ j q l hj c. ground (arith, c, at, v.current j q l hj);
  locked = λ j l hj c. ground (arith, c, at, v.locked j l hj, v.unique j i lock hj h);
  unique = λ j k l hj hk c d. ground (arith, at, c, d, v.unique j k l hj hk);
  made = v.made;
  owned = λ j l hj c. ground (arith, at, c, v.owned j l hj);
}

Step-Inv : (n : ℕ) (s t : Locks) → Step n s t → Inv n s → Inv n t
Step-Inv n s t (enters i name h at) v = enter-Inv n i name s h at v
Step-Inv n s t (takes i name lock h at free) v = take-Inv n i name lock s h at free v
Step-Inv n s t (gives_back i name lock h at) v = give_back-Inv n i name lock s h at v
Step-Inv n s t (releases i name lock h at) v = release-Inv n i name lock s h at v

Steps-Inv : (n : ℕ) (s t : Locks) → Steps n s t → Inv n s → Inv n t
Steps-Inv n s t none_yet v = v
Steps-Inv n s t (then_step {t = u} before last) v = Step-Inv n u t last (Steps-Inv n s u before v)

-- No goroutine spawns, and the map is empty.
pub record IsIdle (n : ℕ) (s : Locks) : Type 0 where
  pub pc : (i : ℕ) → s.pc i ≡ idle
  pub m : s.spawn_lock_map.m ≡ []
  pub r : s.spawn_lock_map.r ≡ []

sum_below-idle :
    (n name : ℕ) (pc : ℕ → Pc)
    → ((i : ℕ) → i < n → uses name (pc i) ≡ 0)
    → sum_below (uses name) n pc ≡ 0
unfolding sum_below
sum_below-idle zero name pc h = refl
sum_below-idle (suc n) name pc h =
    omega (arith, h n (omega arith), sum_below-idle n name pc (λ i b. h i (omega (arith, b))))

IsIdle-Inv : (n : ℕ) (s : Locks) → IsIdle n s → Inv n s
unfolding lookup keys
IsIdle-Inv n s rest = record {
  map = record {
    values_once = ground (arith, rest.m);
    counts_once = ground (arith, rest.r);
    same_keys = λ k. ground (arith, rest.m, rest.r);
    positive = λ k. ground (arith, rest.m, rest.r);
  };
  counts = λ q. ground (arith, rest.r, sum_below-idle n q s.pc (λ i h. ground (arith, rest.pc i)));
  current = λ i q l h c. ground (arith, c, rest.pc i);
  locked = λ i l h c. ground (arith, c, rest.pc i);
  unique = λ i j l h k c d. ground (arith, c, rest.pc i);
  made = λ q l g. ground (arith, g, rest.m);
  owned = λ i l h c. ground (arith, c, rest.pc i);
}

-- However the accesses of the goroutines interleave from an idle element on, at most one of them spawns under a
-- name at a time, and a name that no goroutine waits or spawns for has no mutex in the map.
pub Steps-exclusive :
    (n : ℕ) (s t : Locks)
    → IsIdle n s
    → Steps n s t
    → ((i j name l k : ℕ)
        → i < n
        → j < n
        → t.pc i ≡ spawning name l
        → t.pc j ≡ spawning name k
        → i ≡ j)
      × ((name : ℕ)
          → ((i : ℕ) → i < n → uses name (t.pc i) ≡ 0)
          → lookup name t.spawn_lock_map.m ≡ none)
Steps-exclusive n s t start steps =
    let v = Steps-Inv n s t steps (IsIdle-Inv n s start) in
    (
      (λ i j name l k hi hj p q.
          let same : some l ≡ some k =
            sym (v.current i name l hi (ground (arith, p)))
            ∙ v.current j name k hj (ground (arith, q)) in
          v.unique i j l hi hj (ground (arith, p)) (ground (arith, q, same))),
      (λ name none_uses.
          ground
            (arith, v.map.same_keys name, v.counts name, sum_below-idle n name t.pc none_uses)),
    )
