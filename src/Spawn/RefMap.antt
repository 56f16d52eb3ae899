-- ===== src/Spawn/RefMap.antt =====
-- `MapGoWithRefCount`: a map whose entry goes with its last user. Keys are numbers.
use go_atomos.Common.{
  ℕ, ◌+◌, ◌-◌, ◌≡◌, Bool, true, false, ◌&&◌, Option, none, some, List, arith, ltb, leb, ◌==◌,
  if◌then◌else◌, is_some, Distinct,
}
use go_atomos.Common.Maps.{
  lookup, insert, delete, keys, lookup-insert, lookup-delete, insert-Distinct, delete-Distinct,
}

-- A count that is missing reads as 0.
abbrev pub uses_of : Option ℕ → ℕ
uses_of none = 0
uses_of (some n) = n

pub record RefMap {ℓ} (V : Type ℓ) : Type ℓ where
  pub m : List (ℕ × V)
  pub r : List (ℕ × ℕ)

module _ {ℓ} {V : Type ℓ} where
  -- `GetOrPut`: the value, and whether it was put.
  unfoldable pub get_or_put : ℕ → V → RefMap V → (V × Bool) × RefMap V
  get_or_put key value t = elim (lookup key t.m) [
    | none ↦ ((value, true), record t { m = insert key value t.m; r = insert key 1 t.r })
    | some v ↦ ((v, false), record t { r = insert key (uses_of (lookup key t.r) + 1) t.r })
  ]

  -- `Put`
  unfoldable pub put : ℕ → V → RefMap V → RefMap V
  put key value t = record t {
    m = insert key value t.m;
    r = if is_some (lookup key t.r) then t.r else insert key 1 t.r;
  }

  -- `Remove`
  unfoldable pub remove : ℕ → RefMap V → RefMap V
  remove key t = elim (lookup key t.r) [
    | none ↦ t
    | some count ↦
        if ltb 1 count
        then record t { r = insert key (count - 1) t.r }
        else record t { m = delete key t.m; r = delete key t.r }
  ]

  -- Each key has a value exactly when it has a count, and the count is positive.
  pub record IsRefMap (t : RefMap V) : Type ℓ where
    pub values_once : Distinct (keys t.m)
    pub counts_once : Distinct (keys t.r)
    pub same_keys : (k : ℕ) → is_some (lookup k t.m) ≡ ltb 0 (uses_of (lookup k t.r))
    pub positive : (k : ℕ) → is_some (lookup k t.r) ≡ ltb 0 (uses_of (lookup k t.r))

  pub get_or_put-IsRefMap :
      (key : ℕ) (value : V) (t : RefMap V) → IsRefMap t → IsRefMap (get_or_put key value t).1
  unfolding get_or_put
  get_or_put-IsRefMap key value t v = record {
    values_once = ground (arith, v.values_once, insert-Distinct key value t.m v.values_once);
    counts_once = ground (
      arith,
      insert-Distinct key 1 t.r v.counts_once,
      insert-Distinct key (uses_of (lookup key t.r) + 1) t.r v.counts_once,
    );
    same_keys = λ k. ground (
      arith,
      v.same_keys k,
      v.same_keys key,
      lookup-insert key k value t.m,
      lookup-insert key k 1 t.r,
      lookup-insert key k (uses_of (lookup key t.r) + 1) t.r,
    );
    positive = λ k. ground (
      arith,
      v.positive k,
      v.positive key,
      lookup-insert key k 1 t.r,
      lookup-insert key k (uses_of (lookup key t.r) + 1) t.r,
    );
  }

  pub remove-IsRefMap : (key : ℕ) (t : RefMap V) → IsRefMap t → IsRefMap (remove key t)
  unfolding remove
  remove-IsRefMap key t v = record {
    values_once = ground (arith, v.values_once, delete-Distinct key t.m v.values_once);
    counts_once = ground (
      arith,
      v.counts_once,
      delete-Distinct key t.r v.counts_once,
      insert-Distinct key (uses_of (lookup key t.r) - 1) t.r v.counts_once,
    );
    same_keys = λ k. ground (
      arith,
      v.same_keys k,
      v.same_keys key,
      lookup-delete key k t.m v.values_once,
      lookup-delete key k t.r v.counts_once,
      lookup-insert key k (uses_of (lookup key t.r) - 1) t.r,
    );
    positive = λ k. ground (
      arith,
      v.positive k,
      v.positive key,
      lookup-delete key k t.r v.counts_once,
      lookup-insert key k (uses_of (lookup key t.r) - 1) t.r,
    );
  }

  -- What `GetOrPut` and `Remove` do to the users of each key and to the values.
  pub get_or_put_lem :
      (key k : ℕ) (value : V) (t : RefMap V)
      → IsRefMap t
      → (uses_of (lookup k (get_or_put key value t).1.r)
          ≡ uses_of (lookup k t.r) + (if key == k then 1 else 0))
        × (lookup k (get_or_put key value t).1.m
            ≡ (if key == k then some (get_or_put key value t).0.0 else lookup k t.m))
        × (lookup key t.m ≡ none → (get_or_put key value t).0.0 ≡ value)
        × ((v : V) → lookup key t.m ≡ some v → (get_or_put key value t).0.0 ≡ v)
  unfolding get_or_put
  get_or_put_lem key k value t v = (
    ground (
      arith,
      v.same_keys key,
      lookup-insert key k 1 t.r,
      lookup-insert key k (uses_of (lookup key t.r) + 1) t.r,
    ),
    ground (arith, lookup-insert key k value t.m),
    (λ h. ground (arith, h)),
    (λ u h. ground (arith, h)),
  )

module _ {V : Type 0} where
  pub remove_lem :
      (key k : ℕ) (t : RefMap V)
      → IsRefMap t
      → (uses_of (lookup k (remove key t).r) ≡ uses_of (lookup k t.r) - (if key == k then 1 else 0))
        × (lookup k (remove key t).m
            ≡ (if key == k && leb (uses_of (lookup k t.r)) 1 then none else lookup k t.m))
  unfolding remove
  remove_lem key k t v = (
    ground (
      arith,
      v.same_keys key,
      lookup-delete key k t.r v.counts_once,
      lookup-insert key k (uses_of (lookup key t.r) - 1) t.r,
    ),
    ground (
      arith,
      v.same_keys key,
      v.same_keys k,
      v.positive key,
      lookup-delete key k t.m v.values_once,
    ),
  )
