-- ===== src/Spawn/Locks.antt =====
-- The goroutines that spawn atoms of one element, an access to shared memory at a time.
use go_atomos.Common.{ℕ, ◌+◌, ◌<◌, ◌≡◌, Bool, true, false}
use go_atomos.Spawn.RefMap.{RefMap, get_or_put, remove}
use go_atomos.Spawn.Family.{set_at}

-- Where a goroutine stands in `elementAtomSpawn`, with the name and the mutex that it got.
pub data Pc : Type 0 where
  idle : Pc
  waiting spawning leaving : (name lock : ℕ) → Pc

-- `held` says which mutexes are locked; those from `next_lock` on have not been made.
pub record Locks : Type 0 where
  pub spawn_lock_map : RefMap ℕ
  pub held : ℕ → Bool
  pub next_lock : ℕ
  pub pc : ℕ → Pc

abbrev move : ℕ → Pc → Locks → Locks
move i p s = record s { pc = set_at i p s.pc }

-- `GetOrPut(name, &sync.Mutex{})`: the new mutex is free, and is dropped if there is one under the name.
unfoldable pub enter : (i name : ℕ) → Locks → Locks
enter i name s =
    let out = get_or_put name s.next_lock s.spawn_lock_map in
    move i (waiting name out.0.0) (record s {
      spawn_lock_map = out.1;
      held = set_at s.next_lock false s.held;
      next_lock = s.next_lock + 1;
    })

-- `lock.Lock()`, once the mutex is free.
unfoldable pub take : (i name lock : ℕ) → Locks → Locks
take i name lock s = move i (spawning name lock) (record s { held = set_at lock true s.held })

-- The deferred `Remove(name)`.
unfoldable pub give_back : (i name lock : ℕ) → Locks → Locks
give_back i name lock s =
    move i (leaving name lock) (record s { spawn_lock_map = remove name s.spawn_lock_map })

-- The deferred `lock.Unlock()`.
unfoldable pub release : (i lock : ℕ) → Locks → Locks
release i lock s = move i idle (record s { held = set_at lock false s.held })

-- One access by one of the first `n` goroutines.
pub data Step (n : ℕ) (s : Locks) : Locks → Type 0 where
  enters : (i name : ℕ) → i < n → s.pc i ≡ idle → Step n s (enter i name s)
  takes :
      (i name lock : ℕ)
      → i < n
      → s.pc i ≡ waiting name lock
      → s.held lock ≡ false
      → Step n s (take i name lock s)
  gives_back :
      (i name lock : ℕ) → i < n → s.pc i ≡ spawning name lock → Step n s (give_back i name lock s)
  releases : (i name lock : ℕ) → i < n → s.pc i ≡ leaving name lock → Step n s (release i lock s)

pub data Steps (n : ℕ) (s : Locks) : Locks → Type 0 where
  none_yet : Steps n s s
  then_step : {t u : Locks} → Steps n s t → Step n t u → Steps n s u
