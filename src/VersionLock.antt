-- ===== src/VersionLock.antt =====
-- cosmos_etcd_version_lock.go: the lock of a node in etcd, which names the versions of the node that may
-- run and the current one. Each function reads the key and then commits a transaction that is bound to
-- the version of the key that was read; the two parts are kept apart, since other processes come in
-- between. The etcd server and json are the record `Server`: its key, its transactions, its encoding.
pub mod Laws
pub mod Changes
pub mod Transactions
pub mod History
pub mod Examples
use go_atomos.ErrorCode.{
  ErrorCode, err_cosmos_etcd_get_failed, err_cosmos_etcd_cluster_version_lock_failed,
}
use go_atomos.Common.{
  ℕ, zero, suc, ◌+◌, ◌-◌, ◌*◌, ◌/◌, ◌%◌, ◌≤◌, ◌<◌, ◌≡◌, ◌≢◌, ◌↔◌, ◌⊎◌, inl, inr, refl, sym, ap,
  subst, ◌∙◌, Bool, true, false, not, ◌&&◌, ◌||◌, Option, none, some, List, [], ◌∷◌, ◌++◌, map,
  arith, ltb, leb, ◌==◌, if◌then◌else◌, ==→eq, ==_refl, ==_ne, Bool-cases, Option-cases, is_some,
  length, length-append, last_or, last_or-append, find, erase_first, has, Distinct, has-append,
  Distinct-snoc, without, has-without_self, has-without_ne, has-erase_first, erase_first-Distinct,
}

-- `CosmosNodeVersionLock`
pub record Lock : Type 0 where
  pub current : ℕ
  pub versions : List ℕ

-- The key of the lock at the server: its value and version if it is there, and a transaction that puts a
-- value if the key is not there, or if it has the given version. With it, json.
pub record Server (S B : Type 0) : Type 0 where
  pub get : S → Option (B × ℕ)
  pub put_if_absent : B → S → Bool × S
  pub put_if_version : ℕ → B → S → Bool × S
  pub marshal : Lock → B
  pub unmarshal : B → Option Lock

-- The functions of the file; `start_up_failed` and `stopping` have the same code.
pub data Op : Type 0 where
  try_locking started start_up_failed stopping : (version : ℕ) → Op

-- A transaction: its condition, and the value that it puts.
pub data Txn (B : Type 0) : Type 0 where
  if_absent : B → Txn B
  if_version : ℕ → B → Txn B

-- What a function does after it has read the key.
pub data Plan (B : Type 0) : Type 0 where
  refuse : ErrorCode → Plan B
  leave : Plan B
  commit : Txn B → Plan B

-- How the network serves a call: a transaction that fails may have been applied all the same.
pub data Network : Type 0 where
  network_up get_fails : Network
  commit_fails : (applied : Bool) → Network

abbrev pub max_nodes : ℕ
max_nodes = 2

abbrev pub lock_failed : ErrorCode
lock_failed = err_cosmos_etcd_cluster_version_lock_failed

-- The removal of a version, and of the current one if it is the same.
unfoldable pub remove_version : ℕ → Lock → Lock
remove_version v l = record {
  current = if l.current == v then 0 else l.current;
  versions = without v l.versions;
}

unfoldable pub add_version : ℕ → Lock → Lock
add_version v l = record l { versions = l.versions ++ v ∷ [] }

module _ {S B : Type 0} (srv : Server S B) where
  -- `etcdStartUpTryLockingVersionNodeLock` on a key that is there.
  unfoldable pub plan_locking : ℕ → ℕ → Option Lock → Plan B
  plan_locking v ver none = refuse lock_failed
  plan_locking v ver (some l) =
      if leb max_nodes (length l.versions)
      then refuse lock_failed
      else commit (if_version ver (srv.marshal (add_version v l)))

  -- `etcdStartUpFailedNodeVersionUnlock`
  unfoldable pub plan_unlocking : ℕ → ℕ → Option Lock → Plan B
  plan_unlocking v ver none = refuse lock_failed
  plan_unlocking v ver (some l) = commit (if_version ver (srv.marshal (remove_version v l)))

  -- `etcdStoppingNodeVersionUnlock`, which has the same code.
  abbrev pub plan_stopping : ℕ → ℕ → Option Lock → Plan B
  plan_stopping v ver l = plan_unlocking v ver l

  -- `etcdStartedVersionNodeLock`
  unfoldable pub plan_started : ℕ → ℕ → Option Lock → Plan B
  plan_started v ver none = refuse lock_failed
  plan_started v ver (some l) =
      if has v l.versions
      then commit (if_version ver (srv.marshal (record l { current = v })))
      else leave

  unfoldable pub plan_present : Op → (ver : ℕ) → Option Lock → Plan B
  unfolding plan_locking plan_started plan_unlocking
  plan_present (try_locking v) ver l = plan_locking v ver l
  plan_present (started v) ver l = plan_started v ver l
  plan_present (start_up_failed v) ver l = plan_unlocking v ver l
  plan_present (stopping v) ver l = plan_stopping v ver l

  -- The key is not there: only a start-up creates it.
  unfoldable pub plan_absent : Op → Plan B
  plan_absent (try_locking v) =
      commit (if_absent (srv.marshal (record { current = 0; versions = v ∷ [] })))
  plan_absent _ = refuse lock_failed

  -- The part of a function up to its transaction.
  unfoldable pub plan : Op → Option (B × ℕ) → Plan B
  unfolding plan_present plan_absent
  plan op none = plan_absent op
  plan op (some (b, ver)) = plan_present op ver (srv.unmarshal b)

  unfoldable pub put : Txn B → S → Bool × S
  put (if_absent b) s = srv.put_if_absent b s
  put (if_version ver b) s = srv.put_if_version ver b s

  answer : Bool × S → Option ErrorCode × S
  answer (true, s) = (none, s)
  answer (false, s) = (some lock_failed, s)

  follow : Network → Plan B → S → Option ErrorCode × S
  unfolding put answer
  follow net (refuse e) s = (some e, s)
  follow net leave s = (none, s)
  follow (commit_fails applied) (commit t) s =
      (some lock_failed, if applied then (put t s).1 else s)
  follow net (commit t) s = answer (put t s)

  -- A whole function, while nobody comes in between.
  pub call : Network → Op → S → Option ErrorCode × S
  unfolding plan follow
  call get_fails op s = (some err_cosmos_etcd_get_failed, s)
  call net op s = follow net (plan op (srv.get s)) s
