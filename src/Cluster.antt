-- ===== src/Cluster.antt =====
-- cosmos_etcd.go: what the process makes of the keys of the cluster in etcd, which it fetches once and then
-- watches: the other nodes that it knows (module Remote). Words are numbers. The keys and values of etcd,
-- strings.Split, bytes.HasPrefix, strings.TrimPrefix and json are the record `Wire`.
pub mod Watch
pub mod Examples
use go_atomos.Common.{
  ℕ, zero, suc, ◌+◌, ◌-◌, ◌*◌, ◌/◌, ◌%◌, ◌≤◌, ◌<◌, ◌≡◌, ◌≢◌, ◌↔◌, ◌⊎◌, inl, inr, refl, sym, ap,
  subst, ◌∙◌, Bool, true, false, not, ◌&&◌, ◌||◌, Option, none, some, List, [], ◌∷◌, ◌++◌, map,
  arith, ltb, leb, ◌==◌, if◌then◌else◌, ==→eq, ==_refl, ==_ne, Bool-cases, Option-cases, is_some,
  length, length-append, last_or, last_or-append, find, erase_first, has, Distinct, has-append,
  Distinct-snoc, without, has-without_self, has-without_ne, has-erase_first, erase_first-Distinct,
}
use go_atomos.Common.Maps.{lookup, insert}
use go_atomos.ErrorCode.{ErrorCode, err_cosmos_etcd_invalid_key, err_cosmos_etcd_update_failed}
use go_atomos.Remote.{
  Info, Remote, Setting, new_remote, etcd_update_lock, etcd_delete_lock, etcd_create_version,
  etcd_update_version, etcd_delete_version,
}

-- `trim` has the rest of a key with the prefix of the cluster, and `split` its parts at each slash;
-- `version_word` is "version", and `no_word` the empty string.
pub record Wire (K V : Type 0) : Type 0 where
  pub trim : K → Option K
  pub split : K → List ℕ
  pub version_word : ℕ
  pub no_word : ℕ
  pub unmarshal_lock : V → Option ℕ
  pub unmarshal_info : V → Option Info

-- `p.cluster.remoteCosmos`, and the calls of `etcdErrorHandler`.
pub record Nodes : Type 0 where
  pub remote_cosmos : List (ℕ × Remote)
  pub errors : List ErrorCode

pub data EventType : Type 0 where
  put_event delete_event other_event : EventType

abbrev pub report : ErrorCode → Nodes → Nodes
report e p = record p { errors = p.errors ++ e ∷ [] }

abbrev set_remote : ℕ → Remote → Nodes → Nodes
set_remote node c p = record p { remote_cosmos = insert node c p.remote_cosmos }

module _ (s : Setting) where
  -- `etcdUpdateClusterVersionLockInfo`
  unfoldable pub lock_updated : Option Remote → (node current : ℕ) → Nodes → Nodes
  lock_updated none node current p = set_remote node (etcd_update_lock s current new_remote) p
  lock_updated (some c) node current p = set_remote node (etcd_update_lock s current c) p

  unfoldable pub update_lock_info : (node : ℕ) → Option ℕ → Nodes → Nodes
  unfolding lock_updated
  update_lock_info node none p = report err_cosmos_etcd_update_failed p
  update_lock_info node (some current) p = lock_updated (lookup node p.remote_cosmos) node current p

  -- `etcdDeleteClusterVersionLockInfo`
  unfoldable pub lock_deleted : Option Remote → (node : ℕ) → Nodes → Nodes
  lock_deleted none node p = report err_cosmos_etcd_update_failed p
  lock_deleted (some c) node p = set_remote node (etcd_delete_lock s c) p

  unfoldable pub delete_lock_info : (node : ℕ) → Nodes → Nodes
  unfolding lock_deleted
  delete_lock_info node p = lock_deleted (lookup node p.remote_cosmos) node p

  -- `etcdUpdateClusterVersionNodeInfo`, with `newCosmosRemoteFromNodeInfo` for a node that is new.
  unfoldable pub info_updated : Option Remote → (node key : ℕ) → Info → Nodes → Nodes
  info_updated none node key info p =
      set_remote node
        (etcd_create_version s info key (record new_remote { remote_info = some info.id })) p
  info_updated (some c) node key info p = set_remote node (etcd_update_version s info key c) p

  unfoldable pub update_node_info : (node key : ℕ) → Option Info → Nodes → Nodes
  unfolding info_updated
  update_node_info node key none p = report err_cosmos_etcd_update_failed p
  update_node_info node key (some info) p =
      info_updated (lookup node p.remote_cosmos) node key info p

  -- `etcdDeleteClusterVersionNodeInfo`
  unfoldable pub info_deleted : Option Remote → (node key : ℕ) → Nodes → Nodes
  info_deleted none node key p = p
  info_deleted (some c) node key p = set_remote node (etcd_delete_version s key c) p

  unfoldable pub delete_node_info : (node key : ℕ) → Nodes → Nodes
  unfolding info_deleted
  delete_node_info node key p = info_deleted (lookup node p.remote_cosmos) node key p

  module _ {K V : Type 0} (w : Wire K V) where
    unfoldable pub handle_version : (node version : ℕ) → V → (updates : Bool) → Nodes → Nodes
    unfolding update_lock_info delete_lock_info update_node_info delete_node_info
    handle_version node version value true p =
        if version == w.no_word
        then update_lock_info node (w.unmarshal_lock value) p
        else update_node_info node version (w.unmarshal_info value) p
    handle_version node version value false p =
        if version == w.no_word then delete_lock_info node p else delete_node_info node version p

    unfoldable pub handle_parts : List ℕ → V → (updates : Bool) → Nodes → Nodes
    unfolding handle_version
    handle_parts (node ∷ word ∷ version ∷ []) value updates p =
        if word == w.version_word
        then handle_version node version value updates p
        else report err_cosmos_etcd_invalid_key p
    handle_parts _ value updates p = report err_cosmos_etcd_invalid_key p

    -- `handleKey`
    unfoldable pub handle_key : K → V → (updates : Bool) → Nodes → Nodes
    unfolding handle_parts
    handle_key key value updates p = handle_parts (w.split key) value updates p

    unfoldable pub handle_trimmed : Option K → V → EventType → Nodes → Nodes
    unfolding handle_key
    handle_trimmed none value type p = report err_cosmos_etcd_invalid_key p
    handle_trimmed (some key) value put_event p = handle_key key value true p
    handle_trimmed (some key) value delete_event p = handle_key key value false p
    handle_trimmed (some key) value other_event p = p

    -- The loops of `watchCluster`: the keys that are fetched count as put.
    unfoldable pub watch_cluster : List (K × (V × EventType)) → Nodes → Nodes
    unfolding handle_trimmed
    watch_cluster [] p = p
    watch_cluster ((key, (value, type)) ∷ events) p =
        watch_cluster events (handle_trimmed (w.trim key) value type p)
