-- ===== src/Cluster/Watch.antt =====
-- Each node that the process knows is what the events under its own keys have made of it.
use go_atomos.Common.{
  ℕ, ◌≡◌, inl, inr, refl, sym, ap, subst, ◌∙◌, Bool, true, false, Option, none, some, List, [], ◌∷◌,
  arith, ◌==◌, if◌then◌else◌, Bool-cases,
}
use go_atomos.Common.Maps.{lookup, lookup-insert}
use go_atomos.Remote.{
  Info, Remote, Setting, new_remote, etcd_update_lock, etcd_delete_lock, etcd_update_version,
  etcd_delete_version,
}
use go_atomos.Remote.Events.{IsSound}
use go_atomos.Remote.History.{
  etcd_create_version-new_remote, Op, update_lock, delete_lock, update_info, delete_info, call,
  watch, cancel, apply, apply-IsSound, new_remote-IsSound,
}
use go_atomos.Cluster.{
  Wire, Nodes, EventType, put_event, delete_event, other_event, lock_updated, update_lock_info,
  lock_deleted, delete_lock_info, info_updated, update_node_info, info_deleted, delete_node_info,
  handle_version, handle_parts, handle_key, handle_trimmed, watch_cluster,
}

-- What an operation makes of a node: an update of a node that is not known makes it known.
abbrev pub first_op : Setting → Op → Option Remote
first_op s (update_lock current) = some (apply s (update_lock current) new_remote)
first_op s (update_info info key) = some (apply s (update_info info key) new_remote)
first_op s _ = none

abbrev pub apply_to : Setting → Op → Option Remote → Option Remote
apply_to s o none = first_op s o
apply_to s o (some c) = some (apply s o c)

abbrev pub apply_at : Setting → ℕ → Option (ℕ × Op) → Option Remote → Option Remote
apply_at s node none c = c
apply_at s node (some (m, o)) c = if m == node then apply_to s o c else c

unfoldable pub lock_op : ℕ → Option ℕ → Option (ℕ × Op)
lock_op node none = none
lock_op node (some current) = some (node, update_lock current)

unfoldable pub info_op : (node key : ℕ) → Option Info → Option (ℕ × Op)
info_op node key none = none
info_op node key (some info) = some (node, update_info info key)

module _ {K V : Type 0} (w : Wire K V) where
  -- The operation that an event stands for, and its node.
  unfoldable pub version_op : (node version : ℕ) → V → Bool → Option (ℕ × Op)
  unfolding lock_op info_op
  version_op node version value true =
      if version == w.no_word
      then lock_op node (w.unmarshal_lock value)
      else info_op node version (w.unmarshal_info value)
  version_op node version value false =
      if version == w.no_word then some (node, delete_lock) else some (node, delete_info version)

  unfoldable pub parts_op : List ℕ → V → Bool → Option (ℕ × Op)
  unfolding version_op
  parts_op (node ∷ word ∷ version ∷ []) value updates =
      if word == w.version_word then version_op node version value updates else none
  parts_op _ value updates = none

  unfoldable pub event_op : Option K → V → EventType → Option (ℕ × Op)
  unfolding parts_op
  event_op none value type = none
  event_op (some key) value put_event = parts_op (w.split key) value true
  event_op (some key) value delete_event = parts_op (w.split key) value false
  event_op (some key) value other_event = none

  -- What a list of events makes of a node.
  unfoldable pub node_after :
      Setting → ℕ → List (K × (V × EventType)) → Option Remote → Option Remote
  unfolding event_op
  node_after s node [] c = c
  node_after s node ((key, (value, type)) ∷ events) c =
      node_after s node events (apply_at s node (event_op (w.trim key) value type) c)

module _ (s : Setting) (n : ℕ) where
  lock_updated-lookup :
      (o : Option Remote) (node current : ℕ) (p : Nodes)
      → lookup node p.remote_cosmos ≡ o
      → lookup n (lock_updated s o node current p).remote_cosmos
        ≡ apply_at s n (some (node, update_lock current)) (lookup n p.remote_cosmos)
  unfolding lock_updated
  lock_updated-lookup none node current p e =
      ground (arith, lookup-insert node n (etcd_update_lock s current new_remote) p.remote_cosmos)
  lock_updated-lookup (some c) node current p e =
      ground (arith, lookup-insert node n (etcd_update_lock s current c) p.remote_cosmos)

  lock_deleted-lookup :
      (o : Option Remote) (node : ℕ) (p : Nodes)
      → lookup node p.remote_cosmos ≡ o
      → lookup n (lock_deleted s o node p).remote_cosmos
        ≡ apply_at s n (some (node, delete_lock)) (lookup n p.remote_cosmos)
  unfolding lock_deleted
  lock_deleted-lookup none node p e = ground arith
  lock_deleted-lookup (some c) node p e =
      ground (arith, lookup-insert node n (etcd_delete_lock s c) p.remote_cosmos)

  info_updated-lookup :
      (o : Option Remote) (node key : ℕ) (info : Info) (p : Nodes)
      → lookup node p.remote_cosmos ≡ o
      → lookup n (info_updated s o node key info p).remote_cosmos
        ≡ apply_at s n (some (node, update_info info key)) (lookup n p.remote_cosmos)
  unfolding info_updated
  info_updated-lookup none node key info p e = rw (etcd_create_version-new_remote s info key) (
      ground
        (arith, lookup-insert node n (etcd_update_version s info key new_remote) p.remote_cosmos))
  info_updated-lookup (some c) node key info p e =
      ground (arith, lookup-insert node n (etcd_update_version s info key c) p.remote_cosmos)

  info_deleted-lookup :
      (o : Option Remote) (node key : ℕ) (p : Nodes)
      → lookup node p.remote_cosmos ≡ o
      → lookup n (info_deleted s o node key p).remote_cosmos
        ≡ apply_at s n (some (node, delete_info key)) (lookup n p.remote_cosmos)
  unfolding info_deleted
  info_deleted-lookup none node key p e = ground arith
  info_deleted-lookup (some c) node key p e =
      ground (arith, lookup-insert node n (etcd_delete_version s key c) p.remote_cosmos)

  update_lock_info-lookup :
      (node : ℕ) (o : Option ℕ) (p : Nodes)
      → lookup n (update_lock_info s node o p).remote_cosmos
        ≡ apply_at s n (lock_op node o) (lookup n p.remote_cosmos)
  unfolding update_lock_info lock_op
  update_lock_info-lookup node none p = refl
  update_lock_info-lookup node (some current) p =
      lock_updated-lookup (lookup node p.remote_cosmos) node current p refl

  update_node_info-lookup :
      (node key : ℕ) (o : Option Info) (p : Nodes)
      → lookup n (update_node_info s node key o p).remote_cosmos
        ≡ apply_at s n (info_op node key o) (lookup n p.remote_cosmos)
  unfolding update_node_info info_op
  update_node_info-lookup node key none p = refl
  update_node_info-lookup node key (some info) p =
      info_updated-lookup (lookup node p.remote_cosmos) node key info p refl

  module _ {K V : Type 0} (w : Wire K V) where
    version-lookup :
        (node version : ℕ) (value : V) (updates : Bool) (p : Nodes)
        → lookup n (handle_version s w node version value updates p).remote_cosmos
          ≡ apply_at s n (version_op w node version value updates) (lookup n p.remote_cosmos)
    unfolding handle_version version_op delete_lock_info delete_node_info
    version-lookup node version value true p = elim (Bool-cases (version == w.no_word)) [
      | inl e ↦ rw e (update_lock_info-lookup node (w.unmarshal_lock value) p)
      | inr e ↦ rw e (update_node_info-lookup node version (w.unmarshal_info value) p)
    ]
    version-lookup node version value false p = elim (Bool-cases (version == w.no_word)) [
      | inl e ↦ rw e (lock_deleted-lookup (lookup node p.remote_cosmos) node p refl)
      | inr e ↦ rw e (info_deleted-lookup (lookup node p.remote_cosmos) node version p refl)
    ]

    parts-lookup :
        (parts : List ℕ) (value : V) (updates : Bool) (p : Nodes)
        → lookup n (handle_parts s w parts value updates p).remote_cosmos
          ≡ apply_at s n (parts_op w parts value updates) (lookup n p.remote_cosmos)
    unfolding handle_parts parts_op
    parts-lookup [] value updates p = refl
    parts-lookup (a ∷ []) value updates p = refl
    parts-lookup (a ∷ b ∷ []) value updates p = refl
    parts-lookup (node ∷ word ∷ version ∷ []) value updates p =
        elim (Bool-cases (word == w.version_word)) [
          | inl e ↦ rw e (version-lookup node version value updates p)
          | inr e ↦ rw e refl
        ]
    parts-lookup (a ∷ b ∷ c ∷ d ∷ rest) value updates p = refl

    event-lookup :
        (key : Option K) (value : V) (type : EventType) (p : Nodes)
        → lookup n (handle_trimmed s w key value type p).remote_cosmos
          ≡ apply_at s n (event_op w key value type) (lookup n p.remote_cosmos)
    unfolding handle_trimmed handle_key event_op
    event-lookup none value type p = refl
    event-lookup (some key) value put_event p = parts-lookup (w.split key) value true p
    event-lookup (some key) value delete_event p = parts-lookup (w.split key) value false p
    event-lookup (some key) value other_event p = refl

    watch_cluster-node_after :
        (events : List (K × (V × EventType))) (p : Nodes)
        → lookup n (watch_cluster s w events p).remote_cosmos
          ≡ node_after w s n events (lookup n p.remote_cosmos)
    unfolding watch_cluster node_after
    watch_cluster-node_after [] p = refl
    watch_cluster-node_after ((key, (value, type)) ∷ events) p =
        watch_cluster-node_after events (handle_trimmed s w (w.trim key) value type p)
        ∙ ap (node_after w s n events) (event-lookup (w.trim key) value type p)

-- A node that is known has kept its connections, and its calls go to a registered version.
abbrev pub IsKnownSound : Option Remote → Type 0
IsKnownSound none = Unit {0}
IsKnownSound (some c) = IsSound c

first_op-IsKnownSound : (s : Setting) (o : Op) → IsKnownSound (first_op s o)
first_op-IsKnownSound s (update_lock current) =
    apply-IsSound s (update_lock current) new_remote new_remote-IsSound
first_op-IsKnownSound s (update_info info key) =
    apply-IsSound s (update_info info key) new_remote new_remote-IsSound
first_op-IsKnownSound s delete_lock = tt
first_op-IsKnownSound s (delete_info key) = tt
first_op-IsKnownSound s (call reached) = tt
first_op-IsKnownSound s (watch callback) = tt
first_op-IsKnownSound s (cancel idx) = tt

apply_to-IsKnownSound :
    (s : Setting) (o : Op) (c : Option Remote) → IsKnownSound c → IsKnownSound (apply_to s o c)
apply_to-IsKnownSound s o none v = first_op-IsKnownSound s o
apply_to-IsKnownSound s o (some c) v = apply-IsSound s o c v

apply_at-IsKnownSound :
    (s : Setting) (n : ℕ) (o : Option (ℕ × Op)) (c : Option Remote)
    → IsKnownSound c
    → IsKnownSound (apply_at s n o c)
apply_at-IsKnownSound s n none c v = v
apply_at-IsKnownSound s n (some (m, o)) c v = elim (Bool-cases (m == n)) [
  | inl e ↦ rw e (apply_to-IsKnownSound s o c v)
  | inr e ↦ rw e v
]

node_after-IsKnownSound :
    {K V : Type 0} (w : Wire K V) (s : Setting) (n : ℕ) (events : List (K × (V × EventType)))
    (c : Option Remote)
    → IsKnownSound c
    → IsKnownSound (node_after w s n events c)
unfolding node_after
node_after-IsKnownSound w s n [] c v = v
node_after-IsKnownSound w s n ((key, (value, type)) ∷ events) c v =
    node_after-IsKnownSound w s n events (apply_at s n (event_op w (w.trim key) value type) c)
      (apply_at-IsKnownSound s n (event_op w (w.trim key) value type) c v)

-- A process that knows no node.
abbrev pub no_nodes : Nodes
no_nodes = record { remote_cosmos = []; errors = [] }

-- From a process that knows no node, after the keys that were fetched and any events of the watch, in their
-- order, each node is known, or not, as the events under its own keys have made it: an update of its lock
-- or of a version of it makes it known, further ones and deletions are applied to it, and events under
-- other keys, with values that cannot be read, or of a deletion while it is not known leave it as it
-- was. A node that is known has lost no connection, and its calls go to a registered version if
-- they go anywhere.
pub watch_cluster_lem :
    {K V : Type 0} (s : Setting) (w : Wire K V) (n : ℕ) (events : List (K × (V × EventType)))
    → (lookup n (watch_cluster s w events no_nodes).remote_cosmos ≡ node_after w s n events none)
      × IsKnownSound (lookup n (watch_cluster s w events no_nodes).remote_cosmos)
unfolding lookup
watch_cluster_lem s w n events =
    let e = watch_cluster-node_after s n w events no_nodes in
    (e, subst IsKnownSound (sym e) (node_after-IsKnownSound w s n events none tt))
