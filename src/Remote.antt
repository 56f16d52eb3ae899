-- ===== src/Remote.antt =====
-- cosmos_remote.go: another node of the cluster, as etcd describes it: the lock that names its current
-- version, the versions that are registered, and the connection to each. Names, addresses, ids and keys
-- are numbers; a version is a pointer into `heap`, as callers keep it across changes of the map. Go's
-- `range` visits a map in any order, the model in the table's. A dial is one step. The field `version`
-- of a version is never set by `newCosmosRemoteVersion`, and is not in the record.
pub mod Route
pub mod Connections
pub mod Steps
pub mod Events
pub mod Changes
pub mod History
pub mod Examples
use go_atomos.Common.Maps.{lookup, insert, delete}
use go_atomos.Common.{
  ℕ, zero, suc, ◌+◌, ◌-◌, ◌*◌, ◌/◌, ◌%◌, ◌≤◌, ◌<◌, ◌≡◌, ◌≢◌, ◌↔◌, ◌⊎◌, inl, inr, refl, sym, ap,
  subst, ◌∙◌, Bool, true, false, not, ◌&&◌, ◌||◌, Option, none, some, List, [], ◌∷◌, ◌++◌, map,
  arith, ltb, leb, ◌==◌, if◌then◌else◌, ==→eq, ==_refl, ==_ne, Bool-cases, Option-cases, is_some,
  length, length-append, last_or, last_or-append, find, erase_first, has, Distinct, has-append,
  Distinct-snoc, without, has-without_self, has-without_ne, has-erase_first, erase_first-Distinct,
}

pub data ClusterNodeState : Type 0 where
  invalid_node_state starting started draining stopping stopped : ClusterNodeState

-- `CosmosNodeVersionInfo`; `elements` has the elements of the node and their ids.
pub record Info : Type 0 where
  pub id : ℕ
  pub address : ℕ
  pub node_state : ClusterNodeState
  pub elements : List (ℕ × ℕ)
  pub startup_id : ℕ

-- `cosmosRemoteVersion`; the client is the number of its connection.
pub record Version : Type 0 where
  pub info : Info
  pub avail : Bool
  pub client : Option ℕ
  pub dialed : Bool

-- `ElementRemoteFromSource`, by the version that it was made for.
pub record ElementRemote : Type 0 where
  pub elem_id : ℕ
  pub of_version : ℕ

pub data Event : Type 0 where
  closed : (connection : ℕ) → Event
  died : (callback : ℕ) → Info → Event
  not_supported : (element : ℕ) → Event
  connect_failed : (address : ℕ) → Event

pub record Remote : Type 0 where
  pub remote_info : Option ℕ
  pub lock : Option ℕ
  pub enable : Bool
  pub current : Option ℕ
  pub version : List (ℕ × ℕ)
  pub elements : List (ℕ × ElementRemote)
  pub watchers : List (Option ℕ)
  pub heap : ℕ → Version
  pub next : ℕ
  pub next_connection : ℕ
  pub trace : List Event

abbrev pub emit : Event → Remote → Remote
emit e c = record c { trace = e ∷ c.trace }

abbrev pub put : (ℕ → Version) → ℕ → Version → ℕ → Version
put heap p v k = if k == p then v else heap k

abbrev set_version : ℕ → Version → Remote → Remote
set_version p v c = record c { heap = put c.heap p v }

-- `newCosmosRemoteVersion`, at the next free pointer.
abbrev pub new_version : Info → Version
new_version info = record { info = info; avail = false; client = none; dialed = false }

unfoldable pub add_version : ℕ → Info → Remote → Remote
add_version key info c = record c {
  heap = put c.heap c.next (new_version info);
  next = suc c.next;
  version = insert key c.next c.version;
}

close_client : Option ℕ → Remote → Remote
close_client none c = c
close_client (some n) c = emit (closed n) c

-- `cosmosRemoteVersion.setDisable`
unfoldable pub set_disable : ℕ → Remote → Remote
unfolding close_client
set_disable p c =
    set_version p (record (c.heap p) { client = none; avail = false; dialed = false })
      (close_client (c.heap p).client c)

-- `cosmosRemoteVersion.setInfo`
unfoldable pub set_info : ℕ → Info → Remote → Remote
set_info p info c = set_version p (record (c.heap p) { info = info }) c

-- The end of a dial that came up.
unfoldable pub connect : ℕ → Remote → Remote
connect p c =
    record (set_version p
      (record (c.heap p) { dialed = true; client = some c.next_connection; avail = true }) c) {
        next_connection = suc c.next_connection;
      }

-- The end of a dial that did not.
unfoldable pub give_up : ℕ → Remote → Remote
give_up p c =
    emit (connect_failed (c.heap p).info.address)
      (set_version p (record (c.heap p) { dialed = true }) c)

-- `cosmosRemoteVersion.check`: `reached` is whether the dial comes up in time.
unfoldable pub check : (reached : Bool) → ℕ → Remote → Remote
unfolding connect give_up
check reached p c = if (c.heap p).dialed then c else if reached then connect p c else give_up p c

abbrev pub is_draining : ClusterNodeState → Bool
is_draining draining = true
is_draining _ = false

abbrev pub is_started : ClusterNodeState → Bool
is_started started = true
is_started _ = false

-- The loop of `refresh` over the versions.
unfoldable pub first_started : (ℕ → Version) → List (ℕ × ℕ) → Option ℕ
first_started heap [] = none
first_started heap ((key, p) ∷ table) =
    if is_started (heap p).info.node_state then some p else first_started heap table

abbrev disabled : Remote → Remote
disabled c = record c { enable = false }

abbrev route_to : ℕ → Remote → Remote
route_to p c = record c { current = some p; enable = true }

-- Some started version, or else the current one whatever its state.
fall_back : Option ℕ → Option ℕ → Remote → Remote
fall_back (some p) has c = route_to p c
fall_back none (some p) c = route_to p c
fall_back none none c = disabled c

refresh_with : Option ℕ → Remote → Remote
unfolding fall_back
refresh_with none c = fall_back (first_started c.heap c.version) none c
refresh_with (some p) c =
    if is_draining (c.heap p).info.node_state
    then fall_back (first_started c.heap c.version) (some p) c
    else route_to p c

refresh_lock : (format_int : ℕ → ℕ) → Option ℕ → Remote → Remote
unfolding refresh_with
refresh_lock format_int none c = disabled c
refresh_lock format_int (some n) c =
    if n == 0 then disabled c else refresh_with (lookup (format_int n) c.version) c

-- What is fixed while the node runs: `strconv.FormatInt`, `proto.Equal`, and the elements implemented.
pub record Setting : Type 0 where
  pub format_int : ℕ → ℕ
  pub proto_equal : Info → Info → Bool
  pub implements : ℕ → Bool

module _ (s : Setting) where
  -- `refresh`
  unfoldable pub refresh : Remote → Remote
  unfolding refresh_lock
  refresh c = refresh_lock s.format_int c.lock c

  -- `etcdUpdateLock`, `etcdDeleteLock`
  unfoldable pub etcd_update_lock : (current : ℕ) → Remote → Remote
  unfolding refresh
  etcd_update_lock current c = refresh (record c { lock = some current })

  unfoldable pub etcd_delete_lock : Remote → Remote
  unfolding refresh
  etcd_delete_lock c = refresh (record c { lock = none })

  -- The loop over `info.Elements` for a version that is new, and its round.
  unfoldable pub add_element : ℕ → (name id : ℕ) → Remote → Remote
  add_element key name id c =
      if s.implements name
      then record c {
        elements = insert name (record { elem_id = id; of_version = key }) c.elements;
      }
      else emit (not_supported name) c

  unfoldable pub add_elements : ℕ → List (ℕ × ℕ) → Remote → Remote
  add_elements key [] c = c
  add_elements key ((name, id) ∷ infos) c = add_elements key infos (add_element key name id c)

  -- The loop over `info.Elements` for a version that is known; an element that is known stays, since
  -- the flag that `setDisable` of an element clears is never set.
  unfoldable pub update_element : ℕ → (name id : ℕ) → Remote → Remote
  unfolding add_element
  update_element key name id c =
      if s.implements name && is_some (lookup name c.elements) then c else add_element key name id c

  unfoldable pub update_elements : ℕ → List (ℕ × ℕ) → Remote → Remote
  update_elements key [] c = c
  update_elements key ((name, id) ∷ infos) c =
      update_elements key infos (update_element key name id c)

  -- `etcdCreateVersion`
  unfoldable pub etcd_create_version : Info → (key : ℕ) → Remote → Remote
  unfolding refresh add_elements add_version
  etcd_create_version info key c = refresh (
      add_elements key info.elements
        (add_version key info (record c { remote_info = some info.id })))

  unfoldable pub replace_version : Info → (key p : ℕ) → Remote → Remote
  unfolding set_disable add_version set_info
  replace_version info key p c =
      if not (info.address == (c.heap p).info.address)
        || not (info.startup_id == (c.heap p).info.startup_id)
      then add_version key info (set_disable p c)
      else set_info p info c

  update_version : Option ℕ → Info → (key : ℕ) → Remote → Remote
  unfolding replace_version update_elements refresh etcd_create_version
  update_version none info key c = etcd_create_version info key c
  update_version (some p) info key c =
      if s.proto_equal info (c.heap p).info
      then c
      else refresh (
          update_elements key info.elements
            (replace_version info key p (record c { remote_info = some info.id })))

  -- `etcdUpdateVersion`
  unfoldable pub etcd_update_version : Info → (key : ℕ) → Remote → Remote
  unfolding update_version
  etcd_update_version info key c = update_version (lookup key c.version) info key c

  -- `dispatchDeathWatch`; a panic of a callback counts as its call.
  dispatch_death_watch : Info → List (Option ℕ) → Remote → Remote
  dispatch_death_watch info [] c = c
  dispatch_death_watch info (none ∷ callbacks) c = dispatch_death_watch info callbacks c
  dispatch_death_watch info (some f ∷ callbacks) c =
      dispatch_death_watch info callbacks (emit (died f info) c)

  -- Both versions compared in `etcdDeleteVersion` have an empty name, so that `current` is always reset.
  delete_version : Option ℕ → (key : ℕ) → Remote → Remote
  unfolding set_disable refresh dispatch_death_watch
  delete_version none key c = refresh c
  delete_version (some p) key c =
      dispatch_death_watch (c.heap p).info c.watchers
        (refresh (set_disable p (record c { version = delete key c.version; current = none })))

  -- `etcdDeleteVersion`
  unfoldable pub etcd_delete_version : (key : ℕ) → Remote → Remote
  unfolding delete_version
  etcd_delete_version key c = delete_version (lookup key c.version) key c

-- `AddDeathWatch` and the function that it returns: its index, and the removal by it.
unfoldable pub add_death_watch : ℕ → Remote → ℕ × Remote
add_death_watch callback c =
    (length c.watchers, record c { watchers = c.watchers ++ some callback ∷ [] })

clear_at : ℕ → List (Option ℕ) → List (Option ℕ)
clear_at n [] = []
clear_at zero (w ∷ ws) = none ∷ ws
clear_at (suc n) (w ∷ ws) = w ∷ clear_at n ws

unfoldable pub cancel_death_watch : ℕ → Remote → Remote
unfolding clear_at
cancel_death_watch idx c = record c { watchers = clear_at idx c.watchers }

client_of : (reached : Bool) → Option ℕ → ℕ → Remote → Option ℕ × Remote
unfolding check
client_of reached (some n) p c = (some n, c)
client_of reached none p c = let d = check reached p c in ((d.heap p).client, d)

client_from : (reached : Bool) → Option ℕ → Remote → Option ℕ × Remote
unfolding client_of
client_from reached none c = (none, c)
client_from reached (some p) c = client_of reached (c.heap p).client p c

-- `getCurrentClient`
unfoldable pub get_current_client : (reached : Bool) → Remote → Option ℕ × Remote
unfolding client_from
get_current_client reached c = if c.enable then client_from reached c.current c else (none, c)

-- A remote of which etcd has told nothing: `newCosmosRemoteFromLockInfo`.
abbrev pub new_remote : Remote
new_remote = record {
  remote_info = none;
  lock = none;
  enable = false;
  current = none;
  version = [];
  elements = [];
  watchers = [];
  heap = λ p. new_version (record {
    id = 0;
    address = 0;
    node_state = invalid_node_state;
    elements = [];
    startup_id = 0;
  });
  next = 0;
  next_connection = 0;
  trace = [];
}
