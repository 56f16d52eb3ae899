-- ===== src/Process.antt =====
-- cosmos_process.go: the states of the process, its start and its stop, and its drain. What the user's
-- scripts, the elements, etcd, the network and grpc answer is `World`; a call that may panic answers by
-- `Reply`. Channels that the code closes are numbers. What is called, in order, is `trace`, last first.
pub mod Start
pub mod Stop
pub mod Sections
pub mod Guards
pub mod History
pub mod Drain
pub mod Examples
use go_atomos.Common.{
  ℕ, zero, suc, ◌+◌, ◌-◌, ◌*◌, ◌/◌, ◌%◌, ◌≤◌, ◌<◌, ◌≡◌, ◌≢◌, ◌↔◌, ◌⊎◌, inl, inr, refl, sym, ap,
  subst, ◌∙◌, Bool, true, false, not, ◌&&◌, ◌||◌, Option, none, some, List, [], ◌∷◌, ◌++◌, map,
  arith, ltb, leb, ◌==◌, if◌then◌else◌, ==→eq, ==_refl, ==_ne, Bool-cases, Option-cases, is_some,
  length, length-append, last_or, last_or-append, find, erase_first, has, Distinct, has-append,
  Distinct-snoc, without, has-without_self, has-without_ne, has-erase_first, erase_first-Distinct,
}
use go_atomos.ErrorCode.{
  ErrorCode, err_cosmos_process_has_been_started, err_cosmos_process_on_startup_panic,
  err_cosmos_process_on_shutdown_panic, err_cosmos_process_cannot_stop_prepare_state,
  err_cosmos_process_cannot_stop_startup_state, err_cosmos_process_cannot_stop_shutdown_state,
  err_cosmos_process_cannot_stop_off_state, err_cosmos_process_invalid_state,
  err_cosmos_remote_listen_failed, err_cosmos_etcd_connect_failed,
  err_cosmos_etcd_grpc_server_failed,
}

pub data ProcessState : Type 0 where
  prepare startup running shutdown off : ProcessState

pub data Reply : Type 0 where
  fine : Reply
  fails : ErrorCode → Reply
  panics : Reply

pub data Event : Type 0 where
  on_boot on_start_up on_shutdown : Event
  elements_spawned kill_mail_pushed : Event
  current_set current_unset node_info_deleted version_unlocked : Event
  logging_stopped : Event

-- `CosmosProcess.cluster`: which resources are held. `listener_open` is the state of the socket, which the
-- code does not keep.
pub record Cluster : Type 0 where
  pub enable : Bool
  pub etcd_client : Bool
  pub etcd_info_ch : Bool
  pub grpc_server : Bool
  pub grpc_listener : Bool
  pub listener_open : Bool

pub record Process : Type 0 where
  pub state : ProcessState
  pub draining : Bool
  pub drain_cancel : Option ℕ
  pub next_channel : ℕ
  pub closed_channels : List ℕ
  pub cluster : Cluster
  pub trace : List Event

-- `listens` is what `net.Listen` answers at each port of the list; `serves` whether the server serves the
-- listener by the time that it is stopped; `listener_closes` whether `Close` of an open listener answers no
-- error.
pub record World : Type 0 where
  pub check : Reply
  pub on_boot : Reply
  pub enable_cluster : Bool
  pub interface_addrs : Reply
  pub has_ip : Bool
  pub etcd_dial : Reply
  pub version_lock : Reply
  pub tls_config : Reply
  pub listens : List Bool
  pub watch_cluster : Reply
  pub spawn_elements : Reply
  pub set_current : Reply
  pub on_start_up : Reply
  pub unset_current : Reply
  pub on_shutdown : Reply
  pub serves : Bool
  pub listener_closes : Bool

pub data Exit : Type 0 where
  returned : Option ErrorCode → Exit
  panicked : Exit

abbrev pub Act : Type 0
Act = Process → Exit × Process

abbrev pub emit : Event → Process → Process
emit e p = record p { trace = e ∷ p.trace }

-- A call whose error is `code`, made of what it answers.
pub ask : Reply → Act
ask fine p = (returned none, p)
ask (fails e) p = (returned (some e), p)
ask panics p = (panicked, p)

-- `if err := step(); err != nil { clean up; return err }`, and what follows.
pub next_or : (Process → Process) → Act → Exit × Process → Exit × Process
next_or clean_up next (returned none, p) = next p
next_or clean_up next (returned (some e), p) = (returned (some e), clean_up p)
next_or clean_up next (panicked, p) = (panicked, p)

abbrev pub as_is : Process → Process
as_is p = p

-- `defer` with `recover`.
pub protect : ErrorCode → Exit × Process → Exit × Process
protect code (returned e, p) = (returned e, p)
protect code (panicked, p) = (returned (some code), p)

-- `mainScriptOnBootProtect` and `mainScriptOnStartUpProtect`, and `mainScriptOnShutdownProtect`, whose panic
-- has another code.
pub script : (on_panic : ErrorCode) → Event → Reply → Act
unfolding ask protect
script on_panic e answer p = protect on_panic (ask answer (emit e p))

-- The loop over the ports in `prepareClusterLocalNode`.
listening : List Bool → Bool
listening [] = false
listening (answer ∷ rest) = answer || listening rest

hold_grpc : Process → Process
hold_grpc p = record p {
  cluster = record p.cluster { grpc_server = true; grpc_listener = true; listener_open = true };
}

-- The test under the lock in `Start`.
unfoldable pub start_guard : Process → Option ErrorCode × Process
start_guard p = elim p.state [
  | prepare ↦ (none, record p { state = startup })
  | _ ↦ (some err_cosmos_process_has_been_started, p)
]

module _ (w : World) where
  watch : Act
  unfolding ask hold_grpc
  watch p = ask w.watch_cluster (hold_grpc p)

  listen : Act
  unfolding watch listening
  listen p =
      if listening w.listens
      then watch p
      else (returned (some err_cosmos_etcd_grpc_server_failed), p)

  lock_and_listen : Act
  unfolding ask next_or listen
  lock_and_listen p =
      next_or as_is (λ q. next_or as_is listen (ask w.tls_config q)) (ask w.version_lock p)

  hold_etcd : Process → Process
  hold_etcd p = record p { cluster = record p.cluster { etcd_client = true; etcd_info_ch = true } }

  -- `clientv3.New`, whose error has one code.
  dial : Act
  unfolding lock_and_listen hold_etcd
  dial p = elim w.etcd_dial [
    | fine ↦ lock_and_listen (hold_etcd p)
    | fails e ↦ (returned (some err_cosmos_etcd_connect_failed), p)
    | panics ↦ (panicked, p)
  ]

  -- `prepareClusterLocalNode`
  pub prepare_cluster_local_node : Act
  unfolding dial
  prepare_cluster_local_node p = elim w.interface_addrs [
    | fine ↦ if w.has_ip then dial p else (returned (some err_cosmos_remote_listen_failed), p)
    | fails e ↦ (returned (some err_cosmos_remote_listen_failed), p)
    | panics ↦ (panicked, p)
  ]

  enabled : Act
  enabled p = (returned none, record p { cluster = record p.cluster { enable = true } })

  -- `prepareCluster`
  pub prepare_cluster : Act
  unfolding prepare_cluster_local_node next_or enabled
  prepare_cluster p =
      if w.enable_cluster
      then next_or as_is enabled (prepare_cluster_local_node p)
      else (returned none, p)

  -- `grpcServer.Stop()`, which closes the listener of a server that serves.
  stop_server : Cluster → Cluster
  stop_server c =
      if c.grpc_server
      then record c { grpc_server = false; listener_open = c.listener_open && not w.serves }
      else c

  -- `grpcListener.Close()`, whose answer is an error if the listener is closed already. After an error
  -- the field stays.
  close_listener : Cluster → Cluster
  close_listener c =
      if c.grpc_listener
      then (if c.listener_open && w.listener_closes
          then record c { grpc_listener = false; listener_open = false }
          else c)
      else c

  close_grpc : Cluster → Cluster
  unfolding stop_server close_listener
  close_grpc c = close_listener (stop_server c)

  -- `handleStartUpFailedClusterCleanUp`
  pub cluster_clean_up : Process → Process
  unfolding close_grpc
  cluster_clean_up p = record p {
    cluster = close_grpc (record p.cluster { etcd_info_ch = false; etcd_client = false });
    trace =
        if p.cluster.etcd_client then node_info_deleted ∷ version_unlocked ∷ p.trace else p.trace;
  }

  -- `unloadClusterLocalNode`: the version lock stays.
  pub unload_cluster_local_node : Process → Process
  unfolding close_grpc
  unload_cluster_local_node p = record p {
    cluster = close_grpc (record p.cluster { etcd_info_ch = false; etcd_client = false });
    trace = if p.cluster.etcd_client then node_info_deleted ∷ p.trace else p.trace;
  }

  -- `handleStartUpFailedLocalCleanUp` and then the clean-up of the cluster.
  full_clean_up : Process → Process
  unfolding cluster_clean_up
  full_clean_up p = cluster_clean_up (emit kill_mail_pushed p)

  spawn_elements : Act
  spawn_elements p = ask w.spawn_elements (emit elements_spawned p)

  set_current : Act
  set_current p = ask w.set_current (emit current_set p)

  -- The start-up of `Start`, from the check of the runnable on.
  start_body : Act
  unfolding ask script
  start_body p =
      next_or as_is
        (λ p1.
          next_or as_is
            (λ p2.
              next_or cluster_clean_up
                (λ p3.
                  next_or cluster_clean_up
                    (λ p4.
                      next_or full_clean_up
                        (λ p5.
                          next_or full_clean_up (λ p6. (returned none, p6))
                            (script err_cosmos_process_on_startup_panic on_start_up w.on_start_up
                              p5))
                        (set_current p4))
                    (spawn_elements p3))
                (prepare_cluster p2))
            (script err_cosmos_process_on_startup_panic on_boot w.on_boot p1))
        (ask w.check p)

  -- The deferred section of `Start`.
  unfoldable pub finish_start : Exit × Process → Option ErrorCode × Process
  finish_start (returned none, p) = (none, record p { state = running })
  finish_start (returned (some e), p) = (some e, record p { state = off })
  finish_start (panicked, p) = (some err_cosmos_process_on_startup_panic, record p { state = off })

  start_body_if : Option ErrorCode × Process → Option ErrorCode × Process
  unfolding start_body finish_start
  start_body_if (none, p) = finish_start (start_body p)
  start_body_if (some e, p) = (some e, p)

  -- `Start`
  pub start : Process → Option ErrorCode × Process
  unfolding start_guard start_body_if
  start p = start_body_if (start_guard p)
