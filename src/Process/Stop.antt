-- ===== src/Process/Stop.antt =====
-- How the process stops: `Stop`, and `TryKilling` of atomos_remote_service.go, which another node calls.
use go_atomos.Common.{ℕ, ◌≡◌, true, false, Option, none, some, ◌∷◌, arith}
use go_atomos.ErrorCode.{
  ErrorCode, err_cosmos_process_on_shutdown_panic, err_cosmos_process_cannot_stop_prepare_state,
  err_cosmos_process_cannot_stop_startup_state, err_cosmos_process_cannot_stop_shutdown_state,
  err_cosmos_process_cannot_stop_off_state,
}
use go_atomos.Process.{
  prepare, startup, running, shutdown, off, Reply, panics, on_shutdown, kill_mail_pushed,
  current_unset, logging_stopped, Cluster, Process, World, Exit, returned, panicked, Act, emit,
  next_or, as_is, protect, script, unload_cluster_local_node,
}

-- `close(p.drainCancel)` and its reset.
unfoldable pub cancel_drain : Option ℕ → Process → Process
cancel_drain none p = p
cancel_drain (some c) p = record p { drain_cancel = none; closed_channels = c ∷ p.closed_channels }

-- The `switch` under the lock, the same in `Stop` and `stopFromOtherNode`.
unfoldable pub stop_guard : Process → Option ErrorCode × Process
unfolding cancel_drain
stop_guard p = elim p.state [
  | prepare ↦ (some err_cosmos_process_cannot_stop_prepare_state, p)
  | startup ↦ (some err_cosmos_process_cannot_stop_startup_state, p)
  | running ↦ (none, cancel_drain p.drain_cancel (record p { state = shutdown }))
  | shutdown ↦ (some err_cosmos_process_cannot_stop_shutdown_state, p)
  | off ↦ (some err_cosmos_process_cannot_stop_off_state, p)
]

-- The deferred kill mail and the recover.
leave : Exit × Process → Exit × Process
unfolding protect
leave (e, p) = protect err_cosmos_process_on_shutdown_panic (e, emit kill_mail_pushed p)

-- `tryUnsettingCurrentAndUpdateNodeInfo`, whose error is only logged.
unset_current : Reply → Act
unset_current panics p = (panicked, emit current_unset p)
unset_current _ p = (returned none, emit current_unset p)

module _ (w : World) where
  unload : Act
  unload p = (returned none, unload_cluster_local_node w p)

  -- The shut-down of `Stop`.
  shut_down : Act
  unfolding leave next_or unset_current script unload
  shut_down p = leave (
      next_or as_is
        (λ q.
          next_or as_is unload
            (script err_cosmos_process_on_shutdown_panic on_shutdown w.on_shutdown q))
        (unset_current w.unset_current p))

  result_of : Exit → Option ErrorCode
  result_of (returned e) = e
  result_of panicked = some err_cosmos_process_on_shutdown_panic

  -- The last section of `Stop`.
  unfoldable pub turn_off : Exit × Process → Option ErrorCode × Process
  unfolding result_of
  turn_off (e, p) = (result_of e, emit logging_stopped (record p { state = off }))

  unless_refused :
      (Process → Option ErrorCode × Process)
      → Option ErrorCode × Process
      → Option ErrorCode × Process
  unless_refused go_on (none, p) = go_on p
  unless_refused go_on (some e, p) = (some e, p)

  stop_running : Process → Option ErrorCode × Process
  unfolding shut_down turn_off
  stop_running p = turn_off (shut_down p)

  -- `Stop`
  pub stop : Process → Option ErrorCode × Process
  unfolding unless_refused stop_running stop_guard
  stop p = unless_refused stop_running (stop_guard p)

  -- The shut-down of `stopFromOtherNode`, which leaves the cluster to the call after the response.
  shut_down_remotely : Process → Option ErrorCode × Process
  unfolding leave next_or unset_current script result_of
  shut_down_remotely p =
      let out = leave (
        next_or as_is (script err_cosmos_process_on_shutdown_panic on_shutdown w.on_shutdown)
          (unset_current w.unset_current p)) in
      (result_of out.0, out.1)

  pub stop_from_other_node : Process → Option ErrorCode × Process
  unfolding unless_refused shut_down_remotely stop_guard
  stop_from_other_node p = unless_refused shut_down_remotely (stop_guard p)

  unfoldable pub stop_from_other_node_after_response : Process → Process
  stop_from_other_node_after_response p =
      emit logging_stopped (record (unload_cluster_local_node w p) { state = off })

  -- `TryKilling`: the second call is made whatever the first one answers.
  pub try_killing : Process → Option ErrorCode × Process
  unfolding stop_from_other_node stop_from_other_node_after_response
  try_killing p =
      let out = stop_from_other_node p in (out.0, stop_from_other_node_after_response out.1)

-- No resource of the cluster is held; the field of a listener that the server has closed may stay.
pub record IsReleased (w : World) (c : Cluster) : Type 0 where
  pub etcd_client : c.etcd_client ≡ false
  pub etcd_info_ch : c.etcd_info_ch ≡ false
  pub grpc_server : c.grpc_server ≡ false
  pub listener_open : c.listener_open ≡ false
  pub grpc_listener : w.serves ≡ false → c.grpc_listener ≡ false

unload-IsReleased :
    (w : World) (p : Process)
    → w.listener_closes ≡ true
    → p.cluster.grpc_listener ≡ p.cluster.listener_open
    → IsReleased w (unload_cluster_local_node w p).cluster
unfolding unload_cluster_local_node
unload-IsReleased w p closes same = record {
  etcd_client = ground arith;
  etcd_info_ch = ground arith;
  grpc_server = ground arith;
  listener_open = ground arith;
  grpc_listener = λ idle. ground arith;
}

-- `Stop` on a running process whose listener, if it has one, is open, where an open listener closes when it
-- is told to: afterwards the process is off and has no drain to cancel. Without an error its listener is
-- closed, whether the server has closed it or not, and it holds no other resource of the cluster; where the
-- server has not served the listener, the field of the listener is reset too. With an error it holds what it
-- held before.
pub stop_lem :
    (w : World) (p : Process)
    → p.state ≡ running
    → w.listener_closes ≡ true
    → p.cluster.grpc_listener ≡ p.cluster.listener_open
    → ((stop w p).1.state ≡ off)
      × ((stop w p).1.drain_cancel ≡ none)
      × ((stop w p).0 ≡ none → IsReleased w (stop w p).1.cluster)
      × ((e : ErrorCode) → (stop w p).0 ≡ some e → (stop w p).1.cluster ≡ p.cluster)
unfolding stop unload_cluster_local_node
stop_lem w p r closes same = (
  ground arith,
  ground arith,
  (λ ok. record {
    etcd_client = ground arith;
    etcd_info_ch = ground arith;
    grpc_server = ground arith;
    listener_open = ground arith;
    grpc_listener = λ idle. ground arith;
  }),
  (λ e failed. ground arith),
)
