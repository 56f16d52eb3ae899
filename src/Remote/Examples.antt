-- ===== src/Remote/Examples.antt =====
-- A node that registers a version, is called, drains, and is replaced.
use go_atomos.Remote.{
  Info, Remote, Setting, ClusterNodeState, started, draining, refresh, new_remote,
  etcd_update_version,
}
use go_atomos.Remote.Route.{Routed, refresh_lem}
use go_atomos.Remote.Events.{IsSound}
use go_atomos.Remote.History.{
  Op, update_lock, delete_lock, update_info, delete_info, call, watch, run, run-IsSound,
}
use go_atomos.Common.{true, false, some, List, [], ◌∷◌}

abbrev a_setting : Setting
a_setting = record { format_int = λ n. n; proto_equal = λ a b. false; implements = λ name. true }

abbrev an_info : ClusterNodeState → Info
an_info s = record { id = 1; address = 80; node_state = s; elements = (5, 6) ∷ []; startup_id = 7 }

abbrev history : List Op
history =
    update_lock 3
    ∷ update_info (an_info started) 3
    ∷ call true
    ∷ watch 9
    ∷ update_info (an_info draining) 3
    ∷ update_info (an_info started) 4
    ∷ call true
    ∷ delete_info 3
    ∷ call false
    ∷ delete_lock
    ∷ []

run-IsSound_example : IsSound (run a_setting history new_remote)
run-IsSound_example = run-IsSound a_setting history

abbrev two_versions : Remote
two_versions =
    etcd_update_version a_setting (an_info started) 4
      (etcd_update_version a_setting (an_info draining) 3 (record new_remote { lock = some 3 }))

refresh_lem_example : Routed a_setting.format_int two_versions (refresh a_setting two_versions)
refresh_lem_example = refresh_lem a_setting two_versions
