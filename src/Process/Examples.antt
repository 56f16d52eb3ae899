-- ===== src/Process/Examples.antt =====
-- The theorems on the process at concrete states.
use go_atomos.Common.{◌≡◌, refl, Bool, true, false, none, some, [], ◌∷◌, arith, if◌then◌else◌}
use go_atomos.ErrorCode.{ErrorCode}
use go_atomos.Process.{
  ProcessState, prepare, running, shutdown, off, fine, panics, Cluster, Process, World, start,
}
use go_atomos.Process.Start.{NoPanic, Result, start_lem}
use go_atomos.Process.Stop.{IsReleased, stop, stop_lem}
use go_atomos.Process.Drain.{
  cancelled, deadline_reached, exits, drain_watcher, drain_watcher_lem, ticks,
}
use go_atomos.Process.Sections.{System}

abbrev cluster : Bool → Cluster
cluster held = record {
  enable = held;
  etcd_client = held;
  etcd_info_ch = held;
  grpc_server = held;
  grpc_listener = held;
  listener_open = held;
}

abbrev process : ProcessState → Bool → Process
process state held = record {
  state = state;
  draining = false;
  drain_cancel = none;
  next_channel = 0;
  closed_channels = [];
  cluster = cluster held;
  trace = [];
}

-- A cluster in which the second port is free; the start-up script fails if `failing`.
abbrev world : Bool → World
world failing = record {
  check = fine;
  on_boot = fine;
  enable_cluster = true;
  interface_addrs = fine;
  has_ip = true;
  etcd_dial = fine;
  version_lock = fine;
  tls_config = fine;
  listens = false ∷ true ∷ [];
  watch_cluster = fine;
  spawn_elements = fine;
  set_current = fine;
  on_start_up = if failing then panics else fine;
  unset_current = fine;
  on_shutdown = fine;
  serves = true;
  listener_closes = true;
}

world-NoPanic : NoPanic (world true)
world-NoPanic = record {
  check = ground arith;
  interface_addrs = ground arith;
  etcd_dial = ground arith;
  version_lock = ground arith;
  tls_config = ground arith;
  watch_cluster = ground arith;
  spawn_elements = ground arith;
  set_current = ground arith;
}

start_lem_example : Result (world true) (start (world true) (process prepare false))
start_lem_example = start_lem (world true) (process prepare false) world-NoPanic refl refl refl

stop_lem_example :
    ((stop (world false) (process running true)).1.state ≡ off)
    × ((stop (world false) (process running true)).1.drain_cancel ≡ none)
    × ((stop (world false) (process running true)).0 ≡ none
        → IsReleased (world false) (stop (world false) (process running true)).1.cluster)
    × ((e : ErrorCode)
        → (stop (world false) (process running true)).0 ≡ some e
        → (stop (world false) (process running true)).1.cluster ≡ cluster true)
stop_lem_example = stop_lem (world false) (process running true) refl refl refl

drain_watcher_lem_example :
    (drain_watcher (ticks ((1 ∷ 2 ∷ []) ∷ (0 ∷ 0 ∷ []) ∷ []) (deadline_reached ∷ [])) ≡ exits false)
    × (drain_watcher (ticks ((1 ∷ 2 ∷ []) ∷ (0 ∷ 0 ∷ []) ∷ []) (cancelled ∷ [])) ≡ exits false)
drain_watcher_lem_example = drain_watcher_lem ((1 ∷ 2 ∷ []) ∷ (0 ∷ 0 ∷ []) ∷ []) []

abbrev fresh : System
fresh = record {
  process = process prepare false;
  starting = 0;
  stopping = 0;
  killing = 0;
  starts = 0;
  stops = 0;
  kills = 0;
  watchers = [];
}

abbrev last : System
last = record {
  process = record (process shutdown false) {
    draining = true;
    next_channel = 1;
    closed_channels = 0 ∷ [];
  };
  starting = 0;
  stopping = 1;
  killing = 0;
  starts = 1;
  stops = 1;
  kills = 0;
  watchers = 0 ∷ [];
}
