-- ===== src/Cluster/Examples.antt =====
-- A node that comes up, and one whose key is deleted.
use go_atomos.Common.{ℕ, ◌≡◌, true, false, none, some, List, [], ◌∷◌, ◌==◌, if◌then◌else◌}
use go_atomos.Common.Maps.{lookup}
use go_atomos.Remote.{Info, Setting, started}
use go_atomos.Cluster.{Wire, EventType, put_event, delete_event, watch_cluster}
use go_atomos.Cluster.Watch.{node_after, no_nodes, IsKnownSound, watch_cluster_lem}

abbrev setting : Setting
setting = record { format_int = λ n. n; proto_equal = λ a b. false; implements = λ n. true }

abbrev info : Info
info = record { id = 1; address = 5; node_state = started; elements = []; startup_id = 8 }

-- A key is its parts; the value 0 cannot be read.
abbrev wire : Wire (List ℕ) ℕ
wire = record {
  trim = λ k. some k;
  split = λ k. k;
  version_word = 7;
  no_word = 0;
  unmarshal_lock = λ v. if v == 0 then none else some v;
  unmarshal_info = λ v. if v == 0 then none else some info;
}

-- Node 3 registers version 1 and the lock names it; node 4 is deleted; a key has two parts.
abbrev events : List (List ℕ × (ℕ × EventType))
events =
    (3 ∷ 7 ∷ 1 ∷ [], (1, put_event))
    ∷ (3 ∷ 7 ∷ 0 ∷ [], (1, put_event))
    ∷ (4 ∷ 7 ∷ 1 ∷ [], (0, delete_event))
    ∷ (4 ∷ 7 ∷ [], (1, put_event))
    ∷ []

watch_cluster_lem_example :
    (lookup 3 (watch_cluster setting wire events no_nodes).remote_cosmos
      ≡ node_after wire setting 3 events none)
    × IsKnownSound (lookup 3 (watch_cluster setting wire events no_nodes).remote_cosmos)
watch_cluster_lem_example = watch_cluster_lem setting wire 3 events
