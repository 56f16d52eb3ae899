-- ===== src/Process/Start.antt =====
-- How `Start` ends, and what it leaves behind.
use go_atomos.Common.{
  ◌≡◌, ◌≢◌, refl, sym, ap, subst, ◌∙◌, Bool, true, not, ◌&&◌, ◌||◌, Option, none, some, arith,
  if◌then◌else◌,
}
use go_atomos.ErrorCode.{err_cosmos_process_on_startup_panic, ErrorCode}
use go_atomos.Process.{
  kill_mail_pushed, emit, on_boot, prepare, startup, running, off, Reply, fine, fails, panics,
  Event, elements_spawned, on_start_up, Cluster, Process, World, Exit, returned, panicked, start,
  start_guard, start_body_if, start_body, finish_start, cluster_clean_up, prepare_cluster, next_or,
  as_is, ask, script, spawn_elements, set_current, full_clean_up, Act,
}

-- Everything that the start-up calls, except the scripts, which are protected, answers.
pub record NoPanic (w : World) : Type 0 where
  pub check : w.check ≢ panics
  pub interface_addrs : w.interface_addrs ≢ panics
  pub etcd_dial : w.etcd_dial ≢ panics
  pub version_lock : w.version_lock ≢ panics
  pub tls_config : w.tls_config ≢ panics
  pub watch_cluster : w.watch_cluster ≢ panics
  pub spawn_elements : w.spawn_elements ≢ panics
  pub set_current : w.set_current ≢ panics

-- Nothing of the cluster is held.
abbrev pub none_held : Cluster → Bool
none_held c =
    not c.etcd_client
    && (not c.etcd_info_ch && (not c.grpc_server && (not c.grpc_listener && not c.listener_open)))

abbrev pub all_held : Cluster → Bool
all_held c =
    c.enable
    && (c.etcd_client
        && (c.etcd_info_ch && (c.grpc_server && (c.grpc_listener && c.listener_open))))

-- Nothing of the cluster is held, but that the field of a listener that the server has closed may stay.
abbrev pub released : World → Cluster → Bool
released w c =
    not c.etcd_client
    && (not c.etcd_info_ch
        && (not c.grpc_server && ((w.serves || not c.grpc_listener) && not c.listener_open)))

-- The listener is open if and only if it is held.
abbrev linked : Cluster → Bool
linked c = if c.grpc_listener then c.listener_open else not c.listener_open

abbrev pub connected : Bool → Cluster → Bool
connected enabled c = if enabled then all_held c else none_held c

-- A step of the start-up: when it returns without an error, the cluster is as it should be.
abbrev StepsOn : Bool → Exit × Process → Type 0
StepsOn b (returned none, p) = connected b p.cluster ≡ true
StepsOn b (returned (some e), p) = linked p.cluster ≡ true
StepsOn b (panicked, p) = ⊥

-- The start-up as a whole.
abbrev Ended : World → Bool → Exit × Process → Type 0
Ended w b (returned none, p) = connected b p.cluster ≡ true
Ended w b (returned (some e), p) = released w p.cluster ≡ true
Ended w b (panicked, p) = ⊥

connected-linked : (b : Bool) (c : Cluster) → connected b c ≡ true → linked c ≡ true
connected-linked b c good = ground arith

none_held-released : (w : World) (c : Cluster) → none_held c ≡ true → released w c ≡ true
none_held-released w c empty = ground arith

next_or-Ended :
    (w : World) (b c : Bool) (clean_up : Process → Process) (next : Act) (out : Exit × Process)
    → StepsOn c out
    → ((p : Process) → linked p.cluster ≡ true → released w (clean_up p).cluster ≡ true)
    → ((p : Process) → connected c p.cluster ≡ true → Ended w b (next p))
    → Ended w b (next_or clean_up next out)
unfolding next_or
next_or-Ended w b c clean_up next (returned none, p) good cleaned go_on = go_on p good
next_or-Ended w b c clean_up next (returned (some e), p) good cleaned go_on = cleaned p good
next_or-Ended w b c clean_up next (panicked, p) good cleaned go_on = absurd good

ask-StepsOn :
    (b : Bool) (r : Reply) (p : Process)
    → r ≢ panics
    → connected b p.cluster ≡ true
    → StepsOn b (ask r p)
unfolding ask
ask-StepsOn b fine p calm good = good
ask-StepsOn b (fails e) p calm good = connected-linked b p.cluster good
ask-StepsOn b panics p calm good = calm refl

-- A step that leaves the cluster alone, and has nothing to clean up yet.
next_or-untouched :
    (w : World) (b : Bool) (p : Process) (next : Act) (out : Exit × Process)
    → out.1.cluster ≡ p.cluster
    → out.0 ≢ panicked
    → none_held p.cluster ≡ true
    → ((q : Process) → q.cluster ≡ p.cluster → Ended w b (next q))
    → Ended w b (next_or as_is next out)
unfolding next_or
next_or-untouched w b p next (returned none, q) same calm empty go_on = go_on q same
next_or-untouched w b p next (returned (some e), q) same calm empty go_on =
    none_held-released w q.cluster (ap none_held same ∙ empty)
next_or-untouched w b p next (panicked, q) same calm empty go_on = calm refl

script-StepsOn :
    (code : ErrorCode) (b : Bool) (e : Event) (r : Reply) (p : Process)
    → connected b p.cluster ≡ true
    → StepsOn b (script code e r p)
unfolding script
script-StepsOn code b e fine p good = good
script-StepsOn code b e (fails c) p good = connected-linked b p.cluster good
script-StepsOn code b e panics p good = connected-linked b p.cluster good

script-untouched :
    (code : ErrorCode) (e : Event) (r : Reply) (p : Process)
    → ((script code e r p).1.cluster ≡ p.cluster) × ((script code e r p).0 ≢ panicked)
unfolding script
script-untouched code e r p = (ground arith, ground arith)

ask-untouched :
    (r : Reply) (p : Process)
    → r ≢ panics
    → ((ask r p).1.cluster ≡ p.cluster) × ((ask r p).0 ≢ panicked)
unfolding ask
ask-untouched r p calm = (ground arith, ground (arith, calm))

returned-StepsOn :
    (b : Bool) (out : Exit × Process)
    → out.0 ≢ panicked
    → (out.0 ≡ returned none → connected b out.1.cluster ≡ true)
    → linked out.1.cluster ≡ true
    → StepsOn b out
returned-StepsOn b (returned none, p) calm good held = good refl
returned-StepsOn b (returned (some e), p) calm good held = held
returned-StepsOn b (panicked, p) calm good held = calm refl

prepare_cluster-calm : (w : World) (p : Process) → NoPanic w → (prepare_cluster w p).0 ≢ panicked
unfolding prepare_cluster
prepare_cluster-calm w p calm = ground (
  arith, calm.interface_addrs, calm.etcd_dial, calm.version_lock, calm.tls_config,
  calm.watch_cluster,
)

prepare_cluster-connected :
    (w : World) (p : Process)
    → none_held p.cluster ≡ true
    → (prepare_cluster w p).0 ≡ returned none
    → connected w.enable_cluster (prepare_cluster w p).1.cluster ≡ true
unfolding prepare_cluster
prepare_cluster-connected w p empty = ground arith

prepare_cluster-linked :
    (w : World) (p : Process)
    → none_held p.cluster ≡ true
    → linked (prepare_cluster w p).1.cluster ≡ true
unfolding prepare_cluster
prepare_cluster-linked w p empty = ground arith

clean_up-released :
    (w : World)
    → w.listener_closes ≡ true
    → (p : Process) → linked p.cluster ≡ true
    → released w (cluster_clean_up w p).cluster ≡ true
unfolding cluster_clean_up
clean_up-released w closes p held = ground arith

full_clean_up-released :
    (w : World)
    → w.listener_closes ≡ true
    → (p : Process) → linked p.cluster ≡ true
    → released w (full_clean_up w p).cluster ≡ true
unfolding full_clean_up
full_clean_up-released w closes p held = clean_up-released w closes (emit kill_mail_pushed p) held

start_body-Ended :
    (w : World) (p : Process)
    → NoPanic w
    → none_held p.cluster ≡ true
    → w.listener_closes ≡ true
    → Ended w w.enable_cluster (start_body w p)
unfolding start_body spawn_elements set_current
start_body-Ended w p calm empty closes =
    let b = w.enable_cluster in
    let c = err_cosmos_process_on_startup_panic in
    let check = ask-untouched w.check p calm.check in
    next_or-untouched w b p _ (ask w.check p) check.0 check.1 empty (λ p1 c1.
      let boot = script-untouched c on_boot w.on_boot p1 in
      next_or-untouched w b p1 _ (script c on_boot w.on_boot p1) boot.0 boot.1
        (ap none_held c1 ∙ empty)
        (λ p2 c2.
          next_or-Ended w b b (cluster_clean_up w) _ (prepare_cluster w p2)
            (returned-StepsOn b (prepare_cluster w p2) (prepare_cluster-calm w p2 calm)
              (prepare_cluster-connected w p2 (ap none_held (c2 ∙ c1) ∙ empty))
              (prepare_cluster-linked w p2 (ap none_held (c2 ∙ c1) ∙ empty)))
            (clean_up-released w closes)
            (λ p3 g3.
              next_or-Ended w b b (cluster_clean_up w) _
                (ask w.spawn_elements (emit elements_spawned p3))
                (ask-StepsOn b w.spawn_elements (emit elements_spawned p3) calm.spawn_elements g3)
                (clean_up-released w closes)
                (λ p4 g4.
                  next_or-Ended w b b (full_clean_up w) _
                    (ask w.set_current (emit Event.current_set p4))
                    (ask-StepsOn b w.set_current (emit Event.current_set p4) calm.set_current g4)
                    (full_clean_up-released w closes)
                    (λ p5 g5.
                      next_or-Ended w b b (full_clean_up w) _
                        (script c on_start_up w.on_start_up p5)
                        (script-StepsOn c b on_start_up w.on_start_up p5 g5)
                        (full_clean_up-released w closes) (λ p6 g6. g6))))))

-- What `Start` gives: without an error the process runs, with the resources of its cluster if it has
-- one; with an error it is off and holds nothing, but for the field of a listener that is closed.
abbrev pub Result : World → Option ErrorCode × Process → Type 0
Result w (none, p) = (p.state ≡ running) × (connected w.enable_cluster p.cluster ≡ true)
Result w (some e, p) = (p.state ≡ off) × (released w p.cluster ≡ true)

finished :
    (w : World) (out : Exit × Process)
    → Ended w w.enable_cluster out
    → Result w (finish_start w out)
unfolding finish_start
finished w (returned none, p) e = (refl, e)
finished w (returned (some c), p) e = (refl, e)
finished w (panicked, p) e = absurd e

start_guard-prepare :
    (p : Process) → p.state ≡ prepare → start_guard p ≡ (none, record p { state = startup })
unfolding start_guard
start_guard-prepare p e = ground (arith, e)

-- `Start` in state prepare, holding nothing of the cluster, where an open listener closes when it is told to
-- and only the scripts may panic. Without an error the process runs, and it holds every resource of the
-- cluster if the cluster is enabled and none if it is not. With an error it is off, its listener is closed
-- and it holds no other resource; but where the server has served the listener, and so closed it, the
-- field of the listener may not be reset.
pub start_lem :
    (w : World) (p : Process)
    → NoPanic w
    → p.state ≡ prepare
    → none_held p.cluster ≡ true
    → w.listener_closes ≡ true
    → Result w (start w p)
unfolding start start_body_if
start_lem w p calm first empty closes =
    subst (λ o. Result w (start_body_if w o)) (sym (start_guard-prepare p first))
      (finished w (start_body w (record p { state = startup }))
        (start_body-Ended w (record p { state = startup }) calm empty closes))
