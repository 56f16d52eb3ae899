-- ===== src/Remote/History.antt =====
-- A remote over a history of events from etcd, of calls and of watchers.
use mathlib.Core.Option.{none-ne-some}
use mathlib.Core.Bool.{true≢false}
use go_atomos.Remote.{
  update_version, etcd_create_version, Info, Remote, Setting, etcd_update_version,
  etcd_delete_version, etcd_update_lock, etcd_delete_lock, get_current_client, add_death_watch,
  cancel_death_watch, new_remote,
}
use go_atomos.Common.Maps.{lookup}
use go_atomos.Remote.Connections.{SameWires-IsWired}
use go_atomos.Remote.Changes.{
  etcd_update_version-IsSound, etcd_delete_version-IsSound, get_current_client-IsSound,
}
use go_atomos.Remote.Events.{IsSound, refresh-IsSound, IsWired-lock}
use go_atomos.Common.{◌≡◌, ℕ, refl, sym, Bool, Option, none, some, List, [], ◌∷◌, ◌++◌, arith}

-- What can happen to a remote.
pub data Op : Type 0 where
  update_lock : (current : ℕ) → Op
  delete_lock : Op
  update_info : Info → (key : ℕ) → Op
  delete_info : (key : ℕ) → Op
  call : (reached : Bool) → Op
  watch : (callback : ℕ) → Op
  cancel : (idx : ℕ) → Op

abbrev pub apply : Setting → Op → Remote → Remote
apply s (update_lock current) c = etcd_update_lock s current c
apply s delete_lock c = etcd_delete_lock s c
apply s (update_info info key) c = etcd_update_version s info key c
apply s (delete_info key) c = etcd_delete_version s key c
apply s (call reached) c = (get_current_client reached c).1
apply s (watch callback) c = (add_death_watch callback c).1
apply s (cancel idx) c = cancel_death_watch idx c

abbrev pub run : Setting → List Op → Remote → Remote
run s [] c = c
run s (o ∷ ops) c = run s ops (apply s o c)

watchers-IsSound :
    (c : Remote) (ws : List (Option ℕ)) → IsSound c → IsSound (record c { watchers = ws })
watchers-IsSound c ws v = record {
  wired =
      SameWires-IsWired c (record c { watchers = ws })
        (record {
          client = λ p. refl;
          version = refl;
          next = refl;
          next_connection = refl;
          trace = λ n. refl;
        })
        v.wired;
  reached = v.reached;
}

pub apply-IsSound : (s : Setting) (o : Op) (c : Remote) → IsSound c → IsSound (apply s o c)
unfolding etcd_update_lock etcd_delete_lock add_death_watch cancel_death_watch
apply-IsSound s (update_lock n) c v =
    refresh-IsSound s (record c { lock = some n }) (IsWired-lock c (some n) v.wired)
apply-IsSound s delete_lock c v =
    refresh-IsSound s (record c { lock = none }) (IsWired-lock c none v.wired)
apply-IsSound s (update_info info key) c v = etcd_update_version-IsSound s info key c v
apply-IsSound s (delete_info key) c v = etcd_delete_version-IsSound s key c v
apply-IsSound s (call reached) c v = get_current_client-IsSound reached c v
apply-IsSound s (watch f) c v = watchers-IsSound c (c.watchers ++ some f ∷ []) v
apply-IsSound s (cancel idx) c v = watchers-IsSound c _ v

run_from : (s : Setting) (ops : List Op) (c : Remote) → IsSound c → IsSound (run s ops c)
run_from s [] c v = v
run_from s (o ∷ ops) c v = run_from s ops (apply s o c) (apply-IsSound s o c v)

pub new_remote-IsSound : IsSound new_remote
new_remote-IsSound = record {
  wired = record {
    held = λ p n h. absurd (none-ne-some n h);
    opened = λ p n h. absurd (none-ne-some n h);
    alive = λ p n h. refl;
    own = λ p q n h g. absurd (none-ne-some n h);
    kept = λ n l. absurd (ground arith);
    past = λ n e. absurd (true≢false (sym e));
    fresh = λ p e. absurd (true≢false (sym e));
  };
  reached = λ e. absurd (true≢false (sym e));
}

-- After any events from etcd, calls and changes of the watchers, made one after the other on a remote that
-- was new: every connection that was opened is closed, or it is open and the client of exactly one
-- version, which is still registered; and calls go to a registered version if they go anywhere.
pub run-IsSound : (s : Setting) (ops : List Op) → IsSound (run s ops new_remote)
run-IsSound s ops = run_from s ops new_remote new_remote-IsSound

-- The first event of a version makes of a new remote what any later one would.
pub etcd_create_version-new_remote :
    (s : Setting) (info : Info) (key : ℕ)
    → etcd_create_version s info key (record new_remote { remote_info = some info.id })
      ≡ etcd_update_version s info key new_remote
unfolding etcd_update_version update_version etcd_create_version lookup
etcd_create_version-new_remote s info key = refl
