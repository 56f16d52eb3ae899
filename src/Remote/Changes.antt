-- ===== src/Remote/Changes.antt =====
-- What updates and deletions of versions, and calls, leave of the connections.
use mathlib.Core.Option.{some-injective}
use go_atomos.Common.Maps.{lookup, delete}
use go_atomos.Remote.{
  etcd_update_version, etcd_delete_version, Info, Remote, Setting, emit, died, set_disable, check,
  connect, give_up, refresh, update_elements, replace_version, update_version, delete_version,
  dispatch_death_watch, client_of, client_from, etcd_update_version, etcd_delete_version,
  get_current_client,
}
use go_atomos.Remote.Route.{pointers}
use go_atomos.Remote.Connections.{
  IsWired, SameWires, SameWires-IsWired, kept-delete, set_disable-IsWired, set_disable-client,
  set_disable-same,
}
use go_atomos.Remote.Steps.{delete-IsWired, connect-IsWired, give_up-IsWired}
use go_atomos.Remote.Events.{
  IsSound, refresh-IsSound, IsWired-info, etcd_create_version-IsSound, replace_version-IsWired,
  update_elements-SameWires,
}
use go_atomos.Common.{
  ℕ, ◌≡◌, inl, inr, refl, sym, ap, subst, ◌∙◌, Bool, true, Option, none, some, List, [], ◌∷◌, arith,
  if◌then◌else◌, Bool-cases, has,
}

update_known-IsSound :
    (s : Setting) (info : Info) (key p : ℕ) (c : Remote)
    → IsWired c
    → lookup key c.version ≡ some p
    → IsSound (
        refresh s (
          update_elements s key info.elements
            (replace_version s info key p (record c { remote_info = some info.id }))))
update_known-IsSound s info key p c v here =
    let b = record c { remote_info = some info.id } in
    let d = replace_version s info key p b in
    refresh-IsSound s (update_elements s key info.elements d) (
      SameWires-IsWired d (update_elements s key info.elements d)
        (update_elements-SameWires s key info.elements d)
        (replace_version-IsWired s info key p b (IsWired-info c (some info.id) v) here))

update_version-IsSound :
    (s : Setting) (g : Option ℕ) (info : Info) (key : ℕ) (c : Remote)
    → IsSound c
    → lookup key c.version ≡ g
    → IsSound (update_version s g info key c)
unfolding update_version
update_version-IsSound s none info key c v here =
    etcd_create_version-IsSound s info key c v.wired here
update_version-IsSound s (some p) info key c v here =
    elim (Bool-cases (s.proto_equal info (c.heap p).info)) [
      | inl e ↦
          subst
            (λ x. IsSound (
              if x
              then c
              else refresh s (
                  update_elements s key info.elements
                    (replace_version s info key p (record c { remote_info = some info.id })))))
            (sym e) v
      | inr e ↦
          subst
            (λ x. IsSound (
              if x
              then c
              else refresh s (
                  update_elements s key info.elements
                    (replace_version s info key p (record c { remote_info = some info.id })))))
            (sym e) (update_known-IsSound s info key p c v.wired here)
    ]

-- The same state, but for what is written to the trace.
died-IsSound : (f : ℕ) (info : Info) (c : Remote) → IsSound c → IsSound (emit (died f info) c)
died-IsSound f info c v = record {
  wired =
      SameWires-IsWired c (emit (died f info) c)
        (record {
          client = λ p. refl;
          version = refl;
          next = refl;
          next_connection = refl;
          trace = λ n. refl;
        })
        v.wired;
  reached = v.reached;
}

dispatch-IsSound :
    (s : Setting) (info : Info) (callbacks : List (Option ℕ)) (c : Remote)
    → IsSound c
    → IsSound (dispatch_death_watch s info callbacks c)
unfolding dispatch_death_watch
dispatch-IsSound s info [] c v = v
dispatch-IsSound s info (none ∷ fs) c v = dispatch-IsSound s info fs c v
dispatch-IsSound s info (some f ∷ fs) c v =
    dispatch-IsSound s info fs (emit (died f info) c) (died-IsSound f info c v)

-- The version is closed before or after it leaves the map.
drop-SameWires :
    (key p : ℕ) (c : Remote)
    → SameWires
        (record (set_disable p c) {
          version = delete key (set_disable p c).version;
          current = none;
        })
        (set_disable p (record c { version = delete key c.version; current = none }))
unfolding set_disable
drop-SameWires key p c = record {
  client = λ q. ground arith;
  version =
      (set_disable-same p (record c { version = delete key c.version; current = none })).0
      ∙ sym (ap (delete key) (set_disable-same p c).0);
  next = ground arith;
  next_connection = ground arith;
  trace = λ n. ground arith;
}

delete_version-IsSound :
    (s : Setting) (g : Option ℕ) (key : ℕ) (c : Remote)
    → IsSound c
    → lookup key c.version ≡ g
    → IsSound (delete_version s g key c)
unfolding delete_version
delete_version-IsSound s none key c v here = refresh-IsSound s c v.wired
delete_version-IsSound s (some p) key c v here =
    let d = set_disable p c in
    let w = set_disable-IsWired p c v.wired in
    let e = record d { version = delete key d.version; current = none } in
    let f = set_disable p (record c { version = delete key c.version; current = none }) in
    dispatch-IsSound s (c.heap p).info c.watchers (refresh s f) (
      refresh-IsSound s f (
        SameWires-IsWired e f (drop-SameWires key p c) (
          delete-IsWired key d w (λ q n h.
            kept-delete key p q d.version (w.held q n h)
              (ap (lookup key) (set_disable-same p c).0 ∙ here) (set_disable-client p q n c h).1))))

-- A dial changes neither the route nor the map.
check-same :
    (reached : Bool) (p : ℕ) (c : Remote)
    → ((check reached p c).enable ≡ c.enable)
      × ((check reached p c).current ≡ c.current)
      × ((check reached p c).version ≡ c.version)
unfolding check
check-same reached p c = ground arith

check-IsWired :
    (reached : Bool) (p : ℕ) (c : Remote)
    → IsWired c
    → (c.heap p).client ≡ none
    → has p (pointers c.version) ≡ true
    → IsWired (check reached p c)
unfolding check
check-IsWired reached p c v idle here = elim (Bool-cases (c.heap p).dialed) [
  | inl e ↦
      subst (λ x. IsWired (if x then c else if reached then connect p c else give_up p c)) (sym e) v
  | inr e ↦
      subst (λ x. IsWired (if x then c else if reached then connect p c else give_up p c)) (sym e)
        (elim (Bool-cases reached) [
          | inl r ↦
              subst (λ x. IsWired (if x then connect p c else give_up p c)) (sym r)
                (connect-IsWired p c v idle here)
          | inr r ↦
              subst (λ x. IsWired (if x then connect p c else give_up p c)) (sym r)
                (give_up-IsWired p c v)
        ])
]

client_of-IsSound :
    (reached : Bool) (g : Option ℕ) (p : ℕ) (c : Remote)
    → IsSound c
    → (c.heap p).client ≡ g
    → has p (pointers c.version) ≡ true
    → IsSound (client_of reached g p c).1
unfolding client_of
client_of-IsSound reached (some n) p c v h here = v
client_of-IsSound reached none p c v h here =
    let same = check-same reached p c in
    record {
      wired = check-IsWired reached p c v.wired h here;
      reached = λ on.
          let r = v.reached (sym same.0 ∙ on) in
          (r.0, same.1 ∙ r.1, ap (λ t. has r.0 (pointers t)) same.2 ∙ r.2);
    }

client_from-IsSound :
    (reached : Bool) (g : Option ℕ) (c : Remote)
    → IsSound c
    → c.enable ≡ true
    → c.current ≡ g
    → IsSound (client_from reached g c).1
unfolding client_from
client_from-IsSound reached none c v on h = v
client_from-IsSound reached (some p) c v on h =
    let r = v.reached on in
    client_of-IsSound reached (c.heap p).client p c v refl
      (ap (λ x. has x (pointers c.version)) (some-injective p r.0 (sym h ∙ r.1)) ∙ r.2)

pub get_current_client-IsSound :
    (reached : Bool) (c : Remote) → IsSound c → IsSound (get_current_client reached c).1
unfolding get_current_client
get_current_client-IsSound reached c v = elim (Bool-cases c.enable) [
  | inl e ↦
      subst (λ x. IsSound (if x then client_from reached c.current c else (none, c)).1) (sym e)
        (client_from-IsSound reached c.current c v e refl)
  | inr e ↦
      subst (λ x. IsSound (if x then client_from reached c.current c else (none, c)).1) (sym e) v
]

pub etcd_update_version-IsSound :
    (s : Setting) (info : Info) (key : ℕ) (c : Remote)
    → IsSound c
    → IsSound (etcd_update_version s info key c)
unfolding etcd_update_version
etcd_update_version-IsSound s info key c v =
    update_version-IsSound s (lookup key c.version) info key c v refl

pub etcd_delete_version-IsSound :
    (s : Setting) (key : ℕ) (c : Remote) → IsSound c → IsSound (etcd_delete_version s key c)
unfolding etcd_delete_version
etcd_delete_version-IsSound s key c v = delete_version-IsSound s (lookup key c.version) key c v refl
