-- ===== src/Remote/Events.antt =====
-- What the events from etcd leave of the connections.
use go_atomos.Common.Maps.{lookup}
use go_atomos.Remote.{
  update_element, add_element, Info, Remote, Setting, add_version, set_disable, set_info, refresh,
  add_elements, update_elements, replace_version, etcd_create_version,
}
use go_atomos.Remote.Route.{refresh_lem, IsReached}
use go_atomos.Remote.Connections.{
  IsWired, SameWires, SameWires-IsWired, kept-insert, kept-append, set_disable-IsWired,
  set_disable-client, set_disable-same,
}
use go_atomos.Remote.Steps.{add_version-IsWired, set_info-IsWired}
use go_atomos.Common.{
  ℕ, ◌≡◌, inl, inr, refl, sym, ap, subst, ◌∙◌, true, not, ◌||◌, Option, none, some, List, [], ◌∷◌,
  arith, ◌==◌, if◌then◌else◌, Bool-cases,
}

-- The connections are accounted for, and calls go to a registered version if they go anywhere.
pub record IsSound (c : Remote) : Type 0 where
  pub wired : IsWired c
  pub reached : c.enable ≡ true → IsReached c

refresh-SameWires : (s : Setting) (c : Remote) → SameWires c (refresh s c)
unfolding refresh
refresh-SameWires s c = record {
  client = λ p. ground arith;
  version = ground arith;
  next = ground arith;
  next_connection = ground arith;
  trace = λ n. ground arith;
}

wires_trans : (c d e : Remote) → SameWires c d → SameWires d e → SameWires c e
wires_trans c d e s t = record {
  client = λ p. t.client p ∙ s.client p;
  version = t.version ∙ s.version;
  next = t.next ∙ s.next;
  next_connection = t.next_connection ∙ s.next_connection;
  trace = λ n. t.trace n ∙ s.trace n;
}

wires_refl : (c : Remote) → SameWires c c
wires_refl c = record {
  client = λ p. refl;
  version = refl;
  next = refl;
  next_connection = refl;
  trace = λ n. refl;
}

add_element-SameWires :
    (s : Setting) (key name id : ℕ) (c : Remote) → SameWires c (add_element s key name id c)
unfolding add_element
add_element-SameWires s key name id c = record {
  client = λ p. ground arith;
  version = ground arith;
  next = ground arith;
  next_connection = ground arith;
  trace = λ n. ground arith;
}

update_element-SameWires :
    (s : Setting) (key name id : ℕ) (c : Remote) → SameWires c (update_element s key name id c)
unfolding update_element
update_element-SameWires s key name id c = record {
  client = λ p. ground arith;
  version = ground arith;
  next = ground arith;
  next_connection = ground arith;
  trace = λ n. ground arith;
}

add_elements-SameWires :
    (s : Setting) (key : ℕ) (infos : List (ℕ × ℕ)) (c : Remote)
    → SameWires c (add_elements s key infos c)
unfolding add_elements
add_elements-SameWires s key [] c = wires_refl c
add_elements-SameWires s key ((name, id) ∷ infos) c =
    let d = add_element s key name id c in
    wires_trans c d (add_elements s key infos d) (add_element-SameWires s key name id c)
      (add_elements-SameWires s key infos d)

pub update_elements-SameWires :
    (s : Setting) (key : ℕ) (infos : List (ℕ × ℕ)) (c : Remote)
    → SameWires c (update_elements s key infos c)
unfolding update_elements
update_elements-SameWires s key [] c = wires_refl c
update_elements-SameWires s key ((name, id) ∷ infos) c =
    let d = update_element s key name id c in
    wires_trans c d (update_elements s key infos d) (update_element-SameWires s key name id c)
      (update_elements-SameWires s key infos d)

-- After a refresh of a state whose connections are accounted for.
pub refresh-IsSound : (s : Setting) (c : Remote) → IsWired c → IsSound (refresh s c)
refresh-IsSound s c v = record {
  wired = SameWires-IsWired c (refresh s c) (refresh-SameWires s c) v;
  reached = (refresh_lem s c).reached;
}

-- A change of what the wires do not depend on.
pub IsWired-lock : (c : Remote) (l : Option ℕ) → IsWired c → IsWired (record c { lock = l })
IsWired-lock c l v =
    SameWires-IsWired c (record c { lock = l })
      (record {
        client = λ p. refl;
        version = refl;
        next = refl;
        next_connection = refl;
        trace = λ n. refl;
      })
      v

pub IsWired-info : (c : Remote) (i : Option ℕ) → IsWired c → IsWired (record c { remote_info = i })
IsWired-info c i v =
    SameWires-IsWired c (record c { remote_info = i })
      (record {
        client = λ p. refl;
        version = refl;
        next = refl;
        next_connection = refl;
        trace = λ n. refl;
      })
      v

pub etcd_create_version-IsSound :
    (s : Setting) (info : Info) (key : ℕ) (c : Remote)
    → IsWired c
    → lookup key c.version ≡ none
    → IsSound (etcd_create_version s info key c)
unfolding etcd_create_version
etcd_create_version-IsSound s info key c v absent =
    let b = record c { remote_info = some info.id } in
    let d = add_version key info b in
    refresh-IsSound s (add_elements s key info.elements d) (
      SameWires-IsWired d (add_elements s key info.elements d)
        (add_elements-SameWires s key info.elements d)
        (add_version-IsWired key info b (IsWired-info c (some info.id) v)
          (λ q n h. kept-append key q c.next c.version (v.held q n h) absent)))

pub replace_version-IsWired :
    (s : Setting) (info : Info) (key p : ℕ) (c : Remote)
    → IsWired c
    → lookup key c.version ≡ some p
    → IsWired (replace_version s info key p c)
unfolding replace_version
replace_version-IsWired s info key p c v here =
    let b =
      not (info.address == (c.heap p).info.address)
      || not (info.startup_id == (c.heap p).info.startup_id) in
    let d = set_disable p c in
    let w = set_disable-IsWired p c v in
    elim (Bool-cases b) [
      | inl e ↦
          subst (λ x. IsWired (if x then add_version key info d else set_info p info c)) (sym e)
            (add_version-IsWired key info d w (λ q n h.
              kept-insert key p q d.next d.version (w.held q n h)
                (ap (lookup key) (set_disable-same p c).0 ∙ here) (set_disable-client p q n c h).1))
      | inr e ↦
          subst (λ x. IsWired (if x then add_version key info d else set_info p info c)) (sym e)
            (set_info-IsWired p info c v)
    ]
