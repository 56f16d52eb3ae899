-- ===== src/Push/History.antt =====
-- Whole histories of synchronous calls of one atom: the wait graph and the mails in any state that the
-- system can reach.
use go_atomos.Common.{
  ℕ, suc, ◌≡◌, inl, inr, refl, subst, Bool, true, false, Option, none, some, List, [], ◌∷◌, ◌++◌,
  arith, if◌then◌else◌, Bool-cases, Option-cases, is_some, has, without,
}
use go_atomos.Common.Maps.{lookup, keys}
use go_atomos.WaitGraph.{Graph, Verdict}
use go_atomos.WaitGraph.History.{nil-IsGraph}
use go_atomos.Atom.{mail_sync}
use go_atomos.CallArgs.{Helper, create_base_atomos_helper, has_errors}
use go_atomos.Push.{
  sync_result, push_sync_message, sync_checked, sync_begun, sync_push, end_sync_message, push_mail,
  remove_edge, wait_reply,
}
use go_atomos.Push.Calls.{
  fresh, System, Act, call, take, reply, wake, time_out, stop, called, taken, ended, woken, told,
  timed_out, step, run,
}
use mathlib.Core.Bool.{false≢true}
use go_atomos.WaitGraph.Detect.{IsGraph}
use go_atomos.Push.Edges.{
  AreEdges, has_edge, add-AreEdges, plain-AreEdges, undo-AreEdges, end-AreEdges, Checked, self,
  cycle, unseen, seen, begin_sync_call-Checked,
}
use go_atomos.Push.Steps.{
  AreApart, skip-AreApart, head-AreApart, tail-AreApart, reject-AreApart, take-AreApart,
  stop-AreApart,
}

record Inv (σ : System) : Type 0 where
  edges : AreEdges σ.calls σ.target.graph
  mails : AreApart σ.target.box σ.target.next σ.handled σ.rejected

pushed_box-AreApart :
    (running to_head : Bool) {box : List ℕ} {n : ℕ} {h r : List ℕ}
    → AreApart box n h r
    → AreApart (if running then (if to_head then n ∷ box else box ++ n ∷ []) else box) (suc n) h r
pushed_box-AreApart true true a = head-AreApart a
pushed_box-AreApart true false a = tail-AreApart a
pushed_box-AreApart false to_head a = skip-AreApart a

module _ (caller : ℕ) (σ : System) (v : Inv σ) (free : lookup caller σ.calls ≡ none) where
  begun-Inv :
      (to_head running : Bool)
      → σ.target.running ≡ running
      → {r : Option (Verdict × Graph)} → Checked σ.target.graph caller r
      → Inv (called caller (sync_begun caller to_head r σ.target) σ)
  unfolding called sync_begun sync_push push_mail remove_edge
  begun-Inv to_head running on self = v
  begun-Inv to_head running on cycle = v
  begun-Inv to_head true on unseen = rw on (record {
    edges = plain-AreEdges v.edges caller σ.target.next free;
    mails = pushed_box-AreApart true to_head v.mails;
  })
  begun-Inv to_head false on unseen =
      rw on (record { edges = v.edges; mails = skip-AreApart v.mails })
  begun-Inv to_head true on (seen target w) = rw on (record {
    edges = add-AreEdges v.edges caller σ.target.next target w;
    mails = pushed_box-AreApart true to_head v.mails;
  })
  begun-Inv to_head false on (seen target w) =
      rw on (record {
        edges = undo-AreEdges v.edges caller target free w;
        mails = skip-AreApart v.mails;
      })

  checked-Inv :
      (h : Helper) (errors : Bool)
      → has_errors h ≡ errors
      → Inv (called caller (sync_checked true caller h σ.target) σ)
  unfolding sync_checked called
  checked-Inv h true e = rw e v
  checked-Inv h false e = rw e (
      begun-Inv h.to_head σ.target.running refl
        (begin_sync_call-Checked σ.target.graph caller σ.target.go_id v.edges.graph))

-- A wait ends with a reply or a timeout.
module _ (caller : ℕ) (σ : System) (v : Inv σ) where
  ended-Inv :
      (ref : ℕ) (edge : Bool)
      → lookup caller σ.calls ≡ some (ref, edge)
      → (box rejected : List ℕ) → AreApart box σ.target.next σ.handled rejected
      → Inv (
          ended caller
            (remove_edge edge caller (record σ.target { box = box }))
            (record σ { rejected = rejected }))
  unfolding ended remove_edge
  ended-Inv ref true e box rejected a = record {
    edges = end-AreEdges v.edges caller ref true e;
    mails = a;
  }
  ended-Inv ref false e box rejected a = record {
    edges = end-AreEdges v.edges caller ref false e;
    mails = a;
  }

  woken-Inv :
      (found : Option (ℕ × Bool)) → lookup caller σ.calls ≡ found → Inv (woken caller found σ)
  unfolding woken end_sync_message wait_reply
  woken-Inv none e = v
  woken-Inv (some (ref, edge)) e = elim (Option-cases (σ.replies ref)) [
    | inl z ↦ rw (woken, z) v
    | inr (r, z) ↦ rw (woken, z) (ended-Inv ref edge e σ.target.box σ.rejected v.mails)
  ]

  timed_out-Inv :
      (found : Option (ℕ × Bool)) → lookup caller σ.calls ≡ found → Inv (timed_out caller found σ)
  unfolding timed_out told end_sync_message wait_reply sync_result
  timed_out-Inv none e = v
  timed_out-Inv (some (ref, edge)) e = elim (Bool-cases (has ref σ.target.box)) [
    | inl z ↦ rw z (
        ended-Inv ref edge e (without ref σ.target.box) (ref ∷ σ.rejected)
          (reject-AreApart v.mails ref z))
    | inr z ↦ rw z (ended-Inv ref edge e σ.target.box σ.rejected v.mails)
  ]

taken-Inv : (box : List ℕ) (σ : System) → σ.target.box ≡ box → Inv σ → Inv (taken box σ)
unfolding taken
taken-Inv [] σ e v = v
taken-Inv (m ∷ ms) σ e v = record {
  edges = v.edges;
  mails = take-AreApart (subst (λ b. AreApart b σ.target.next σ.handled σ.rejected) e v.mails);
}

step-Inv : (a : Act) (σ : System) → Inv σ → Inv (step a σ)
unfolding step push_sync_message
step-Inv (call caller ext) σ v = elim (Option-cases (lookup caller σ.calls)) [
  | inl e ↦ rw e (
      checked-Inv caller σ v e (create_base_atomos_helper mail_sync ext)
        (has_errors (create_base_atomos_helper mail_sync ext)) refl)
  | inr (x, e) ↦ rw e v
]
step-Inv take σ v = taken-Inv σ.target.box σ refl v
step-Inv (reply ref r) σ v = elim (Bool-cases (has ref σ.handled)) [
  | inl e ↦ rw e (record { edges = v.edges; mails = v.mails })
  | inr e ↦ rw e v
]
step-Inv (wake caller) σ v = woken-Inv caller σ v (lookup caller σ.calls) refl
step-Inv (time_out caller) σ v = timed_out-Inv caller σ v (lookup caller σ.calls) refl
step-Inv stop σ v = record { edges = v.edges; mails = stop-AreApart σ.target.box v.mails }

run-Inv : (acts : List Act) (σ : System) → Inv σ → Inv (run acts σ)
unfolding run
run-Inv [] σ v = v
run-Inv (a ∷ acts) σ v = run-Inv acts (step a σ) (step-Inv a σ v)

fresh-Inv : (go_id : ℕ) → Inv (fresh go_id)
unfolding keys lookup
fresh-Inv go_id = record {
  edges = record { graph = nil-IsGraph; distinct = tt; same = λ k. refl };
  mails = record {
    distinct = tt;
    waiting_old = λ m i. absurd (false≢true i);
    handled_old = λ m i. absurd (false≢true i);
    rejected_old = λ m i. absurd (false≢true i);
    waiting_handled = λ m i. refl;
    waiting_rejected = λ m i. refl;
    handled_rejected = λ m i. refl;
  };
}

handled_gone :
    {box : List ℕ} {n : ℕ} {h r : List ℕ}
    → AreApart box n h r
    → (m : ℕ) → has m h ≡ true
    → has m box ≡ false
handled_gone {box = box} a m i = elim (Bool-cases (has m box)) [
  | inl b ↦ absurd (ground (arith, a.waiting_handled m b))
  | inr b ↦ b
]

-- Goroutines call an atom whose mailbox and wait graph are empty at first, in any history in which calls
-- begin, the atom takes mails and replies to them, waits end by a reply or by a timeout, and the atom
-- stops. In the state that is reached a goroutine has an edge in the wait graph exactly if it waits for the
-- reply to a call that registered one, so that no refusal and no timeout leaves an edge behind; the graph
-- has no cycle; and a mail that the atom has taken is none whose caller was told that the timeout
-- rejected it, nor does it wait in the mailbox any longer.
pub run-apart :
    (acts : List Act) (go_id : ℕ)
    → let σ = run acts (fresh go_id) in
      ((k : ℕ) → is_some (lookup k σ.target.graph) ≡ has_edge (lookup k σ.calls))
      × IsGraph σ.target.graph
      × ((m : ℕ)
          → has m σ.handled ≡ true
          → (has m σ.rejected ≡ false) × (has m σ.target.box ≡ false))
run-apart acts go_id =
    let v = run-Inv acts (fresh go_id) (fresh-Inv go_id) in
    (v.edges.same, v.edges.graph, λ m i. (v.mails.handled_rejected m i, handled_gone v.mails m i))
