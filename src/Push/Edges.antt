-- ===== src/Push/Edges.antt =====
-- The edges of the wait graph and the goroutines that wait with one.
use go_atomos.Common.{
  ℕ, ◌≡◌, ◌≢◌, inl, inr, refl, sym, ap, subst, ◌∙◌, Bool, true, false, ◌||◌, Option, none, some,
  List, arith, ◌==◌, if◌then◌else◌, ==→eq, Bool-cases, is_some, Distinct,
}
use go_atomos.Common.Maps.{
  lookup, insert, delete, keys, lookup-insert, lookup-delete, insert-Distinct, delete-Distinct,
}
use go_atomos.WaitGraph.{
  Graph, Verdict, self_deadlock, cycle_deadlock, waits_unseen, waits_seen, begin_sync_call,
  remove_wait_edge,
}
use go_atomos.WaitGraph.Detect.{IsGraph}
use go_atomos.WaitGraph.History.{remove-IsGraph, begin_sync_call_lem, Begun, refused, waiting}

abbrev pub Calls : Type 0
Calls = List (ℕ × (ℕ × Bool))

-- Whether a goroutine waits with an edge.
abbrev pub has_edge : Option (ℕ × Bool) → Bool
has_edge none = false
has_edge (some (ref, edge)) = edge

pub record AreEdges (calls : Calls) (g : Graph) : Type 0 where
  pub graph : IsGraph g
  pub distinct : Distinct (keys calls)
  pub same : (k : ℕ) → is_some (lookup k g) ≡ has_edge (lookup k calls)

module _ {calls : Calls} {g : Graph} (a : AreEdges calls g) (caller : ℕ) where
  pub add-AreEdges :
      (ref target : ℕ)
      → IsGraph (insert caller target g)
      → AreEdges (insert caller (ref, true) calls) (insert caller target g)
  add-AreEdges ref target w = record {
    graph = w;
    distinct = insert-Distinct caller (ref, true) calls a.distinct;
    same = λ k. elim (Bool-cases (caller == k)) [
      | inl e ↦
          rw (lookup-insert caller k target g, lookup-insert caller k (ref, true) calls, e) refl
      | inr e ↦
          rw (lookup-insert caller k target g, lookup-insert caller k (ref, true) calls, e)
            (a.same k)
    ];
  }

  pub plain-AreEdges :
      (ref : ℕ) → lookup caller calls ≡ none → AreEdges (insert caller (ref, false) calls) g
  plain-AreEdges ref free = record {
    graph = a.graph;
    distinct = insert-Distinct caller (ref, false) calls a.distinct;
    same = λ k. elim (Bool-cases (caller == k)) [
      | inl e ↦
          rw (lookup-insert caller k (ref, false) calls, e)
            (subst (λ q. is_some (lookup q g) ≡ false) (==→eq caller k e)
              (a.same caller ∙ ap has_edge free))
      | inr e ↦ rw (lookup-insert caller k (ref, false) calls, e) (a.same k)
    ];
  }

  -- An edge that is put in and taken out.
  pub undo-AreEdges :
      (target : ℕ)
      → lookup caller calls ≡ none
      → IsGraph (insert caller target g)
      → AreEdges calls (remove_wait_edge (insert caller target g) caller)
  undo-AreEdges target free w = record {
    graph = remove-IsGraph (insert caller target g) caller w;
    distinct = a.distinct;
    same = λ k. elim (Bool-cases (caller == k)) [
      | inl e ↦
          unfold remove_wait_edge in
          rw
            (
              lookup-delete caller k (insert caller target g) w.distinct,
              e,
              sym (==→eq caller k e),
              free,
            )
            refl
      | inr e ↦
          unfold remove_wait_edge in
          rw
            (
              lookup-delete caller k (insert caller target g) w.distinct,
              lookup-insert caller k target g,
              e,
            )
            (a.same k)
    ];
  }

  pub end-AreEdges :
      (ref : ℕ) (edge : Bool)
      → lookup caller calls ≡ some (ref, edge)
      → AreEdges (delete caller calls) (if edge then remove_wait_edge g caller else g)
  end-AreEdges ref true here = record {
    graph = remove-IsGraph g caller a.graph;
    distinct = delete-Distinct caller calls a.distinct;
    same = λ k. elim (Bool-cases (caller == k)) [
      | inl e ↦
          unfold remove_wait_edge in
          rw (lookup-delete caller k g a.graph.distinct, lookup-delete caller k calls a.distinct, e)
            refl
      | inr e ↦
          unfold remove_wait_edge in
          rw (lookup-delete caller k g a.graph.distinct, lookup-delete caller k calls a.distinct, e)
            (a.same k)
    ];
  }
  end-AreEdges ref false here = record {
    graph = a.graph;
    distinct = delete-Distinct caller calls a.distinct;
    same = λ k. elim (Bool-cases (caller == k)) [
      | inl e ↦
          rw (lookup-delete caller k calls a.distinct, e)
            (subst (λ q. is_some (lookup q g) ≡ false) (==→eq caller k e)
              (a.same caller ∙ ap has_edge here))
      | inr e ↦ rw (lookup-delete caller k calls a.distinct, e) (a.same k)
    ];
  }

-- What the check of the wait graph does before a push.
pub data Checked (g : Graph) (caller : ℕ) : Option (Verdict × Graph) → Type 0 where
  self : Checked g caller (some (self_deadlock, g))
  cycle : Checked g caller (some (cycle_deadlock, g))
  unseen : Checked g caller (some (waits_unseen, g))
  seen :
      (target : ℕ)
      → IsGraph (insert caller target g)
      → Checked g caller (some (waits_seen, insert caller target g))

refused-Checked :
    (g : Graph) (caller : ℕ) (v : Verdict)
    → v ≢ waits_seen
    → v ≢ waits_unseen
    → Checked g caller (some (v, g))
refused-Checked g caller self_deadlock p q = self
refused-Checked g caller cycle_deadlock p q = cycle
refused-Checked g caller waits_unseen p q = absurd (q refl)
refused-Checked g caller waits_seen p q = absurd (p refl)

Begun-Checked :
    (g : Graph) (caller target : ℕ) {r : Option (Verdict × Graph)}
    → Begun g caller target r
    → Checked g caller r
Begun-Checked g caller target (refused {v = v} l p q) = refused-Checked g caller v p q
Begun-Checked g caller target (waiting l w) = seen target w

pub begin_sync_call-Checked :
    (g : Graph) (caller target : ℕ) → IsGraph g → Checked g caller (begin_sync_call g caller target)
begin_sync_call-Checked g caller target w = elim (Bool-cases (caller == 0 || target == 0)) [
  | inl e ↦ unfold begin_sync_call in rw e unseen
  | inr e ↦
      Begun-Checked g caller target
        (begin_sync_call_lem g caller target w (λ z. ground arith) (λ z. ground arith))
]
