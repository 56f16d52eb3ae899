-- ===== src/VersionLock/History.antt =====
-- Processes that use the lock of a node at the same time: each reads the key, and others may come in
-- before its transaction reaches the server, if it does. `live` lists the versions that have got the lock
-- and have not given it back, in the order in which they got it.
use mathlib.Core.Option.{some-injective, none-ne-some}
use go_atomos.VersionLock.{Server, Op, Txn, Plan, refuse, leave, commit, plan, put}
use go_atomos.VersionLock.Laws.{IsServer}
use go_atomos.VersionLock.Changes.{after}
use go_atomos.Common.{
  ℕ, ◌≡◌, ◌⊎◌, inl, inr, refl, sym, ap, subst, ◌∙◌, Option, none, some, List, [], ◌∷◌, ◌==◌,
  if◌then◌else◌, Bool-cases,
}
use go_atomos.VersionLock.Transactions.{Stored, Fits, plan-Fits, put-Carried}

pub record System (S B : Type 0) : Type 0 where
  pub store : S
  pub pending : ℕ → Option (Op × Txn B)
  pub live : List ℕ

-- A process reads the key for a function; its transaction is carried out; or it never arrives.
pub data Act : Type 0 where
  read : (process : ℕ) → Op → Act
  carry_out : (process : ℕ) → Act
  lose : (process : ℕ) → Act

abbrev put_pending : {T : Type 0} → (ℕ → Option T) → ℕ → Option T → ℕ → Option T
put_pending pending p t k = if k == p then t else pending k

module _ {S B : Type 0} (srv : Server S B) where
  planned : ℕ → Op → Plan B → System S B → System S B
  planned p op (refuse e) σ = σ
  planned p op leave σ = σ
  planned p op (commit t) σ = record σ { pending = put_pending σ.pending p (some (op, t)) }

  carried : ℕ → Option (Op × Txn B) → System S B → System S B
  carried p none σ = σ
  carried p (some (op, t)) σ = record {
    store = (put srv t σ.store).1;
    pending = put_pending σ.pending p none;
    live = if (put srv t σ.store).0 then after op σ.live else σ.live;
  }

  step : Act → System S B → System S B
  unfolding planned carried
  step (read p op) σ = planned p op (plan srv op (srv.get σ.store)) σ
  step (carry_out p) σ = carried p (σ.pending p) σ
  step (lose p) σ = record σ { pending = put_pending σ.pending p none }

  unfoldable pub run : List Act → System S B → System S B
  unfolding step
  run [] σ = σ
  run (a ∷ acts) σ = run acts (step a σ)

-- What is pending after a change at one process.
module _ {B : Type 0} (p q : ℕ) (pending : ℕ → Option (Op × Txn B)) where
  dropped :
      (op : Op) (t : Txn B) → put_pending pending p none q ≡ some (op, t) → pending q ≡ some (op, t)
  dropped op t e = elim (Bool-cases (q == p)) [
    | inl z ↦ absurd (none-ne-some (op, t) (sym (ap (λ b. if b then none else pending q) z) ∙ e))
    | inr z ↦ sym (ap (λ b. if b then none else pending q) z) ∙ e
  ]

  added :
      (op op2 : Op) (t t2 : Txn B)
      → put_pending pending p (some (op, t)) q ≡ some (op2, t2)
      → (◌≡◌ {A = Op × Txn B} (op, t) (op2, t2)) ⊎ (pending q ≡ some (op2, t2))
  added op op2 t t2 e = elim (Bool-cases (q == p)) [
    | inl z ↦ inl (
        some-injective (op, t) (op2, t2)
          (sym (ap (λ b. if b then some (op, t) else pending q) z) ∙ e))
    | inr z ↦ inr (sym (ap (λ b. if b then some (op, t) else pending q) z) ∙ e)
  ]

module _ {S B : Type 0} (srv : Server S B) where
  record Inv (σ : System S B) : Type 0 where
    stored : Stored srv σ.live (srv.get σ.store)
    pending :
        (p : ℕ) (op : Op) (t : Txn B)
        → σ.pending p ≡ some (op, t)
        → Fits srv σ.live (srv.get σ.store) op t

  drop-Inv :
      (p : ℕ) (σ : System S B) → Inv σ → Inv (record σ { pending = put_pending σ.pending p none })
  drop-Inv p σ v = record {
    stored = v.stored;
    pending = λ q op t e. v.pending q op t (dropped p q σ.pending op t e);
  }

  module _ (laws : IsServer srv) where
    planned-Inv :
        (p : ℕ) (op : Op) (q : Plan B) (σ : System S B)
        → Inv σ
        → plan srv op (srv.get σ.store) ≡ q
        → Inv (planned srv p op q σ)
    unfolding planned
    planned-Inv p op (refuse e) σ v h = v
    planned-Inv p op leave σ v h = v
    planned-Inv p op (commit t) σ v h = record {
      stored = v.stored;
      pending = λ q op2 t2 e. elim (added p q σ.pending op op2 t t2 e) [
        | inl same ↦
            subst (λ x. Fits srv σ.live (srv.get σ.store) x.0 x.1) same
              (plan-Fits srv laws σ.live (srv.get σ.store) op t v.stored h)
        | inr old ↦ v.pending q op2 t2 old
      ];
    }

    carried-Inv :
        (p : ℕ) (o : Option (Op × Txn B)) (σ : System S B)
        → Inv σ
        → σ.pending p ≡ o
        → Inv (carried srv p o σ)
    unfolding carried
    carried-Inv p none σ v h = v
    carried-Inv p (some (op, t)) σ v h =
        let c =
          put-Carried srv laws σ.live (srv.get σ.store) op t σ.store refl v.stored
            (v.pending p op t h) in
        record {
          stored = c.stored;
          pending =
              λ q op2 t2 e. c.others op2 t2 (v.pending q op2 t2 (dropped p q σ.pending op2 t2 e));
        }

    step-Inv : (a : Act) (σ : System S B) → Inv σ → Inv (step srv a σ)
    unfolding step
    step-Inv (read p op) σ v = planned-Inv p op (plan srv op (srv.get σ.store)) σ v refl
    step-Inv (carry_out p) σ v = carried-Inv p (σ.pending p) σ v refl
    step-Inv (lose p) σ v = drop-Inv p σ v

    run-Inv : (acts : List Act) (σ : System S B) → Inv σ → Inv (run srv acts σ)
    unfolding run
    run-Inv [] σ v = v
    run-Inv (a ∷ acts) σ v = run-Inv acts (step srv a σ) (step-Inv a σ v)

    -- Any number of processes use the lock of a node, their reads and transactions interleaved in any way and
    -- some transactions lost, from a server without the key, one that keeps the laws of `IsServer`. The
    -- key is then missing, and no version has the lock; or it holds exactly the versions that got the
    -- lock and have not given it back, at most two, with a current one that is 0 or among them.
    pub run-Stored :
        (acts : List Act) (s : S)
        → srv.get s ≡ none
        → let σ = run srv acts (record { store = s; pending = λ p. none; live = [] }) in
          Stored srv σ.live (srv.get σ.store)
    run-Stored acts s missing =
        (run-Inv acts (record { store = s; pending = λ p. none; live = [] })
          (record {
            stored = subst (Stored srv []) (sym missing) refl;
            pending = λ p op t e. absurd (none-ne-some (op, t) e);
          })).stored
