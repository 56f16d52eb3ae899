-- ===== src/VersionLock/Transactions.antt =====
-- What a transaction does to the key, and to the transactions that are still on their way.
use mathlib.Core.Option.{some-injective, none-ne-some}
use mathlib.Core.Bool.{true≢false}
use go_atomos.VersionLock.{
  Lock, Server, Op, Txn, if_absent, if_version, commit, plan, plan_present, put,
}
use go_atomos.VersionLock.Laws.{IsServer}
use go_atomos.VersionLock.Changes.{IsLock, after, Puts, PlanFits, present-fits, absent-fits}
use go_atomos.Common.{
  ℕ, suc, ◌≤◌, ◌≡◌, inl, inr, sym, subst, Bool, true, false, Option, none, some, List, [], arith,
  ◌==◌, if◌then◌else◌, ==→eq, Bool-cases,
}

-- The key as a process finds it: it holds the lock of the live versions.
pub record Holds {S B : Type 0} (srv : Server S B) (live : List ℕ) (c : B) : Type 0 where
  pub lock : Lock
  pub decodes : srv.unmarshal c ≡ some lock
  pub versions : lock.versions ≡ live
  pub is_lock : IsLock lock

module _ {S B : Type 0} (srv : Server S B) where
  abbrev pub Stored : List ℕ → Option (B × ℕ) → Type 0
  Stored live none = live ≡ []
  Stored live (some (c, n)) = Holds srv live c

  -- A pending transaction does what its function should, if the server still accepts it.
  abbrev pub Fits : List ℕ → Option (B × ℕ) → Op → Txn B → Type 0
  Fits live none op (if_absent c) = Puts srv op live c
  Fits live none op (if_version k c) = ⊥
  Fits live (some (d, n)) op (if_absent c) = Unit {0}
  Fits live (some (d, n)) op (if_version k c) = (k ≤ n) × ((k == n) ≡ true → Puts srv op live c)

  from_absent : (op : Op) (t : Txn B) → PlanFits srv op none [] (commit t) → Fits [] none op t
  from_absent op (if_absent c) f = f.1
  from_absent op (if_version k c) f = none-ne-some k f.0

  from_present :
      (live : List ℕ) (d : B) (n : ℕ) (op : Op) (t : Txn B)
      → PlanFits srv op (some n) live (commit t)
      → Fits live (some (d, n)) op t
  from_present live d n op (if_absent c) f = tt
  from_present live d n op (if_version k c) f =
      let e = some-injective n k f.0 in (omega arith, λ same. f.1)

  -- What a transaction leaves of the key, and of the other transactions.
  pub record Carried (live : List ℕ) (at : Option (B × ℕ)) (op : Op) (ok : Bool) (s : S)
      : Type 0 where
    pub stored : Stored (if ok then after op live else live) (srv.get s)
    pub others :
        (op2 : Op) (t2 : Txn B)
        → Fits live at op2 t2
        → Fits (if ok then after op live else live) (srv.get s) op2 t2

  -- Nothing has changed.
  rejected :
      (live : List ℕ) (at : Option (B × ℕ)) (op : Op) (ok : Bool) (s : S)
      → ok ≡ false
      → srv.get s ≡ at
      → Stored live at
      → Carried live at op ok s
  rejected live at op false s off same st = record {
    stored = subst (Stored live) (sym same) st;
    others = λ op2 t2 f. subst (λ a. Fits live a op2 t2) (sym same) f;
  }
  rejected live at op true s off same st = absurd (true≢false off)

  accepted :
      (live : List ℕ) (at : Option (B × ℕ)) (op : Op) (ok : Bool) (s : S) (c : B) (n : ℕ)
      → ok ≡ true
      → srv.get s ≡ some (c, n)
      → Puts srv op live c
      → ((op2 : Op) (t2 : Txn B) → Fits live at op2 t2 → Fits (after op live) (some (c, n)) op2 t2)
      → Carried live at op ok s
  accepted live at op false s c n on same puts keeps = absurd (true≢false (sym on))
  accepted live at op true s c n on same puts keeps = record {
    stored = subst (Stored (after op live)) (sym same) (record {
      lock = puts.lock;
      decodes = puts.decodes;
      versions = puts.versions;
      is_lock = puts.is_lock;
    });
    others = λ op2 t2 f. subst (λ a. Fits (after op live) a op2 t2) (sym same) (keeps op2 t2 f);
  }

  -- A transaction that was made before the key came up has lost, and so has one for an older version.
  keeps_created :
      (live next : List ℕ) (c : B) (op2 : Op) (t2 : Txn B)
      → Fits live none op2 t2
      → Fits next (some (c, 1)) op2 t2
  keeps_created live next c op2 (if_absent d) f = tt
  keeps_created live next c op2 (if_version k d) f = absurd f

  keeps_newer :
      (live next : List ℕ) (c d : B) (n : ℕ) (op2 : Op) (t2 : Txn B)
      → Fits live (some (d, n)) op2 t2
      → Fits next (some (c, suc n)) op2 t2
  keeps_newer live next c d n op2 (if_absent e) f = tt
  keeps_newer live next c d n op2 (if_version k e) f =
      (omega (arith, f.0), λ same. absurd (ground (arith, f.0, ==→eq k (suc n) same)))

  module _ (laws : IsServer srv) where
    pub plan-Fits :
        (live : List ℕ) (at : Option (B × ℕ)) (op : Op) (t : Txn B)
        → Stored live at
        → plan srv op at ≡ commit t
        → Fits live at op t
    unfolding plan
    plan-Fits live none op t st e =
        subst (λ l. Fits l none op t) (sym st)
          (from_absent op t (subst (PlanFits srv op none []) e (absent-fits srv laws op)))
    plan-Fits live (some (c, n)) op t st e =
        subst (λ l. Fits l (some (c, n)) op t) st.versions
          (from_present st.lock.versions c n op t (
            subst (PlanFits srv op (some n) st.lock.versions) e (
              subst (λ o. PlanFits srv op (some n) st.lock.versions (plan_present srv op n o))
                (sym st.decodes) (present-fits srv laws op n st.lock st.is_lock))))

    pub put-Carried :
        (live : List ℕ) (at : Option (B × ℕ)) (op : Op) (t : Txn B) (s : S)
        → srv.get s ≡ at
        → Stored live at
        → Fits live at op t
        → Carried live at op (put srv t s).0 (put srv t s).1
    unfolding put
    put-Carried live none op (if_absent c) s at st f =
        let r = srv.put_if_absent c s in
        let l = laws.absent_put c s at in
        accepted live none op r.0 r.1 c 1 l.0 l.1 f (keeps_created live (after op live) c)
    put-Carried live none op (if_version k c) s at st f = absurd f
    put-Carried live (some (d, n)) op (if_absent c) s at st f =
        let r = srv.put_if_absent c s in
        let l = laws.absent_kept c d n s at in rejected live (some (d, n)) op r.0 r.1 l.0 l.1 st
    put-Carried live (some (d, n)) op (if_version k c) s at st f = elim (Bool-cases (k == n)) [
      | inl e ↦
          subst
            (λ x.
              Carried live (some (d, n)) op (srv.put_if_version x c s).0
                (srv.put_if_version x c s).1)
            (sym (==→eq k n e))
            (let r = srv.put_if_version n c s in
              let l = laws.version_put c d n s at in
              accepted live (some (d, n)) op r.0 r.1 c (suc n) l.0 l.1 (f.1 e)
                (keeps_newer live (after op live) c d n))
      | inr e ↦
          let r = srv.put_if_version k c s in
          let l = laws.version_kept c d n k s at e in
          rejected live (some (d, n)) op r.0 r.1 l.0 l.1 st
    ]
