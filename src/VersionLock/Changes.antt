-- ===== src/VersionLock/Changes.antt =====
-- What a plan would make of the lock that it was made for.
use go_atomos.VersionLock.{
  lock_failed, Lock, Server, Op, try_locking, started, start_up_failed, stopping, if_absent,
  if_version, Plan, refuse, leave, commit, max_nodes, remove_version, add_version, plan_locking,
  plan_started, plan_present, plan_absent,
}
use go_atomos.VersionLock.Laws.{IsServer}
use go_atomos.Common.{
  ℕ, ◌≤◌, ◌≡◌, inl, inr, refl, sym, subst, true, false, ◌||◌, Option, none, some, List, [], ◌∷◌,
  ◌++◌, arith, leb, ◌==◌, if◌then◌else◌, Bool-cases, length, length-append, has, has-append,
  without, has-without_ne,
}

-- A lock as it should be: two versions at most, and the current one, if any, among them.
pub record IsLock (l : Lock) : Type 0 where
  pub few : length l.versions ≤ max_nodes
  pub member : ((l.current == 0) || has l.current l.versions) ≡ true

-- The versions after a function has gone through.
abbrev pub after : Op → List ℕ → List ℕ
after (try_locking v) live = live ++ v ∷ []
after (started v) live = live
after (start_up_failed v) live = without v live
after (stopping v) live = without v live

length-without_le : (v : ℕ) (ks : List ℕ) → length (without v ks) ≤ length ks
length-without_le v [] = omega arith
length-without_le v (k ∷ ks) = ground (arith, length-without_le v ks)

remove_version-IsLock : (v : ℕ) (l : Lock) → IsLock l → IsLock (remove_version v l)
unfolding remove_version
remove_version-IsLock v l h = record {
  few = ground (arith, h.few, length-without_le v l.versions);
  member = ground (arith, h.member, has-without_ne l.current v l.versions);
}

add_version-IsLock :
    (v : ℕ) (l : Lock)
    → leb max_nodes (length l.versions) ≡ false
    → IsLock l
    → IsLock (add_version v l)
unfolding add_version
add_version-IsLock v l room h = record {
  few = ground (arith, length-append l.versions (v ∷ []));
  member = ground (arith, h.member, has-append l.current l.versions (v ∷ []));
}

-- The value c that a transaction of `op` puts, for a lock with the versions `live`.
pub record Puts {S B : Type 0} (srv : Server S B) (op : Op) (live : List ℕ) (c : B) : Type 0 where
  pub lock : Lock
  pub decodes : srv.unmarshal c ≡ some lock
  pub versions : lock.versions ≡ after op live
  pub is_lock : IsLock lock

-- A plan that was made for a key that is not there, or has version n and the versions `live`.
abbrev pub PlanFits : {S B : Type 0} → Server S B → Op → Option ℕ → List ℕ → Plan B → Type 0
PlanFits srv op at live (refuse e) = Unit {0}
PlanFits srv op at live leave = Unit {0}
PlanFits srv op at live (commit (if_absent c)) = (at ≡ none) × Puts srv op live c
PlanFits srv op at live (commit (if_version n c)) = (at ≡ some n) × Puts srv op live c

module _ {S B : Type 0} (srv : Server S B) (laws : IsServer srv) where
  puts :
      (op : Op) (live : List ℕ) (l : Lock)
      → l.versions ≡ after op live
      → IsLock l
      → Puts srv op live (srv.marshal l)
  puts op live l same h = record {
    lock = l;
    decodes = laws.unmarshal-marshal l;
    versions = same;
    is_lock = h;
  }

  started-fits :
      (v n : ℕ) (l : Lock)
      → IsLock l
      → PlanFits srv (started v) (some n) l.versions (plan_started srv v n (some l))
  unfolding plan_started
  started-fits v n l h = elim (Bool-cases (has v l.versions)) [
    | inl e ↦
        subst
          (λ x.
            PlanFits srv (started v) (some n) l.versions
              (if x then commit (if_version n (srv.marshal (record l { current = v }))) else leave))
          (sym e)
          (
            refl,
            puts (started v) l.versions (record l { current = v }) refl
                (record { few = h.few; member = ground arith }),
          )
    | inr e ↦
        subst
          (λ x.
            PlanFits srv (started v) (some n) l.versions
              (if x then commit (if_version n (srv.marshal (record l { current = v }))) else leave))
          (sym e) tt
  ]

  locking-fits :
      (v n : ℕ) (l : Lock)
      → IsLock l
      → PlanFits srv (try_locking v) (some n) l.versions (plan_locking srv v n (some l))
  unfolding plan_locking add_version
  locking-fits v n l h = elim (Bool-cases (leb max_nodes (length l.versions))) [
    | inl e ↦
        subst
          (λ x. PlanFits srv (try_locking v) (some n) l.versions (
            if x
            then refuse lock_failed
            else commit (if_version n (srv.marshal (add_version v l)))))
          (sym e) tt
    | inr e ↦
        subst
          (λ x. PlanFits srv (try_locking v) (some n) l.versions (
            if x
            then refuse lock_failed
            else commit (if_version n (srv.marshal (add_version v l)))))
          (sym e)
          (
            refl,
            puts (try_locking v) l.versions (add_version v l) refl (add_version-IsLock v l e h),
          )
  ]

  pub present-fits :
      (op : Op) (n : ℕ) (l : Lock)
      → IsLock l
      → PlanFits srv op (some n) l.versions (plan_present srv op n (some l))
  unfolding plan_present remove_version
  present-fits (try_locking v) n l h = locking-fits v n l h
  present-fits (started v) n l h = started-fits v n l h
  present-fits (start_up_failed v) n l h = (
    refl,
    puts (start_up_failed v) l.versions (remove_version v l) refl (remove_version-IsLock v l h),
  )
  present-fits (stopping v) n l h =
      (refl, puts (stopping v) l.versions (remove_version v l) refl (remove_version-IsLock v l h))

  pub absent-fits : (op : Op) → PlanFits srv op none [] (plan_absent srv op)
  unfolding plan_absent
  absent-fits (try_locking v) = (
    refl,
    puts (try_locking v) [] (record { current = 0; versions = v ∷ [] }) refl
        (record { few = ground arith; member = refl }),
  )
  absent-fits (started v) = tt
  absent-fits (start_up_failed v) = tt
  absent-fits (stopping v) = tt
