-- ===== src/Local/Spawning.antt =====
-- The spawn of the elements, all or none.
use go_atomos.Common.{
  ℕ, ◌≡◌, inl, inr, refl, sym, ap, subst, ◌∙◌, Bool, false, ◌||◌, Option, none, some, List, [], ◌∷◌,
  ◌++◌, arith, if◌then◌else◌, Bool-cases, is_some, has, Distinct,
}
use mathlib.Core.List.{append-nil, append_assoc}
use go_atomos.Common.Maps.{
  lookup, insert, keys, lookup-insert, lookup-delete, insert-Distinct, delete-Distinct,
}
use go_atomos.ErrorCode.{ErrorCode, err_framework_recover_from_panic, err_element_loaded}
use go_atomos.Local.{
  Impl, Runnable, Event, spawned, Cosmos, after_spawn, cosmos_element_spawn, Loop, round_spawned,
  spawn_round, spawn_loop,
}
use go_atomos.Local.Builder.{IsBuilt}

pub names_of : List Impl → List ℕ
names_of [] = []
names_of (i ∷ is) = i.name ∷ names_of is

pub spawns_of : List Impl → List Event
spawns_of [] = []
spawns_of (i ∷ is) = spawned i.name ∷ spawns_of is

-- The elements of `c` and those with these names.
unfoldable pub Adds : Cosmos → List ℕ → Cosmos → Type 0
Adds c names d =
    Distinct (keys d.elements)
    × ((k : ℕ) → is_some (lookup k d.elements) ≡ (has k names || is_some (lookup k c.elements)))

-- What a spawn that succeeds, and one that fails, does.
data Spawn (i : Impl) (c : Cosmos) : Option ErrorCode × Cosmos → Type 0 where
  good :
      {d : Cosmos}
      → Adds c (i.name ∷ []) d
      → d.trace ≡ c.trace ++ spawned i.name ∷ []
      → Spawn i c (none, d)
  bad : {e : ErrorCode} {d : Cosmos} → Adds c [] d → d.trace ≡ c.trace → Spawn i c (some e, d)

after-Spawn :
    (i : Impl) (answer : Option ErrorCode) (c : Cosmos)
    → Distinct (keys c.elements)
    → is_some (lookup i.name c.elements) ≡ false
    → Spawn i c (after_spawn i answer (record c { elements = insert i.name i c.elements }))
unfolding after_spawn Adds
after-Spawn i none c w new =
    good
      (
        insert-Distinct i.name i c.elements w,
        λ k. ground (arith, lookup-insert i.name k i c.elements),
      )
      refl
after-Spawn i (some e) c w new =
    bad
      (
        delete-Distinct i.name (insert i.name i c.elements) (insert-Distinct i.name i c.elements w),
        λ k. ground (
          arith,
          new,
          lookup-delete i.name k (insert i.name i c.elements)
              (insert-Distinct i.name i c.elements w),
          lookup-insert i.name k i c.elements,
        ),
      )
      refl

cosmos_element_spawn-Spawn :
    (i : Impl) (c : Cosmos) → Distinct (keys c.elements) → Spawn i c (cosmos_element_spawn i c)
unfolding cosmos_element_spawn Adds
cosmos_element_spawn-Spawn i c w =
    let M : Bool → Bool → Type 0 = λ a b. Spawn i c (
      if a
      then (some err_framework_recover_from_panic, c)
      else if b
      then (some err_element_loaded, c)
      else after_spawn i i.spawn_error (record c { elements = insert i.name i c.elements })) in
    elim (Bool-cases i.constructor_panics) [
      | inl e ↦
          subst (λ a. M a (is_some (lookup i.name c.elements))) (sym e) (bad (w, λ k. refl) refl)
      | inr p ↦
          subst (λ a. M a (is_some (lookup i.name c.elements))) (sym p)
            (elim (Bool-cases (is_some (lookup i.name c.elements))) [
              | inl e ↦ subst (M false) (sym e) (bad (w, λ k. refl) refl)
              | inr e ↦ subst (M false) (sym e) (after-Spawn i i.spawn_error c w e)
            ])
    ]

-- The loop over the names loads all of them, or those before the one where it fails.
pub data Looped (c : Cosmos) (ns : List ℕ) (loaded : List Impl) : Loop → Type 0 where
  all :
      {l : List Impl} {d : Cosmos} (new : List Impl)
      → names_of new ≡ ns
      → l ≡ loaded ++ new
      → Adds c ns d
      → d.trace ≡ c.trace ++ spawns_of new
      → Looped c ns loaded (none, (l, d))
  failed :
      {e : ErrorCode} {l : List Impl} {d : Cosmos} (new : List Impl) (n : ℕ) (rest : List ℕ)
      → ns ≡ names_of new ++ n ∷ rest
      → l ≡ loaded ++ new
      → Adds c (names_of new) d
      → d.trace ≡ c.trace ++ spawns_of new
      → Looped c ns loaded (some e, (l, d))

Adds-Adds :
    (n : ℕ) (ns : List ℕ) (c d e : Cosmos) → Adds c (n ∷ []) d → Adds d ns e → Adds c (n ∷ ns) e
unfolding Adds
Adds-Adds n ns c d e a b = (b.0, λ k. ground (arith, a.1 k, b.1 k))

-- One more element before a loop.
more-Looped :
    (i : Impl) (ns : List ℕ) (loaded : List Impl) (c d : Cosmos) {l : Loop}
    → Adds c (i.name ∷ []) d
    → d.trace ≡ c.trace ++ spawned i.name ∷ []
    → Looped d ns (loaded ++ i ∷ []) l
    → Looped c (i.name ∷ ns) loaded l
unfolding names_of spawns_of
more-Looped i ns loaded c d a t (all {d = e} new names l b u) =
    all (i ∷ new) (ap (λ xs. i.name ∷ xs) names) (l ∙ append_assoc loaded (i ∷ []) new)
      (Adds-Adds i.name ns c d e a b)
      (u
        ∙ (ap (λ x. x ++ spawns_of new) t
            ∙ append_assoc c.trace (spawned i.name ∷ []) (spawns_of new)))
more-Looped i ns loaded c d a t (failed {d = e} new n rest names l b u) =
    failed (i ∷ new) n rest (ap (λ xs. i.name ∷ xs) names) (l ∙ append_assoc loaded (i ∷ []) new)
      (Adds-Adds i.name (names_of new) c d e a b)
      (u
        ∙ (ap (λ x. x ++ spawns_of new) t
            ∙ append_assoc c.trace (spawned i.name ∷ []) (spawns_of new)))

module _ (r : Runnable) (built : IsBuilt r) where
  spawned-Looped :
      (i : Impl) (ns : List ℕ) (loaded : List Impl) (c : Cosmos) {o : Option ErrorCode × Cosmos}
      → ((l : List Impl) (d : Cosmos)
          → Distinct (keys d.elements)
          → Looped d ns l (spawn_loop r ns l d))
      → Spawn i c o
      → Looped c (i.name ∷ ns) loaded (round_spawned (spawn_loop r ns) i loaded o)
  unfolding round_spawned names_of spawns_of Adds
  spawned-Looped i ns loaded c next (good {d} a t) =
      more-Looped i ns loaded c d a t (next (loaded ++ i ∷ []) d a.0)
  spawned-Looped i ns loaded c next (bad a t) =
      failed [] i.name ns refl (sym (append-nil loaded)) a (t ∙ sym (append-nil c.trace))

  round-Looped :
      (n : ℕ) (o : Option Impl) (ns : List ℕ) (loaded : List Impl) (c : Cosmos)
      → lookup n r.implements ≡ o
      → Distinct (keys c.elements)
      → ((l : List Impl) (d : Cosmos)
          → Distinct (keys d.elements)
          → Looped d ns l (spawn_loop r ns l d))
      → Looped c (n ∷ ns) loaded (spawn_round (spawn_loop r ns) o loaded c)
  unfolding spawn_round names_of spawns_of Adds
  round-Looped n none ns loaded c e w next =
      failed [] n ns refl (sym (append-nil loaded)) (w, λ k. refl) (sym (append-nil c.trace))
  round-Looped n (some i) ns loaded c e w next =
      subst
        (λ k.
          Looped c (k ∷ ns) loaded
            (round_spawned (spawn_loop r ns) i loaded (cosmos_element_spawn i c)))
        (built.named n i e) (spawned-Looped i ns loaded c next (cosmos_element_spawn-Spawn i c w))

  pub spawn_loop-Looped :
      (ns : List ℕ) (loaded : List Impl) (c : Cosmos)
      → Distinct (keys c.elements)
      → Looped c ns loaded (spawn_loop r ns loaded c)
  unfolding spawn_loop names_of spawns_of Adds
  spawn_loop-Looped [] loaded c w =
      all [] refl (sym (append-nil loaded)) (w, λ k. refl) (sym (append-nil c.trace))
  spawn_loop-Looped (n ∷ ns) loaded c w =
      round-Looped n (lookup n r.implements) ns loaded c refl w (spawn_loop-Looped ns)
