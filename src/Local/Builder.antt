-- ===== src/Local/Builder.antt =====
-- What the builder of the program's elements keeps.
use go_atomos.Common.{
  ℕ, ◌≡◌, inl, inr, refl, sym, ap, ◌∙◌, true, false, some, List, [], ◌∷◌, arith, ◌==◌,
  if◌then◌else◌, ==→eq, Bool-cases, is_some, has, Distinct, has-append, Distinct-snoc,
}
use mathlib.Core.Bool.{false≢true}
use mathlib.Core.Option.{some-injective, none-ne-some}
use go_atomos.Common.Maps.{lookup, insert, lookup-insert}
use go_atomos.Local.{
  Impl, Runnable, set_element_spawn, add_implementation, add_element_implementation, Build, adds,
  spawns, build, no_runnable,
}

-- An element is known by its own name, is in the order of the spawns at most once, and only if it is known.
pub record IsBuilt (r : Runnable) : Type 0 where
  pub named : (n : ℕ) (i : Impl) → lookup n r.implements ≡ some i → i.name ≡ n
  pub ordered : (n : ℕ) → has n r.spawn_order ≡ is_some (lookup n r.spawn_element)
  pub distinct : Distinct r.spawn_order
  pub known : (n : ℕ) → has n r.spawn_order ≡ true → is_some (lookup n r.implements) ≡ true

no_runnable-IsBuilt : IsBuilt no_runnable
unfolding lookup
no_runnable-IsBuilt = record {
  named = λ n i e. absurd (none-ne-some i e);
  ordered = λ n. refl;
  distinct = tt;
  known = λ n e. absurd (false≢true e);
}

set_element_spawn-IsBuilt :
    (name : ℕ) (r : Runnable) → IsBuilt r → IsBuilt (set_element_spawn name r)
unfolding set_element_spawn
set_element_spawn-IsBuilt name r b = elim (Bool-cases (is_some (lookup name r.implements))) [
  | inr absent ↦ rw absent b
  | inl here ↦ elim (Bool-cases (is_some (lookup name r.spawn_element))) [
    | inl listed ↦ rw (here, listed) b
    | inr fresh ↦
        rw (here, fresh)
          (record {
            named = b.named;
            ordered = λ n. ground (
              arith,
              b.ordered n,
              lookup-insert name n true r.spawn_element,
              has-append n r.spawn_order (name ∷ []),
            );
            distinct = Distinct-snoc r.spawn_order name b.distinct (b.ordered name ∙ fresh);
            known = λ n e. ground (arith, here, b.known n, has-append n r.spawn_order (name ∷ []));
          })
  ]
]

named_after :
    (i : Impl) (r : Runnable) (n : ℕ) (j : Impl)
    → IsBuilt r
    → lookup n (insert i.name i r.implements) ≡ some j
    → j.name ≡ n
named_after i r n j b e = elim (Bool-cases (i.name == n)) [
  | inl z ↦
      sym (
        ap (λ k. k.name)
          (some-injective i j (
            sym (
              lookup-insert i.name n i r.implements
              ∙ ap (λ x. if x then some i else lookup n r.implements) z)
            ∙ e)))
      ∙ ==→eq i.name n z
  | inr z ↦ b.named n j (
      sym (
        lookup-insert i.name n i r.implements
        ∙ ap (λ x. if x then some i else lookup n r.implements) z)
      ∙ e)
]

add_implementation-IsBuilt :
    (i : Impl) (r : Runnable) → IsBuilt r → IsBuilt (add_implementation i r)
unfolding add_implementation
add_implementation-IsBuilt i r b = elim (Bool-cases (is_some (lookup i.name r.implements))) [
  | inl e ↦ rw e b
  | inr e ↦ rw e (record {
    named = λ n j h. named_after i r n j b h;
    ordered = b.ordered;
    distinct = b.distinct;
    known = λ n h. ground (arith, b.known n h, lookup-insert i.name n i r.implements);
  })
]

pub build-IsBuilt : (bs : List Build) (r : Runnable) → IsBuilt r → IsBuilt (build bs r)
unfolding build add_element_implementation
build-IsBuilt [] r b = b
build-IsBuilt (adds i true ∷ bs) r b =
    build-IsBuilt bs _ (set_element_spawn-IsBuilt i.name _ (add_implementation-IsBuilt i r b))
build-IsBuilt (adds i false ∷ bs) r b = build-IsBuilt bs _ (add_implementation-IsBuilt i r b)
build-IsBuilt (spawns name ∷ bs) r b = build-IsBuilt bs _ (set_element_spawn-IsBuilt name r b)

pub program-IsBuilt : (bs : List Build) → IsBuilt (build bs no_runnable)
program-IsBuilt bs = build-IsBuilt bs no_runnable no_runnable-IsBuilt
