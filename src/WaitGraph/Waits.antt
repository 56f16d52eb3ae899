-- ===== src/WaitGraph/Waits.antt =====
-- Who waits for whom, through any number of waits, and graphs in which nobody waits for itself.
use go_atomos.Common.{ℕ, ◌≡◌, ◌⊎◌, inl, inr, sym, ap, subst, ◌∙◌, some, arith, Distinct}
use go_atomos.Common.Maps.{lookup, insert, delete, keys, lookup-insert, lookup-delete}
use go_atomos.WaitGraph.{Graph}

pub data Waits (g : Graph) : ℕ → ℕ → Type 0 where
  edge : {a b : ℕ} → lookup a g ≡ some b → Waits g a b
  more : {a b c : ℕ} → lookup a g ≡ some b → Waits g b c → Waits g a c

-- The same or through waits.
abbrev pub Leads : Graph → ℕ → ℕ → Type 0
Leads g a b = (a ≡ b) ⊎ Waits g a b

abbrev pub IsAcyclic : Graph → Type 0
IsAcyclic g = (a : ℕ) → ¬ Waits g a a

pub Leads-step : {g : Graph} {a b c : ℕ} → lookup a g ≡ some b → Leads g b c → Waits g a c
Leads-step {g} {a} h (inl e) = edge (h ∙ ap some e)
Leads-step h (inr w) = more h w

pub Waits-trans : {g : Graph} {a b c : ℕ} → Waits g a b → Waits g b c → Waits g a c
Waits-trans (edge h) w = more h w
Waits-trans (more h v) w = more h (Waits-trans v w)

module _ (g : Graph) (caller target : ℕ) where
  -- A wait in the graph with the new edge goes through that edge or is an old one.
  abbrev Split : ℕ → ℕ → Type 0
  Split a b = Waits g a b ⊎ Leads g a caller × Leads g target b

  split_edge :
      (a b : ℕ)
      → lookup a (insert caller target g) ≡ some b
      → ((a ≡ caller) × (b ≡ target)) ⊎ (lookup a g ≡ some b)
  split_edge a b h = ground (arith, lookup-insert caller a target g)

  -- A path that starts with an old edge and goes on split.
  Split-old : (a b c : ℕ) → lookup a g ≡ some b → Split b c → Split a c
  Split-old a b c h (inl w) = inl (more h w)
  Split-old a b c h (inr (l, r)) = inr (inr (Leads-step h l), r)

  -- A path that starts with the new edge.
  Split-new : (a b c : ℕ) → a ≡ caller → b ≡ target → Split b c → Split a c
  Split-new a b c e f (inl w) = inr (inl e, inr (subst (λ t. Waits g t c) f w))
  Split-new a b c e f (inr (l, r)) = inr (inl e, r)

  split : {a b : ℕ} → Waits (insert caller target g) a b → Split a b
  split (edge {a} {b} h) = elim (split_edge a b h) [
    | inl (e, f) ↦ inr (inl e, inl (sym f))
    | inr old ↦ inl (edge old)
  ]
  split (more {a} {b} {c} h w) =
      let rest = split w in
      elim (split_edge a b h) [
        | inl (e, f) ↦ Split-new a b c e f rest
        | inr old ↦ Split-old a b c old rest
      ]

  pub Leads-trans : {a b c : ℕ} → Leads g a b → Leads g b c → Leads g a c
  Leads-trans {c = c} (inl e) l = subst (λ t. Leads g t c) (sym e) l
  Leads-trans {a = a} (inr v) (inl e) = inr (subst (Waits g a) e v)
  Leads-trans (inr v) (inr w) = inr (Waits-trans v w)

  -- A new wait closes no cycle, if the target does not wait for the caller already.
  pub insert-IsAcyclic : IsAcyclic g → ¬ Leads g target caller → IsAcyclic (insert caller target g)
  insert-IsAcyclic acyclic apart a w = elim (split w) [
    | inl old ↦ acyclic a old
    | inr (l, r) ↦ apart (Leads-trans r l)
  ]

pub delete-Waits :
    (k : ℕ) (g : Graph) → Distinct (keys g) → {a b : ℕ} → Waits (delete k g) a b → Waits g a b
delete-Waits k g d (edge {a} {b} h) = edge (ground (arith, lookup-delete k a g d))
delete-Waits k g d (more {a} {b} h w) =
    more {b = b} (ground (arith, lookup-delete k a g d)) (delete-Waits k g d w)
