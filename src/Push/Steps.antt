-- ===== src/Push/Steps.antt =====
-- The mails of an atom that are addressed by numbers below `next`: those that wait, those that it has
-- taken and those that a timeout took out of its mailbox.
use mathlib.Core.Bool.{false≢true}
use go_atomos.Common.{
  subst, ◌∙◌, ℕ, suc, ◌<◌, ◌≡◌, inl, inr, sym, true, false, List, [], ◌∷◌, ◌++◌, arith, ◌==◌, ==→eq,
  Bool-cases, has, Distinct, has-append, Distinct-snoc, without, has-without_self, has-without_ne,
  erase_first-Distinct,
}

pub record AreApart (box : List ℕ) (next : ℕ) (handled rejected : List ℕ) : Type 0 where
  pub distinct : Distinct box
  pub waiting_old : (m : ℕ) → has m box ≡ true → m < next
  pub handled_old : (m : ℕ) → has m handled ≡ true → m < next
  pub rejected_old : (m : ℕ) → has m rejected ≡ true → m < next
  pub waiting_handled : (m : ℕ) → has m box ≡ true → has m handled ≡ false
  pub waiting_rejected : (m : ℕ) → has m box ≡ true → has m rejected ≡ false
  pub handled_rejected : (m : ℕ) → has m handled ≡ true → has m rejected ≡ false

module _ {box : List ℕ} {n : ℕ} {h r : List ℕ} (a : AreApart box n h r) where
  pub skip-AreApart : AreApart box (suc n) h r
  skip-AreApart = record {
    distinct = a.distinct;
    waiting_old = λ m i. omega (arith, a.waiting_old m i);
    handled_old = λ m i. omega (arith, a.handled_old m i);
    rejected_old = λ m i. omega (arith, a.rejected_old m i);
    waiting_handled = a.waiting_handled;
    waiting_rejected = a.waiting_rejected;
    handled_rejected = a.handled_rejected;
  }

  new_waiting : has n box ≡ false
  new_waiting = elim (Bool-cases (has n box)) [
    | inl e ↦ absurd (omega (arith, a.waiting_old n e))
    | inr e ↦ e
  ]

  new_handled : has n h ≡ false
  new_handled = elim (Bool-cases (has n h)) [
    | inl e ↦ absurd (omega (arith, a.handled_old n e))
    | inr e ↦ e
  ]

  new_rejected : has n r ≡ false
  new_rejected = elim (Bool-cases (has n r)) [
    | inl e ↦ absurd (omega (arith, a.rejected_old n e))
    | inr e ↦ e
  ]

  -- A mailbox with the same mails and the new one.
  grow-AreApart :
      (bigger : List ℕ)
      → Distinct bigger
      → ((m : ℕ) → (m == n) ≡ false → has m bigger ≡ has m box)
      → AreApart bigger (suc n) h r
  grow-AreApart bigger d same = record {
    distinct = d;
    waiting_old = λ m i. elim (Bool-cases (m == n)) [
      | inl e ↦ omega (arith, ==→eq m n e)
      | inr e ↦ omega (arith, a.waiting_old m (sym (same m e) ∙ i))
    ];
    handled_old = λ m i. omega (arith, a.handled_old m i);
    rejected_old = λ m i. omega (arith, a.rejected_old m i);
    waiting_handled = λ m i. elim (Bool-cases (m == n)) [
      | inl e ↦ subst (λ k. has k h ≡ false) (sym (==→eq m n e)) new_handled
      | inr e ↦ a.waiting_handled m (sym (same m e) ∙ i)
    ];
    waiting_rejected = λ m i. elim (Bool-cases (m == n)) [
      | inl e ↦ subst (λ k. has k r ≡ false) (sym (==→eq m n e)) new_rejected
      | inr e ↦ a.waiting_rejected m (sym (same m e) ∙ i)
    ];
    handled_rejected = a.handled_rejected;
  }

  pub head-AreApart : AreApart (n ∷ box) (suc n) h r
  head-AreApart = grow-AreApart (n ∷ box) (new_waiting, a.distinct) (λ m e. ground arith)

  pub tail-AreApart : AreApart (box ++ n ∷ []) (suc n) h r
  tail-AreApart =
      grow-AreApart (box ++ n ∷ []) (Distinct-snoc box n a.distinct new_waiting)
        (λ m e. ground (arith, has-append m box (n ∷ [])))

  pub reject-AreApart : (x : ℕ) → has x box ≡ true → AreApart (without x box) n h (x ∷ r)
  reject-AreApart x i = record {
    distinct = erase_first-Distinct (λ k. k == x) box a.distinct;
    waiting_old = λ m j. a.waiting_old m (stays m j);
    handled_old = a.handled_old;
    rejected_old = λ m j. elim (Bool-cases (m == x)) [
      | inl e ↦ omega (arith, ==→eq m x e, a.waiting_old x i)
      | inr e ↦ a.rejected_old m (ground arith)
    ];
    waiting_handled = λ m j. a.waiting_handled m (stays m j);
    waiting_rejected = λ m j. ground (arith, a.waiting_rejected m (stays m j), other m j);
    handled_rejected = λ m j. elim (Bool-cases (m == x)) [
      | inl e ↦
          absurd
            (ground (arith, a.waiting_handled x i, subst (λ k. has k h ≡ true) (==→eq m x e) j))
      | inr e ↦ ground (arith, a.handled_rejected m j)
    ];
  }
    where
      other : (m : ℕ) → has m (without x box) ≡ true → (m == x) ≡ false
      other m j = elim (Bool-cases (m == x)) [
        | inl e ↦ absurd (
            false≢true (
              sym (has-without_self x box a.distinct)
              ∙ subst (λ k. has k (without x box) ≡ true) (==→eq m x e) j))
        | inr e ↦ e
      ]

      stays : (m : ℕ) → has m (without x box) ≡ true → has m box ≡ true
      stays m j = sym (has-without_ne m x box (other m j)) ∙ j

-- The atom takes the first mail.
pub take-AreApart :
    {m : ℕ} {ms : List ℕ} {n : ℕ} {h r : List ℕ} → AreApart (m ∷ ms) n h r → AreApart ms n (m ∷ h) r
take-AreApart {m = m} {ms = ms} {h = h} {r = r} a = record {
  distinct = a.distinct.1;
  waiting_old = λ k i. a.waiting_old k (ground arith);
  handled_old = λ k i. elim (Bool-cases (k == m)) [
    | inl e ↦ a.waiting_old k (ground arith)
    | inr e ↦ a.handled_old k (ground arith)
  ];
  rejected_old = a.rejected_old;
  waiting_handled = λ k i. elim (Bool-cases (k == m)) [
    | inl e ↦ absurd (ground (arith, a.distinct.0, subst (λ q. has q ms ≡ true) (==→eq k m e) i))
    | inr e ↦ ground (arith, a.waiting_handled k (ground arith))
  ];
  waiting_rejected = λ k i. a.waiting_rejected k (ground arith);
  handled_rejected = λ k i. elim (Bool-cases (k == m)) [
    | inl e ↦ a.waiting_rejected k (ground arith)
    | inr e ↦ a.handled_rejected k (ground arith)
  ];
}

-- The stop of the atom takes all of them.
pub stop-AreApart :
    (box : List ℕ) {n : ℕ} {h r : List ℕ} → AreApart box n h r → AreApart [] n (box ++ h) r
stop-AreApart box {h = h} a = record {
  distinct = tt;
  waiting_old = λ m i. absurd (false≢true i);
  handled_old = λ m i. elim (Bool-cases (has m box)) [
    | inl e ↦ a.waiting_old m e
    | inr e ↦ a.handled_old m (ground (arith, has-append m box h))
  ];
  rejected_old = a.rejected_old;
  waiting_handled = λ m i. absurd (false≢true i);
  waiting_rejected = λ m i. absurd (false≢true i);
  handled_rejected = λ m i. elim (Bool-cases (has m box)) [
    | inl e ↦ a.waiting_rejected m e
    | inr e ↦ a.handled_rejected m (ground (arith, has-append m box h))
  ];
}
