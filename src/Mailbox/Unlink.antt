-- ===== src/Mailbox/Unlink.antt =====
-- Taking a mail of mail.go out of the middle: `popByID` and `removeMail`.
use go_atomos.Common.{
  length-erase_first-le, erase_first-Distinct, has-erase_first, ℕ, zero, suc, ◌+◌, ◌-◌, ◌≤◌, ◌<◌,
  ◌≡◌, ◌≢◌, inl, inr, refl, ap, ◌∙◌, Bool, false, not, List, [], ◌∷◌, arith, ◌==◌, ==_ne,
  Bool-cases, length, last_or, find, erase_first, has, Distinct,
}
use go_atomos.Mailbox.{
  Ptr, nil, u32_mod, Mail, State, done, write, unlink, unlink_loop, pop_by_id, remove_mail,
}
use go_atomos.Mailbox.Queue.{Chain, IsBox, Kept, Chain-write, Chain-cons, last-has}
use go_atomos.Mailbox.Pop.{or_nil, has_id}

-- What the search behind the mail `prev` comes to, when `ps` follows it.
record Unlinked (σ τ : State) (prev : Ptr) (ps rest : List Ptr) (m : Ptr) : Type 0 where
  chain : Chain τ.mail prev (prev ∷ rest)
  last : τ.tail ≡ last_or prev rest
  head : τ.head ≡ σ.head
  counted : τ.num + length ps ≡ σ.num + length rest
  same : (p : Ptr) → has p (prev ∷ ps) ≡ false → τ.mail p ≡ σ.mail p
  kept : Kept σ τ
  loose : m ≢ nil → (τ.mail m).next ≡ nil

module _ (hit : Ptr → Mail → Bool) (σ : State) where
  abbrev hits : Ptr → Bool
  hits p = hit p (σ.mail p)

  unlink_lem :
      (prev m : Ptr) (qs : List Ptr)
      → Chain σ.mail prev (prev ∷ m ∷ qs)
      → Distinct (prev ∷ m ∷ qs)
      → σ.tail ≡ last_or m qs
      → length (m ∷ qs) ≤ σ.num
      → σ.num < u32_mod
      → (τ : State) × (unlink prev m σ ≡ done m τ) × Unlinked σ τ prev (m ∷ qs) qs m
  unfolding unlink write
  unlink_lem prev m [] c d e n s = (
    record σ {
      mail =
          write
            (write (write σ.mail prev (record (σ.mail prev) { next = (σ.mail m).next })) prev
              (record (σ.mail prev) { next = nil }))
            m (record (σ.mail m) { next = nil });
      num = σ.num - 1;
      tail = prev;
    },
    ground arith,
    record {
      chain = ground arith;
      last = refl;
      head = refl;
      counted = omega arith;
      same = λ p h. ground arith;
      kept = ground arith;
      loose = ground arith;
    },
  )
  unlink_lem prev m (q ∷ qs) c d e n s = (
    record σ {
      mail =
          write (write σ.mail prev (record (σ.mail prev) { next = (σ.mail m).next })) m
            (record (σ.mail m) { next = nil });
      num = σ.num - 1;
    },
    ground (arith, last-has q qs),
    record {
      chain =
          Chain-write (write σ.mail prev (record (σ.mail prev) { next = (σ.mail m).next })) prev m
            (prev ∷ q ∷ qs) (record (σ.mail m) { next = nil }) (ground arith)
            (Chain-cons σ.mail prev (σ.mail m).next (q ∷ qs) c.1 (ground arith) c.2.2);
      last = e;
      head = refl;
      counted = omega arith;
      same = λ p h. ground arith;
      kept = ground arith;
      loose = ground arith;
    },
  )

  Unlinked-cons :
      (τ : State) (prev q m : Ptr) (qs rest : List Ptr)
      → Chain σ.mail prev (prev ∷ q ∷ qs)
      → Distinct (prev ∷ q ∷ qs)
      → Unlinked σ τ q qs rest m
      → Unlinked σ τ prev (q ∷ qs) (q ∷ rest) m
  Unlinked-cons τ prev q m qs rest c d u = record {
    chain = (refl, c.1, rw (u.same prev d.0) (rw c.2.0 u.chain));
    last = u.last;
    head = u.head;
    counted = omega (arith, u.counted);
    same = λ p h. u.same p (ground arith);
    kept = u.kept;
    loose = u.loose;
  }

  unlink_loop_lem :
      (fuel prev : ℕ) (ps : List Ptr)
      → Chain σ.mail prev (prev ∷ ps)
      → Distinct (prev ∷ ps)
      → σ.tail ≡ last_or prev ps
      → length ps ≤ σ.num
      → σ.num < u32_mod
      → length ps < fuel
      → (τ : State) × (unlink_loop hit fuel prev (σ.mail prev).next σ
          ≡ done (or_nil (find hits ps)) τ)
        × Unlinked σ τ prev ps (erase_first hits ps) (or_nil (find hits ps))
  unfolding unlink_loop
  unlink_loop_lem zero prev ps c d e n s f = absurd (omega arith)
  unlink_loop_lem (suc fuel) prev [] c d e n s f = (
    σ,
    rw c.2,
    record {
      chain = c;
      last = e;
      head = refl;
      counted = refl;
      same = λ p h. refl;
      kept = ground arith;
      loose = λ h. absurd (h refl);
    },
  )
  unlink_loop_lem (suc fuel) prev (q ∷ qs) c d e n s f =
      let miss_nil : (q == nil) ≡ false = ==_ne q nil c.2.1 in
      elim (Bool-cases (hits q)) [
        | inl found ↦ rw (c.2.0, miss_nil, found) (unlink_lem prev q qs c d e n s)
        | inr other ↦
            let (τ, run, u) =
              unlink_loop_lem fuel q qs (refl, c.2.1, c.2.2) d.1 e (omega arith) s (omega arith) in
            rw (c.2.0, miss_nil, other)
              (
                τ,
                run,
                Unlinked-cons τ prev q (or_nil (find hits qs)) qs (erase_first hits qs) c d u,
              )
      ]

  first_lem :
      (p : Ptr) (ps : List Ptr)
      → IsBox σ (p ∷ ps)
      → (τ : State) × (unlink nil p σ ≡ done p τ) × IsBox τ ps × Kept σ τ × ((τ.mail p).next ≡ nil)
  unfolding unlink write
  first_lem p [] b = (
    record σ {
      mail = write σ.mail p (record (σ.mail p) { next = nil });
      num = 0;
      head = nil;
      tail = nil;
    },
    ground arith,
    record { chain = refl; last = refl; distinct = tt; counted = refl; small = omega arith },
    ground arith,
    ground arith,
  )
  first_lem p (q ∷ qs) b = (
    record σ {
      mail = write σ.mail p (record (σ.mail p) { next = nil });
      num = suc (length qs);
      head = (σ.mail p).next;
    },
    ground (arith, last-has q qs, b.distinct.0),
    record {
      chain =
          Chain-write σ.mail (σ.mail p).next p (q ∷ qs) (record (σ.mail p) { next = nil })
            b.distinct.0 b.chain.2;
      last = b.last;
      distinct = b.distinct.1;
      counted = refl;
      small = omega (arith, b.small);
    },
    ground arith,
    ground arith,
  )

  -- What a whole search does to the box.
  abbrev TakesOut : ℕ → Ptr → List Ptr → Type 0
  TakesOut fuel start ps =
      (τ : State) × (unlink_loop hit fuel nil start σ ≡ done (or_nil (find hits ps)) τ)
      × IsBox τ (erase_first hits ps)
      × Kept σ τ
      × (or_nil (find hits ps) ≢ nil → (τ.mail (or_nil (find hits ps))).next ≡ nil)

  behind_first :
      (τ : State) (p m : Ptr) (ps : List Ptr)
      → IsBox σ (p ∷ ps)
      → Unlinked σ τ p ps (erase_first hits ps) m
      → IsBox τ (p ∷ erase_first hits ps)
  behind_first τ p m ps b u = record {
    chain = rw (u.head, b.chain.0) u.chain;
    last = u.last;
    distinct = (has-erase_first hits p ps b.distinct.0, erase_first-Distinct hits ps b.distinct.1);
    counted = omega (arith, u.counted, b.counted);
    small = omega (arith, length-erase_first-le hits ps, b.small);
  }

  take_out :
      (fuel start : ℕ) (ps : List Ptr)
      → length ps < fuel
      → start ≡ σ.head
      → IsBox σ ps
      → TakesOut fuel start ps
  unfolding unlink_loop
  take_out zero start ps f e b = absurd (omega arith)
  take_out (suc fuel) start [] f e b =
      let at_nil : start ≡ nil = e ∙ b.chain in
      (σ, rw at_nil, b, ground arith, λ h. absurd (h refl))
  take_out (suc fuel) start (p ∷ ps) f e b =
      let at_p : start ≡ p = e ∙ b.chain.0 in
      let miss_nil : (p == nil) ≡ false = ==_ne p nil b.chain.1 in
      elim (Bool-cases (hits p)) [
        | inl found ↦
            let (τ, run, box, kept, loose) = first_lem p ps b in
            rw (at_p, miss_nil, found) (τ, run, box, kept, λ h. loose)
        | inr other ↦
            let (τ, run, u) =
              unlink_loop_lem fuel p ps (refl, b.chain.1, b.chain.2) b.distinct b.last
                (omega (arith, b.counted)) (omega (arith, b.counted, b.small)) (omega arith) in
            rw (at_p, miss_nil, other)
              (τ, run, behind_first τ p (or_nil (find hits ps)) ps b u, u.kept, u.loose)
      ]

-- A search by pointer finds a mail exactly when the chain has it.
found_lem :
    (mail : Ptr → Mail) (p dm : Ptr) (ps : List Ptr)
    → Chain mail p ps
    → not (or_nil (find (λ q. q == dm) ps) == nil) ≡ has dm ps
found_lem mail p dm [] c = refl
found_lem mail p dm (q ∷ qs) c = ground (arith, found_lem mail (mail q).next dm qs c.2)

module _ (σ : State) (ps : List Ptr) (b : IsBox σ ps) where
  -- On a mailbox that holds the mails `ps`, `popByID` returns the first mail with the id, or
  -- `nil` if there is none, and leaves the others in their order; no mail changes but in its
  -- `next`.
  pub pop_by_id-IsBox :
      (id : ℕ)
      → (τ : State) × (pop_by_id id σ ≡ done (or_nil (find (has_id σ id) ps)) τ)
        × IsBox τ (erase_first (has_id σ id) ps)
        × Kept σ τ
  unfolding pop_by_id
  pop_by_id-IsBox id =
      let (τ, run, box, kept, loose) =
        take_out (λ p m. m.id == id) σ (σ.num + 1) σ.head ps (omega (arith, b.counted)) refl b in
      (τ, run, box, kept)

  -- On a mailbox that holds the mails `ps`, `removeMail` says whether the mail was among them
  -- and leaves the others in their order; no mail changes but in its `next`.
  pub remove_mail-IsBox :
      (dm : Ptr)
      → (τ : State) × (remove_mail dm σ ≡ done (has dm ps) τ)
        × IsBox τ (erase_first (λ p. p == dm) ps)
        × Kept σ τ
  unfolding remove_mail
  remove_mail-IsBox dm =
      let (τ, run, box, kept, loose) =
        take_out (λ p m. p == dm) σ (σ.num + 1) σ.head ps (omega (arith, b.counted)) refl b in
      (τ, rw run (ap (λ r. done r τ) (found_lem σ.mail σ.head dm ps b.chain)), box, kept)
