-- ===== src/Mailbox/Push.antt =====
-- Pushing a mail of mail.go, at either end.
use go_atomos.Common.{
  sym, suc, ◌<◌, ◌≡◌, ◌≢◌, refl, true, false, List, [], ◌∷◌, ◌++◌, arith, length, length-append,
  has, last_or-append, Distinct-snoc,
}
use go_atomos.Mailbox.{Ptr, nil, u32_mod, State, done, write, push_head, push_tail}
use go_atomos.Mailbox.Queue.{Chain-cons, last-ne-nil, IsBox, Kept, Chain-snoc}

-- A mail that a box may take: not `nil`, not in the box, and leading nowhere.
pub record IsFree (σ : State) (ps : List Ptr) (m : Ptr) : Type 0 where
  pub not_nil : m ≢ nil
  pub outside : has m ps ≡ false
  pub unlinked : (σ.mail m).next ≡ nil
  pub room : suc (length ps) < u32_mod

-- On a running mailbox that holds `ps`, fewer than 2^32 - 1 mails, `pushTail` of an unlinked
-- mail outside it succeeds, and the mailbox then holds `ps` and behind them the mail; no mail
-- changes but in its `next`.
pub push_tail_lem :
    (σ : State) (ps : List Ptr) (m : Ptr)
    → σ.running ≡ true
    → IsBox σ ps
    → IsFree σ ps m
    → (τ : State) × (push_tail m σ ≡ done true τ) × IsBox τ (ps ++ m ∷ []) × Kept σ τ
unfolding push_tail
push_tail_lem σ [] m run b f = (
  record σ { num = 1; head = m; tail = m },
  ground arith,
  record {
    chain = ground arith;
    last = refl;
    distinct = (refl, tt);
    counted = refl;
    small = omega arith;
  },
  ground arith,
)
push_tail_lem σ (p ∷ ps) m run b f =
    let tail_pos : σ.tail ≢ nil = rw b.last (last-ne-nil σ.mail σ.head p ps b.chain) in
    (
      record σ {
        mail = write σ.mail σ.tail (record (σ.mail σ.tail) { next = m });
        num = suc (suc (length ps));
        tail = m;
      },
      ground arith,
      record {
        chain =
            Chain-snoc σ.mail σ.head m σ.tail p ps b.last b.chain b.distinct f.not_nil f.outside
              f.unlinked;
        last = sym (last_or-append p ps m);
        distinct = Distinct-snoc (p ∷ ps) m b.distinct f.outside;
        counted = omega (arith, length-append ps (m ∷ []));
        small = omega (arith, length-append ps (m ∷ []), f.room);
      },
      unfold write in ground arith,
    )

-- On a running mailbox that holds `ps`, fewer than 2^32 - 1 mails, `pushHead` of an unlinked
-- mail outside it succeeds, and the mailbox then holds the mail and behind it `ps`; no mail
-- changes but in its `next`.
pub push_head_lem :
    (σ : State) (ps : List Ptr) (m : Ptr)
    → σ.running ≡ true
    → IsBox σ ps
    → IsFree σ ps m
    → (τ : State) × (push_head m σ ≡ done true τ) × IsBox τ (m ∷ ps) × Kept σ τ
unfolding push_head
push_head_lem σ [] m run b f = (
  record σ { num = 1; head = m; tail = m },
  ground arith,
  record {
    chain = ground arith;
    last = refl;
    distinct = ground arith;
    counted = refl;
    small = omega arith;
  },
  ground arith,
)
push_head_lem σ (p ∷ ps) m run b f = (
  record σ {
    mail = write σ.mail m (record (σ.mail m) { next = σ.head });
    num = suc (suc (length ps));
    head = m;
  },
  ground arith,
  record {
    chain = Chain-cons σ.mail m σ.head (p ∷ ps) f.not_nil f.outside b.chain;
    last = b.last;
    distinct = (f.outside, b.distinct);
    counted = refl;
    small = f.room;
  },
  unfold write in ground arith,
)
