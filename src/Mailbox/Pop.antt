-- ===== src/Mailbox/Pop.antt =====
-- Taking mails of mail.go out at the head: `waitPop`, `popAll`, and the look-up `getByID`.
use go_atomos.Common.{
  ℕ, zero, suc, ◌+◌, ◌<◌, ◌≡◌, ◌≢◌, refl, Bool, Option, none, some, List, [], ◌∷◌, arith, ◌==◌,
  length, last_or, find,
}
use go_atomos.Mailbox.{
  ◌==◌, some, Bool, ◌≡◌, ◌∷◌, Option, ℕ, [], List, Ptr, nil, State, done, waits, write, wait_pop,
  pop_all, get_by_id_loop, get_by_id,
}
use go_atomos.Mailbox.Queue.{Chain, IsBox, Kept, Chain-write, last-has}

-- On a mailbox with a first mail, `waitPop` returns it without waiting, unlinked, and leaves the
-- others in their order; no mail changes but in its `next`.
pub wait_pop_lem :
    (σ : State) (p : Ptr) (ps : List Ptr)
    → IsBox σ (p ∷ ps)
    → (τ : State) × (wait_pop σ ≡ done p τ) × IsBox τ ps × Kept σ τ × ((τ.mail p).next ≡ nil)
unfolding wait_pop write
wait_pop_lem σ p [] b = (
  record σ {
    mail = write σ.mail p (record (σ.mail p) { next = nil });
    num = 0;
    head = nil;
    tail = nil;
  },
  ground arith,
  record { chain = refl; last = refl; distinct = tt; counted = refl; small = omega arith },
  ground arith,
  ground arith,
)
wait_pop_lem σ p (q ∷ qs) b =
    let apart : p ≢ last_or q qs = λ e. ground (arith, last-has q qs, b.distinct.0) in
    (
      record σ {
        mail = write σ.mail p (record (σ.mail p) { next = nil });
        num = suc (length qs);
        head = (σ.mail p).next;
      },
      ground arith,
      record {
        chain =
            Chain-write σ.mail (σ.mail p).next p (q ∷ qs) (record (σ.mail p) { next = nil })
              b.distinct.0 b.chain.2;
        last = b.last;
        distinct = b.distinct.1;
        counted = refl;
        small = omega (arith, b.small);
      },
      ground arith,
      ground arith,
    )

pub wait_pop-waits : (σ : State) → IsBox σ [] → wait_pop σ ≡ waits σ
unfolding wait_pop
wait_pop-waits σ b = ground arith

-- `popAll` returns the head of the chain and the number of its mails, leaves the heap as it is,
-- so the chain can be followed, and the mailbox empty.
pub pop_all_lem :
    (σ : State) (ps : List Ptr)
    → IsBox σ ps
    → (τ : State) × (pop_all σ ≡ done (σ.head, length ps) τ)
      × IsBox τ []
      × (τ.mail ≡ σ.mail)
      × Kept σ τ
unfolding pop_all
pop_all_lem σ [] b = (σ, ground arith, b, refl, ground arith)
pop_all_lem σ (p ∷ ps) b = (
  record σ { num = 0; head = nil; tail = nil },
  ground arith,
  record { chain = refl; last = refl; distinct = tt; counted = refl; small = omega arith },
  refl,
  ground arith,
)

-- The test of `getByID` and `popByID`.
abbrev pub has_id : State → ℕ → Ptr → Bool
has_id σ id p = (σ.mail p).id == id

abbrev pub or_nil : Option Ptr → Ptr
or_nil none = nil
or_nil (some p) = p

get_by_id_loop_lem :
    (σ : State) (id fuel p : ℕ) (ps : List Ptr)
    → length ps < fuel
    → Chain σ.mail p ps
    → get_by_id_loop id fuel p σ ≡ done (or_nil (find (has_id σ id) ps)) σ
unfolding get_by_id_loop
get_by_id_loop_lem σ id zero p ps h c = absurd (omega arith)
get_by_id_loop_lem σ id (suc fuel) p [] h c = rw c
get_by_id_loop_lem σ id (suc fuel) p (q ∷ qs) h c =
    ground (arith, get_by_id_loop_lem σ id fuel (σ.mail q).next qs (omega arith) c.2)

pub get_by_id_lem :
    (σ : State) (id : ℕ) (ps : List Ptr)
    → IsBox σ ps
    → get_by_id id σ ≡ done (or_nil (find (has_id σ id) ps)) σ
unfolding get_by_id
get_by_id_lem σ id ps b =
    get_by_id_loop_lem σ id (σ.num + 1) σ.head ps (omega (arith, b.counted)) b.chain
