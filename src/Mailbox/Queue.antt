-- ===== src/Mailbox/Queue.antt =====
-- The queue that a mailbox of mail.go stands for: the mails that `head` leads to, in order.
use go_atomos.Common.{
  ==_refl, ◌<◌, ◌≡◌, ◌≢◌, refl, true, false, List, [], ◌∷◌, ◌++◌, arith, ◌==◌, length, has, last_or,
  Distinct,
}
use go_atomos.Mailbox.{Ptr, nil, u32_mod, Mail, State, write}

-- From `p` the `next` fields lead through `ps` to `nil`.
abbrev pub Chain : (Ptr → Mail) → Ptr → List Ptr → Type 0
Chain mail p [] = p ≡ nil
Chain mail p (q ∷ qs) = (p ≡ q) × (q ≢ nil) × Chain mail (mail q).next qs

-- The mailbox holds exactly the mails `ps`. The counter is exact below 2^32 mails.
pub record IsBox (σ : State) (ps : List Ptr) : Type 0 where
  pub chain : Chain σ.mail σ.head ps
  pub last : σ.tail ≡ last_or nil ps
  pub distinct : Distinct ps
  pub counted : σ.num ≡ length ps
  pub small : length ps < u32_mod

-- A mail keeps all but its `next`.
abbrev pub SameMail : Mail → Mail → Type 0
SameMail m n = (m.id ≡ n.id) × (m.payload ≡ n.payload) × (m.alloc_mode ≡ n.alloc_mode)

-- Every mail keeps all but its `next`, and the state all but its queue.
pub record Kept (σ τ : State) : Type 0 where
  pub mails : (p : Ptr) → SameMail (σ.mail p) (τ.mail p)
  pub pool : τ.pool ≡ σ.pool
  pub debug : τ.debug ≡ σ.debug
  pub running : τ.running ≡ σ.running

-- A chain does not see a write to a mail outside it.
pub Chain-write :
    (mail : Ptr → Mail) (p a : Ptr) (ps : List Ptr) (m : Mail)
    → has a ps ≡ false
    → Chain mail p ps
    → Chain (write mail a m) p ps
unfolding write
Chain-write mail p a [] m out c = c
Chain-write mail p a (q ∷ qs) m out c =
    let miss : (q == a) ≡ false = ground arith in
    (c.0, c.1, rw miss (Chain-write mail (mail q).next a qs m (ground arith) c.2))

-- A mail linked to the start of a chain starts a longer one.
pub Chain-cons :
    (mail : Ptr → Mail) (m p : Ptr) (ps : List Ptr)
    → m ≢ nil
    → has m ps ≡ false
    → Chain mail p ps
    → Chain (write mail m (record (mail m) { next = p })) m (m ∷ ps)
unfolding write
Chain-cons mail m p ps pos out c =
    (refl, pos, rw (==_refl m) (Chain-write mail p m ps (record (mail m) { next = p }) out c))

pub last-has : (q : Ptr) (qs : List Ptr) → has (last_or q qs) (q ∷ qs) ≡ true
last-has q [] = ground arith
last-has q (r ∷ rs) = ground (arith, last-has r rs)

-- Linking the last mail `t` to a new one makes the chain longer by it.
pub Chain-snoc :
    (mail : Ptr → Mail) (p m t q : Ptr) (qs : List Ptr)
    → t ≡ last_or q qs
    → Chain mail p (q ∷ qs)
    → Distinct (q ∷ qs)
    → m ≢ nil
    → has m (q ∷ qs) ≡ false
    → (mail m).next ≡ nil
    → Chain (write mail t (record (mail t) { next = m })) p (q ∷ qs ++ m ∷ [])
unfolding write
Chain-snoc mail p m t q [] e c d pos out free = (c.0, c.1, (ground arith, pos, ground arith))
Chain-snoc mail p m t q (r ∷ rs) e c d pos out free =
    let miss : (q == t) ≡ false = ground (arith, last-has r rs, d.0) in
    (c.0, c.1, rw miss (Chain-snoc mail (mail q).next m t r rs e c.2 d.1 pos (ground arith) free))

pub IsBox-nil : {σ : State} {ps : List Ptr} → IsBox σ ps → σ.head ≡ nil → ps ≡ []
IsBox-nil {ps = []} b e = refl
IsBox-nil {ps = p ∷ ps} b e = ground (arith, b.chain.0, b.chain.1)

pub last-ne-nil :
    (mail : Ptr → Mail) (p q : Ptr) (qs : List Ptr) → Chain mail p (q ∷ qs) → last_or q qs ≢ nil
last-ne-nil mail p q [] c = c.1
last-ne-nil mail p q (r ∷ rs) c = last-ne-nil mail (mail q).next r rs c.2
