-- ===== src/Mailbox/Release.antt =====
-- Giving mails of mail.go back: `releaseMail`, and the loop over the mails that a stop leaves.
use go_atomos.Common.{
  ℕ, zero, suc, ◌<◌, ◌≡◌, ◌≢◌, refl, true, false, List, [], ◌∷◌, arith, ◌==◌, length, has, Distinct,
}
use go_atomos.Mailbox.{
  Ptr, nil, Mail, State, AllocMode, plain, pooled, tracked, empty, done, write, release_loop,
  drop_key,
}
use go_atomos.Mailbox.Queue.{Chain}

-- If the first of the remaining mails came from the pool, the release loop returns that mail to
-- the pool and no other, however many follow: `releaseMail` clears `next` before the loop reads
-- it.
pub release_loop-pooled :
    (fuel p : ℕ) (σ : State)
    → p ≢ nil
    → (σ.mail p).alloc_mode ≡ pooled
    → (τ : State) × (release_loop (suc (suc fuel)) p σ ≡ done tt τ) × (τ.pool ≡ p ∷ σ.pool)
unfolding release_loop write
release_loop-pooled fuel p σ pos mode = (
  record σ {
    mail = write σ.mail p (record (σ.mail p) { next = nil; id = 0; payload = empty });
    pool = p ∷ σ.pool;
  },
  ground arith,
  refl,
)

-- Each of `ps` was allocated in the mode.
abbrev pub AllMode : AllocMode → (Ptr → Mail) → List Ptr → Type 0
AllMode mode mail [] = Unit {0}
AllMode mode mail (p ∷ ps) = ((mail p).alloc_mode ≡ mode) × AllMode mode mail ps

abbrev pub drop_keys : List Ptr → List Ptr → List Ptr
drop_keys [] ds = ds
drop_keys (p ∷ ps) ds = drop_keys ps (drop_key p ds)

abbrev AllIn : List Ptr → List Ptr → Type 0
AllIn [] ds = Unit {0}
AllIn (p ∷ ps) ds = (has p ds ≡ true) × AllIn ps ds

has-drop_key :
    (a p : ℕ) (ds : List Ptr) → (a == p) ≡ false → has a ds ≡ true → has a (drop_key p ds) ≡ true
unfolding drop_key
has-drop_key a p [] ne h = h
has-drop_key a p (d ∷ ds) ne h = ground (arith, has-drop_key a p ds)

AllIn-drop_key :
    (p : Ptr) (ps ds : List Ptr) → has p ps ≡ false → AllIn ps ds → AllIn ps (drop_key p ds)
AllIn-drop_key p [] ds out h = tt
AllIn-drop_key p (q ∷ qs) ds out h =
    (has-drop_key q p ds (ground arith) h.0, AllIn-drop_key p qs ds (ground arith) h.1)

-- If the remaining mails are distinct, were allocated in debug mode and are all in the debug
-- map, the release loop, with more fuel than there are mails, returns and has taken each of them
-- out of the map; it changes nothing else.
pub release_loop-tracked :
    (fuel p : ℕ) (ps : List Ptr) (σ : State)
    → length ps < fuel
    → Chain σ.mail p ps
    → Distinct ps
    → AllMode tracked σ.mail ps
    → AllIn ps σ.debug
    → release_loop fuel p σ ≡ done tt (record σ { debug = drop_keys ps σ.debug })
unfolding release_loop
release_loop-tracked zero p ps σ f c d m i = absurd (omega arith)
release_loop-tracked (suc fuel) p [] σ f c d m i = rw c
release_loop-tracked (suc fuel) p (q ∷ qs) σ f c d m i = ground (
  arith,
  release_loop-tracked fuel (σ.mail q).next qs (record σ { debug = drop_key q σ.debug })
      (omega arith) c.2 d.1 m.1 (AllIn-drop_key q qs σ.debug d.0 i.1),
)

-- A mail that was not allocated from the pool is left to the garbage collector.
pub release_loop-plain :
    (fuel p : ℕ) (ps : List Ptr) (σ : State)
    → length ps < fuel
    → Chain σ.mail p ps
    → AllMode plain σ.mail ps
    → release_loop fuel p σ ≡ done tt σ
unfolding release_loop
release_loop-plain zero p ps σ f c m = absurd (omega arith)
release_loop-plain (suc fuel) p [] σ f c m = rw c
release_loop-plain (suc fuel) p (q ∷ qs) σ f c m =
    ground (arith, release_loop-plain fuel (σ.mail q).next qs σ (omega arith) c.2 m.1)
