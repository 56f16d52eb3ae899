-- ===== src/Atom/Stop/Result.antt =====
-- The stop as a whole, as the senders of the mails that were left see it.
use go_atomos.Task.Returns.{NoCron}
use go_atomos.Atom.{
  Atom, Mail, MailType, Holder, no_channel, mail_kill, mail_sync, mail_async,
  mail_on_async_callback, mail_wormhole, mail_task, mail_task_callback,
}
use go_atomos.Atom.Stop.{Cancelled, refusal, no_error, stop_mail, stop_mails, left, left_exit}
use go_atomos.Atom.Stop.Answers.{
  reply_due, due_by, Ends, IsCalm, reply-Ends, stop_mail-split, ToldBy, IsTold, IsTold-Keeps, Keeps,
  Keeps-refl, Keeps-trans, stop_mail-Keeps, refused-Ends, cancel_left-Keeps,
}
use go_atomos.Common.{
  ℕ, ◌≡◌, ◌≢◌, refl, ap, sym, subst, ◌∙◌, true, false, Option, none, some, List, [], ◌∷◌, ◌++◌,
  arith, has,
}

-- The addresses of mails.
abbrev pub refs : List Mail → List ℕ
refs [] = []
refs (m ∷ ms) = m.ref ∷ refs ms

module _ (h : Holder) (calm : IsCalm h) where
  Ends-weaken :
      (P Q : Atom → Type 0) (o : Option Cancelled) → ((b : Atom) → P b → Q b) → Ends P o → Ends Q o
  Ends-weaken P Q none f e = e
  Ends-weaken P Q (some (ids, b)) f e = (e.0, f b e.1)

  left-Told :
      (t : MailType) (m : Mail) (ids : List ℕ) (a : Atom)
      → (due_by t false ≡ true → a.wait_ch m.ref ≢ no_channel)
      → NoCron a.inner.task
      → Ends (ToldBy t false m) (left h t m (ids, a))
  unfolding left
  left-Told mail_kill m ids a waits n = reply-Ends h calm m refusal a ids (waits refl) n
  left-Told mail_sync m ids a waits n = reply-Ends h calm m refusal a ids (waits refl) n
  left-Told mail_wormhole m ids a waits n = reply-Ends h calm m refusal a ids (waits refl) n
  left-Told mail_async m ids a waits n = refused-Ends h calm m ids a n
  left-Told mail_on_async_callback m ids a waits n = (n, tt)
  left-Told mail_task m ids a waits n =
      Ends-weaken (Keeps m.ref a) (λ b. Unit) (left h mail_task m (ids, a)) (λ b k. tt)
        (cancel_left-Keeps m.ref m (ids, a) n)
  left-Told mail_task_callback m ids a waits n = (calm m a.inner n, tt)

  left_exit-Told :
      (t : MailType) (m : Mail) (ids : List ℕ) (a : Atom)
      → (due_by t true ≡ true → a.wait_ch m.ref ≢ no_channel)
      → NoCron a.inner.task
      → Ends (ToldBy t true m) (left_exit h t m (ids, a))
  unfolding left_exit
  left_exit-Told mail_kill m ids a waits n = reply-Ends h calm m no_error a ids (waits refl) n
  left_exit-Told mail_sync m ids a waits n = (n, tt)
  left_exit-Told mail_async m ids a waits n = (n, tt)
  left_exit-Told mail_on_async_callback m ids a waits n = (n, tt)
  left_exit-Told mail_wormhole m ids a waits n = (n, tt)
  left_exit-Told mail_task m ids a waits n = (n, tt)
  left_exit-Told mail_task_callback m ids a waits n = (n, tt)

  stop_mail-IsTold :
      (m : Mail) (ids : List ℕ) (a : Atom)
      → (reply_due m ≡ true → a.wait_ch m.ref ≢ no_channel)
      → NoCron a.inner.task
      → Ends (IsTold m) (stop_mail h m (ids, a))
  stop_mail-IsTold m ids a waits n =
      stop_mail-split h calm (Ends (IsTold m)) m (ids, a)
        (λ e.
          subst (λ b. Ends (ToldBy m.mail_type b m) (left_exit h m.mail_type m (ids, a))) (sym e)
            (left_exit-Told m.mail_type m ids a (λ due. waits (ap (due_by m.mail_type) e ∙ due)) n))
        (λ e.
          subst (λ b. Ends (ToldBy m.mail_type b m) (left h m.mail_type m (ids, a))) (sym e)
            (left-Told m.mail_type m ids a (λ due. waits (ap (due_by m.mail_type) e ∙ due)) n))

  -- A step, and the rest of the loop after it.
  rest-Ends :
      (P Q : Atom → Type 0) (ms : List Mail) (o : Option Cancelled)
      → Ends P o
      → ((ids : List ℕ) (b : Atom) → NoCron b.inner.task → P b → Ends Q (stop_mails h ms (ids, b)))
      → Ends Q (elim o [ none ↦ none | some d ↦ stop_mails h ms d ])
  rest-Ends P Q ms none e go_on = e
  rest-Ends P Q ms (some (ids, b)) e go_on = go_on ids b e.0 e.1

  pub stop_mails-Keeps :
      (k : ℕ) (ms : List Mail) (ids : List ℕ) (a : Atom)
      → has k (refs ms) ≡ false
      → NoCron a.inner.task
      → Ends (Keeps k a) (stop_mails h ms (ids, a))
  unfolding stop_mails
  stop_mails-Keeps k [] ids a apart n = (n, Keeps-refl k a)
  stop_mails-Keeps k (m ∷ ms) ids a apart n =
      rest-Ends (Keeps k a) (Keeps k a) ms (stop_mail h m (ids, a))
        (stop_mail-Keeps h calm k m ids a (ground arith) n)
        (λ js b nb f.
          Ends-weaken (Keeps k b) (Keeps k a) (stop_mails h ms (js, b))
            (λ c g. Keeps-trans k a b c f g) (stop_mails-Keeps k ms js b (ground arith) nb))

  -- A mail among those that were left, whose address no other has.
  pub stop_mails-IsTold :
      (before : List Mail) (m : Mail) (after : List Mail) (ids : List ℕ) (a : Atom)
      → has m.ref (refs before) ≡ false
      → has m.ref (refs after) ≡ false
      → (reply_due m ≡ true → a.wait_ch m.ref ≢ no_channel)
      → NoCron a.inner.task
      → Ends (IsTold m) (stop_mails h (before ++ m ∷ after) (ids, a))
  unfolding stop_mails
  stop_mails-IsTold [] m after ids a not_before not_after waits n =
      rest-Ends (IsTold m) (IsTold m) after (stop_mail h m (ids, a))
        (stop_mail-IsTold m ids a waits n)
        (λ js b nb told.
          Ends-weaken (Keeps m.ref b) (IsTold m) (stop_mails h after (js, b))
            (λ c k. IsTold-Keeps m b c k told) (stop_mails-Keeps m.ref after js b not_after nb))
  stop_mails-IsTold (x ∷ before) m after ids a not_before not_after waits n =
      rest-Ends (Keeps m.ref a) (IsTold m) (before ++ m ∷ after) (stop_mail h x (ids, a))
        (stop_mail-Keeps h calm m.ref x ids a (ground arith) n)
        (λ js b nb k.
          stop_mails-IsTold before m after js b (ground arith) not_after
            (λ due closed. waits due (sym k.0.0 ∙ closed)) nb)
