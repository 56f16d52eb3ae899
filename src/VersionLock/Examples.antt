-- ===== src/VersionLock/Examples.antt =====
-- Three versions start at the same time on a server that is a key with a counter.
use go_atomos.VersionLock.{plan, put, add_version, Lock, Server, try_locking, started, stopping}
use go_atomos.VersionLock.Laws.{IsServer}
use go_atomos.VersionLock.Transactions.{Stored}
use go_atomos.VersionLock.History.{Act, read, carry_out, lose, run, run-Stored}
use go_atomos.Common.{
  ℕ, suc, ◌≡◌, refl, sym, subst, Bool, true, false, Option, none, some, List, [], ◌∷◌, arith, ◌==◌,
  if◌then◌else◌, ==_refl,
}

abbrev Key : Type 0
Key = Option (Lock × ℕ)

abbrev put_absent : Lock → Key → Bool × Key
put_absent b none = (true, some (b, 1))
put_absent b (some e) = (false, some e)

abbrev put_version : ℕ → Lock → Key → Bool × Key
put_version k b none = (false, none)
put_version k b (some (c, n)) = if k == n then (true, some (b, suc n)) else (false, some (c, n))

abbrev a_server : Server Key Lock
a_server = record {
  get = λ s. s;
  put_if_absent = put_absent;
  put_if_version = put_version;
  marshal = λ l. l;
  unmarshal = λ b. some b;
}

a_server-IsServer : IsServer a_server
a_server-IsServer = record {
  absent_put = λ b s e.
      subst (λ x. ((put_absent b x).0 ≡ true) × ((put_absent b x).1 ≡ some (b, 1))) (sym e)
        (refl, refl);
  absent_kept = λ b c n s e.
      subst (λ x. ((put_absent b x).0 ≡ false) × ((put_absent b x).1 ≡ some (c, n))) (sym e)
        (refl, refl);
  version_put = λ b c n s e.
      subst (λ x. ((put_version n b x).0 ≡ true) × ((put_version n b x).1 ≡ some (b, suc n)))
        (sym e) (ground (arith, ==_refl n), ground (arith, ==_refl n));
  version_kept = λ b c n k s e apart.
      subst (λ x. ((put_version k b x).0 ≡ false) × ((put_version k b x).1 ≡ some (c, n))) (sym e)
        (ground (arith, apart), ground (arith, apart));
  version_absent = λ b k s e.
      subst (λ x. ((put_version k b x).0 ≡ false) × ((put_version k b x).1 ≡ none)) (sym e)
        (refl, refl);
  unmarshal-marshal = λ l. refl;
}

-- Two reads before either transaction, a lost one, and a stop.
abbrev acts : List Act
acts =
    read 1 (try_locking 7)
    ∷ read 2 (try_locking 8)
    ∷ carry_out 1
    ∷ carry_out 2
    ∷ read 2 (try_locking 8)
    ∷ read 1 (started 7)
    ∷ lose 1
    ∷ carry_out 2
    ∷ read 1 (started 7)
    ∷ carry_out 1
    ∷ read 1 (stopping 7)
    ∷ carry_out 1
    ∷ []

run-Stored_example :
    let σ = run a_server acts (record { store = none; pending = λ p. none; live = [] }) in
    Stored a_server σ.live (a_server.get σ.store)
run-Stored_example = run-Stored a_server a_server-IsServer acts none refl

live_test :
    (run a_server acts (record { store = none; pending = λ p. none; live = [] })).live ≡ 8 ∷ []
unfolding run plan put add_version
live_test = refl
