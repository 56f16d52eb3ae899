-- ===== src/VersionLock/Laws.antt =====
-- What the lock relies on: transactions of etcd are compare-and-put on a key whose version counts its
-- changes, and json gives back what it was given.
use go_atomos.VersionLock.{Lock, Server}
use go_atomos.Common.{ℕ, suc, ◌≡◌, true, false, none, some, ◌==◌}

pub record IsServer {S B : Type 0} (srv : Server S B) : Type 0 where
  pub absent_put :
      (b : B) (s : S)
      → srv.get s ≡ none
      → ((srv.put_if_absent b s).0 ≡ true) × (srv.get (srv.put_if_absent b s).1 ≡ some (b, 1))
  pub absent_kept :
      (b c : B) (n : ℕ) (s : S)
      → srv.get s ≡ some (c, n)
      → ((srv.put_if_absent b s).0 ≡ false) × (srv.get (srv.put_if_absent b s).1 ≡ some (c, n))
  pub version_put :
      (b c : B) (n : ℕ) (s : S)
      → srv.get s ≡ some (c, n)
      → ((srv.put_if_version n b s).0 ≡ true)
        × (srv.get (srv.put_if_version n b s).1 ≡ some (b, suc n))
  pub version_kept :
      (b c : B) (n k : ℕ) (s : S)
      → srv.get s ≡ some (c, n)
      → (k == n) ≡ false
      → ((srv.put_if_version k b s).0 ≡ false)
        × (srv.get (srv.put_if_version k b s).1 ≡ some (c, n))
  pub version_absent :
      (b : B) (k : ℕ) (s : S)
      → srv.get s ≡ none
      → ((srv.put_if_version k b s).0 ≡ false) × (srv.get (srv.put_if_version k b s).1 ≡ none)
  pub unmarshal-marshal : (l : Lock) → srv.unmarshal (srv.marshal l) ≡ some l
