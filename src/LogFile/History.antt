-- ===== src/LogFile/History.antt =====
-- Whatever is written, and whatever fails: the files that are open.
use go_atomos.Common.{
  ℕ, suc, ◌+◌, ◌≡◌, Bool, true, false, Option, none, some, List, [], ◌∷◌, arith, ltb, leb, ◌==◌,
  if◌then◌else◌,
}
use go_atomos.ErrorCode.{
  ErrorCode, err_app_env_logging_file_open_failed, err_app_env_logging_file_write_failed,
}
use go_atomos.LogFile.{
  Channel, Files, Answers, on_error, close_file, rotate, count_size, write_again, write_access_log,
  write_error_file, Log, write_error_log, close_channel, close, Act, writes_access, writes_error,
  closes_both, step, run, new_log,
}

-- How often a file was closed, and whether it is the file of a channel.
unfoldable pub times : ℕ → List ℕ → ℕ
times k [] = 0
times k (f ∷ fs) = (if k == f then 1 else 0) + times k fs

abbrev pub is_file : ℕ → Option ℕ → ℕ
is_file k none = 0
is_file k (some f) = if k == f then 1 else 0

-- Beside `rest`, each file that was opened is held by the channel or was closed, once.
Holds : (ℕ → ℕ) → Channel × Files → Type 0
Holds rest (c, d) =
    (k : ℕ) → (times k d.closed + is_file k c.file) + rest k ≡ (if ltb k d.next then 1 else 0)

module _ (rest : ℕ → ℕ) where
  on_error-Holds :
      (e : Option ErrorCode) (c : Channel) (d : Files)
      → Holds rest (c, d)
      → Holds rest (c, on_error e d)
  unfolding Holds on_error
  on_error-Holds none c d h = h
  on_error-Holds (some e) c d h = h

  replace-Holds :
      (closes : Bool) (old : Option ℕ) (size : ℕ) (d : Files)
      → Holds rest (record { file = old; size = size }, d)
      → Holds rest (
        record { file = some d.next; size = 0 },
        close_file closes old (record d { next = suc d.next }),
      )
  unfolding Holds close_file on_error times
  replace-Holds closes none size d h = λ k. ground (arith, h k)
  replace-Holds true (some f) size d h = λ k. ground (arith, h k)
  replace-Holds false (some f) size d h = λ k. ground (arith, h k)

  if-Holds :
      (b : Bool) (x y : Channel × Files)
      → Holds rest x
      → Holds rest y
      → Holds rest (if b then x else y)
  if-Holds true x y h g = h
  if-Holds false x y h g = g

  rotate-Holds :
      (a : Answers) (c : Channel) (d : Files) → Holds rest (c, d) → Holds rest (rotate a c d)
  unfolding rotate
  rotate-Holds a c d h =
      if-Holds a.opens _ _
        (on_error-Holds a.cleanup_after _ _ (replace-Holds a.closes c.file c.size d h))
        (on_error-Holds (some err_app_env_logging_file_open_failed) c d h)

  count_size-Holds :
      (max_size : ℕ) (a : Answers) (c : Channel) (d : Files)
      → Holds rest (c, d)
      → Holds rest (count_size max_size a c d)
  unfolding count_size Holds
  count_size-Holds max_size a c d h =
      if-Holds (leb max_size (c.size + a.written)) _ _
        (rotate-Holds a (record c { size = c.size + a.written }) d h) h

  write_again-Holds :
      (max_size : ℕ) (e : Option ErrorCode) (a : Answers) (c : Channel) (d : Files)
      → Holds rest (c, d)
      → Holds rest (write_again max_size e a c d)
  unfolding write_again
  write_again-Holds max_size (some e) a c d h = on_error-Holds (some e) c d h
  write_again-Holds max_size none a c d h =
      if-Holds a.retry_ok _ _ (count_size-Holds max_size a c d h)
        (on_error-Holds (some err_app_env_logging_file_write_failed) c d h)

  write_access_log-Holds :
      (max_size : ℕ) (a : Answers) (c : Channel) (d : Files)
      → Holds rest (c, d)
      → Holds rest (write_access_log max_size a c d)
  unfolding write_access_log
  write_access_log-Holds max_size a c d h =
      if-Holds a.write_ok _ _ (count_size-Holds max_size a c d h)
        (write_again-Holds max_size a.cleanup a c d h)

  write_error_file-Holds :
      (max_size : ℕ) (a : Answers) (c : Channel) (d : Files)
      → Holds rest (c, d)
      → Holds rest (write_error_file max_size a c d)
  unfolding write_error_file
  write_error_file-Holds max_size a c d h =
      if-Holds a.write_ok _ _ (count_size-Holds max_size (record a { cleanup_after = none }) c d h)
        (on_error-Holds (some err_app_env_logging_file_write_failed) c d h)

  close_channel-Holds :
      (closes : Bool) (file : Option ℕ) (size : ℕ) (d : Files)
      → Holds rest (record { file = file; size = size }, d)
      → Holds rest (close_channel closes (record { file = file; size = size }) d)
  unfolding Holds close_channel close_file on_error times
  close_channel-Holds closes none size d h = h
  close_channel-Holds true (some f) size d h = λ k. ground (arith, h k)
  close_channel-Holds false (some f) size d h = λ k. ground (arith, h k)

-- The same files, as beside the other channel.
turn :
    (c e : Channel) (d : Files)
    → Holds (λ k. is_file k e.file) (c, d)
    → Holds (λ k. is_file k c.file) (e, d)
unfolding Holds
turn c e d h k = omega (arith, h k)

AreOpen : Log → Type 0
AreOpen l = Holds (λ k. is_file k l.error.file) (l.access, l.files)

then_error :
    (x : Channel × Files) (e : Channel) (next : Channel → Files → Channel × Files)
    → ((rest : ℕ → ℕ) → Holds rest (e, x.1) → Holds rest (next e x.1))
    → Holds (λ k. is_file k e.file) x
    → AreOpen (record { access = x.0; error = (next e x.1).0; files = (next e x.1).1 })
unfolding AreOpen Holds
then_error (c, d) e next keeps h =
    turn (next e d).0 c (next e d).1 (keeps (λ k. is_file k c.file) (turn c e d h))

step-AreOpen : (max_size : ℕ) (a : Act) (l : Log) → AreOpen l → AreOpen (step max_size a l)
unfolding step write_error_log close Holds AreOpen
step-AreOpen max_size (writes_access a) l h =
    write_access_log-Holds (λ k. is_file k l.error.file) max_size a l.access l.files h
step-AreOpen max_size (writes_error a b) l h =
    then_error (write_access_log max_size a l.access l.files) l.error (write_error_file max_size b)
      (λ rest g. write_error_file-Holds rest max_size b l.error _ g)
      (write_access_log-Holds (λ k. is_file k l.error.file) max_size a l.access l.files h)
step-AreOpen max_size (closes_both x y) l h =
    then_error (close_channel x l.access l.files) l.error (close_channel y)
      (λ rest g. close_channel-Holds rest y l.error.file l.error.size _ g)
      (close_channel-Holds (λ k. is_file k l.error.file) x l.access.file l.access.size l.files h)

run-AreOpen : (max_size : ℕ) (acts : List Act) (l : Log) → AreOpen l → AreOpen (run max_size acts l)
unfolding run
run-AreOpen max_size [] l h = h
run-AreOpen max_size (a ∷ acts) l h =
    run-AreOpen max_size acts (step max_size a l) (step-AreOpen max_size a l h)

-- After any writes to the two logs and any calls of `Close`, whatever of them fails: every file that was
-- opened is the current file of exactly one of the logs and was never closed, or it is the file of neither
-- and was closed exactly once; and no other file was closed.
pub run-times :
    (max_size : ℕ) (acts : List Act) (k : ℕ)
    → let l = run max_size acts new_log in
      (times k l.files.closed + is_file k l.access.file) + is_file k l.error.file
      ≡ (if ltb k l.files.next then 1 else 0)
unfolding Holds times AreOpen
run-times max_size acts k = run-AreOpen max_size acts new_log (λ m. ground arith) k
