-- ===== src/LogFile.antt =====
-- app_logging.go: the two files that an `AppLoggingToFile` writes to, their rotation, and the clean-up of the
-- directory. A file that was opened is a number. What the operating system answers to the calls of one
-- write is the record `Answers`; a file that is nil is none.
pub mod History
pub mod Cleanup
pub mod Examples
use go_atomos.Common.{
  ℕ, zero, suc, ◌+◌, ◌-◌, ◌*◌, ◌/◌, ◌%◌, ◌≤◌, ◌<◌, ◌≡◌, ◌≢◌, ◌↔◌, ◌⊎◌, inl, inr, refl, sym, ap,
  subst, ◌∙◌, Bool, true, false, not, ◌&&◌, ◌||◌, Option, none, some, List, [], ◌∷◌, ◌++◌, map,
  arith, ltb, leb, ◌==◌, if◌then◌else◌, ==→eq, ==_refl, ==_ne, Bool-cases, Option-cases, is_some,
  length, length-append, last_or, last_or-append, find, erase_first, has, Distinct, has-append,
  Distinct-snoc, without, has-without_self, has-without_ne, has-erase_first, erase_first-Distinct,
}
use go_atomos.ErrorCode.{
  ErrorCode, err_app_env_logging_file_open_failed, err_app_env_logging_path_invalid,
  err_app_env_logging_file_write_failed, err_app_env_logging_file_close_failed,
}

-- A file with the size that is counted for it: `curAccessLog` and `curAccessSize`, or those of errors.
pub record Channel : Type 0 where
  pub file : Option ℕ
  pub size : ℕ

-- The files that were opened are those below `next`; `reported` has the calls of `errHandler`.
pub record Files : Type 0 where
  pub next : ℕ
  pub closed : List ℕ
  pub reported : List ErrorCode

pub record Answers : Type 0 where
  pub written : ℕ
  pub write_ok : Bool
  pub cleanup : Option ErrorCode
  pub retry_ok : Bool
  pub opens : Bool
  pub closes : Bool
  pub cleanup_after : Option ErrorCode

-- `onError`
unfoldable pub on_error : Option ErrorCode → Files → Files
on_error none d = d
on_error (some e) d = record d { reported = e ∷ d.reported }

abbrev failure : ErrorCode → Bool → Option ErrorCode
failure e true = none
failure e false = some e

-- `Close` of a file; of a nil file it is an error.
unfoldable pub close_file : (closes : Bool) → Option ℕ → Files → Files
unfolding on_error
close_file closes none d = on_error (some err_app_env_logging_file_close_failed) d
close_file closes (some f) d =
    on_error (failure err_app_env_logging_file_close_failed closes)
      (record d { closed = f ∷ d.closed })

-- The end of a write: the new file is opened before the old one is closed.
unfoldable pub rotate : Answers → Channel → Files → Channel × Files
unfolding on_error close_file
rotate a c d =
    if a.opens
    then (
      record { file = some d.next; size = 0 },
      on_error a.cleanup_after (close_file a.closes c.file (record d { next = suc d.next })),
    )
    else (c, on_error (some err_app_env_logging_file_open_failed) d)

unfoldable pub count_size : (max_size : ℕ) → Answers → Channel → Files → Channel × Files
unfolding rotate
count_size max_size a c d =
    if leb max_size (c.size + a.written)
    then rotate a (record c { size = c.size + a.written }) d
    else (record c { size = c.size + a.written }, d)

-- `writeAccessLogLocked` after a write that failed.
unfoldable pub write_again :
    (max_size : ℕ) → Option ErrorCode → Answers → Channel → Files → Channel × Files
unfolding count_size on_error
write_again max_size (some e) a c d = (c, on_error (some e) d)
write_again max_size none a c d =
    if a.retry_ok
    then count_size max_size a c d
    else (c, on_error (some err_app_env_logging_file_write_failed) d)

-- `writeAccessLogLocked`
unfoldable pub write_access_log : (max_size : ℕ) → Answers → Channel → Files → Channel × Files
unfolding count_size write_again
write_access_log max_size a c d =
    if a.write_ok then count_size max_size a c d else write_again max_size a.cleanup a c d

-- `WriteErrorLog` from the write to the error file on; it cleans nothing up.
unfoldable pub write_error_file : (max_size : ℕ) → Answers → Channel → Files → Channel × Files
unfolding count_size on_error
write_error_file max_size a c d =
    if a.write_ok
    then count_size max_size (record a { cleanup_after = none }) c d
    else (c, on_error (some err_app_env_logging_file_write_failed) d)

-- `AppLoggingToFile`
pub record Log : Type 0 where
  pub access : Channel
  pub error : Channel
  pub files : Files

-- `WriteErrorLog`; `a` answers the access log's calls and `b` the error file's.
unfoldable pub write_error_log : (max_size : ℕ) (a b : Answers) → Log → Log
unfolding write_access_log write_error_file
write_error_log max_size a b l =
    let (c, d) = write_access_log max_size a l.access l.files in
    let (e, g) = write_error_file max_size b l.error d in
    record { access = c; error = e; files = g }

unfoldable pub close_channel : (closes : Bool) → Channel → Files → Channel × Files
unfolding close_file
close_channel closes c d = elim c.file [
  | none ↦ (c, d)
  | some f ↦ (record c { file = none }, close_file closes (some f) d)
]

-- `Close`
unfoldable pub close : (access_closes error_closes : Bool) → Log → Log
unfolding close_channel
close access_closes error_closes l =
    let (c, d) = close_channel access_closes l.access l.files in
    let (e, g) = close_channel error_closes l.error d in record { access = c; error = e; files = g }

-- A file in the directory: the time of its change, its size, and whether `os.Remove` removes it.
pub record Entry : Type 0 where
  pub mod_time : ℕ
  pub size : ℕ
  pub removes : Bool

-- The order that `sort.Slice` is given.
unfoldable pub before : Entry → Entry → Bool
before a b = ltb a.mod_time b.mod_time

-- The loop of `checkLogPathSize`: its error, and the files that are left.
unfoldable pub remove_loop : (size_needed : ℕ) → List Entry → Option ErrorCode × List Entry
remove_loop size_needed [] = (none, [])
remove_loop size_needed (file ∷ files) =
    let rest = remove_loop (size_needed - file.size) files in
    if size_needed == 0
    then (none, file ∷ files)
    else if file.removes
    then rest
    else (some err_app_env_logging_path_invalid, file ∷ files)

unfoldable pub total : List Entry → ℕ
total [] = 0
total (file ∷ files) = file.size + total files

-- `checkLogPathSize`, while nothing else is in the directory; `logPathMaxSize` is `max_size`, and `sort` is
-- `sort.Slice`.
unfoldable pub check_log_path_size :
    (sort : (Entry → Entry → Bool) → List Entry → List Entry) (auto_cleanup : Bool) (max_size : ℕ)
    → List Entry
    → Option ErrorCode × List Entry
unfolding remove_loop total before
check_log_path_size sort auto_cleanup max_size files =
    if not auto_cleanup
    then (none, files)
    else if leb (total files) max_size
    then (none, files)
    else remove_loop (total files - max_size) (sort before files)

-- What is done with a log, and all of it.
pub data Act : Type 0 where
  writes_access : Answers → Act
  writes_error : (a b : Answers) → Act
  closes_both : (access_closes error_closes : Bool) → Act

unfoldable pub step : (max_size : ℕ) → Act → Log → Log
unfolding write_access_log write_error_log close
step max_size (writes_access a) l =
    let (c, d) = write_access_log max_size a l.access l.files in record l { access = c; files = d }
step max_size (writes_error a b) l = write_error_log max_size a b l
step max_size (closes_both x y) l = close x y l

unfoldable pub run : (max_size : ℕ) → List Act → Log → Log
unfolding step
run max_size [] l = l
run max_size (a ∷ acts) l = run max_size acts (step max_size a l)

-- The state after `NewAppLoggingToFile`.
abbrev pub new_log : Log
new_log = record {
  access = record { file = some 0; size = 0 };
  error = record { file = some 1; size = 0 };
  files = record { next = 2; closed = []; reported = [] };
}
