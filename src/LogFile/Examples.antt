-- ===== src/LogFile/Examples.antt =====
-- A rotation that fails once, and a directory that is too large.
use go_atomos.Common.{
  ℕ, ℕ, ◌+◌, ◌≡◌, refl, Bool, true, false, none, List, [], ◌∷◌, ltb, if◌then◌else◌,
}
use go_atomos.LogFile.{
  Answers, Act, writes_access, writes_error, closes_both, run, step, new_log, write_access_log,
  write_error_log, write_error_file, count_size, rotate, close_file, close, close_channel, on_error,
  Entry, check_log_path_size, remove_loop, total, before,
}
use go_atomos.LogFile.History.{times, is_file, run-times}
use mathlib.Core.List.{Perm}
use mathlib.Core.List.Perm

abbrev answers : (opens : Bool) → Answers
answers opens = record {
  written = 60;
  write_ok = true;
  cleanup = none;
  retry_ok = true;
  opens = opens;
  closes = true;
  cleanup_after = none;
}

abbrev acts : List Act
acts =
    writes_access (answers true)
    ∷ writes_access (answers false)
    ∷ writes_error (answers true) (answers true)
    ∷ closes_both true true
    ∷ []

run-times_example :
    let l = run 100 acts new_log in
    (times 2 l.files.closed + is_file 2 l.access.file) + is_file 2 l.error.file
    ≡ (if ltb 2 l.files.next then 1 else 0)
run-times_example = run-times 100 acts 2

-- 0 is replaced by 2; then both are closed.
closed_test : (run 100 acts new_log).files.closed ≡ 1 ∷ 2 ∷ 0 ∷ []
unfolding run step write_access_log write_error_log write_error_file count_size rotate close_file
    close close_channel on_error
closed_test = refl

abbrev file : (mod_time size : ℕ) → Entry
file mod_time size = record { mod_time = mod_time; size = size; removes = true }

-- A sort that has the laws.
place : (Entry → Entry → Bool) → Entry → List Entry → List Entry
place less x [] = x ∷ []
place less x (y ∷ ys) = if less y x then y ∷ place less x ys else x ∷ y ∷ ys

insertion_sort : (Entry → Entry → Bool) → List Entry → List Entry
unfolding place
insertion_sort less [] = []
insertion_sort less (x ∷ xs) = place less x (insertion_sort less xs)

abbrev by : (Entry → ℕ) → Entry → Entry → Bool
by key a b = ltb (key a) (key b)

abbrev directory : List Entry
directory = file 3 30 ∷ file 1 40 ∷ file 2 50 ∷ []

kept_test : (check_log_path_size insertion_sort true 90 directory).1 ≡ file 2 50 ∷ file 3 30 ∷ []
unfolding check_log_path_size remove_loop total before insertion_sort place
kept_test = refl
