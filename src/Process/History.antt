-- ===== src/Process/History.antt =====
-- The critical sections of `Start`, `Stop`, `TryKilling` and `Drain` in any interleaving of goroutines.
use go_atomos.Process.{Process}
