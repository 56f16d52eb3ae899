-- ===== src/Process/Sections.antt =====
-- The critical sections of `Start`, `Stop`, `TryKilling` and `Drain`, and what holds of the process
-- between them.
use go_atomos.Common.{
  ℕ, ◌+◌, ◌-◌, ◌≤◌, ◌<◌, ◌≡◌, Bool, true, false, ◌||◌, Option, none, some, List, [], ◌∷◌, ◌==◌, has,
  Distinct,
}
use go_atomos.ErrorCode.{ErrorCode}
use go_atomos.Process.{
  ProcessState, prepare, startup, running, shutdown, off, Process, World, Exit, start_guard,
  finish_start,
}
use go_atomos.Process.Stop.{stop_guard, turn_off, stop_from_other_node_after_response}
use go_atomos.Process.Drain.{drain}

-- The process with the goroutines that are between two sections of `Start`, of `Stop` or of `TryKilling`, how
-- often the first section was passed, of `Start` and of the other two, how often `TryKilling` began, and the
-- channels of the watchers that were started.
pub record System : Type 0 where
  pub process : Process
  pub starting : ℕ
  pub stopping : ℕ
  pub killing : ℕ
  pub starts : ℕ
  pub stops : ℕ
  pub kills : ℕ
  pub watchers : List ℕ

abbrev pub passed : Option ErrorCode → ℕ
passed none = 1
passed (some e) = 0

-- A step is a critical section of the code, on the process as it is found. A start-up and a shut-down come to
-- any end; `TryKilling` goes on to its second call whatever the first one answered.
pub data Step (s : System) : System → Type 0 where
  start_begins :
      {p : Process}
      → start_guard s.process ≡ (none, p)
      → Step s (record s { process = p; starting = s.starting + 1; starts = s.starts + 1 })
  start_ends :
      (w : World) (out : Exit)
      → 0 < s.starting
      → Step s
          (record s { process = (finish_start w (out, s.process)).1; starting = s.starting - 1 })
  stop_begins :
      {p : Process}
      → stop_guard s.process ≡ (none, p)
      → Step s (record s { process = p; stopping = s.stopping + 1; stops = s.stops + 1 })
  stop_ends :
      (w : World) (out : Exit)
      → 0 < s.stopping
      → Step s (record s { process = (turn_off w (out, s.process)).1; stopping = s.stopping - 1 })
  kill_begins :
      {p : Process} {answer : Option ErrorCode}
      → stop_guard s.process ≡ (answer, p)
      → Step s (record s {
        process = p;
        killing = s.killing + 1;
        stops = s.stops + passed answer;
        kills = s.kills + 1;
      })
  kill_ends :
      (w : World)
      → 0 < s.killing
      → Step s (record s {
        process = stop_from_other_node_after_response w s.process;
        killing = s.killing - 1;
      })
  drain_begins :
      {p : Process} {c : ℕ}
      → drain s.process ≡ (none, (p, some c))
      → Step s (record s { process = p; watchers = c ∷ s.watchers })

pub data Steps (s : System) : System → Type 0 where
  none_yet : Steps s s
  then_step : {t u : System} → Steps s t → Step t u → Steps s u

abbrev pub is_state : ProcessState → ProcessState → ℕ
is_state startup startup = 1
is_state shutdown shutdown = 1
is_state _ _ = 0

-- The states of a process that ends.
abbrev pub ending : ProcessState → ℕ
ending shutdown = 1
ending off = 1
ending _ = 0

abbrev pub is_open : Option ℕ → ℕ → Bool
is_open none k = false
is_open (some c) k = c == k

-- How often the first sections were passed, by the state that the process is in.
pub record Counts (state : ProcessState) (starting starts stops : ℕ) (draining : Bool)
    : Type 0 where
  pub inside : starting ≤ starts
  pub once : starts ≤ 1
  pub stopped_once : stops ≤ 1
  pub new : state ≡ prepare → (starts ≡ 0) × (stops ≡ 0) × (draining ≡ false)
  pub before_run : 0 < starting → (stops ≡ 0) × (draining ≡ false)
  pub in_run : state ≡ running → (starting ≡ 0) × (stops ≡ 0)

-- The channels that were closed, the one that the process holds, and those of the watchers.
pub record Channels (closed : List ℕ) (held : Option ℕ) (next : ℕ) (draining : Bool)
    (watchers : List ℕ) : Type 0 where
  pub fresh : (k : ℕ) → next ≤ k → (has k closed || is_open held k) ≡ false
  pub distinct : Distinct closed
  pub not_closed : (k : ℕ) → is_open held k ≡ true → has k closed ≡ false
  pub undrained : draining ≡ false → held ≡ none
  pub watched : (k : ℕ) → has k watchers ≡ true → (has k closed || is_open held k) ≡ true

-- What holds as long as no other node has called `TryKilling`.
pub record Orderly (state : ProcessState) (starting stopping : ℕ) (held : Option ℕ) : Type 0 where
  pub starts_up : starting ≡ is_state startup state
  pub shuts_down : stopping ≡ is_state shutdown state
  pub ended : ending state ≡ 1 → held ≡ none

pub record Inv (s : System) : Type 0 where
  pub counts : Counts s.process.state s.starting s.starts s.stops s.process.draining
  pub channels :
      Channels s.process.closed_channels s.process.drain_cancel s.process.next_channel
        s.process.draining s.watchers
  pub killing : s.killing ≤ s.kills
  pub orderly : s.kills ≡ 0 → Orderly s.process.state s.starting s.stopping s.process.drain_cancel

-- A process that was just made.
pub record IsNew (s : System) : Type 0 where
  pub state : s.process.state ≡ prepare
  pub draining : s.process.draining ≡ false
  pub drain_cancel : s.process.drain_cancel ≡ none
  pub closed_channels : s.process.closed_channels ≡ []
  pub inside : (s.starting ≡ 0) × (s.stopping ≡ 0) × (s.killing ≡ 0)
  pub counts : (s.starts ≡ 0) × (s.stops ≡ 0) × (s.kills ≡ 0)
  pub watchers : s.watchers ≡ []
