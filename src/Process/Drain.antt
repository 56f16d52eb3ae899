-- ===== src/Process/Drain.antt =====
-- The drain of the process: `Drain` and its watcher.
use go_atomos.Common.{
  ℕ, ◌+◌, ◌≡◌, refl, Bool, true, false, not, ◌&&◌, ◌||◌, Option, none, some, List, [], ◌∷◌, arith,
  ◌==◌, if◌then◌else◌,
}
use go_atomos.ErrorCode.{ErrorCode, err_cosmos_process_invalid_state}
use go_atomos.Process.{running, Process}

-- `Drain`: the error, the new state, and the channel of the watcher that is started. The deadline and what
-- etcd is told do not show here.
unfoldable pub drain : Process → Option ErrorCode × (Process × Option ℕ)
drain p = elim p.state [
  | running ↦ if p.draining then (none, (p, none)) else (
    none,
    (
      record p {
        draining = true;
        drain_cancel = some p.next_channel;
        next_channel = p.next_channel + 1;
      },
      some p.next_channel,
    ),
  )
  | _ ↦ (some err_cosmos_process_invalid_state, (p, none))
]

-- What the watcher is woken by; a tick comes with the active atoms of each element.
pub data Signal : Type 0 where
  cancelled deadline_reached : Signal
  ticked : (active : List ℕ) → Signal

pub data Watch : Type 0 where
  waiting stopped : Watch
  exits : (forced : Bool) → Watch

-- `countActiveAtoms`
pub count_active_atoms : List ℕ → ℕ
count_active_atoms [] = 0
count_active_atoms (n ∷ ns) = n + count_active_atoms ns

-- `drainWatcher` on the signals that it is woken by, in order.
unfoldable pub drain_watcher : List Signal → Watch
unfolding count_active_atoms
drain_watcher [] = waiting
drain_watcher (cancelled ∷ rest) = stopped
drain_watcher (deadline_reached ∷ rest) = exits true
drain_watcher (ticked active ∷ rest) =
    let later = drain_watcher rest in if count_active_atoms active == 0 then exits false else later

-- No element has an active atom.
abbrev pub all_idle : List ℕ → Bool
all_idle [] = true
all_idle (n ∷ ns) = n == 0 && all_idle ns

abbrev pub any_idle : List (List ℕ) → Bool
any_idle [] = false
any_idle (ns ∷ rest) = all_idle ns || any_idle rest

abbrev pub ticks : List (List ℕ) → List Signal → List Signal
ticks [] rest = rest
ticks (active ∷ more) rest = ticked active ∷ ticks more rest

count_active_atoms-all_idle : (ns : List ℕ) → (count_active_atoms ns == 0) ≡ all_idle ns
unfolding count_active_atoms
count_active_atoms-all_idle [] = refl
count_active_atoms-all_idle (n ∷ ns) = ground (arith, count_active_atoms-all_idle ns)

-- A watcher that is woken by ticks and then by its deadline or by its cancellation always ends: it exits without
-- force at the first tick at which no element has an active atom; if there is none, it exits by force at the
-- deadline, and stops without an exit when it is cancelled.
pub drain_watcher_lem :
    (actives : List (List ℕ)) (rest : List Signal)
    → (drain_watcher (ticks actives (deadline_reached ∷ rest)) ≡ exits (not (any_idle actives)))
      × (drain_watcher (ticks actives (cancelled ∷ rest))
          ≡ (if any_idle actives then exits false else stopped))
unfolding drain_watcher
drain_watcher_lem [] rest = (refl, refl)
drain_watcher_lem (ns ∷ more) rest = (
  ground (arith, (drain_watcher_lem more rest).0, count_active_atoms-all_idle ns),
  ground (arith, (drain_watcher_lem more rest).1, count_active_atoms-all_idle ns),
)
