-- ===== src/Process/Guards.antt =====
-- The first sections, which pass only from the right state.
use go_atomos.Common.{
  ℕ, ◌+◌, ◌≡◌, subst, true, false, Option, none, some, List, ◌∷◌, arith, ==_refl, has, Distinct,
}
use go_atomos.ErrorCode.{ErrorCode}
use go_atomos.Process.{prepare, startup, running, shutdown, Process, start_guard}
use go_atomos.Process.Stop.{stop_guard, cancel_drain}
use go_atomos.Process.Drain.{drain}
use go_atomos.Process.Sections.{System, is_open, Counts, Channels, Inv}

pub start_guard_passes :
    (p q : Process)
    → start_guard p ≡ (none, q)
    → (p.state ≡ prepare) × (q ≡ record p { state = startup })
unfolding start_guard
start_guard_passes p q run = (ground (arith, run), ground (arith, run))

-- `Stop` and `TryKilling` pass their first section only from the running state.
pub stop_guard_passes :
    (p q : Process)
    → stop_guard p ≡ (none, q)
    → (p.state ≡ running) × (q ≡ cancel_drain p.drain_cancel (record p { state = shutdown }))
unfolding stop_guard
stop_guard_passes p q run = (ground (arith, run), ground (arith, run))

pub stop_guard_refuses : (p q : Process) (e : ErrorCode) → stop_guard p ≡ (some e, q) → q ≡ p
unfolding stop_guard
stop_guard_refuses p q e run = ground (arith, run)

pub drain_passes :
    (p q : Process) (c : ℕ)
    → drain p ≡ (none, (q, some c))
    → (p.state ≡ running)
      × (p.draining ≡ false)
      × (c ≡ p.next_channel)
      × (q ≡ record p {
        draining = true;
        drain_cancel = some p.next_channel;
        next_channel = p.next_channel + 1;
      })
unfolding drain
drain_passes p q c run =
    (ground (arith, run), ground (arith, run), ground (arith, run), ground (arith, run))

cancel_drain-Distinct :
    (o : Option ℕ) (p : Process)
    → Distinct p.closed_channels
    → ((k : ℕ) → is_open o k ≡ true → has k p.closed_channels ≡ false)
    → Distinct (cancel_drain o p).closed_channels
unfolding cancel_drain
cancel_drain-Distinct none p d apart = d
cancel_drain-Distinct (some c) p d apart = (apart c (==_refl c), d)

pub start_begins-Inv :
    (s : System)
    → s.process.state ≡ prepare
    → Inv s
    → Inv (record s {
      process = record s.process { state = startup };
      starting = s.starting + 1;
      starts = s.starts + 1;
    })
start_begins-Inv s at v =
    let n = v.counts.new at in
    record {
      counts = record {
        inside = omega (arith, v.counts.inside);
        once = omega (arith, n.0);
        stopped_once = v.counts.stopped_once;
        new = ground arith;
        before_run = λ h. (n.1, n.2);
        in_run = ground arith;
      };
      channels = v.channels;
      killing = v.killing;
      orderly = λ z.
          let o = v.orderly z in
          record {
            starts_up = ground (arith, o.starts_up, at);
            shuts_down = ground (arith, o.shuts_down, at);
            ended = ground arith;
          };
    }

-- A first section of `Stop` or `TryKilling` that passes: without the counts of the goroutines.
cancel_drain-Channels :
    (p : Process) (watchers : List ℕ)
    → Channels p.closed_channels p.drain_cancel p.next_channel p.draining watchers
    → let q = cancel_drain p.drain_cancel (record p { state = shutdown }) in
      Channels q.closed_channels q.drain_cancel q.next_channel q.draining watchers
unfolding cancel_drain
cancel_drain-Channels p watchers c = record {
  fresh = λ k h. ground (arith, h, c.fresh k);
  distinct =
      cancel_drain-Distinct p.drain_cancel (record p { state = shutdown }) c.distinct c.not_closed;
  not_closed = λ k h. ground (arith, h);
  undrained = λ e. ground arith;
  watched = λ k h. ground (arith, h, c.watched k);
}

stopped-Counts :
    (p : Process) (starting starts stops : ℕ)
    → p.state ≡ running
    → Counts p.state starting starts stops p.draining
    → let q = cancel_drain p.drain_cancel (record p { state = shutdown }) in
      Counts q.state starting starts (stops + 1) q.draining
unfolding cancel_drain
stopped-Counts p starting starts stops at c =
    let r = c.in_run at in
    record {
      inside = c.inside;
      once = c.once;
      stopped_once = omega (arith, r.1);
      new = ground arith;
      before_run = λ h. absurd (omega (arith, h, r.0));
      in_run = ground arith;
    }

pub stop_begins-Inv :
    (s : System)
    → s.process.state ≡ running
    → Inv s
    → Inv (record s {
      process = cancel_drain s.process.drain_cancel (record s.process { state = shutdown });
      stopping = s.stopping + 1;
      stops = s.stops + 1;
    })
unfolding cancel_drain
stop_begins-Inv s at v = record {
  counts = stopped-Counts s.process s.starting s.starts s.stops at v.counts;
  channels = cancel_drain-Channels s.process s.watchers v.channels;
  killing = v.killing;
  orderly = λ z.
      let o = v.orderly z in
      record {
        starts_up = ground (arith, o.starts_up, at);
        shuts_down = ground (arith, o.shuts_down, at);
        ended = λ e. ground arith;
      };
}

pub kill_begins-Inv :
    (s : System)
    → s.process.state ≡ running
    → Inv s
    → Inv (record s {
      process = cancel_drain s.process.drain_cancel (record s.process { state = shutdown });
      killing = s.killing + 1;
      stops = s.stops + 1;
      kills = s.kills + 1;
    })
kill_begins-Inv s at v = record {
  counts = stopped-Counts s.process s.starting s.starts s.stops at v.counts;
  channels = cancel_drain-Channels s.process s.watchers v.channels;
  killing = omega (arith, v.killing);
  orderly = λ z. absurd (omega (arith, z));
}

pub kill_refused-Inv :
    (s : System)
    → Inv s
    → Inv (record s { killing = s.killing + 1; stops = s.stops + 0; kills = s.kills + 1 })
kill_refused-Inv s v = record {
  counts =
      subst (λ n. Counts s.process.state s.starting s.starts n s.process.draining) (omega arith)
        v.counts;
  channels = v.channels;
  killing = omega (arith, v.killing);
  orderly = λ z. absurd (omega (arith, z));
}

pub drain_begins-Inv :
    (s : System)
    → s.process.state ≡ running
    → s.process.draining ≡ false
    → Inv s
    → Inv (record s {
      process = record s.process {
        draining = true;
        drain_cancel = some s.process.next_channel;
        next_channel = s.process.next_channel + 1;
      };
      watchers = s.process.next_channel ∷ s.watchers;
    })
drain_begins-Inv s at idle v =
    let none_open = v.channels.undrained idle in
    let r = v.counts.in_run at in
    record {
      counts = record {
        inside = v.counts.inside;
        once = v.counts.once;
        stopped_once = v.counts.stopped_once;
        new = ground (arith, at);
        before_run = λ h. absurd (omega (arith, h, r.0));
        in_run = v.counts.in_run;
      };
      channels = record {
        fresh = λ k h. ground (arith, h, v.channels.fresh k, none_open);
        distinct = v.channels.distinct;
        not_closed = λ k h. ground (arith, h, v.channels.fresh k, none_open);
        undrained = ground arith;
        watched = λ k h. ground (arith, h, v.channels.watched k, none_open);
      };
      killing = v.killing;
      orderly = λ z.
          let o = v.orderly z in
          record { starts_up = o.starts_up; shuts_down = o.shuts_down; ended = ground (arith, at) };
    }
