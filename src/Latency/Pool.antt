-- ===== src/Latency/Pool.antt =====
-- internal/latency/checker.go: Check, a pool of workers, by the events that its goroutines take
-- turns in.
use tui_box.Prelude.{
  ℕ, zero, suc, min, Bool, true, false, not, ◌&&◌, ◌||◌, Option, none, some, List, [], ◌∷◌, map,
  ltb, length, get_elem?, set, all, if◌then◌else◌, ◌≡◌,
}
use tui_box.Prelude.Int.{pos}
use tui_box.Domain.Types.{Endpoint}
use tui_box.Domain.Checks.{Library}
use tui_box.Latency.Result.{Status, unavailable, ContextErr, no_cause, context, Result}
use tui_box.Latency.Probe.{Probe, check_one}

-- A worker waits for a job, has received one, is in checkOne, or has returned.
pub data Worker : Type 0 where
  idle stopped : Worker
  holding probing : ℕ → Worker

-- `next` is the index that the loop sends next; `over` is ctx.Err().
pub record Pool : Type 0 where
  pub next : ℕ
  pub jobs_closed : Bool
  pub over : Option ContextErr
  pub workers : List Worker
  pub results : List Result

-- Sending to a worker, its test of the context, the end of its checkOne, its return when the jobs
-- are closed, the end of the sending loop, and the end of the context.
pub data Event : Type 0 where
  send begin quit : ℕ → Event
  finish : ℕ → Probe → Event
  close : Event
  cancel : ContextErr → Event

abbrev pub is_over : Option ContextErr → Bool
is_over none = false
is_over (some c) = true

abbrev pub is_stopped : Worker → Bool
is_stopped stopped = true
is_stopped _ = false

abbrev pub is_unset : Status → Bool
is_unset Status.unset = true
is_unset _ = false

-- The result before its probe.
abbrev pub blank : Endpoint → Result
blank e = record {
  endpoint_id = e.id;
  protocol = e.protocol;
  duration = pos 0;
  status = Status.unset;
  error = no_cause;
}

abbrev pub put_worker : ℕ → Worker → Pool → Pool
put_worker k w p = record p { workers = set p.workers k w }

abbrev pub idle_workers : ℕ → List Worker
idle_workers zero = []
idle_workers (suc n) = idle ∷ idle_workers n

-- `if ctx.Err() != nil { return }`
abbrev pub begun : Option ContextErr → ℕ → Worker
begun none i = probing i
begun (some c) i = stopped

unfoldable pub begin_at : Option Worker → ℕ → Pool → Option Pool
begin_at (some (holding i)) k p = some (put_worker k (begun p.over i) p)
begin_at _ k p = none

unfoldable pub quit_at : Option Worker → ℕ → Pool → Option Pool
quit_at (some idle) k p = if p.jobs_closed then some (put_worker k stopped p) else none
quit_at _ k p = none

unfoldable pub cancel_with : Option ContextErr → ContextErr → Pool → Option Pool
cancel_with none c p = some (record p { over = some c })
cancel_with (some d) c p = none

module _ (lib : Library) (endpoints : List Endpoint) where
  unfoldable pub send_to : Option Worker → ℕ → Pool → Option Pool
  send_to (some idle) k p =
      if p.jobs_closed || not (ltb p.next (length endpoints))
      then none
      else some (put_worker k (holding p.next) (record p { next = suc p.next }))
  send_to _ k p = none

  -- `results[index] = checker.checkOne(ctx, endpoints[index])`
  unfoldable pub write_result : Option Endpoint → ℕ → ℕ → Probe → Pool → Option Pool
  write_result none i k probe p = none
  write_result (some e) i k probe p =
      some (put_worker k idle (record p { results = set p.results i (check_one lib probe e) }))

  unfoldable pub finish_at : Option Worker → ℕ → Probe → Pool → Option Pool
  unfolding write_result
  finish_at (some (probing i)) k probe p = write_result (get_elem? endpoints i) i k probe p
  finish_at _ k probe p = none

  -- What an event makes of the pool, or `none` where it cannot happen.
  unfoldable pub after : Event → Pool → Option Pool
  unfolding send_to begin_at finish_at quit_at cancel_with
  after (send k) p = send_to (get_elem? p.workers k) k p
  after (begin k) p = begin_at (get_elem? p.workers k) k p
  after (finish k probe) p = finish_at (get_elem? p.workers k) k probe p
  after (quit k) p = quit_at (get_elem? p.workers k) k p
  after close p =
      if p.jobs_closed || (ltb p.next (length endpoints) && not (is_over p.over))
      then none
      else some (record p { jobs_closed = true })
  after (cancel c) p = cancel_with p.over c p

  -- The pool before its first event.
  unfoldable pub start : ℕ → Pool
  start max_parallel = record {
    next = 0;
    jobs_closed = false;
    over = none;
    workers = idle_workers (min max_parallel (length endpoints));
    results = map blank endpoints;
  }

  -- The pools that a run of events reaches.
  pub data Reach (p : Pool) : Pool → Type 0 where
    here : Reach p p
    next : {q r : Pool} (ev : Event) → Reach p q → after ev q ≡ some r → Reach p r

-- Every worker has returned, so Check goes on behind `<-done`.
unfoldable pub is_finished : Pool → Bool
is_finished p = p.jobs_closed && all is_stopped p.workers

unfoldable pub mark : ContextErr → Result → Result
mark c r = if is_unset r.status then record r { status = unavailable; error = context c } else r

abbrev pub fill : Option ContextErr → List Result → List Result
fill none results = results
fill (some c) results = map (mark c) results

-- What Check returns.
unfoldable pub returned : Pool → List Result
unfolding mark
returned p = fill p.over p.results
