-- ===== src/Latency/Budget.antt =====
-- internal/latency/checker.go: a measure of the events that Check has left.
use tui_box.Prelude.{
  ℕ, zero, suc, ◌+◌, ◌-◌, ◌*◌, ◌≤◌, ◌<◌, ◌≡◌, refl, Option, none, some, List, [], ◌∷◌, length,
  get_elem?, set, if◌then◌else◌, arith,
}
use tui_box.Domain.Types.{Endpoint}
use tui_box.Domain.Checks.{Library}
use tui_box.Latency.Probe.{Probe}
use tui_box.Latency.Pool.{
  Worker, idle, stopped, holding, probing, Pool, Event, send, begin, finish, quit, close, cancel,
  begun, begin_at, quit_at, cancel_with, send_to, write_result, finish_at, after, Reach, here, next,
  is_over, idle_workers,
}

-- How many events a worker still takes for the job that it has, with its return.
abbrev pub left : Worker → ℕ
left idle = 1
left stopped = 0
left (holding i) = 3
left (probing i) = 2

abbrev pub left_all : List Worker → ℕ
left_all [] = 0
left_all (w ∷ ws) = left w + left_all ws

left_all-set :
    (ws : List Worker) (k : ℕ) (w v : Worker)
    → get_elem? ws k ≡ some w
    → left_all (set ws k v) + left w ≡ left_all ws + left v
left_all-set [] k w v h = cc
left_all-set (x ∷ ws) zero w v h = let same_one : x ≡ w = ground arith in rw same_one (omega arith)
left_all-set (x ∷ ws) (suc k) w v h = omega (arith, left_all-set ws k w v h)

pub left_all-idle : (n : ℕ) → left_all (idle_workers n) ≡ n
left_all-idle zero = refl
left_all-idle (suc n) = omega (arith, left_all-idle n)

module _ (lib : Library) (endpoints : List Endpoint) where
  -- No event leaves more than this many events.
  abbrev pub budget : Pool → ℕ
  budget p =
      3 * (length endpoints - p.next)
      + left_all p.workers
      + (if p.jobs_closed then 0 else 1)
      + (if is_over p.over then 0 else 1)

  send_to-budget :
      (o : Option Worker) (k : ℕ) (p q : Pool)
      → get_elem? p.workers k ≡ o
      → send_to lib endpoints o k p ≡ some q
      → budget q < budget p
  unfolding send_to
  send_to-budget (some idle) k p q hw h =
      ground (arith, left_all-set p.workers k idle (holding p.next) hw)
  send_to-budget (some stopped) k p q hw h = cc
  send_to-budget (some (holding i)) k p q hw h = cc
  send_to-budget (some (probing i)) k p q hw h = cc
  send_to-budget none k p q hw h = cc

  begin_at-budget :
      (o : Option Worker) (k : ℕ) (p q : Pool)
      → get_elem? p.workers k ≡ o
      → begin_at o k p ≡ some q
      → budget q < budget p
  unfolding begin_at
  begin_at-budget (some (holding i)) k p q hw h =
      ground (arith, left_all-set p.workers k (holding i) (begun p.over i) hw)
  begin_at-budget (some stopped) k p q hw h = cc
  begin_at-budget (some idle) k p q hw h = cc
  begin_at-budget (some (probing i)) k p q hw h = cc
  begin_at-budget none k p q hw h = cc

  finish_at-budget :
      (o : Option Worker) (k : ℕ) (probe : Probe) (p q : Pool)
      → get_elem? p.workers k ≡ o
      → finish_at lib endpoints o k probe p ≡ some q
      → budget q < budget p
  unfolding finish_at write_result
  finish_at-budget (some (probing i)) k probe p q hw h =
      ground (arith, left_all-set p.workers k (probing i) idle hw)
  finish_at-budget (some stopped) k probe p q hw h = cc
  finish_at-budget (some idle) k probe p q hw h = cc
  finish_at-budget (some (holding i)) k probe p q hw h = cc
  finish_at-budget none k probe p q hw h = cc

  quit_at-budget :
      (o : Option Worker) (k : ℕ) (p q : Pool)
      → get_elem? p.workers k ≡ o
      → quit_at o k p ≡ some q
      → budget q < budget p
  unfolding quit_at
  quit_at-budget (some idle) k p q hw h = ground (arith, left_all-set p.workers k idle stopped hw)
  quit_at-budget (some stopped) k p q hw h = cc
  quit_at-budget (some (holding i)) k p q hw h = cc
  quit_at-budget (some (probing i)) k p q hw h = cc
  quit_at-budget none k p q hw h = cc

  after-budget : (ev : Event) (p q : Pool) → after lib endpoints ev p ≡ some q → budget q < budget p
  unfolding after cancel_with
  after-budget (send k) p q h = send_to-budget (get_elem? p.workers k) k p q refl h
  after-budget (begin k) p q h = begin_at-budget (get_elem? p.workers k) k p q refl h
  after-budget (finish k probe) p q h = finish_at-budget (get_elem? p.workers k) k probe p q refl h
  after-budget (quit k) p q h = quit_at-budget (get_elem? p.workers k) k p q refl h
  after-budget close p q h = ground arith
  after-budget (cancel c) p q h = ground arith

  -- How many events a run has.
  abbrev pub events : {p q : Pool} → Reach lib endpoints p q → ℕ
  events here = 0
  events (next ev r h) = suc (events r)

  pub events-budget : {p q : Pool} (r : Reach lib endpoints p q) → events r + budget q ≤ budget p
  events-budget here = omega arith
  events-budget (next ev r h) = omega (arith, events-budget r, after-budget ev _ _ h)
