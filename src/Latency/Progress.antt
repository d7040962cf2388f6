-- ===== src/Latency/Progress.antt =====
-- internal/latency/checker.go: the end of Check.
use tui_box.Prelude.{
  ℕ, zero, suc, ◌+◌, ◌*◌, ◌≤◌, ◌≡◌, refl, min, Bool, true, false, not, ◌&&◌, none, some, List, [],
  ◌∷◌, ltb, length, get_elem?, set, all, any, arith, ◌⊎◌, inl, inr, Bool-cases,
}
use tui_box.Prelude.Int.{pos}
use tui_box.Domain.Types.{Endpoint}
use tui_box.Domain.Checks.{Library}
use tui_box.Latency.Probe.{Probe, check_one}
use tui_box.Latency.Pool.{
  Worker, idle, stopped, holding, probing, Pool, Event, send, begin, finish, quit, close, cancel,
  is_stopped, put_worker, begun, begin_at, quit_at, send_to, write_result, finish_at, after, start,
  Reach, is_finished, is_over,
}
use tui_box.Latency.Budget.{events, events-budget, left_all-idle}
use tui_box.Latency.Lively.{in_range, all-get_elem?, IsLively, Reach-IsLively}

-- A worker that has not returned, if there is one.
live_worker :
    (ws : List Worker)
    → (all is_stopped ws ≡ true)
      ⊎ ((k : ℕ) × (w : Worker) × (get_elem? ws k ≡ some w) × (is_stopped w ≡ false))
live_worker [] = inl refl
live_worker (idle ∷ ws) = inr (0, idle, refl, refl)
live_worker (holding i ∷ ws) = inr (0, holding i, refl, refl)
live_worker (probing i ∷ ws) = inr (0, probing i, refl, refl)
live_worker (stopped ∷ ws) = elim (live_worker ws) [
  | inl done ↦ inl done
  | inr (k, w, h, live) ↦ inr (suc k, w, h, live)
]

some_stopped :
    (ws : List Worker)
    → all is_stopped ws ≡ true
    → ltb 0 (length ws) ≡ true
    → any is_stopped ws ≡ true
some_stopped [] a h = cc
some_stopped (w ∷ ws) a h = ground arith

get_elem?-ltb :
    (es : List Endpoint) (i : ℕ)
    → ltb i (length es) ≡ true
    → (e : Endpoint) × (get_elem? es i ≡ some e)
get_elem?-ltb [] i h = absurd (ground arith)
get_elem?-ltb (e ∷ es) zero h = (e, refl)
get_elem?-ltb (e ∷ es) (suc i) h = get_elem?-ltb es i (ground arith)

module _ (lib : Library) (endpoints : List Endpoint) where
  abbrev pub is_cancel : Event → Bool
  is_cancel (cancel c) = true
  is_cancel _ = false

  -- An event of the pool itself can happen.
  abbrev pub CanGoOn : Pool → Type 0
  CanGoOn p =
      (ev : Event) × (q : Pool) × (after lib endpoints ev p ≡ some q) × (is_cancel ev ≡ false)

  some_probe : Probe
  some_probe = record {
    context_before = none;
    probe_context = none;
    dial_error = true;
    has_connection = false;
    elapsed = pos 0;
  }

  close_goes_on :
      (p : Pool)
      → p.jobs_closed ≡ false
      → (ltb p.next (length endpoints) && not (is_over p.over)) ≡ false
      → CanGoOn p
  unfolding after
  close_goes_on p c h = (close, record p { jobs_closed = true }, rw (c, h) refl, refl)

  idle_goes_on : (k : ℕ) (p : Pool) → get_elem? p.workers k ≡ some idle → CanGoOn p
  unfolding after send_to quit_at
  idle_goes_on k p h = elim (Bool-cases p.jobs_closed) [
    | inl c ↦ (quit k, put_worker k stopped p, rw h (ground arith), refl)
    | inr c ↦ elim (Bool-cases (ltb p.next (length endpoints))) [
      | inl more ↦ (
        send k,
        put_worker k (holding p.next) (record p { next = suc p.next }),
        rw h (ground arith),
        refl,
      )
      | inr over ↦ close_goes_on p c (ground arith)
    ]
  ]

  live_goes_on :
      (k : ℕ) (w : Worker) (p : Pool)
      → get_elem? p.workers k ≡ some w
      → is_stopped w ≡ false
      → in_range (length endpoints) w ≡ true
      → CanGoOn p
  unfolding after begin_at finish_at write_result
  live_goes_on k idle p h live job = idle_goes_on k p h
  live_goes_on k stopped p h live job = cc
  live_goes_on k (holding i) p h live job =
      (begin k, put_worker k (begun p.over i) p, rw h refl, refl)
  live_goes_on k (probing i) p h live job =
      let (e, he) = get_elem?-ltb endpoints i job in
      (
        finish k some_probe,
        put_worker k idle (record p { results = set p.results i (check_one lib some_probe e) }),
        rw (h, he) refl,
        refl,
      )

  goes_on :
      (m : ℕ) (p : Pool) → 1 ≤ m → IsLively lib endpoints m p → (is_finished p ≡ true) ⊎ CanGoOn p
  unfolding is_finished
  goes_on m p some_workers v = elim (live_worker p.workers) [
    | inr (k, w, h, live) ↦ inr (
        live_goes_on k w p h live
          (all-get_elem? (in_range (length endpoints)) p.workers k w v.jobs h))
    | inl done ↦ elim (Bool-cases p.jobs_closed) [
      | inl c ↦ inl (rw (c, done) refl)
      | inr c ↦ inr (
          close_goes_on p c (ground (arith, some_stopped p.workers done, v.returned_late, v.count)))
    ]
  ]

  -- Check, with at least one worker allowed, ends: after any run of events either every worker has
  -- returned or another event of the pool can happen, whatever the context does; and a run has at
  -- most three events for each endpoint, one for each worker, and two more.
  pub check_terminates :
      (m : ℕ) (p : Pool) (r : Reach lib endpoints (start lib endpoints m) p)
      → 1 ≤ m
      → (events lib endpoints r ≤ 3 * length endpoints + min m (length endpoints) + 2)
        × ((is_finished p ≡ true) ⊎ CanGoOn p)
  unfolding start
  check_terminates m p r some_workers = (
    omega (arith, events-budget lib endpoints r, left_all-idle (min m (length endpoints))),
    goes_on m p some_workers (Reach-IsLively lib endpoints m r),
  )
