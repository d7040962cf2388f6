-- ===== src/Latency/Lively.antt =====
-- internal/latency/checker.go: the jobs of the workers of Check, and their returns.
use tui_box.Prelude.{
  ℕ, zero, suc, ◌≡◌, refl, subst, some-injective, min, Bool, true, false, ◌||◌, Option, none, some,
  List, [], ◌∷◌, ltb, length, length-set, get_elem?, set, all, any, arith, inl, inr, Bool-cases,
}
use tui_box.Domain.Types.{Endpoint}
use tui_box.Domain.Checks.{Library}
use tui_box.Latency.Probe.{Probe}
use tui_box.Latency.Result.{ContextErr}
use tui_box.Latency.Pool.{
  Worker, idle, stopped, holding, probing, Pool, Event, send, begin, finish, quit, close, cancel,
  is_stopped, put_worker, begun, begin_at, quit_at, cancel_with, send_to, write_result, finish_at,
  after, start, Reach, here, next, is_over, idle_workers,
}

-- The job of a worker is one of `n`.
abbrev pub in_range : ℕ → Worker → Bool
in_range n idle = true
in_range n stopped = true
in_range n (holding i) = ltb i n
in_range n (probing i) = ltb i n

all-set :
    (p : Worker → Bool) (ws : List Worker) (k : ℕ) (w : Worker)
    → all p ws ≡ true
    → p w ≡ true
    → all p (set ws k w) ≡ true
all-set p [] k w a h = refl
all-set p (x ∷ ws) zero w a h = ground arith
all-set p (x ∷ ws) (suc k) w a h = ground (arith, all-set p ws k w)

pub all-get_elem? :
    (p : Worker → Bool) (ws : List Worker) (k : ℕ) (w : Worker)
    → all p ws ≡ true
    → get_elem? ws k ≡ some w
    → p w ≡ true
all-get_elem? p [] k w a h = cc
all-get_elem? p (x ∷ ws) zero w a h = ground arith
all-get_elem? p (x ∷ ws) (suc k) w a h = all-get_elem? p ws k w (ground arith) h

any-set_back :
    (p : Worker → Bool) (ws : List Worker) (k : ℕ) (w : Worker)
    → p w ≡ false
    → any p (set ws k w) ≡ true
    → any p ws ≡ true
any-set_back p [] k w h a = a
any-set_back p (x ∷ ws) zero w h a = ground arith
any-set_back p (x ∷ ws) (suc k) w h a = ground (arith, any-set_back p ws k w h)

idle-in_range : (n m : ℕ) → all (in_range n) (idle_workers m) ≡ true
idle-in_range n zero = refl
idle-in_range n (suc m) = idle-in_range n m

idle-not_stopped : (m : ℕ) → any is_stopped (idle_workers m) ≡ false
idle-not_stopped zero = refl
idle-not_stopped (suc m) = idle-not_stopped m

length-idle : (m : ℕ) → length (idle_workers m) ≡ m
length-idle zero = refl
length-idle (suc m) = omega (arith, length-idle m)

module _ (lib : Library) (endpoints : List Endpoint) where
  -- Workers return only behind the end of the context or of the jobs.
  pub record IsLively (max_parallel : ℕ) (p : Pool) : Type 0 where
    pub jobs : all (in_range (length endpoints)) p.workers ≡ true
    pub returned_late : any is_stopped p.workers ≡ true → (p.jobs_closed || is_over p.over) ≡ true
    pub count : length p.workers ≡ min max_parallel (length endpoints)

  start-IsLively : (m : ℕ) → IsLively m (start lib endpoints m)
  unfolding start
  start-IsLively m = record {
    jobs = idle-in_range (length endpoints) (min m (length endpoints));
    returned_late = λ h. ground (arith, idle-not_stopped (min m (length endpoints)));
    count = length-idle (min m (length endpoints));
  }

  put-IsLively :
      (m k : ℕ) (w : Worker) (p : Pool)
      → in_range (length endpoints) w ≡ true
      → (is_stopped w ≡ true → (p.jobs_closed || is_over p.over) ≡ true)
      → IsLively m p
      → IsLively m (put_worker k w p)
  put-IsLively m k w p h late v = record {
    jobs = all-set (in_range (length endpoints)) p.workers k w v.jobs h;
    returned_late = λ a. elim (Bool-cases (is_stopped w)) [
      | inl s ↦ late s
      | inr s ↦ v.returned_late (any-set_back is_stopped p.workers k w s a)
    ];
    count = ground (arith, length-set p.workers k w, v.count);
  }

  send_to-IsLively :
      (m : ℕ) (o : Option Worker) (k : ℕ) (p q : Pool)
      → send_to lib endpoints o k p ≡ some q
      → IsLively m p
      → IsLively m q
  unfolding send_to
  send_to-IsLively m (some idle) k p q h v =
      let same_pool : put_worker k (holding p.next) (record p { next = suc p.next }) ≡ q =
        ground arith in
      subst (IsLively m) same_pool (
        put-IsLively m k (holding p.next) (record p { next = suc p.next }) (ground arith) (λ s. cc)
          (record { jobs = v.jobs; returned_late = v.returned_late; count = v.count }))
  send_to-IsLively m (some stopped) k p q h v = cc
  send_to-IsLively m (some (holding i)) k p q h v = cc
  send_to-IsLively m (some (probing i)) k p q h v = cc
  send_to-IsLively m none k p q h v = cc

  begun-in_range :
      (o : Option ContextErr) (i n : ℕ) → ltb i n ≡ true → in_range n (begun o i) ≡ true
  begun-in_range none i n h = h
  begun-in_range (some c) i n h = refl

  begun-stopped : (o : Option ContextErr) (i : ℕ) → is_stopped (begun o i) ≡ true → is_over o ≡ true
  begun-stopped none i h = cc
  begun-stopped (some c) i h = refl

  begin_at-IsLively :
      (m : ℕ) (o : Option Worker) (k : ℕ) (p q : Pool)
      → get_elem? p.workers k ≡ o
      → begin_at o k p ≡ some q
      → IsLively m p
      → IsLively m q
  unfolding begin_at
  begin_at-IsLively m (some (holding i)) k p q hw h v = subst (IsLively m) (some-injective _ _ h) (
      put-IsLively m k (begun p.over i) p
        (begun-in_range p.over i (length endpoints)
          (all-get_elem? (in_range (length endpoints)) p.workers k (holding i) v.jobs hw))
        (λ s. ground (arith, begun-stopped p.over i s)) v)
  begin_at-IsLively m (some stopped) k p q hw h v = cc
  begin_at-IsLively m (some idle) k p q hw h v = cc
  begin_at-IsLively m (some (probing i)) k p q hw h v = cc
  begin_at-IsLively m none k p q hw h v = cc

  write_result-IsLively :
      (m : ℕ) (o : Option Endpoint) (i k : ℕ) (probe : Probe) (p q : Pool)
      → write_result lib endpoints o i k probe p ≡ some q
      → IsLively m p
      → IsLively m q
  unfolding write_result
  write_result-IsLively m none i k probe p q h v = cc
  write_result-IsLively m (some e) i k probe p q h v = subst (IsLively m) (some-injective _ _ h) (
      put-IsLively m k idle _ refl (λ s. cc)
        (record { jobs = v.jobs; returned_late = v.returned_late; count = v.count }))

  finish_at-IsLively :
      (m : ℕ) (o : Option Worker) (k : ℕ) (probe : Probe) (p q : Pool)
      → finish_at lib endpoints o k probe p ≡ some q
      → IsLively m p
      → IsLively m q
  unfolding finish_at
  finish_at-IsLively m (some (probing i)) k probe p q h v =
      write_result-IsLively m (get_elem? endpoints i) i k probe p q h v
  finish_at-IsLively m (some stopped) k probe p q h v = cc
  finish_at-IsLively m (some idle) k probe p q h v = cc
  finish_at-IsLively m (some (holding i)) k probe p q h v = cc
  finish_at-IsLively m none k probe p q h v = cc

  quit_at-IsLively :
      (m : ℕ) (o : Option Worker) (k : ℕ) (p q : Pool)
      → quit_at o k p ≡ some q
      → IsLively m p
      → IsLively m q
  unfolding quit_at
  quit_at-IsLively m (some idle) k p q h v =
      let same_pool : put_worker k stopped p ≡ q = ground arith in
      subst (IsLively m) same_pool (put-IsLively m k stopped p refl (λ s. ground arith) v)
  quit_at-IsLively m (some stopped) k p q h v = cc
  quit_at-IsLively m (some (holding i)) k p q h v = cc
  quit_at-IsLively m (some (probing i)) k p q h v = cc
  quit_at-IsLively m none k p q h v = cc

  after-IsLively :
      (m : ℕ) (ev : Event) (p q : Pool)
      → after lib endpoints ev p ≡ some q
      → IsLively m p
      → IsLively m q
  unfolding after cancel_with
  after-IsLively m (send k) p q h v = send_to-IsLively m (get_elem? p.workers k) k p q h v
  after-IsLively m (begin k) p q h v = begin_at-IsLively m (get_elem? p.workers k) k p q refl h v
  after-IsLively m (finish k probe) p q h v =
      finish_at-IsLively m (get_elem? p.workers k) k probe p q h v
  after-IsLively m (quit k) p q h v = quit_at-IsLively m (get_elem? p.workers k) k p q h v
  after-IsLively m close p q h v =
      let same_pool : record p { jobs_closed = true } ≡ q = ground arith in
      subst (IsLively m) same_pool
        (record { jobs = v.jobs; returned_late = λ s. refl; count = v.count })
  after-IsLively m (cancel c) p q h v =
      let same_pool : record p { over = some c } ≡ q = ground arith in
      subst (IsLively m) same_pool
        (record { jobs = v.jobs; returned_late = λ s. ground arith; count = v.count })

  pub Reach-IsLively :
      (m : ℕ) {p : Pool} → Reach lib endpoints (start lib endpoints m) p → IsLively m p
  Reach-IsLively m here = start-IsLively m
  Reach-IsLively m (next ev r h) = after-IsLively m ev _ _ h (Reach-IsLively m r)
