-- ===== src/Latency/SoundSteps.antt =====
-- internal/latency/checker.go: the state of each job of Check under its events.
use tui_box.Prelude.{
  ℕ, ◌≡◌, refl, subst, some-injective, ◌∙◌, not, ◌&&◌, ◌||◌, Option, none, some, List, ltb, length,
  length-set, get_elem?, arith, inl, inr, Bool-cases,
}
use tui_box.Domain.Types.{Endpoint}
use tui_box.Domain.Checks.{Library}
use tui_box.Latency.Result.{ContextErr}
use tui_box.Latency.Probe.{Probe}
use tui_box.Latency.Pool.{
  Worker, idle, stopped, holding, probing, Pool, Event, send, begin, finish, quit, close, cancel,
  put_worker, begun, begin_at, quit_at, cancel_with, send_to, write_result, finish_at, after, start,
  Reach, here, next, is_over,
}
use tui_box.Latency.Sound.{IsSound, start-IsSound, put-IsSound, send-IsSound, written-IsServed}

module _ (lib : Library) (endpoints : List Endpoint) where
  finish-IsSound :
      (j k : ℕ) (o : Option Endpoint) (probe : Probe) (p q : Pool)
      → get_elem? endpoints j ≡ o
      → get_elem? p.workers k ≡ some (probing j)
      → write_result lib endpoints o j k probe p ≡ some q
      → IsSound lib endpoints p
      → IsSound lib endpoints q
  unfolding write_result
  finish-IsSound j k none probe p q hf hw h v = cc
  finish-IsSound j k (some f) probe p q hf hw h v =
      subst (IsSound lib endpoints) (some-injective _ _ h) (record {
        size = length-set p.results j _ ∙ v.size;
        served =
            λ i e he. written-IsServed lib endpoints i j k e f probe p he hf hw (v.served i e he);
        sent_all = v.sent_all;
      })

  send_to-IsSound :
      (o : Option Worker) (k : ℕ) (p q : Pool)
      → get_elem? p.workers k ≡ o
      → send_to lib endpoints o k p ≡ some q
      → IsSound lib endpoints p
      → IsSound lib endpoints q
  unfolding send_to
  send_to-IsSound (some idle) k p q hw h v =
      elim (Bool-cases (p.jobs_closed || not (ltb p.next (length endpoints)))) [
        | inl stay ↦ cc
        | inr go ↦
            subst (IsSound lib endpoints) (some-injective _ _ (rw go at h))
              (send-IsSound lib endpoints k p hw (ground arith) (ground arith) v)
      ]
  send_to-IsSound (some stopped) k p q hw h v = cc
  send_to-IsSound (some (holding i)) k p q hw h v = cc
  send_to-IsSound (some (probing i)) k p q hw h v = cc
  send_to-IsSound none k p q hw h v = cc

  begin_at-IsSound :
      (o : Option Worker) (k : ℕ) (p q : Pool)
      → get_elem? p.workers k ≡ o
      → begin_at o k p ≡ some q
      → IsSound lib endpoints p
      → IsSound lib endpoints q
  unfolding begin_at
  begin_at-IsSound (some (holding i)) k p q hw h v =
      subst (IsSound lib endpoints) (some-injective _ _ h)
        (put-IsSound lib endpoints k (holding i) (begun p.over i) p hw (λ j o mine. rw o mine) v)
  begin_at-IsSound (some stopped) k p q hw h v = cc
  begin_at-IsSound (some idle) k p q hw h v = cc
  begin_at-IsSound (some (probing i)) k p q hw h v = cc
  begin_at-IsSound none k p q hw h v = cc

  finish_at-IsSound :
      (o : Option Worker) (k : ℕ) (probe : Probe) (p q : Pool)
      → get_elem? p.workers k ≡ o
      → finish_at lib endpoints o k probe p ≡ some q
      → IsSound lib endpoints p
      → IsSound lib endpoints q
  unfolding finish_at
  finish_at-IsSound (some (probing i)) k probe p q hw h v =
      finish-IsSound i k (get_elem? endpoints i) probe p q refl hw h v
  finish_at-IsSound (some stopped) k probe p q hw h v = cc
  finish_at-IsSound (some idle) k probe p q hw h v = cc
  finish_at-IsSound (some (holding i)) k probe p q hw h v = cc
  finish_at-IsSound none k probe p q hw h v = cc

  quit_at-IsSound :
      (o : Option Worker) (k : ℕ) (p q : Pool)
      → get_elem? p.workers k ≡ o
      → quit_at o k p ≡ some q
      → IsSound lib endpoints p
      → IsSound lib endpoints q
  unfolding quit_at
  quit_at-IsSound (some idle) k p q hw h v =
      let same_pool : put_worker k stopped p ≡ q = ground arith in
      subst (IsSound lib endpoints) same_pool
        (put-IsSound lib endpoints k idle stopped p hw (λ j o mine. cc) v)
  quit_at-IsSound (some stopped) k p q hw h v = cc
  quit_at-IsSound (some (probing i)) k p q hw h v = cc
  quit_at-IsSound (some (holding i)) k p q hw h v = cc
  quit_at-IsSound none k p q hw h v = cc

  cancel-IsSound :
      (o : Option ContextErr) (c : ContextErr) (p q : Pool)
      → cancel_with o c p ≡ some q
      → IsSound lib endpoints p
      → IsSound lib endpoints q
  unfolding cancel_with
  cancel-IsSound (some d) c p q h v = cc
  cancel-IsSound none c p q h v = subst (IsSound lib endpoints) (some-injective _ _ h) (record {
    size = v.size;
    served = λ i e found.
        let s = v.served i e found in
        record {
          result = s.result;
          found = s.found;
          known = elim s.known [ inl done ↦ inl done | inr (b, waits) ↦ inr (b, λ o sent. cc) ];
        };
    sent_all = λ done o. cc;
  })

  close-IsSound :
      (p q : Pool)
      → after lib endpoints close p ≡ some q
      → IsSound lib endpoints p
      → IsSound lib endpoints q
  unfolding after
  close-IsSound p q h v =
      elim (Bool-cases (p.jobs_closed || (ltb p.next (length endpoints) && not (is_over p.over)))) [
        | inl stay ↦ cc
        | inr go ↦ subst (IsSound lib endpoints) (some-injective _ _ (rw go at h)) (record {
          size = v.size;
          served = λ i e found.
              let s = v.served i e found in
              record { result = s.result; found = s.found; known = s.known };
          sent_all = λ done o. ground arith;
        })
      ]

  after-IsSound :
      (ev : Event) (p q : Pool)
      → after lib endpoints ev p ≡ some q
      → IsSound lib endpoints p
      → IsSound lib endpoints q
  unfolding after
  after-IsSound (send k) p q h v = send_to-IsSound (get_elem? p.workers k) k p q refl h v
  after-IsSound (begin k) p q h v = begin_at-IsSound (get_elem? p.workers k) k p q refl h v
  after-IsSound (finish k probe) p q h v =
      finish_at-IsSound (get_elem? p.workers k) k probe p q refl h v
  after-IsSound (quit k) p q h v = quit_at-IsSound (get_elem? p.workers k) k p q refl h v
  after-IsSound close p q h v = close-IsSound p q h v
  after-IsSound (cancel c) p q h v = cancel-IsSound p.over c p q h v

  pub Reach-IsSound :
      (max_parallel : ℕ) {p : Pool}
      → Reach lib endpoints (start lib endpoints max_parallel) p
      → IsSound lib endpoints p
  Reach-IsSound max_parallel here = start-IsSound lib endpoints max_parallel
  Reach-IsSound max_parallel (next ev r h) = after-IsSound ev _ _ h (Reach-IsSound max_parallel r)
