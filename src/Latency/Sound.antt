-- ===== src/Latency/Sound.antt =====
-- The state of each job of Check, and what a worker that goes on keeps.
use tui_box.Prelude.{
  ℕ, suc, ◌≡◌, refl, ◌∙◌, Bool, true, false, none, some, List, ltb, ◌==◌, length, length-map,
  get_elem?, get_elem?-set, get_elem?-set_other, get_elem?-map, set, any, any-set, any-set_other,
  arith, ◌⊎◌, inl, inr, Bool-cases,
}
use tui_box.Domain.Types.{Endpoint}
use tui_box.Domain.Checks.{Library}
use tui_box.Latency.Result.{Result}
use tui_box.Latency.Probe.{Probe, check_one}
use tui_box.Latency.Pool.{Worker, idle, stopped, holding, probing, Pool, blank, put_worker, start}

-- A worker that has the job `i`.
abbrev pub serves : ℕ → Worker → Bool
serves i idle = false
serves i stopped = false
serves i (holding j) = j == i
serves i (probing j) = j == i

module _ (lib : Library) (endpoints : List Endpoint) where
  -- The result of a probe of this endpoint.
  abbrev pub IsProbed : Endpoint → Result → Type 0
  IsProbed e r = (probe : Probe) × (r ≡ check_one lib probe e)

  -- A job that was sent is done, is with a worker, or was dropped with the context.
  pub record IsServed (i : ℕ) (e : Endpoint) (p : Pool) : Type 0 where
    pub result : Result
    pub found : get_elem? p.results i ≡ some result
    pub known :
        IsProbed e result
        ⊎ ((result ≡ blank e)
            × (p.over ≡ none → ltb i p.next ≡ true → any (serves i) p.workers ≡ true))

  pub record IsSound (p : Pool) : Type 0 where
    pub size : length p.results ≡ length endpoints
    pub served : (i : ℕ) (e : Endpoint) → get_elem? endpoints i ≡ some e → IsServed i e p
    pub sent_all : p.jobs_closed ≡ true → p.over ≡ none → ltb p.next (length endpoints) ≡ false

  pub start-IsSound : (max_parallel : ℕ) → IsSound (start lib endpoints max_parallel)
  unfolding start
  start-IsSound max_parallel = record {
    size = length-map blank endpoints;
    served = λ i e h. record {
      result = blank e;
      found = get_elem?-map blank endpoints i e h;
      known = inr (refl, λ o sent. absurd (ground arith));
    };
    sent_all = λ c o. cc;
  }

  -- A worker goes on, and leaves no job behind but with the context.
  pub put-IsSound :
      (k : ℕ) (w w' : Worker) (p : Pool)
      → get_elem? p.workers k ≡ some w
      → ((i : ℕ) → p.over ≡ none → serves i w ≡ true → serves i w' ≡ true)
      → IsSound p
      → IsSound (put_worker k w' p)
  put-IsSound k w w' p h goes_on v = record {
    size = v.size;
    served = λ i e found.
        let s = v.served i e found in
        record {
          result = s.result;
          found = s.found;
          known = elim s.known [
            | inl done ↦ inl done
            | inr (b, waits) ↦ inr (
              b,
              λ o sent. elim (Bool-cases (serves i w)) [
                | inl mine ↦ any-set (serves i) p.workers k w' w h (goes_on i o mine)
                | inr other ↦ any-set_other (serves i) p.workers k w' w h other (waits o sent)
              ],
            )
          ];
        };
    sent_all = v.sent_all;
  }

  pub send-IsSound :
      (k : ℕ) (p : Pool)
      → get_elem? p.workers k ≡ some idle
      → ltb p.next (length endpoints) ≡ true
      → p.jobs_closed ≡ false
      → IsSound p
      → IsSound (put_worker k (holding p.next) (record p { next = suc p.next }))
  send-IsSound k p h more still_open v = record {
    size = v.size;
    served = λ i e found.
        let s = v.served i e found in
        record {
          result = s.result;
          found = s.found;
          known = elim s.known [
            | inl done ↦ inl done
            | inr (b, waits) ↦ inr (
              b,
              λ o sent. elim (Bool-cases (p.next == i)) [
                | inl last ↦ any-set (serves i) p.workers k (holding p.next) idle h last
                | inr earlier ↦
                    any-set_other (serves i) p.workers k (holding p.next) idle h refl
                      (waits o (ground arith))
              ],
            )
          ];
        };
    sent_all = λ c o. cc;
  }

  pub written-IsServed :
      (i j k : ℕ) (e f : Endpoint) (probe : Probe) (p : Pool)
      → get_elem? endpoints i ≡ some e
      → get_elem? endpoints j ≡ some f
      → get_elem? p.workers k ≡ some (probing j)
      → IsServed i e p
      → IsServed i e
          (put_worker k idle (record p { results = set p.results j (check_one lib probe f) }))
  written-IsServed i j k e f probe p he hf hw s = elim (Bool-cases (j == i)) [
    | inl mine ↦
        let same_one : j ≡ i = ground arith in
        let same_end : f ≡ e = cc in
        record {
          result = check_one lib probe e;
          found =
              rw (same_one, same_end)
                (get_elem?-set p.results i (check_one lib probe e) s.result s.found);
          known = inl (probe, refl);
        }
    | inr other ↦ record {
      result = s.result;
      found =
          get_elem?-set_other p.results j i (check_one lib probe f) (λ q. ground arith) ∙ s.found;
      known = elim s.known [
        | inl done ↦ inl done
        | inr (b, waits) ↦ inr (
          b,
          λ o sent. any-set_other (serves i) p.workers k idle (probing j) hw other (waits o sent),
        )
      ];
    }
  ]
