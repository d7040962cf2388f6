-- ===== src/Latency/Checked.antt =====
-- internal/latency/checker.go: the results that Check returns.
use tui_box.Prelude.{
  ℕ, zero, suc, ◌≡◌, ◌≢◌, refl, ◌∙◌, ap, true, false, Option, none, some, List, [], ◌∷◌, ltb,
  length, length-map, get_elem?, get_elem?-map, any, any-all, arith, ◌⊎◌, inl, inr,
}
use tui_box.Domain.Types.{Endpoint}
use tui_box.Domain.Checks.{Library}
use tui_box.Latency.Result.{Result, unavailable, context, ContextErr}
use tui_box.Latency.Probe.{Probe, check_one, dialed}
use tui_box.Latency.Pool.{
  Worker, idle, stopped, holding, probing, Pool, is_stopped, blank, start, Reach, is_finished, mark,
  fill, returned, is_unset,
}
use tui_box.Latency.SoundSteps.{Reach-IsSound}
use tui_box.Latency.Sound.{serves, IsProbed}

module _ (lib : Library) (endpoints : List Endpoint) where
  probed_set : (probe : Probe) (e : Endpoint) → is_unset (check_one lib probe e).status ≡ false
  unfolding check_one dialed
  probed_set probe e = ground arith

  -- The result of a probe, or the error of a context that ended.
  abbrev pub IsAnswer : Endpoint → Option ContextErr → Result → Type 0
  IsAnswer e over r =
      IsProbed lib endpoints e r
      ⊎ ((c : ContextErr) × (over ≡ some c)
          × (r ≡ record (blank e) { status = unavailable; error = context c }))

  abbrev pub HasAnswer : ℕ → Endpoint → Option ContextErr → List Result → Type 0
  HasAnswer i e over results = (r : Result) × (get_elem? results i ≡ some r) × IsAnswer e over r

  probed-answer :
      (i : ℕ) (e : Endpoint) (over : Option ContextErr) (results : List Result) (probe : Probe)
      → get_elem? results i ≡ some (check_one lib probe e)
      → HasAnswer i e over (fill over results)
  unfolding mark
  probed-answer i e none results probe h = (check_one lib probe e, h, inl (probe, refl))
  probed-answer i e (some c) results probe h = (
    mark c (check_one lib probe e),
    get_elem?-map (mark c) results i _ h,
    inl (probe, rw (probed_set probe e) refl),
  )

  blank-answer :
      (i : ℕ) (e : Endpoint) (over : Option ContextErr) (results : List Result)
      → get_elem? results i ≡ some (blank e)
      → over ≢ none
      → HasAnswer i e over (fill over results)
  unfolding mark
  blank-answer i e none results h o = absurd (o refl)
  blank-answer i e (some c) results h o =
      (mark c (blank e), get_elem?-map (mark c) results i _ h, inr (c, refl, refl))

  busy-unfinished : (i : ℕ) (w : Worker) → serves i w ≡ true → is_stopped w ≡ false
  busy-unfinished i idle h = refl
  busy-unfinished i stopped h = cc
  busy-unfinished i (holding j) h = refl
  busy-unfinished i (probing j) h = refl

  length-fill :
      (over : Option ContextErr) (results : List Result)
      → length (fill over results) ≡ length results
  length-fill none results = refl
  length-fill (some c) results = length-map (mark c) results

  sent :
      (i : ℕ) (e : Endpoint) (es : List Endpoint)
      → get_elem? es i ≡ some e
      → ltb i (length es) ≡ true
  sent i e [] h = cc
  sent zero e (x ∷ es) h = ground arith
  sent (suc i) e (x ∷ es) h = ground (arith, sent i e es h)

  -- When every worker of Check has returned, whatever order they ran in: there is one result for
  -- each endpoint, at its place, and it is the result of a probe of that endpoint, or, if the
  -- context ended, possibly the context's error under the endpoint's ID and protocol.
  pub check_complete :
      (max_parallel i : ℕ) (e : Endpoint) (p : Pool)
      → Reach lib endpoints (start lib endpoints max_parallel) p
      → is_finished p ≡ true
      → get_elem? endpoints i ≡ some e
      → (length (returned p) ≡ length endpoints) × HasAnswer i e p.over (returned p)
  unfolding returned is_finished
  check_complete max_parallel i e p r done h =
      let v = Reach-IsSound lib endpoints max_parallel r in
      let s = v.served i e h in
      (
        length-fill p.over p.results ∙ v.size,
        elim s.known [
          | inl (probe, answer) ↦
              probed-answer i e p.over p.results probe (s.found ∙ ap some answer)
          | inr (b, waits) ↦ blank-answer i e p.over p.results (s.found ∙ ap some b) (λ o.
              let served : any (serves i) p.workers ≡ true =
                waits o (ground (arith, v.sent_all, sent i e endpoints h)) in
              ground (arith, any-all (serves i) is_stopped (busy-unfinished i) p.workers served))
        ],
      )
