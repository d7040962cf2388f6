-- ===== src/Daemon/Ownership/Connecting.antt =====
-- internal/daemon/service.go: Connect and the balance of a configuration.
use tui_box.Prelude.{
  ℕ, ◌+◌, ◌≡◌, ◌≤◌, refl, false, Option, none, some, List, [], ◌∷◌, arith, if_both, option_both,
}
use tui_box.Daemon.State.{
  SessionStatus, Err, Session, Service, Request, Reply, previous_of, note, set_active, opened,
  closed, started, run_cancel,
}
use tui_box.Daemon.Stop.{StopTrace, stop_session}
use tui_box.Daemon.StopLaws.{stop_session-SameButLog}
use tui_box.Daemon.Install.{RollbackTrace, install_session, record_connect_failure}
use tui_box.Daemon.Connect.{
  ConnectTrace, abandon_reaped, abandon, abandon_marked, replace_marked, started_stage,
  start_failed, start_stage, old_reaped, replace_old, checked_stage, prepared_stage, roll_back_to,
  close_old, start_result, prepare_result,
}
use tui_box.Daemon.Ownership.Balance.{
  hit, held, IsBalanced, InHand, FallsBackToOwn, rollback-IsBalanced, opens-stop, closes-stop,
  InHand-run_cancel,
}
use tui_box.Daemon.StartSteps.{IsEarlier}

abbrev hit_old : ℕ → Option Session → ℕ
hit_old g none = 0
hit_old g (some old) = hit g old.prepared

-- No session to fall back to.
abbrev pub HasNoOlder : Option Session → Type 0
HasNoOlder none = Unit
HasNoOlder (some c) = c.rollback_previous ≡ none

module _ (g : ℕ) where
  abbrev pub Keeps : Reply → Type 0
  Keeps x = IsBalanced g x.0

  abandon_reaped-Keeps :
      (t : ConnectTrace) (h : ℕ) (old : Option Session) (st : SessionStatus) (e : Err)
      (errs : List Err) (s : Service)
      → InHand g (hit g h + hit_old g old) s
      → Keeps (abandon_reaped t h old st e errs s)
  unfolding abandon_reaped
  abandon_reaped-Keeps t h none st e errs s b = ground arith
  abandon_reaped-Keeps t h (some old) st e errs s b =
      rollback-IsBalanced g t.rollback (previous_of old) st (note (closed h) (set_active none s))
        refl (ground arith)

  roll_back_to-Keeps :
      (t : RollbackTrace) (old : Session) (st : SessionStatus) (errs : List Err) (s : Service)
      → s.active ≡ none
      → InHand g (hit g old.prepared) s
      → Keeps (roll_back_to t old st errs s)
  unfolding roll_back_to
  roll_back_to-Keeps t old st errs s a b = rollback-IsBalanced g t (previous_of old) st s a b

  start_failed-Keeps :
      (t : ConnectTrace) (r : Request) (h : ℕ) (old : Option Session) (st : SessionStatus)
      (s : Service)
      → s.active ≡ none
      → InHand g (hit g h + hit_old g old) s
      → Keeps (start_failed t r h old st s)
  unfolding start_failed
  start_failed-Keeps t r h none st s a b = ground arith
  start_failed-Keeps t r h (some old) st s a b =
      roll_back_to-Keeps t.rollback old st _ (note (closed h) s) a (ground arith)

  stopped-InHand :
      (t : StopTrace) (c : Session) (k : ℕ) (s : Service)
      → InHand g k s
      → InHand g k (stop_session t c s).0
  stopped-InHand t c k s b = ground (arith, opens-stop g t c s, closes-stop g t c s)

  stopped-IsBalanced :
      (t : StopTrace) (c : Session) (s : Service)
      → IsBalanced g s
      → IsBalanced g (stop_session t c s).0
  stopped-IsBalanced t c s b =
      let same_one = stop_session-SameButLog t c s in
      record {
        matched = rw (opens-stop g t c s, closes-stop g t c s, same_one.active) b.matched;
        own = rw same_one.active b.own;
      }

  abandon_marked-Keeps :
      (t : ConnectTrace) (h : ℕ) (old : Option Session) (st : SessionStatus) (e : Err) (c : Session)
      (s : Service)
      → InHand g (hit g h + hit_old g old) s
      → IsBalanced g s
      → Keeps (abandon_marked t h old st e c s)
  unfolding abandon_marked
  abandon_marked-Keeps t h old st e c s b v =
      if_both Keeps (stop_session t.stop_new c s).1
        (λ done.
          abandon_reaped-Keeps t h old st e (stop_session t.stop_new c s).2
            (stop_session t.stop_new c s).0 (stopped-InHand t.stop_new c _ s b))
        (λ stuck. stopped-IsBalanced t.stop_new c s v)

  abandon-Keeps :
      (t : ConnectTrace) (r : Request) (h process : ℕ) (old : Option Session) (st : SessionStatus)
      (e : Err) (s : Service)
      → IsEarlier old s.installed
      → InHand g (hit g h + hit_old g old) s
      → Keeps (abandon t r h process old st e s)
  unfolding abandon install_session
  abandon-Keeps t r h process none st e s l b =
      abandon_marked-Keeps t h none st e _ _ b (ground arith)
  abandon-Keeps t r h process (some old) st e s l b =
      abandon_marked-Keeps t h (some old) st e _ _ b (ground arith)

  installed-IsBalanced :
      (old : Option Session) (r : Request) (h process : ℕ) (st : SessionStatus) (s : Service)
      → InHand g (hit g h + hit_old g old) s
      → IsBalanced g (close_old old (install_session r.mode r.route h process false st s))
  unfolding install_session
  installed-IsBalanced none r h process st s b = ground arith
  installed-IsBalanced (some old) r h process st s b = ground arith

  start_result-Keeps :
      (o : Option ℕ) (t : ConnectTrace) (r : Request) (h : ℕ) (old : Option Session)
      (st : SessionStatus) (s : Service)
      → s.active ≡ none
      → IsEarlier old s.installed
      → InHand g (hit g h + hit_old g old) s
      → Keeps (start_result o t r h old st s)
  unfolding start_result started_stage
  start_result-Keeps none t r h old st s a l b = start_failed-Keeps t r h old st s a b
  start_result-Keeps (some process) t r h old st s a l b =
      let s' = note (started h process) s in
      if_both Keeps t.start.failed (λ bad. start_failed-Keeps t r h old st s' a b)
        (λ good.
          option_both Keeps t.started_context (installed-IsBalanced old r h process _ s' b)
            (λ e. abandon-Keeps t r h process old st e s' l b))

  start_stage-Keeps :
      (t : ConnectTrace) (r : Request) (h : ℕ) (old : Option Session) (st : SessionStatus)
      (s : Service)
      → s.active ≡ none
      → IsEarlier old s.installed
      → InHand g (hit g h + hit_old g old) s
      → Keeps (start_stage t r h old st s)
  unfolding start_stage
  start_stage-Keeps t r h none st s a l b = start_result-Keeps t.start.process t r h none st _ a l b
  start_stage-Keeps t r h (some old) st s a l b =
      option_both Keeps t.stopped_context
        (start_result-Keeps t.start.process t r h (some old) st _ a l b)
        (λ e. roll_back_to-Keeps t.rollback old st _ _ a (ground arith))

  old_reaped-Keeps :
      (t : ConnectTrace) (r : Request) (h : ℕ) (old : Session) (st : SessionStatus)
      (errs : List Err) (s : Service)
      → s.active ≡ none
      → old.ident ≤ s.installed
      → InHand g (hit g h + hit g old.prepared) s
      → Keeps (old_reaped t r h old st errs s)
  unfolding old_reaped
  old_reaped-Keeps t r h old st [] s a l b = start_stage-Keeps t r h (some old) st s a l b
  old_reaped-Keeps t r h old st (e ∷ errs) s a l b =
      roll_back_to-Keeps t.rollback old st _ (note (closed h) s) a (ground arith)

  replace_marked-Keeps :
      (t : ConnectTrace) (r : Request) (h : ℕ) (old : Session) (st : SessionStatus) (c : Session)
      (s : Service)
      → old.ident ≤ s.installed
      → InHand g (hit g h + hit g old.prepared) s
      → held g s.active ≡ hit g old.prepared
      → FallsBackToOwn s.active
      → Keeps (replace_marked t r h old st c s)
  unfolding replace_marked
  replace_marked-Keeps t r h old st c s l b v own =
      let s' = (stop_session t.stop_old c s).0 in
      let same_one = stop_session-SameButLog t.stop_old c s in
      let in_hand = stopped-InHand t.stop_old c (hit g h + hit g old.prepared) s b in
      if_both Keeps (stop_session t.stop_old c s).1
        (λ done.
          old_reaped-Keeps t r h old st (stop_session t.stop_old c s).2
            (run_cancel old (set_active none s')) (ground arith)
            (ground (arith, same_one.installed))
            (InHand-run_cancel g old _ (set_active none s') in_hand))
        (λ stuck. record {
          matched = ground (arith, in_hand, same_one.active, v);
          own = rw same_one.active own;
        })

  replace_old-Keeps :
      (t : ConnectTrace) (r : Request) (h : ℕ) (old : Session) (s : Service)
      → old.ident ≤ s.installed
      → InHand g (hit g h + hit g old.prepared) s
      → Keeps (replace_old t r h old s)
  unfolding replace_old
  replace_old-Keeps t r h old s l b =
      replace_marked-Keeps t r h old s.status _ _ l b (ground arith) (ground arith)

  checked_stage-Keeps :
      (o : Option Session) (t : ConnectTrace) (r : Request) (h : ℕ) (s : Service)
      → s.active ≡ o
      → IsEarlier o s.installed
      → FallsBackToOwn o
      → InHand g (hit g h + held g o) s
      → HasNoOlder o
      → Keeps (checked_stage o t r h s)
  unfolding checked_stage
  checked_stage-Keeps none t r h s a l own b n = start_stage-Keeps t r h none s.status s a l b
  checked_stage-Keeps (some old) t r h s a l own b n =
      option_both Keeps t.replace_context (replace_old-Keeps t r h old s l (ground arith))
        (λ e. record { matched = ground arith; own = rw a own })

  pub prepare_result-Keeps :
      (o : Option ℕ) (t : ConnectTrace) (r : Request) (s : Service)
      → IsEarlier s.active s.installed
      → HasNoOlder s.active
      → IsBalanced g s
      → Keeps (prepare_result o t r s)
  unfolding prepare_result prepared_stage record_connect_failure
  prepare_result-Keeps none t r s l n v = ground arith
  prepare_result-Keeps (some h) t r s l n v =
      if_both Keeps t.check_failed
        (λ bad. option_both Keeps t.check_context (ground arith) (λ e. ground arith))
        (λ good.
          option_both Keeps t.checked_context
            (checked_stage-Keeps s.active t r h (note (opened h) s) refl l v.own (ground arith) n)
            (λ e. ground arith))
