-- ===== src/Daemon/Ownership/Owned.antt =====
-- internal/daemon/service.go: the balance of a configuration over runs of the service.
use tui_box.Prelude.{
  ℕ, ◌+◌, ◌≡◌, refl, true, false, not, ◌&&◌, ◌||◌, Option, none, some, ◌==◌, if◌then◌else◌, arith,
  if_both, option_both, Bool-cases, inl, inr, sym, ◌∙◌,
}
use tui_box.Daemon.State.{
  SessionStatus, Err, Previous, Session, Service, Request, new_service, note, set_active, closed,
  reaped, run_cancel,
}
use tui_box.Daemon.Stop.{StopTrace, stop_session}
use tui_box.Daemon.Install.{RollbackTrace, rollback}
use tui_box.Daemon.Connect.{ConnectTrace, connect, is_stopping}
use tui_box.Daemon.Operations.{
  CloseTrace, disconnect, exit, exit_active, exit_previous, fall_back, finish_exit, close,
  close_runner,
}
use tui_box.Daemon.Steps.{IsConsistent, Reports, IsLatest}
use tui_box.Daemon.Trace.{
  Step, connect_step, disconnect_step, exit_step, close_step, close_runner_step, Reach, here, next,
  reachable-IsConsistent,
}
use tui_box.Daemon.Ownership.Balance.{
  hit, opens, closes, held, held_by_older, IsBalanced, InHand, FallsBackToOwn, IsOwn,
  rollback-IsBalanced,
}
use tui_box.Daemon.Ownership.Connecting.{Keeps, prepare_result-Keeps, HasNoOlder}
use tui_box.Daemon.StartSteps.{IsEarlier}

earlier :
    (o : Option Session) (installed generation : ℕ)
    → IsLatest o installed generation
    → IsEarlier o installed
earlier none i g l = tt
earlier (some c) i g l = omega arith

no_older :
    (o : Option Session) (st : SessionStatus) → Reports o st → is_stopping o ≡ false → HasNoOlder o
no_older none st r i = tt
no_older (some c) st r i = (r.1 i).0

connect_closed :
    (t : ConnectTrace) (r : Request) (s : Service) → s.closed ≡ true → (connect t r s).0 ≡ s
unfolding connect
connect_closed t r s c = ground arith

connect_open :
    (t : ConnectTrace) (r : Request) (s : Service)
    → (connect t r s).0.closed ≡ false
    → s.closed ≡ false
unfolding connect
connect_open t r s o = elim (Bool-cases s.closed) [
  | inl c ↦ cc (connect_closed t r s c)
  | inr c ↦ c
]

disconnect_open :
    (e ctx : Option Err) (t : StopTrace) (s : Service)
    → (disconnect e ctx t s).0.closed ≡ false
    → s.closed ≡ false
unfolding disconnect stop_session
disconnect_open e ctx t s o = ground arith

closed-rollback :
    (t : RollbackTrace) (p : Previous) (st : SessionStatus) (s : Service)
    → (rollback t p st s).0.closed ≡ s.closed
unfolding rollback
closed-rollback t p st s = ground arith

closed-fall_back :
    (t : RollbackTrace) (c : Session) (p : Previous) (s : Service)
    → (fall_back t c p s).closed ≡ s.closed
unfolding fall_back
closed-fall_back t c p s =
    closed-rollback t p c.rollback_status
      (if c.ident == p.ident then s else note (closed c.prepared) s)
    ∙ ground arith

closed-exit :
    (t : RollbackTrace) (ident generation : ℕ) (s : Service)
    → (exit t ident generation s).closed ≡ s.closed
unfolding exit exit_previous finish_exit
closed-exit t ident generation s = grind (arith, closed-fall_back)

-- Only a second call of Close leaves an open service open, and it changes nothing.
close_open : (t : CloseTrace) (s : Service) → (close t s).0.closed ≡ false → (close t s).0 ≡ s
unfolding close stop_session
close_open t s o = ground arith

module _ (g : ℕ) where
  connect-IsBalanced :
      (t : ConnectTrace) (r : Request) (s : Service)
      → IsConsistent s
      → IsBalanced g s
      → IsBalanced g (connect t r s).0
  unfolding connect
  connect-IsBalanced t r s c v =
      option_both (Keeps g) t.acquire_error
        (if_both (Keeps g) s.closed (λ _. v)
          (λ _.
            if_both (Keeps g) (is_stopping s.active) (λ _. v)
              (λ i.
                prepare_result-Keeps g t.prepared t r s
                  (earlier s.active s.installed s.generation c.latest)
                  (no_older s.active s.status c.reports i) v)))
        (λ e. v)

  disconnect-IsBalanced :
      (e ctx : Option Err) (t : StopTrace) (s : Service)
      → IsConsistent s
      → IsBalanced g s
      → IsBalanced g (disconnect e ctx t s).0
  unfolding disconnect stop_session
  disconnect-IsBalanced e ctx t s c v = ground arith

  finish_exit-IsBalanced :
      (c : Session) (s : Service)
      → s.active ≡ none
      → InHand g (hit g c.prepared) s
      → IsBalanced g (finish_exit c s)
  unfolding finish_exit
  finish_exit-IsBalanced c s a b = ground arith

  fall_back-IsBalanced :
      (t : RollbackTrace) (c : Session) (p : Previous) (s : Service)
      → s.active ≡ none
      → IsOwn c (some p)
      → InHand g (hit g c.prepared + held_by_older g c.ident (some p)) s
      → IsBalanced g (fall_back t c p s)
  unfolding fall_back
  fall_back-IsBalanced t c p s a own b =
      rollback-IsBalanced g t p c.rollback_status
        (if c.ident == p.ident then s else note (closed c.prepared) s) (ground arith) (ground arith)

  exit_previous-IsBalanced :
      (o : Option Previous) (t : RollbackTrace) (c : Session) (s : Service)
      → s.active ≡ none
      → s.closed ≡ false
      → IsOwn c o
      → (c.stopping ≡ false → o ≡ none)
      → InHand g (hit g c.prepared + held_by_older g c.ident o) s
      → IsBalanced g (exit_previous o t c s)
  unfolding exit_previous
  exit_previous-IsBalanced none t c s a open_yet own n b =
      finish_exit-IsBalanced c s a (ground arith)
  exit_previous-IsBalanced (some p) t c s a open_yet own n b =
      if_both (IsBalanced g) (c.stopping && not s.closed)
        (λ back. fall_back-IsBalanced t c p s a own b) (λ over. absurd (ground arith))

  exit_active-IsBalanced :
      (o : Option Session) (t : RollbackTrace) (ident generation : ℕ) (s : Service)
      → s.active ≡ o
      → s.closed ≡ false
      → Reports o s.status
      → FallsBackToOwn o
      → InHand g (held g o) s
      → IsBalanced g s
      → IsBalanced g (exit_active o t ident generation s)
  unfolding exit_active
  exit_active-IsBalanced none t ident generation s a open_yet r own b v = v
  exit_active-IsBalanced (some c) t ident generation s a open_yet r own b v =
      if_both (IsBalanced g) (not (c.ident == ident) || not (s.generation == generation))
        (λ stale. v)
        (λ mine.
          exit_previous-IsBalanced c.rollback_previous t c
            (run_cancel c (set_active none (note (reaped c.process) s))) (ground arith)
            (ground arith) own (λ i. (r.1 i).0) (ground arith))

  exit-IsBalanced :
      (t : RollbackTrace) (ident generation : ℕ) (s : Service)
      → s.closed ≡ false
      → IsConsistent s
      → IsBalanced g s
      → IsBalanced g (exit t ident generation s)
  unfolding exit
  exit-IsBalanced t ident generation s o c v =
      exit_active-IsBalanced s.active t ident generation s refl o c.reports v.own v.matched v

  Step-IsBalanced :
      {s t : Service}
      → Step s t
      → t.closed ≡ false
      → IsConsistent s
      → (s.closed ≡ false → IsBalanced g s)
      → IsBalanced g t
  Step-IsBalanced (connect_step t r s) o c v = connect-IsBalanced t r s c (v (connect_open t r s o))
  Step-IsBalanced (disconnect_step e ctx t s) o c v =
      disconnect-IsBalanced e ctx t s c (v (disconnect_open e ctx t s o))
  Step-IsBalanced (exit_step t ident generation s) o c v =
      let open_yet : s.closed ≡ false = sym (closed-exit t ident generation s) ∙ o in
      exit-IsBalanced t ident generation s open_yet c (v open_yet)
  Step-IsBalanced (close_step t s) o c v =
      let unchanged = close_open t s o in rw unchanged (v (rw unchanged at o))
  Step-IsBalanced (close_runner_step s) o c v =
      unfold close_runner in let b = v o in record { matched = b.matched; own = b.own }

  Reach-IsBalanced : {s : Service} → Reach new_service s → s.closed ≡ false → IsBalanced g s
  Reach-IsBalanced here o = unfold new_service in ground arith
  Reach-IsBalanced (next r st) o =
      Step-IsBalanced st o (reachable-IsConsistent r) (Reach-IsBalanced r)

-- While the service is not closed, whatever ran before: each prepared configuration was opened as
-- often as it was closed or is still held, by the active session or by the earlier session that it
-- falls back to.
pub configurations_owned :
    {s : Service} (g : ℕ)
    → Reach new_service s
    → s.closed ≡ false
    → opens g s.log ≡ closes g s.log + held g s.active
configurations_owned g r o = (Reach-IsBalanced g r o).matched
