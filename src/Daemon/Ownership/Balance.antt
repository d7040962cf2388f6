-- ===== src/Daemon/Ownership/Balance.antt =====
-- The balance of one configuration, and the parts of the service that move it.
use tui_box.Prelude.{ℕ, ◌+◌, ◌≡◌, Option, none, some, List, [], ◌∷◌, ◌==◌, if◌then◌else◌, arith}
use tui_box.Daemon.State.{
  SessionStatus, Effect, Previous, Session, Service, opened, closed, run_cancel,
}
use tui_box.Daemon.Stop.{StopTrace, stop_session}
use tui_box.Daemon.Install.{RollbackTrace, rollback}

abbrev pub hit : ℕ → ℕ → ℕ
hit g h = if h == g then 1 else 0

-- How often the log opens, and closes, the configuration `g`.
abbrev pub opens : ℕ → List Effect → ℕ
opens g [] = 0
opens g (opened h ∷ l) = hit g h + opens g l
opens g (x ∷ l) = opens g l

abbrev pub closes : ℕ → List Effect → ℕ
closes g [] = 0
closes g (closed h ∷ l) = hit g h + closes g l
closes g (x ∷ l) = closes g l

-- A session to fall back to holds its configuration, unless it is the same session.
abbrev pub held_by_older : ℕ → ℕ → Option Previous → ℕ
held_by_older g ident none = 0
held_by_older g ident (some p) = if p.ident == ident then 0 else hit g p.prepared

abbrev pub held : ℕ → Option Session → ℕ
held g none = 0
held g (some c) = hit g c.prepared + held_by_older g c.ident c.rollback_previous

-- A session that falls back to itself falls back to its own configuration.
abbrev pub IsOwn : Session → Option Previous → Type 0
IsOwn c none = Unit
IsOwn c (some p) = p.ident ≡ c.ident → p.prepared ≡ c.prepared

abbrev pub FallsBackToOwn : Option Session → Type 0
FallsBackToOwn none = Unit
FallsBackToOwn (some c) = IsOwn c c.rollback_previous

pub record IsBalanced (g : ℕ) (s : Service) : Type 0 where
  pub matched : opens g s.log ≡ closes g s.log + held g s.active
  pub own : FallsBackToOwn s.active

-- As much is open as the log closed, with `k` more in hand.
abbrev pub InHand : ℕ → ℕ → Service → Type 0
InHand g k s = opens g s.log ≡ closes g s.log + k

module _ (g : ℕ) where
  pub rollback-IsBalanced :
      (t : RollbackTrace) (p : Previous) (st : SessionStatus) (s : Service)
      → s.active ≡ none
      → InHand g (hit g p.prepared) s
      → IsBalanced g (rollback t p st s).0
  unfolding rollback
  rollback-IsBalanced t p st s a h = ground arith

  pub opens-stop :
      (t : StopTrace) (c : Session) (s : Service)
      → opens g (stop_session t c s).0.log ≡ opens g s.log
  unfolding stop_session
  opens-stop t c s = ground arith

  pub closes-stop :
      (t : StopTrace) (c : Session) (s : Service)
      → closes g (stop_session t c s).0.log ≡ closes g s.log
  unfolding stop_session
  closes-stop t c s = ground arith

  pub InHand-run_cancel :
      (c : Session) (k : ℕ) (s : Service) → InHand g k s → InHand g k (run_cancel c s)
  InHand-run_cancel c k s h = ground arith
