-- ===== src/Daemon/Install.antt =====
-- internal/daemon/service.go: installSessionLocked, rollbackLocked, recordConnectFailureLocked.
use tui_box.Prelude.{
  ℕ, suc, ◌+◌, ◌%◌, ◌^◌, Bool, true, false, ◌||◌, Option, none, some, List, [], ◌∷◌, if◌then◌else◌,
}
use tui_box.Domain.Types.{ConnectionMode, RouteMode, disconnecting, failed}
use tui_box.Daemon.State.{
  SessionStatus, Err, process_stuck, rollback_failure, started, closed, killed, cancelled, Previous,
  Session, Service, Request, status_of, no_status, note, set_status,
}

abbrev pub generation_modulus : ℕ
generation_modulus = 2 ^ 64

-- What runner.Start returns.
pub record StartResult : Type 0 where
  pub process : Option ℕ
  pub failed : Bool

-- installSessionLocked; the monitor of the new session is a later step of its own.
unfoldable pub install_session :
    ConnectionMode → RouteMode → ℕ → ℕ → Bool → SessionStatus → Service → Service
install_session mode route prepared process has_cancel status s = record s {
  generation = (s.generation + 1) % generation_modulus;
  installed = suc s.installed;
  status = status;
  active = some (record {
    ident = suc s.installed;
    generation = (s.generation + 1) % generation_modulus;
    mode = mode;
    route = route;
    prepared = prepared;
    process = process;
    has_cancel = has_cancel;
    stopping = false;
    rollback_previous = none;
    rollback_status = no_status;
    failed_on_exit = false;
  });
}

abbrev pub update_active : (Session → Session) → Service → Service
update_active f s = record s { active = elim s.active [ none ↦ none | some c ↦ some (f c) ] }

abbrev doomed : Session → Session
doomed c = record c { stopping = true; failed_on_exit = true }

-- What rollbackLocked observes: the result of Start, and whether the timer fired or the rollback
-- context ended before it was checked.
pub record RollbackTrace : Type 0 where
  pub start : StartResult
  pub too_late : Bool

rollback_started :
    RollbackTrace → Option ℕ → Previous → SessionStatus → Service → Service × List Err
unfolding install_session
rollback_started t none p status s = (
  set_status (status_of failed p.mode p.route) (note (closed p.prepared) s),
  rollback_failure ∷ [],
)
rollback_started t (some process) p status s =
    let s' = note (started p.prepared process) s in
    if t.too_late || t.start.failed
    then (
      note (killed process) (
          update_active doomed (
            install_session p.mode p.route p.prepared process true
              (status_of disconnecting p.mode p.route) (note (cancelled process) s'))),
      rollback_failure ∷ process_stuck ∷ [],
    )
    else (install_session p.mode p.route p.prepared process true status s', [])

-- rollbackLocked: starts the previous configuration again.
unfoldable pub rollback : RollbackTrace → Previous → SessionStatus → Service → Service × List Err
unfolding rollback_started
rollback t p status s = rollback_started t t.start.process p status s

-- recordConnectFailureLocked
unfoldable pub record_connect_failure : Option Session → Request → Service → Service
record_connect_failure none r s = set_status (status_of failed r.mode r.route) s
record_connect_failure (some old) r s = s
