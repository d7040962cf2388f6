-- ===== src/App/Batches.antt =====
-- internal/app/service.go: UpdateSubscriptions, SetTelemetry, TelemetryEnabled and Doctor.
use tui_box.Prelude.{
  Bool, true, false, Option, none, some, List, [], ◌∷◌, ◌++◌, map, Bytes, bytes, if◌then◌else◌,
}
use tui_box.Prelude.Results.{Result, ok, err}
use tui_box.TerminalText.{is_blank}
use tui_box.Domain.Checks.{Library, is_empty}
use tui_box.Latency.Result.{ContextErr}
use tui_box.Store.Snapshot.{Snapshot}
use tui_box.Store.File.{StoreErr, Access, Failure, update, load}
use tui_box.Subscription.Library.{Digests}
use tui_box.Rpc.Codes.{access_denied, timeout, unavailable, Cause, is_context, error_text}
use tui_box.App.Errors.{Err, subscription_not_found, state_operation, store_cause, operation_error}
use tui_box.App.World.{World}
use tui_box.App.Edits.{find_subscription, telemetry_edit}
use tui_box.App.Refresh.{RefreshTrace, Refreshes, in_store, update_error, refresh_each}

-- The subscriptions that UpdateSubscriptions refreshes.
unfoldable pub refresh_ids : Bytes → Snapshot → Result Err (List Bytes)
refresh_ids id s =
    if is_empty id
    then ok (map (λ x. x.id) s.subscriptions)
    else elim (find_subscription id s.subscriptions) [
      | none ↦ err subscription_not_found
      | some c ↦ ok (id ∷ [])
    ]

abbrev visit :
    (Bytes → Option ContextErr × RefreshTrace) → Bytes → Bytes × Option ContextErr × RefreshTrace
visit traces id = (id, (traces id).0, (traces id).1)

-- The mapping of the error of Load.
abbrev load_error_of : Option ContextErr → StoreErr → Err
load_error_of over e = operation_error over (store_cause e) state_operation

-- DiagnosticSeverity
pub data Severity : Type 0 where
  info warning error : Severity

-- Diagnostic
pub record Diagnostic : Type 0 where
  pub code : Bytes
  pub severity : Severity
  pub message : Bytes

abbrev diagnostic : Bytes → Severity → Bytes → Diagnostic
diagnostic code severity message = record { code = code; severity = severity; message = message }

-- daemonDiagnostic
unfoldable pub daemon_diagnostic : Cause → Bytes × Bytes
daemon_diagnostic c =
    if c.is access_denied
    then (bytes "daemon_access_denied", error_text access_denied)
    else if (if c.is timeout then true else is_context c.of_context)
    then (bytes "daemon_timeout", error_text timeout)
    else (bytes "daemon_unavailable", error_text unavailable)

abbrev daemon_line : Option Cause → Diagnostic
daemon_line none = diagnostic (bytes "daemon_ready") info (bytes "daemon is ready")
daemon_line (some c) = diagnostic (daemon_diagnostic c).0 error (daemon_diagnostic c).1

abbrev state_line : Result StoreErr Snapshot → Diagnostic
state_line (ok s) = diagnostic (bytes "state_ready") info (bytes "state store is ready")
state_line (err e) =
    diagnostic (bytes "state_unavailable") error (bytes "state store is unavailable")

-- `is_known_os` says that the operating system is darwin or linux, `secret_warning` is that of the
-- secret backend, and `health` the error of Health.
unfoldable pub diagnose : Bool → Result StoreErr Snapshot → Bytes → Option Cause → List Diagnostic
unfolding daemon_diagnostic
diagnose is_known_os loaded secret_warning health =
    (if is_known_os
      then []
      else diagnostic (bytes "unsupported_os") error (bytes "operating system is unsupported") ∷ [])
    ++ state_line loaded
      ∷ (if is_blank secret_warning
          then diagnostic (bytes "secret_backend_ready") info (bytes "secret backend is ready")
          else diagnostic (bytes "secret_backend_warning") warning
              (bytes "credential storage fallback is active"))
      ∷ daemon_line health
      ∷ []

abbrev pub telemetry_error :
    Option ContextErr → World × Result (Failure Err) (Unit {0}) → World × Option Err
telemetry_error over (w, ok u) = (w, none)
telemetry_error over (w, err e) = (w, some (update_error (λ x. false) over e))

abbrev telemetry_of : Option ContextErr → Result StoreErr Snapshot → Result Err Bool
telemetry_of over (ok s) = ok s.settings.telemetry_enabled
telemetry_of over (err e) = err (load_error_of over e)

module _ (lib : Library) (encode_error : Snapshot → Option StoreErr) where
  -- SetTelemetry; `none` is nil.
  unfoldable pub set_telemetry : Access → Option ContextErr → Bool → World → World × Option Err
  unfolding update telemetry_edit
  set_telemetry t over enabled w =
      telemetry_error over (in_store w (update lib encode_error t (telemetry_edit enabled) w.store))

  -- TelemetryEnabled
  unfoldable pub telemetry_enabled : Access → Option ContextErr → World → Result Err Bool
  unfolding load
  telemetry_enabled t over w = telemetry_of over (load lib encode_error t w.store)

  -- Doctor
  unfoldable pub doctor : Access → Bool → Bytes → Option Cause → World → List Diagnostic
  unfolding diagnose load
  doctor t is_known_os secret_warning health w =
      diagnose is_known_os (load lib encode_error t w.store) secret_warning health

module _ (lib : Library) (encode_error : Snapshot → Option StoreErr) (d : Digests)
    (candidate : Bytes) (traces : Bytes → Option ContextErr × RefreshTrace) where
  -- The subscriptions were loaded.
  unfoldable pub update_loaded :
      Option ContextErr
      → Bytes
      → Result StoreErr Snapshot
      → World
      → Refreshes lib encode_error d candidate
  unfolding refresh_each refresh_ids
  update_loaded over id (err e) w = (w, [], some (load_error_of over e))
  update_loaded over id (ok s) w = elim (refresh_ids id s) [
    | err e ↦ (w, [], some e)
    | ok ids ↦ refresh_each lib encode_error d candidate (map (visit traces) ids) w
  ]

  -- UpdateSubscriptions; `traces` says what the refresh of each subscription observes.
  unfoldable pub update_subscriptions :
      Access → Option ContextErr → Bytes → World → Refreshes lib encode_error d candidate
  unfolding update_loaded load
  update_subscriptions t over id w = update_loaded over id (load lib encode_error t w.store) w
