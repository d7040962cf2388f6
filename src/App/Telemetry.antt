-- ===== src/App/Telemetry.antt =====
-- internal/app/service.go: SetTelemetry before TelemetryEnabled.
use tui_box.Prelude.{◌≡◌, refl, sym, ap, Bool, false, Option, none, arith}
use tui_box.Prelude.Results.{Result, ok, err}
use tui_box.Domain.Checks.{Library}
use tui_box.Latency.Result.{ContextErr}
use tui_box.Store.Snapshot.{Snapshot}
use tui_box.Store.File.{
  StoreErr, Content, Access, Edit, reject, accept, Failure, unless, update, load, load_locked,
}
use tui_box.Store.Updates.{Committed, UpdateTells, update_lem}
use tui_box.Store.Runs.{Loads}
use tui_box.Store.History.{IsNext-Loads}
use tui_box.App.Errors.{Err}
use tui_box.App.World.{World}
use tui_box.App.Edits.{telemetry_edit}
use tui_box.App.Refresh.{in_store}
use tui_box.App.Batches.{telemetry_error, set_telemetry, telemetry_enabled}

abbrev switch_of : {A : Type 0} → Bool → Edit Err A → Bool
switch_of b (reject e) = b
switch_of b (accept s a) = s.settings.telemetry_enabled

module _ (lib : Library) (encode_error : Snapshot → Option StoreErr) (enabled : Bool) where
  -- The file holds a snapshot with the setting.
  abbrev IsSwitched : Content → Type 0
  IsSwitched c =
      (s : Snapshot) × Loads lib encode_error c s × (s.settings.telemetry_enabled ≡ enabled)

  Committed-IsSwitched :
      (c c' : Content) (u : Unit {0})
      → Committed lib encode_error (telemetry_edit enabled) c u c'
      → IsSwitched c'
  unfolding telemetry_edit
  Committed-IsSwitched c c' u (s, s', l, e, n) =
      (_, IsNext-Loads lib encode_error s s' c' n, sym (ap (switch_of enabled) e))

  loaded_back :
      (t : Access) (over : Option ContextErr) (w : World)
      → t.lock_error ≡ none
      → t.load_error ≡ none
      → w.store.closed ≡ false
      → IsSwitched w.store.content
      → telemetry_enabled lib encode_error t over w ≡ ok enabled
  unfolding telemetry_enabled load load_locked
  loaded_back t over w free found open_yet (s, l, set) =
      rw (free, found, open_yet, unless, l, set) refl

  stored_by :
      (over : Option ContextErr) (c : Content) (x : World × Result (Failure Err) (Unit {0}))
      → UpdateTells lib encode_error (telemetry_edit enabled) c x.1 x.0.store.content
      → (telemetry_error over x).1 ≡ none
      → IsSwitched (telemetry_error over x).0.store.content
  stored_by over c (w, ok u) tells h = Committed-IsSwitched c w.store.content u tells
  stored_by over c (w, err e) tells h = ground arith

  -- After a SetTelemetry that returned nil, a TelemetryEnabled on the open store that gets the lock
  -- and reads the file returns the value that was set.
  pub telemetry_round_trip :
      (t t' : Access) (over over' : Option ContextErr) (w : World)
      → (set_telemetry lib encode_error t over enabled w).1 ≡ none
      → (set_telemetry lib encode_error t over enabled w).0.store.closed ≡ false
      → t'.lock_error ≡ none
      → t'.load_error ≡ none
      → telemetry_enabled lib encode_error t' over'
          (set_telemetry lib encode_error t over enabled w).0
        ≡ ok enabled
  unfolding set_telemetry
  telemetry_round_trip t t' over over' w h open_yet free found =
      loaded_back t' over' (set_telemetry lib encode_error t over enabled w).0 free found open_yet (
        stored_by over w.store.content
          (in_store w (update lib encode_error t (telemetry_edit enabled) w.store))
          (update_lem lib encode_error t (telemetry_edit enabled) w.store) h)
