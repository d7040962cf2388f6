-- ===== src/App/Servers.antt =====
-- internal/app/service.go: what needs the endpoints of the state, and the calls of the daemon.
use tui_box.Prelude.{
  Bool, true, false, not, ◌||◌, Option, none, some, List, [], ◌∷◌, Bytes, bytes, same, ◌==◌, length,
  all, if◌then◌else◌,
}
use tui_box.Prelude.Results.{Result, ok, err}
use tui_box.Domain.Checks.{Library, is_empty}
use tui_box.Domain.Types.{Endpoint, ConnectionMode, RouteMode, direct}
use tui_box.Domain.Endpoint.{validate}
use tui_box.Latency.Result.{ContextErr, Result as Measured}
use tui_box.Latency.Best.{best}
use tui_box.Daemon.State.{SessionStatus}
use tui_box.Store.Snapshot.{Snapshot, is_ok}
use tui_box.Store.File.{StoreErr, Access, Failure, of_store, of_edit, update, load}
use tui_box.Subscription.Library.{Digests}
use tui_box.Rpc.Codes.{Cause}
use tui_box.Rpc.Messages.{ConnectPayload}
use tui_box.App.Errors.{
  Err, invalid_input, server_not_found, state_operation, context, store_cause, context_error,
  operation_error, daemon_operation_error, valid_connection_mode, valid_route_mode,
}
use tui_box.App.World.{World, Others}
use tui_box.App.Edits.{find_endpoint, rekey_edit}
use tui_box.App.Refresh.{in_store}
use tui_box.App.Latencies.{project_latency_results, cache_latency_results}

-- What loadEndpointSnapshot observes, in order.
pub record LoadTrace : Type 0 where
  pub load : Access
  pub before_update : Others
  pub update : Access
  pub before_reload : Others
  pub reload : Access

abbrev pub auto_target : Bytes
auto_target = bytes "auto"

abbrev as_failure : Result StoreErr Snapshot → Result (Failure Err) Snapshot
as_failure (ok s) = ok s
as_failure (err e) = err (of_store e)

-- operationError on an error of loadEndpointSnapshot.
abbrev pub load_failure : Option ContextErr → Failure Err → Err
load_failure over (of_store e) = operation_error over (store_cause e) state_operation
load_failure over (of_edit e) = operation_error over none state_operation

abbrev pub answer : Option ContextErr → Result Cause SessionStatus → Result Err SessionStatus
answer over (ok s) = ok s
answer over (err c) = err (daemon_operation_error over c)

-- What CheckLatency observes: the results of the checker, and ctx.Err() after it.
pub record CheckTrace : Type 0 where
  pub loaded : LoadTrace
  pub load_over : Option ContextErr
  pub results : List Measured
  pub check_over : Option ContextErr
  pub meanwhile : Others

-- What Connect observes: the results of the checker, and the daemon's answer.
pub record ConnectTrace : Type 0 where
  pub loaded : LoadTrace
  pub load_over : Option ContextErr
  pub results : List Measured
  pub meanwhile : Others
  pub best_over : Option ContextErr
  pub daemon : Result Cause SessionStatus
  pub daemon_over : Option ContextErr

abbrev pub is_direct : RouteMode → Bool
is_direct direct = true
is_direct _ = false

abbrev pub Loaded : Type 0
Loaded = World × Result (Failure Err) Snapshot

abbrev pub Checked : Type 0
Checked = World × Result Err (List Measured)

-- The world, the payload that the daemon was sent, and the result.
abbrev pub Connected : Type 0
Connected = World × Option ConnectPayload × Result Err SessionStatus

module _ (lib : Library) (encode_error : Snapshot → Option StoreErr) (d : Digests)
    (candidate : Bytes) where
  -- The endpoints were re-keyed: the latencies of the old IDs are dropped.
  unfoldable pub after_rekey : LoadTrace → World × Result (Failure Err) (Unit {0}) → Loaded
  unfolding load
  after_rekey t (w, err e) = (w, err e)
  after_rekey t (w, ok u) =
      let w' = t.before_reload (record w { latencies = [] }) in
      (w', as_failure (load lib encode_error t.reload w'.store))

  unfoldable pub after_load : LoadTrace → Result StoreErr Snapshot → World → Loaded
  unfolding after_rekey update rekey_edit
  after_load t (err e) w = (w, err (of_store e))
  after_load t (ok s) w =
      if length s.endpoints == 0 || not (is_empty s.settings.endpoint_identity_key)
      then (w, ok s)
      else let w' = t.before_update w in
        after_rekey t
          (in_store w' (update lib encode_error t.update (rekey_edit lib d candidate) w'.store))

  -- loadEndpointSnapshot
  unfoldable pub load_endpoint_snapshot : LoadTrace → World → Loaded
  unfolding after_load load
  load_endpoint_snapshot t w = after_load t (load lib encode_error t.load w.store) w

  unfoldable pub check_endpoints : CheckTrace → List Endpoint → World → Checked
  unfolding cache_latency_results project_latency_results
  check_endpoints t es w = elim t.check_over [
    | some c ↦ (t.meanwhile w, err (context c))
    | none ↦
        let projected = project_latency_results es t.results in
        (cache_latency_results projected (t.meanwhile w), ok projected)
  ]

  unfoldable pub check_loaded : CheckTrace → Bytes → Bool → Loaded → Checked
  unfolding check_endpoints
  check_loaded t id is_all (w, err e) = (w, err (load_failure t.load_over e))
  check_loaded t id true (w, ok s) = check_endpoints t s.endpoints w
  check_loaded t id false (w, ok s) = elim (find_endpoint id s.endpoints) [
    | none ↦ (w, err server_not_found)
    | some e ↦ check_endpoints t (e ∷ []) w
  ]

  -- CheckLatency
  unfoldable pub check_latency : CheckTrace → Bytes → Bool → World → Checked
  unfolding check_loaded load_endpoint_snapshot
  check_latency t id is_all w = check_loaded t id is_all (load_endpoint_snapshot t.loaded w)

  abbrev pub refuse : Err → World → Connected
  refuse e w = (w, none, err e)

  unfoldable pub send : ConnectTrace → ConnectPayload → World → Connected
  send t payload w = (w, some payload, answer t.daemon_over t.daemon)

  abbrev pub send_endpoint :
      ConnectTrace → ConnectionMode → RouteMode → Option Endpoint → World → Connected
  send_endpoint t mode route none w = refuse server_not_found w
  send_endpoint t mode route (some e) w =
      send t (record { endpoint = some e; mode = mode; route = route }) w

  abbrev pub send_best :
      ConnectTrace
      → ConnectionMode
      → RouteMode
      → List Endpoint
      → Option Measured
      → World
      → Connected
  send_best t mode route es none w = elim (context_error t.best_over none) [
    | some c ↦ refuse (context c) w
    | none ↦ refuse server_not_found w
  ]
  send_best t mode route es (some b) w =
      send_endpoint t mode route (find_endpoint b.endpoint_id es) w

  unfoldable pub connect_loaded :
      ConnectTrace → Bytes → ConnectionMode → RouteMode → Loaded → Connected
  unfolding send cache_latency_results project_latency_results
  connect_loaded t target mode route (w, err e) = refuse (load_failure t.load_over e) w
  connect_loaded t target mode route (w, ok s) =
      let projected = project_latency_results s.endpoints t.results in
      if not (all (λ e. is_ok (validate lib e)) s.endpoints)
      then refuse state_operation w
      else if same target auto_target
      then send_best t mode route s.endpoints (best projected)
          (cache_latency_results projected (t.meanwhile w))
      else send_endpoint t mode route (find_endpoint target s.endpoints) w

  -- Connect
  unfoldable pub connect : ConnectTrace → Bytes → ConnectionMode → RouteMode → World → Connected
  unfolding connect_loaded load_endpoint_snapshot
  connect t target mode route w =
      if not (valid_connection_mode mode) || not (valid_route_mode route)
      then refuse invalid_input w
      else if is_direct route
      then send t (record { endpoint = none; mode = mode; route = route }) w
      else if is_empty target
      then refuse invalid_input w
      else connect_loaded t target mode route (load_endpoint_snapshot t.loaded w)
