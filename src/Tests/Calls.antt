-- ===== src/Tests/Calls.antt =====
-- The calls of the daemon and of the stores at concrete inputs.
use tui_box.Prelude.{◌≡◌, refl, true, false, none, some, [], ◌∷◌, bytes}
use tui_box.Prelude.Int.{pos}
use tui_box.Prelude.Results.{ok}
use tui_box.TerminalText.{is_blank, valid}
use tui_box.TerminalText.Utf8.{valid_string, range_runes}
use tui_box.Domain.Types.{proxy, rule, trojan, connected}
use tui_box.Latency.Result.{Result, success, no_cause, ContextErr}
use tui_box.Store.Snapshot.{Snapshot, valid_snapshot, valid_subscription, holds}
use tui_box.Store.File.{decodes, update, load_locked}
use tui_box.Rpc.Codes.{Cause, code_for_error, error_for_code}
use tui_box.Rpc.Messages.{valid_request_id, valid_response, response_for_error}
use tui_box.Rpc.Answers.{Tells, error_response-Tells}
use tui_box.App.Runes.{is_identifier_rune}
use tui_box.App.World.{World}
use tui_box.App.Edits.{telemetry_edit}
use tui_box.App.Batches.{set_telemetry, telemetry_enabled}
use tui_box.App.Telemetry.{telemetry_round_trip}
use tui_box.App.Servers.{LoadTrace, ConnectTrace, connect}
use tui_box.App.Chosen.{ConnectOutcome, connect_lem}
use tui_box.Tests.Endpoints.{simple_library, trojan_server}
use tui_box.Tests.Stores.{encodes, plain, kept, file}
use tui_box.Tests.Apps.{digests, key, world}

abbrev late : Cause
late = record { of_context = some ContextErr.deadline_exceeded; is = λ e. false }

r1_is_valid : valid_request_id (bytes "r1") ≡ true
unfolding valid_request_id range_runes is_identifier_rune
r1_is_valid = refl

error_response-Tells_example :
    (valid_response (response_for_error (bytes "r1") late) (bytes "r1") ≡ true)
    × Tells late (error_for_code (code_for_error late))
error_response-Tells_example = error_response-Tells (bytes "r1") late r1_is_valid

abbrev no_step : LoadTrace
no_step = record {
  load = plain;
  before_update = λ w. w;
  update = plain;
  before_reload = λ w. w;
  reload = plain;
}

abbrev keyed_kept : Snapshot
keyed_kept = record kept {
  endpoints = trojan_server ∷ [];
  settings = record {
    telemetry_enabled = false;
    endpoint_identity_key =
        bytes "0123456789abcdef0123456789abcdef0123456789abcdef0123456789abcdef";
  };
}

-- A state with an endpoint, whose identity key is set.
abbrev server_world : World
server_world = record world { store = record file { content = decodes keyed_kept } }

abbrev reached : Result
reached = record {
  endpoint_id = bytes "e1";
  protocol = trojan;
  duration = pos 12;
  status = success;
  error = no_cause;
}

abbrev attempt : ConnectTrace
attempt = record {
  loaded = no_step;
  load_over = none;
  results = reached ∷ [];
  meanwhile = λ w. w;
  best_over = none;
  daemon = ok (record { state = connected; mode = proxy; route = rule });
  daemon_over = none;
}

connect_lem_example :
    ConnectOutcome simple_library encodes digests key attempt
      (bytes "auto")
      proxy
      rule
      server_world
      (connect simple_library encodes digests key attempt (bytes "auto") proxy rule server_world)
connect_lem_example =
    connect_lem simple_library encodes digests key attempt (bytes "auto") proxy rule server_world

abbrev switched : World
switched = (set_telemetry simple_library encodes plain none true world).0

switches : (set_telemetry simple_library encodes plain none true world).1 ≡ none
unfolding set_telemetry update telemetry_edit load_locked valid_snapshot valid_subscription is_blank
    valid_string valid holds
switches = refl

stays_open : switched.store.closed ≡ false
unfolding set_telemetry update telemetry_edit load_locked valid_snapshot valid_subscription is_blank
    valid_string valid holds
stays_open = refl

telemetry_round_trip_example :
    telemetry_enabled simple_library encodes plain none switched ≡ ok true
telemetry_round_trip_example =
    telemetry_round_trip simple_library encodes true plain plain none none world switches stays_open
      refl refl
