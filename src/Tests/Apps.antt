-- ===== src/Tests/Apps.antt =====
-- The application service at concrete inputs.
use tui_box.Prelude.{
  ◌≡◌, refl, true, false, none, some, List, [], ◌∷◌, map, same, Bytes, bytes, arith,
}
use tui_box.Prelude.Results.{ok}
use tui_box.Domain.Endpoint.{
  validate, validate_strings, is_supported, validate_combination, reject_credential, reject_tls,
  require_credential, require_tls, validate_combination_of, validate_field,
}
use tui_box.Domain.Checks.{validate_string}
use tui_box.Domain.Names.{validate_host, valid_host_label, is_label_rune, split, trim_last}
use tui_box.Domain.Tls.{
  validate_tls, validate_enabled, validate_fingerprint, one_of, validate_transport_fields,
  validate_transport, is_zero, validate_transport_type,
}
use tui_box.Domain.Options.{validate_protocol_options, validate_options_of}
use tui_box.TerminalText.{valid, is_blank, is_safe_rune, is_control, is_space}
use tui_box.TerminalText.Utf8.{valid_string, decode, range_runes, runes, scan}
use tui_box.Prelude.Hex.{encode_hex}
use tui_box.Domain.Types.{Endpoint}
use tui_box.Domain.Subscription.{uri_list}
use tui_box.Store.Snapshot.{Snapshot, holds}
use tui_box.Store.File.{accept, update}
use tui_box.Subscription.Library.{Digests}
use tui_box.App.World.{World, written}
use tui_box.App.Identity.{
  prepare_endpoints, prepare_from, check_keyed, keyed_endpoint_id, parsed_endpoints_ok,
}
use tui_box.Subscription.Parser.{Parsed}
use tui_box.App.Edits.{mark_refresh, find_subscription, change_subscription}
use tui_box.App.Refresh.{RefreshTrace, refresh_subscription}
use tui_box.App.Add.{AddTrace, add_subscription}
use tui_box.App.Remove.{RemoveTrace, remove_subscription}
use tui_box.App.AddCompensates.{AddOutcome, add_subscription_lem}
use tui_box.App.RemoveCompensates.{RemoveOutcome, remove_subscription_lem}
use tui_box.App.RefreshEnds.{RefreshOutcome}
use tui_box.App.RefreshCommits.{refresh_subscription_lem}
use tui_box.App.Tokens.{BothLost, superseded_refresh_lost}
use tui_box.App.Prepared.{unnamed, prepare_endpoints_lem}
use tui_box.Tests.Endpoints.{simple_library, trojan_server}
use tui_box.Tests.Stores.{encodes, plain, home, kept, file}

-- Digests that tell apart what these runs ask of them.
abbrev pub digests : Digests
digests = record {
  to_lower = λ s. s;
  parse_addr = λ s. none;
  sha256 = λ s. s;
  marshal = λ i. some (i.host);
  hmac = λ key m. m;
}

abbrev pub key : Bytes
key = bytes "0123456789abcdef0123456789abcdef"

abbrev parsed : Parsed
parsed = record { format = uri_list; endpoints = trojan_server ∷ []; warnings = [] }

abbrev pub world : World
world = record {
  store = file;
  secrets = (bytes "subscription-s1", bytes "https://a.example/") ∷ [];
  latencies = [];
}

-- A refresh that another one overtakes while it waits for the document.
abbrev refresh : RefreshTrace
refresh = record {
  token = some (bytes "t1");
  mark = plain;
  mark_over = none;
  meanwhile = λ w. w;
  get_error = none;
  fetched = ok (bytes "trojan://…");
  parsed = some parsed;
  wait_over = none;
  parse_over = none;
  now = 8;
  during = λ w. record w {
    store =
        (update simple_library encodes plain (mark_refresh (bytes "s1") (bytes "t2")) w.store).0;
  };
  commit = plain;
  commit_over = none;
  before_failure = λ w. w;
  failure = plain;
  failure_over = none;
}

refresh_subscription_lem_example :
    RefreshOutcome simple_library encodes digests key refresh
      (bytes "s1")
      world
      (refresh_subscription simple_library encodes digests key refresh (bytes "s1") world)
refresh_subscription_lem_example =
    refresh_subscription_lem simple_library encodes digests key refresh (bytes "s1") world

abbrev marked_kept : Snapshot
marked_kept = record kept { subscriptions = record home { refresh_token = bytes "t2" } ∷ [] }

marks :
    mark_refresh (bytes "s1") (bytes "t2") kept
    ≡ accept marked_kept (record home { refresh_token = bytes "t2" }, [])
unfolding mark_refresh find_subscription same change_subscription
marks = refl

superseded_refresh_lost_example :
    BothLost simple_library digests key
      (bytes "s1")
      (bytes "subscription-s1")
      (bytes "t1")
      8
      parsed
      marked_kept
superseded_refresh_lost_example =
    superseded_refresh_lost simple_library digests key (bytes "s1") (bytes "subscription-s1")
      (bytes "t1") (bytes "t2") 8 parsed kept marked_kept
      (record home { refresh_token = bytes "t2" }, []) (λ e. ground arith) marks

-- An addition whose state is not saved, and whose secret is then taken back.
abbrev add : AddTrace
add = record {
  id = some (bytes "s2");
  get_error = none;
  get_over = none;
  fetched = ok (bytes "trojan://…");
  fetch_over = none;
  parse_error = none;
  parsed = record parsed { endpoints = record trojan_server { subscription_id = bytes "s2" } ∷ [] };
  parse_over = none;
  parsed_over = none;
  meanwhile = λ w. w;
  set = written;
  set_over = none;
  now = 8;
  before_update = λ w. record w { store = record (w.store) { closed = true } };
  update = plain;
  update_over = none;
  before_load = λ w. record w { store = record (w.store) { closed = false } };
  load = plain;
  before_delete = λ w. w;
  delete = written;
}

add_subscription_lem_example :
    AddOutcome simple_library encodes digests key add world
      (bytes "s2")
      (bytes "Work")
      (bytes "https://b.example/")
      (add_subscription simple_library encodes digests key add
        (bytes "Work")
        (bytes "https://b.example/")
        world)
add_subscription_lem_example =
    add_subscription_lem simple_library encodes digests key add world (bytes "s2") (bytes "Work")
      (bytes "https://b.example/") refl

-- A removal whose state is not saved, and whose secret is put back.
abbrev remove : RemoveTrace
remove = record {
  load = plain;
  load_over = none;
  meanwhile = λ w. w;
  get_error = none;
  get_over = none;
  delete = written;
  delete_over = none;
  before_update = λ w. record w { store = record (w.store) { closed = true } };
  update = plain;
  update_over = none;
  before_load = λ w. record w { store = record (w.store) { closed = false } };
  reload = plain;
  before_restore = λ w. w;
  restore = written;
}

remove_subscription_lem_example :
    RemoveOutcome simple_library encodes remove
      (bytes "s1")
      world
      (remove_subscription simple_library encodes remove (bytes "s1") world)
remove_subscription_lem_example =
    remove_subscription_lem simple_library encodes remove (bytes "s1") world

abbrev pub keyed : List Endpoint
keyed =
    record trojan_server {
      id = keyed_endpoint_id simple_library digests key (bytes "s1") (bytes "e1");
    }
    ∷ []

prepares : prepare_endpoints simple_library digests key (bytes "s1") (trojan_server ∷ []) ≡ ok keyed
unfolding prepare_endpoints prepare_from check_keyed keyed_endpoint_id same validate
    validate_strings is_supported validate_combination reject_credential reject_tls
    require_credential require_tls validate_combination_of validate_field validate_string
    validate_host valid_host_label is_label_rune split trim_last validate_tls validate_enabled
    validate_fingerprint one_of validate_transport_fields validate_transport is_zero
    validate_transport_type validate_protocol_options validate_options_of valid is_blank
    is_safe_rune is_control is_space valid_string decode range_runes runes scan holds encode_hex
prepares = refl

prepare_endpoints_lem_example :
    (parsed_endpoints_ok simple_library digests (bytes "s1") [] keyed ≡ true)
    × (map unnamed keyed ≡ map unnamed (trojan_server ∷ []))
prepare_endpoints_lem_example =
    prepare_endpoints_lem simple_library digests key (bytes "s1") (trojan_server ∷ []) keyed
      prepares
