-- ===== src/Tests/Endpoints.antt =====
-- Endpoints at concrete inputs.
use tui_box.Prelude.{◌≡◌, ◌↔◌, refl, true, false, none, some, [], bytes, leb}
use tui_box.Prelude.Int.{pos}
use tui_box.Domain.Checks.{Library, IsField, validate_string, validate_string_iff, message}
use tui_box.Domain.Types.{Endpoint, TlsOptions, TransportOptions, trojan, tcp}
use tui_box.Domain.Names.{validate_host}
use tui_box.Domain.Endpoint.{validate, validate_combination}
use tui_box.Domain.Options.{validate_protocol_options}
use tui_box.Domain.OptionsLaws.{IsOptionsOf, validate_protocol_options_iff}
use tui_box.Domain.Profile.{FitsProfile, validate_combination_iff}
use tui_box.Domain.Accepted.{IsHost, IsValidEndpoint, validate_host_iff, validate_iff}

-- Printable ASCII and no addresses.
abbrev pub simple_library : Library
simple_library = record {
  tables = record { format = λ r. false; graphic = λ r. leb 0x20 r };
  parse_ip = λ s. false;
}

abbrev no_tls : TlsOptions
no_tls = record {
  enabled = false;
  server_name = [];
  insecure_skip_verify = false;
  alpn = [];
  reality = none;
  utls_fingerprint = [];
}

abbrev tcp_transport : TransportOptions
tcp_transport = record { type = tcp; path = []; host = []; service_name = [] }

abbrev pub trojan_server : Endpoint
trojan_server = record {
  id = bytes "e1";
  subscription_id = bytes "s1";
  name = bytes "Trojan";
  protocol = trojan;
  host = bytes "proxy.example.";
  port = pos 443;
  uuid = [];
  password = bytes "secret";
  method = [];
  tls = record no_tls { enabled = true };
  transport = tcp_transport;
  vless_options = none;
  vmess_options = none;
  hysteria2_options = none;
  tuic_options = none;
}

-- Trojan with no TLS.
abbrev bare_trojan : Endpoint
bare_trojan = record trojan_server { tls = no_tls }

validate_iff_example :
    (validate simple_library trojan_server ≡ none) ↔ IsValidEndpoint simple_library trojan_server
validate_iff_example = validate_iff simple_library trojan_server

validate_combination_iff_example :
    (validate_combination bare_trojan ≡ none) ↔ FitsProfile bare_trojan
validate_combination_iff_example = validate_combination_iff bare_trojan

bare_trojan_rejected :
    validate_combination bare_trojan ≡ some (message "TLS is required for this protocol")
unfolding validate_combination
bare_trojan_rejected = refl

validate_protocol_options_iff_example :
    (validate_protocol_options simple_library trojan_server ≡ none)
    ↔ IsOptionsOf simple_library trojan trojan_server
validate_protocol_options_iff_example = validate_protocol_options_iff simple_library trojan_server

validate_host_iff_example :
    (validate_host simple_library "host" (bytes "proxy.example.") ≡ none)
    ↔ IsHost simple_library (bytes "proxy.example.")
validate_host_iff_example = validate_host_iff simple_library "host" (bytes "proxy.example.")

validate_string_iff_example :
    (validate_string simple_library "name" (bytes "Trojan") 256 true ≡ none)
    ↔ IsField simple_library 256 true (bytes "Trojan")
validate_string_iff_example = validate_string_iff simple_library "name" (bytes "Trojan") 256 true
