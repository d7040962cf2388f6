-- ===== src/Domain/Endpoint.antt =====
-- internal/domain/endpoint.go: Endpoint.Validate.
use tui_box.Prelude.{
  ℕ, Bool, true, false, not, ◌||◌, Option, none, some, List, [], ◌∷◌, String, Bytes, same,
  if◌then◌else◌,
}
use tui_box.Prelude.Int.{outside}
use tui_box.TerminalText.{is_blank}
use tui_box.Domain.Checks.{
  Check, Library, ◌>>◌, fail_if, check_each, is_empty, validate_string, message, required,
  not_applicable,
}
use tui_box.Domain.Types.{
  Protocol, TlsOptions, TransportOptions, TransportType, VlessOptions, Endpoint, vless, vmess,
  trojan, shadowsocks, hysteria2, tuic, tcp,
}
use tui_box.Domain.Names.{validate_host, validate_uuid}
use tui_box.Domain.Tls.{validate_tls, validate_transport_fields, validate_transport, is_zero}
use tui_box.Domain.Options.{validate_protocol_options, max_credential_length, vision_flow}

abbrev pub max_id_length : ℕ
max_id_length = 128

abbrev pub max_name_length : ℕ
max_name_length = 256

abbrev pub max_uuid_length : ℕ
max_uuid_length = 36

abbrev pub max_method_length : ℕ
max_method_length = 128

abbrev pub max_port : ℕ
max_port = 65535

-- One row of the table in validateStrings.
pub record Field : Type 0 where
  pub name : String
  pub value : Bytes
  pub max_bytes : ℕ
  pub non_blank : Bool

abbrev pub fields : Endpoint → List Field
fields e =
    record { name = "ID"; value = e.id; max_bytes = max_id_length; non_blank = true }
    ∷ record {
      name = "subscription ID";
      value = e.subscription_id;
      max_bytes = max_id_length;
      non_blank = true;
    }
    ∷ record { name = "name"; value = e.name; max_bytes = max_name_length; non_blank = true }
    ∷ record { name = "UUID"; value = e.uuid; max_bytes = max_uuid_length; non_blank = false }
    ∷ record {
      name = "password";
      value = e.password;
      max_bytes = max_credential_length;
      non_blank = false;
    }
    ∷ record { name = "method"; value = e.method; max_bytes = max_method_length; non_blank = false }
    ∷ []

-- The body of the loop of validateStrings.
unfoldable pub validate_field : Library → Field → Check
validate_field lib f = do
  validate_string lib f.name f.value f.max_bytes f.non_blank
  fail_if (if f.non_blank then is_blank f.value else false) (required f.name)

-- Endpoint.validateStrings
unfoldable pub validate_strings : Library → Endpoint → Check
unfolding validate_field
validate_strings lib e = check_each (validate_field lib) (fields e)

-- requireCredential, rejectCredential, requireTLS, rejectTLS, rejectStreamTransport
unfoldable pub require_credential : String → Bytes → Check
require_credential name value = fail_if (is_empty value) (required name)

unfoldable pub reject_credential : String → Bytes → Check
reject_credential name value = fail_if (not (is_empty value)) (not_applicable name)

unfoldable pub require_tls : TlsOptions → Check
require_tls o = fail_if (not o.enabled) (message "TLS is required for this protocol")

unfoldable pub reject_tls : TlsOptions → Check
reject_tls o = fail_if o.enabled (message "TLS is not supported for this protocol")

unfoldable pub reject_stream_transport : TransportOptions → Check
unfolding is_zero
reject_stream_transport o =
    fail_if (not (is_zero o)) (message "stream transport is not supported for this protocol")

abbrev pub is_tcp : TransportType → Bool
is_tcp tcp = true
is_tcp _ = false

abbrev pub has_vision : Option VlessOptions → Bool
has_vision none = false
has_vision (some o) = same o.flow vision_flow

abbrev is_vless : Protocol → Bool
is_vless vless = true
is_vless _ = false

-- Endpoint.validateVLESSFlowCombination
unfoldable pub validate_flow : Endpoint → Check
validate_flow e =
    if not (is_vless e.protocol) || not (has_vision e.vless_options)
    then none
    else fail_if (not e.tls.enabled) (message "VLESS xtls-rprx-vision flow requires TLS")
      >> fail_if (not (is_tcp e.transport.type))
          (message "VLESS xtls-rprx-vision flow requires TCP transport")

-- The case of VLESS and VMess in validateProtocolCombination.
unfoldable pub validate_v_ray : Endpoint → Check
validate_v_ray e = do
  validate_uuid e.uuid
  reject_credential "password" e.password
  reject_credential "method" e.method
  validate_transport e.transport
  validate_flow e

-- Endpoint.validateProtocolCombination, by the protocol.
unfoldable pub validate_combination_of : Protocol → Endpoint → Check
unfolding require_credential reject_credential require_tls reject_tls reject_stream_transport
    validate_v_ray
validate_combination_of vless e = validate_v_ray e
validate_combination_of vmess e = validate_v_ray e
validate_combination_of trojan e = do
  reject_credential "UUID" e.uuid
  reject_credential "method" e.method
  require_credential "password" e.password
  require_tls e.tls
  validate_transport e.transport
validate_combination_of shadowsocks e = do
  reject_credential "UUID" e.uuid
  require_credential "method" e.method
  require_credential "password" e.password
  reject_tls e.tls
  reject_stream_transport e.transport
validate_combination_of hysteria2 e = do
  reject_credential "UUID" e.uuid
  reject_credential "method" e.method
  require_credential "password" e.password
  require_tls e.tls
  reject_stream_transport e.transport
validate_combination_of tuic e = do
  validate_uuid e.uuid
  reject_credential "method" e.method
  require_credential "password" e.password
  require_tls e.tls
  reject_stream_transport e.transport
validate_combination_of (Protocol.other s) e = none

unfoldable pub validate_combination : Endpoint → Check
unfolding validate_combination_of
validate_combination e = validate_combination_of e.protocol e

-- Protocol.isSupported
unfoldable pub is_supported : Protocol → Bool
is_supported (Protocol.other s) = false
is_supported _ = true

-- Endpoint.Validate
unfoldable pub validate : Library → Endpoint → Check
validate lib e = do
  validate_strings lib e
  fail_if (not (is_supported e.protocol)) (message "unsupported protocol")
  validate_host lib "host" e.host
  fail_if (outside 1 max_port e.port) (message "port must be between 1 and 65535")
  validate_tls lib e.tls
  validate_transport_fields lib e.transport
  validate_protocol_options lib e
  validate_combination e
