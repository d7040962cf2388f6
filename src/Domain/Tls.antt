-- ===== src/Domain/Tls.antt =====
-- internal/domain/endpoint.go: TLS, Reality, uTLS and transport options.
use tui_box.Prelude.{
  ℕ, ◌*◌, ◌/◌, ◌%◌, Bool, true, false, not, ◌&&◌, ◌||◌, Option, none, some, List, [], ◌∷◌, Bytes,
  bytes, same, ltb, within, ◌==◌, length, all, any, if◌then◌else◌,
}
use tui_box.TerminalText.Utf8.{range_runes}
use tui_box.Domain.Checks.{
  Check, Library, ◌>>◌, fail_if, check_each, is_empty, is_set, if_set, validate_string, invalid,
  message, unsupported,
}
use tui_box.Domain.Types.{
  RealityClientOptions, TlsOptions, TransportOptions, TransportType, unset, tcp, web_socket, grpc,
  http_upgrade,
}
use tui_box.Domain.Names.{is_hex, validate_host}

abbrev pub max_tls_field_length : ℕ
max_tls_field_length = 255

abbrev pub max_reality_public_key_length : ℕ
max_reality_public_key_length = 64

abbrev pub max_reality_short_id_length : ℕ
max_reality_short_id_length = 16

abbrev pub max_utls_fingerprint_length : ℕ
max_utls_fingerprint_length = 32

abbrev pub max_transport_field_length : ℕ
max_transport_field_length = 2048

abbrev pub max_alpn_values : ℕ
max_alpn_values = 16

-- Whether a string is one of the constants of a Go string type.
unfoldable pub one_of : Bytes → List Bytes → Bool
unfolding same
one_of value names = any (same value) names

abbrev pub utls_fingerprints : List Bytes
utls_fingerprints =
    bytes ""
    ∷ bytes "chrome"
    ∷ bytes "firefox"
    ∷ bytes "edge"
    ∷ bytes "safari"
    ∷ bytes "360"
    ∷ bytes "qq"
    ∷ bytes "ios"
    ∷ bytes "android"
    ∷ bytes "random"
    ∷ bytes "randomized"
    ∷ []

abbrev is_base64_url : ℕ → Bool
is_base64_url c =
    within b'A' b'Z' c || within b'a' b'z' c || within b'0' b'9' c || c == b'-' || c == b'_'

abbrev without_newlines : Bytes → Bytes
without_newlines [] = []
without_newlines (a ∷ s) =
    let rest = without_newlines s in if a == 0x0A || a == 0x0D then rest else a ∷ rest

-- base64.RawURLEncoding.DecodeString: the length of what it decodes to, `none` for its error.
unfoldable pub decoded_length : Bytes → Option ℕ
decoded_length s =
    let digits = without_newlines s in
    if all is_base64_url digits && not (length digits % 4 == 1)
    then some (length digits * 6 / 8)
    else none

abbrev is_length : ℕ → Option ℕ → Bool
is_length n none = false
is_length n (some m) = m == n

abbrev no_values : List Bytes → Bool
no_values [] = true
no_values (x ∷ xs) = false

module _ (lib : Library) where
  -- RealityClientOptions.validate
  unfoldable pub validate_reality : RealityClientOptions → Check
  validate_reality o = do
    validate_string lib "Reality public key" o.public_key max_reality_public_key_length true
    fail_if (not (is_length 32 (decoded_length o.public_key))) (invalid "Reality public key")
    validate_string lib "Reality short ID" o.short_id max_reality_short_id_length false
    fail_if (not (length o.short_id % 2 == 0)) (invalid "Reality short ID")
    fail_if (not (all is_hex (range_runes o.short_id))) (invalid "Reality short ID")

  -- UTLSFingerprint.validate
  unfoldable pub validate_fingerprint : Bytes → Check
  validate_fingerprint f = do
    validate_string lib "uTLS fingerprint" f max_utls_fingerprint_length false
    fail_if (not (one_of f utls_fingerprints)) (unsupported "uTLS fingerprint")

  -- The branch of TLSOptions.validate for disabled TLS.
  unfoldable pub validate_disabled : TlsOptions → Check
  validate_disabled o =
      fail_if
        (not (is_empty o.server_name)
          || o.insecure_skip_verify
          || not (no_values o.alpn)
          || is_set o.reality
          || not (is_empty o.utls_fingerprint))
        (message "TLS options require TLS to be enabled")

  abbrev validate_server_name : Bytes → Check
  validate_server_name [] = none
  validate_server_name (a ∷ s) = validate_host lib "TLS server name" (a ∷ s)

  -- The branch for enabled TLS.
  unfoldable pub validate_enabled : TlsOptions → Check
  validate_enabled o = do
    validate_server_name o.server_name
    fail_if (ltb max_alpn_values (length o.alpn)) (message "TLS ALPN has too many values")
    check_each (λ p. validate_string lib "TLS ALPN" p max_tls_field_length true) o.alpn
    if_set validate_reality o.reality
    validate_fingerprint o.utls_fingerprint

  -- TLSOptions.validate
  unfoldable pub validate_tls : TlsOptions → Check
  unfolding validate_disabled
  validate_tls o = if not o.enabled then validate_disabled o else validate_enabled o

  -- TransportOptions.validateFields
  unfoldable pub validate_transport_fields : TransportOptions → Check
  validate_transport_fields o = do
    validate_string lib "transport path" o.path max_transport_field_length false
    validate_string lib "transport host" o.host max_transport_field_length false
    validate_string lib "transport service name" o.service_name max_transport_field_length false

-- TransportOptions.validate, by the transport's type.
unfoldable pub validate_transport_type : TransportType → TransportOptions → Check
validate_transport_type tcp o =
    fail_if (not (is_empty o.path) || not (is_empty o.host) || not (is_empty o.service_name))
      (message "TCP transport does not accept path, host, or service name")
validate_transport_type web_socket o =
    fail_if (not (is_empty o.service_name)) (message "ws transport does not accept service name")
validate_transport_type http_upgrade o =
    fail_if (not (is_empty o.service_name))
      (message "httpupgrade transport does not accept service name")
validate_transport_type grpc o =
    fail_if (not (is_empty o.path) || not (is_empty o.host))
      (message "gRPC transport does not accept path or host")
validate_transport_type unset o = some (unsupported "transport")
validate_transport_type (TransportType.other s) o = some (unsupported "transport")

unfoldable pub validate_transport : TransportOptions → Check
unfolding validate_transport_type
validate_transport o = validate_transport_type o.type o

abbrev is_unset : TransportType → Bool
is_unset unset = true
is_unset _ = false

-- TransportOptions.isZero
unfoldable pub is_zero : TransportOptions → Bool
is_zero o = is_unset o.type && is_empty o.path && is_empty o.host && is_empty o.service_name
