-- ===== src/Domain/Accepted.antt =====
-- What Endpoint.Validate accepts, stated without the order of its tests.
use tui_box.Prelude.{
  ◌≤◌, ◌%◌, ◌≡◌, ◌≢◌, ◌↔◌, ◌⊎◌, true, false, none, some, List, [], Bytes, arith, All, All-map,
  all_iff, all, length, String,
}
use tui_box.Prelude.Int.{InRange}
use tui_box.TerminalText.{is_blank}
use tui_box.Domain.Checks.{
  Library, IsField, validate_string, validate_string_iff, check_each, check_each-none,
}
use tui_box.Domain.Types.{RealityClientOptions, TlsOptions, TransportOptions, Endpoint}
use tui_box.Domain.Names.{
  validate_host, valid_host_label, split, trim_last, is_hex, max_host_length,
}
use tui_box.Domain.NamesLaws.{IsHostLabel, valid_host_label_iff, all-range_runes, is_hex-ascii}
use tui_box.Domain.Tls.{
  one_of, decoded_length, validate_reality, validate_fingerprint, validate_enabled, validate_tls,
  validate_transport_fields, utls_fingerprints,
}
use tui_box.Domain.Endpoint.{
  Field, fields, validate_field, validate_strings, is_supported, validate,
}
use tui_box.Domain.OptionsLaws.{
  IfSet, if_set_iff, outside_iff, IsOptionsOf, validate_protocol_options_iff,
}
use tui_box.Domain.Profile.{FitsProfile, validate_combination_iff}

module _ (lib : Library) where
  -- A host: an address that net.ParseIP reads, or labels joined by dots.
  pub record IsHost (value : Bytes) : Type 0 where
    pub field : IsField lib max_host_length true value
    pub shape : (lib.parse_ip value ≡ true) ⊎ All IsHostLabel (split b'.' (trim_last b'.' value))

  pub record IsReality (o : RealityClientOptions) : Type 0 where
    pub key : IsField lib 64 true o.public_key
    pub key_size : decoded_length o.public_key ≡ some 32
    pub id : IsField lib 16 false o.short_id
    pub id_even : length o.short_id % 2 ≡ 0
    pub id_hex : all is_hex o.short_id ≡ true

  pub record IsEnabledTls (o : TlsOptions) : Type 0 where
    pub server : o.server_name ≢ [] → IsHost o.server_name
    pub few_alpn : length o.alpn ≤ 16
    pub alpn : All (IsField lib 255 true) o.alpn
    pub reality : IfSet IsReality o.reality
    pub fingerprint : IsField lib 32 false o.utls_fingerprint
    pub known_fingerprint : one_of o.utls_fingerprint utls_fingerprints ≡ true

  -- Disabled TLS carries no option.
  pub record IsDisabledTls (o : TlsOptions) : Type 0 where
    pub server : o.server_name ≡ []
    pub secure : o.insecure_skip_verify ≡ false
    pub alpn : o.alpn ≡ []
    pub reality : o.reality ≡ none
    pub fingerprint : o.utls_fingerprint ≡ []

  pub record IsTls (o : TlsOptions) : Type 0 where
    pub on : o.enabled ≡ true → IsEnabledTls o
    pub off : o.enabled ≡ false → IsDisabledTls o

  -- One row of the table of text fields.
  pub record IsRow (f : Field) : Type 0 where
    pub field : IsField lib f.max_bytes f.non_blank f.value
    pub visible : f.non_blank ≡ true → is_blank f.value ≡ false

  validate_field_iff : (f : Field) → (validate_field lib f ≡ none) ↔ IsRow f
  unfolding validate_field
  validate_field_iff f = (
    λ h. ground (arith, validate_string_iff lib f.name f.value f.max_bytes f.non_blank),
    λ h. ground (arith, validate_string_iff lib f.name f.value f.max_bytes f.non_blank),
  )

  validate_strings_iff : (e : Endpoint) → (validate_strings lib e ≡ none) ↔ All IsRow (fields e)
  unfolding validate_strings
  validate_strings_iff e = (
    λ h.
        All-map (fields e) (λ f. (validate_field_iff f).0)
          ((check_each-none (validate_field lib) (fields e)).0 h),
    λ h.
        (check_each-none (validate_field lib) (fields e)).1
          (All-map (fields e) (λ f. (validate_field_iff f).1) h),
  )

  -- validateHost returns nil exactly for hosts.
  pub validate_host_iff :
      (name : String) (value : Bytes) → (validate_host lib name value ≡ none) ↔ IsHost value
  unfolding validate_host
  validate_host_iff name value = (
    λ h. ground (
      arith,
      validate_string_iff lib name value 253 true,
      all_iff valid_host_label valid_host_label_iff (split b'.' (trim_last b'.' value)),
    ),
    λ h. ground (
      arith,
      validate_string_iff lib name value 253 true,
      all_iff valid_host_label valid_host_label_iff (split b'.' (trim_last b'.' value)),
    ),
  )

  validate_reality_iff : (o : RealityClientOptions) → (validate_reality lib o ≡ none) ↔ IsReality o
  unfolding validate_reality
  validate_reality_iff o = (
    λ h. ground (
      arith,
      validate_string_iff lib "Reality public key" o.public_key 64 true,
      validate_string_iff lib "Reality short ID" o.short_id 16 false,
      all-range_runes is_hex is_hex-ascii o.short_id,
    ),
    λ h. ground (
      arith,
      validate_string_iff lib "Reality public key" o.public_key 64 true,
      validate_string_iff lib "Reality short ID" o.short_id 16 false,
      all-range_runes is_hex is_hex-ascii o.short_id,
    ),
  )

  validate_alpn_iff :
      (ps : List Bytes)
      → (check_each (λ p. validate_string lib "TLS ALPN" p 255 true) ps ≡ none)
        ↔ All (IsField lib 255 true) ps
  validate_alpn_iff ps = (
    λ h.
        All-map ps (λ p. (validate_string_iff lib "TLS ALPN" p 255 true).0)
          ((check_each-none (λ p. validate_string lib "TLS ALPN" p 255 true) ps).0 h),
    λ h.
        (check_each-none (λ p. validate_string lib "TLS ALPN" p 255 true) ps).1
          (All-map ps (λ p. (validate_string_iff lib "TLS ALPN" p 255 true).1) h),
  )

  validate_enabled_iff : (o : TlsOptions) → (validate_enabled lib o ≡ none) ↔ IsEnabledTls o
  unfolding validate_enabled validate_fingerprint
  validate_enabled_iff o = (
    λ h. ground (
      arith,
      validate_host_iff "TLS server name" o.server_name,
      validate_alpn_iff o.alpn,
      if_set_iff (validate_reality lib) validate_reality_iff o.reality,
      validate_string_iff lib "uTLS fingerprint" o.utls_fingerprint 32 false,
    ),
    λ h. ground (
      arith,
      validate_host_iff "TLS server name" o.server_name,
      validate_alpn_iff o.alpn,
      if_set_iff (validate_reality lib) validate_reality_iff o.reality,
      validate_string_iff lib "uTLS fingerprint" o.utls_fingerprint 32 false,
    ),
  )

  validate_tls_iff : (o : TlsOptions) → (validate_tls lib o ≡ none) ↔ IsTls o
  unfolding validate_tls
  validate_tls_iff o =
      (λ h. ground (arith, validate_enabled_iff o), λ h. ground (arith, validate_enabled_iff o))

  transport_fields_iff :
      (o : TransportOptions)
      → (validate_transport_fields lib o ≡ none)
        ↔ IsField lib 2048 false o.path
          × IsField lib 2048 false o.host
          × IsField lib 2048 false o.service_name
  unfolding validate_transport_fields
  transport_fields_iff o = (
    λ h. ground (
      arith,
      validate_string_iff lib "transport path" o.path 2048 false,
      validate_string_iff lib "transport host" o.host 2048 false,
      validate_string_iff lib "transport service name" o.service_name 2048 false,
    ),
    λ h. ground (
      arith,
      validate_string_iff lib "transport path" o.path 2048 false,
      validate_string_iff lib "transport host" o.host 2048 false,
      validate_string_iff lib "transport service name" o.service_name 2048 false,
    ),
  )

  -- A valid endpoint.
  pub record IsValidEndpoint (e : Endpoint) : Type 0 where
    pub supported : is_supported e.protocol ≡ true
    pub texts : All IsRow (fields e)
    pub host : IsHost e.host
    pub port : InRange 1 65535 e.port
    pub tls : IsTls e.tls
    pub path : IsField lib 2048 false e.transport.path
    pub transport_host : IsField lib 2048 false e.transport.host
    pub service : IsField lib 2048 false e.transport.service_name
    pub options : IsOptionsOf lib e.protocol e
    pub profile : FitsProfile e

  accepted_valid : (e : Endpoint) → validate lib e ≡ none → IsValidEndpoint e
  unfolding validate
  accepted_valid e h = record {
    supported = ground arith;
    texts = (validate_strings_iff e).0 (ground arith);
    host = (validate_host_iff "host" e.host).0 (ground arith);
    port = (outside_iff 1 65535 e.port).0 (ground arith);
    tls = (validate_tls_iff e.tls).0 (ground arith);
    path = ((transport_fields_iff e.transport).0 (ground arith)).0;
    transport_host = ((transport_fields_iff e.transport).0 (ground arith)).1;
    service = ((transport_fields_iff e.transport).0 (ground arith)).2;
    options = (validate_protocol_options_iff lib e).0 (ground arith);
    profile = (validate_combination_iff e).0 (ground arith);
  }

  valid_accepted : (e : Endpoint) → IsValidEndpoint e → validate lib e ≡ none
  unfolding validate
  valid_accepted e v =
      rw
        (
          (validate_strings_iff e).1 v.texts,
          v.supported,
          (validate_host_iff "host" e.host).1 v.host,
          (outside_iff 1 65535 e.port).1 v.port,
          (validate_tls_iff e.tls).1 v.tls,
          (transport_fields_iff e.transport).1 (v.path, v.transport_host, v.service),
          (validate_protocol_options_iff lib e).1 v.options,
        )
        ((validate_combination_iff e).1 v.profile)

  -- Endpoint.Validate returns nil exactly for the valid endpoints: a supported protocol, text
  -- fields within their limits and safe for a terminal, a host, a port from 1 to 65535, consistent
  -- TLS options, only the options of its own protocol, and what the protocol's profile asks for.
  pub validate_iff : (e : Endpoint) → (validate lib e ≡ none) ↔ IsValidEndpoint e
  validate_iff e = (accepted_valid e, valid_accepted e)
