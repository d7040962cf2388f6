-- ===== src/Subscription/Identity.antt =====
-- internal/subscription/identity.go, with the normal form of hosts in parser.go.
use tui_box.Prelude.{ℕ, Option, none, some, [], ◌∷◌, Bytes, any, ◌==◌, if◌then◌else◌}
use tui_box.Prelude.Hex.{encode_hex}
use tui_box.Domain.Types.{
  Endpoint, RealityClientOptions, TlsOptions, TransportOptions, Hysteria2Options,
}
use tui_box.Domain.Checks.{is_empty}
use tui_box.Domain.Names.{trim_last}
use tui_box.Subscription.Library.{
  RealityIdentity, TlsIdentity, TransportIdentity, Hysteria2Identity, EndpointIdentity, Address,
  Digests,
}

abbrev pub endpoint_identity_version : ℕ
endpoint_identity_version = 1

abbrev pub map_option {ℓ κ} : {A : Type ℓ} {B : Type κ} → (A → B) → Option A → Option B
map_option f none = none
map_option f (some a) = some (f a)

module _ (d : Digests) where
  -- The branch of normalizeHost on what ParseAddr reads; `none` is an error.
  unfoldable pub normal_address : Option Address → Bytes → Option Bytes
  normal_address none host = if any (λ c. c == b'%') host then none else some (d.to_lower host)
  normal_address (some a) host = if is_empty a.zone then some a.unmapped else none

  -- normalizeHost
  unfoldable pub normalize_host : Bytes → Option Bytes
  unfolding normal_address
  normalize_host host = normal_address (d.parse_addr (trim_last b'.' host)) (trim_last b'.' host)

  -- normalizeEndpoint
  unfoldable pub normalize_endpoint : Endpoint → Option Endpoint
  unfolding normalize_host
  normalize_endpoint e = elim (normalize_host e.host) [
    | none ↦ none
    | some host ↦ elim (normalize_host e.tls.server_name) [
      | none ↦ none
      | some server_name ↦ elim (normalize_host e.transport.host) [
        | none ↦ none
        | some transport_host ↦ some (record e {
          host = host;
          uuid = d.to_lower e.uuid;
          tls = record (e.tls) { server_name = server_name };
          transport = record (e.transport) { host = transport_host };
        })
      ]
    ]
  ]

  -- sensitiveIdentityDigest
  unfoldable pub sensitive_identity_digest : Bytes → Bytes
  sensitive_identity_digest [] = []
  sensitive_identity_digest (a ∷ s) = encode_hex (d.sha256 (a ∷ s))

  abbrev pub reality_identity : RealityClientOptions → RealityIdentity
  reality_identity o = record {
    public_key_sha256 = sensitive_identity_digest o.public_key;
    short_id_sha256 = sensitive_identity_digest o.short_id;
  }

  abbrev pub tls_identity : TlsOptions → TlsIdentity
  tls_identity o = record {
    enabled = o.enabled;
    server_name = o.server_name;
    insecure_skip_verify = o.insecure_skip_verify;
    alpn = o.alpn;
    reality = map_option reality_identity o.reality;
    utls_fingerprint = o.utls_fingerprint;
  }

  abbrev pub transport_identity : TransportOptions → TransportIdentity
  transport_identity o = record {
    type = o.type;
    path = o.path;
    host = o.host;
    service_name = o.service_name;
  }

  abbrev pub hysteria2_identity : Hysteria2Options → Hysteria2Identity
  hysteria2_identity o = record {
    obfs_type = o.obfs_type;
    obfs_password_sha256 = sensitive_identity_digest o.obfs_password;
    up_mbps = o.up_mbps;
    down_mbps = o.down_mbps;
  }

  -- canonicalEndpointIdentityV1
  unfoldable pub canonical_endpoint_identity : Endpoint → EndpointIdentity
  canonical_endpoint_identity e = record {
    version = endpoint_identity_version;
    protocol = e.protocol;
    host = e.host;
    port = e.port;
    uuid_sha256 = sensitive_identity_digest e.uuid;
    password_sha256 = sensitive_identity_digest e.password;
    method = e.method;
    tls = tls_identity e.tls;
    transport = transport_identity e.transport;
    vless_options = e.vless_options;
    vmess_options = e.vmess_options;
    hysteria2_options = map_option hysteria2_identity e.hysteria2_options;
    tuic_options = e.tuic_options;
  }

  -- endpointID, which EndpointFingerprint calls; `none` is an error.
  unfoldable pub endpoint_id : Endpoint → Option Bytes
  unfolding normalize_endpoint canonical_endpoint_identity
  endpoint_id e = elim (normalize_endpoint e) [
    | none ↦ none
    | some n ↦ map_option (λ s. encode_hex (d.sha256 s)) (d.marshal (canonical_endpoint_identity n))
  ]
