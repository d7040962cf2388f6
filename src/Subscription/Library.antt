-- ===== src/Subscription/Library.antt =====
-- What internal/subscription and internal/app use of the Go library beside text.
use tui_box.Prelude.{Option, Bytes}
use tui_box.Domain.Types.{Protocol, TransportType, VlessOptions, VmessOptions, TuicOptions}
use tui_box.Prelude.Int.{ℤ}
use tui_box.Prelude.{Bool, List, ℕ}

-- endpointTLSIdentityV1, with endpointRealityIdentityV1.
pub record RealityIdentity : Type 0 where
  pub public_key_sha256 : Bytes
  pub short_id_sha256 : Bytes

pub record TlsIdentity : Type 0 where
  pub enabled : Bool
  pub server_name : Bytes
  pub insecure_skip_verify : Bool
  pub alpn : List Bytes
  pub reality : Option RealityIdentity
  pub utls_fingerprint : Bytes

-- endpointTransportIdentityV1
pub record TransportIdentity : Type 0 where
  pub type : TransportType
  pub path : Bytes
  pub host : Bytes
  pub service_name : Bytes

-- hysteria2IdentityV1
pub record Hysteria2Identity : Type 0 where
  pub obfs_type : Bytes
  pub obfs_password_sha256 : Bytes
  pub up_mbps : ℤ
  pub down_mbps : ℤ

-- endpointIdentityV1; the identities of the other options have the options' own fields.
pub record EndpointIdentity : Type 0 where
  pub version : ℕ
  pub protocol : Protocol
  pub host : Bytes
  pub port : ℤ
  pub uuid_sha256 : Bytes
  pub password_sha256 : Bytes
  pub method : Bytes
  pub tls : TlsIdentity
  pub transport : TransportIdentity
  pub vless_options : Option VlessOptions
  pub vmess_options : Option VmessOptions
  pub hysteria2_options : Option Hysteria2Identity
  pub tuic_options : Option TuicOptions

-- What netip.ParseAddr reads: the zone, and the text of the unmapped address.
pub record Address : Type 0 where
  pub zone : Bytes
  pub unmapped : Bytes

-- strings.ToLower, netip.ParseAddr, sha256.Sum256, json.Marshal on an identity (`none` is an
-- error), and HMAC-SHA256 by key and message.
pub record Digests : Type 0 where
  pub to_lower : Bytes → Bytes
  pub parse_addr : Bytes → Option Address
  pub sha256 : Bytes → Bytes
  pub marshal : EndpointIdentity → Option Bytes
  pub hmac : Bytes → Bytes → Bytes
