-- ===== src/Domain/Types.antt =====
-- internal/domain: the records of an endpoint, and the enumerations of connection.go.
-- A Go string type whose values drive a `switch` is a data type; `other` stands for each string
-- that no constant names.
use tui_box.Prelude.{Bool, Option, List, Bytes}
use tui_box.Prelude.Int.{ℤ}

pub data Protocol : Type 0 where
  vless vmess trojan shadowsocks hysteria2 tuic : Protocol
  other : Bytes → Protocol

pub data TransportType : Type 0 where
  unset tcp web_socket grpc http_upgrade : TransportType
  other : Bytes → TransportType

pub record RealityClientOptions : Type 0 where
  pub public_key : Bytes
  pub short_id : Bytes

pub record TlsOptions : Type 0 where
  pub enabled : Bool
  pub server_name : Bytes
  pub insecure_skip_verify : Bool
  pub alpn : List Bytes
  pub reality : Option RealityClientOptions
  pub utls_fingerprint : Bytes

pub record TransportOptions : Type 0 where
  pub type : TransportType
  pub path : Bytes
  pub host : Bytes
  pub service_name : Bytes

pub record VlessOptions : Type 0 where
  pub flow : Bytes
  pub packet_encoding : Bytes

pub record VmessOptions : Type 0 where
  pub security : Bytes
  pub alter_id : ℤ
  pub packet_encoding : Bytes

pub record Hysteria2Options : Type 0 where
  pub obfs_type : Bytes
  pub obfs_password : Bytes
  pub up_mbps : ℤ
  pub down_mbps : ℤ

pub record TuicOptions : Type 0 where
  pub congestion_control : Bytes
  pub udp_relay_mode : Bytes
  pub zero_rtt : Bool

pub record Endpoint : Type 0 where
  pub id : Bytes
  pub subscription_id : Bytes
  pub name : Bytes
  pub protocol : Protocol
  pub host : Bytes
  pub port : ℤ
  pub uuid : Bytes
  pub password : Bytes
  pub method : Bytes
  pub tls : TlsOptions
  pub transport : TransportOptions
  pub vless_options : Option VlessOptions
  pub vmess_options : Option VmessOptions
  pub hysteria2_options : Option Hysteria2Options
  pub tuic_options : Option TuicOptions

-- connection.go; `unset` is the empty string of a zero value, `other` any other string.
pub data ConnectionMode : Type 0 where
  unset tun proxy : ConnectionMode
  other : Bytes → ConnectionMode

pub data RouteMode : Type 0 where
  unset global rule direct : RouteMode
  other : Bytes → RouteMode

pub data ConnectionStatus : Type 0 where
  unset disconnected connecting connected disconnecting failed : ConnectionStatus
  other : Bytes → ConnectionStatus
