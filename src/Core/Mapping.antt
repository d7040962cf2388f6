-- ===== src/Core/Mapping.antt =====
-- internal/core/config.go: the outbound of an endpoint.
use tui_box.Prelude.{Bool, false, Option, none, some, List, [], Bytes, bytes, if◌then◌else◌}
use tui_box.Prelude.Int.{ℤ, pos}
use tui_box.Domain.Checks.{is_empty}
use tui_box.Domain.Types.{
  Endpoint, Protocol, vless, vmess, trojan, shadowsocks, hysteria2, tuic, TlsOptions,
  TransportOptions, TransportType, web_socket, grpc, http_upgrade, RealityClientOptions,
  VlessOptions, VmessOptions, Hysteria2Options, TuicOptions,
}

-- tlsOptions; utlsOptions and realityOptions have nothing else beside Enabled, which is true.
pub record CoreTls : Type 0 where
  pub server_name : Bytes
  pub insecure : Bool
  pub alpn : List Bytes
  pub utls : Option Bytes
  pub reality : Option RealityClientOptions

-- transportOptions; `header_host` is the host of transportHeaders.
pub record CoreTransport : Type 0 where
  pub type : TransportType
  pub path : Bytes
  pub host : Bytes
  pub header_host : Option Bytes
  pub service_name : Bytes

-- hysteria2Obfs
pub record Obfs : Type 0 where
  pub type : Bytes
  pub password : Bytes

-- outbound
pub record Outbound : Type 0 where
  pub type : Bytes
  pub tag : Bytes
  pub server : Bytes
  pub server_port : ℤ
  pub uuid : Bytes
  pub password : Bytes
  pub method : Bytes
  pub flow : Bytes
  pub packet_encoding : Bytes
  pub security : Bytes
  pub alter_id : ℤ
  pub tls : Option CoreTls
  pub transport : Option CoreTransport
  pub obfs : Option Obfs
  pub up_mbps : ℤ
  pub down_mbps : ℤ
  pub congestion_control : Bytes
  pub udp_relay_mode : Bytes
  pub zero_rtt_handshake : Bool

abbrev pub proxy_outbound_tag : Bytes
proxy_outbound_tag = bytes "tuibox-proxy"

abbrev pub direct_outbound_tag : Bytes
direct_outbound_tag = bytes "tuibox-direct"

-- The string that a Protocol is.
unfoldable pub protocol_text : Protocol → Bytes
protocol_text vless = bytes "vless"
protocol_text vmess = bytes "vmess"
protocol_text trojan = bytes "trojan"
protocol_text shadowsocks = bytes "shadowsocks"
protocol_text hysteria2 = bytes "hysteria2"
protocol_text tuic = bytes "tuic"
protocol_text (Protocol.other s) = s

-- mapTLS
unfoldable pub map_tls : TlsOptions → Option CoreTls
map_tls o =
    if o.enabled
    then some (record {
      server_name = o.server_name;
      insecure = o.insecure_skip_verify;
      alpn = o.alpn;
      utls = if is_empty o.utls_fingerprint then none else some o.utls_fingerprint;
      reality = o.reality;
    })
    else none

abbrev blank_transport : TransportType → CoreTransport
blank_transport t = record { type = t; path = []; host = []; header_host = none; service_name = [] }

abbrev map_transport_of : TransportType → TransportOptions → Option CoreTransport
map_transport_of web_socket o = some (record (blank_transport web_socket) {
  path = o.path;
  header_host = if is_empty o.host then none else some o.host;
})
map_transport_of grpc o = some (record (blank_transport grpc) { service_name = o.service_name })
map_transport_of http_upgrade o =
    some (record (blank_transport http_upgrade) { path = o.path; host = o.host })
map_transport_of _ o = none

-- mapTransport
unfoldable pub map_transport : TransportOptions → Option CoreTransport
map_transport o = map_transport_of o.type o

-- An outbound of a type and a tag, with nothing else.
abbrev pub blank_outbound : Bytes → Bytes → Outbound
blank_outbound type tag = record {
  type = type;
  tag = tag;
  server = [];
  server_port = pos 0;
  uuid = [];
  password = [];
  method = [];
  flow = [];
  packet_encoding = [];
  security = [];
  alter_id = pos 0;
  tls = none;
  transport = none;
  obfs = none;
  up_mbps = pos 0;
  down_mbps = pos 0;
  congestion_control = [];
  udp_relay_mode = [];
  zero_rtt_handshake = false;
}

unfoldable pub with_vless : Option VlessOptions → Outbound → Outbound
with_vless none m = m
with_vless (some o) m = record m { flow = o.flow; packet_encoding = o.packet_encoding }

unfoldable pub with_vmess : Option VmessOptions → Outbound → Outbound
with_vmess none m = m
with_vmess (some o) m = record m {
  security = o.security;
  alter_id = o.alter_id;
  packet_encoding = o.packet_encoding;
}

-- A VMess outbound without a security has the security "auto".
unfoldable pub with_security : Protocol → Outbound → Outbound
with_security vmess m = if is_empty m.security then record m { security = bytes "auto" } else m
with_security _ m = m

unfoldable pub with_hysteria2 : Option Hysteria2Options → Outbound → Outbound
with_hysteria2 none m = m
with_hysteria2 (some o) m = record m {
  up_mbps = o.up_mbps;
  down_mbps = o.down_mbps;
  obfs =
      if is_empty o.obfs_type
      then m.obfs
      else some (record { type = o.obfs_type; password = o.obfs_password });
}

unfoldable pub with_tuic : Option TuicOptions → Outbound → Outbound
with_tuic none m = m
with_tuic (some o) m = record m {
  congestion_control = o.congestion_control;
  udp_relay_mode = o.udp_relay_mode;
  zero_rtt_handshake = o.zero_rtt;
}

-- mapEndpoint
unfoldable pub map_endpoint : Endpoint → Outbound
unfolding with_vless with_vmess with_security with_hysteria2 with_tuic map_tls map_transport
    protocol_text
map_endpoint e = with_tuic e.tuic_options (
    with_hysteria2 e.hysteria2_options (
      with_security e.protocol (
        with_vmess e.vmess_options (
          with_vless e.vless_options
            (record (blank_outbound (protocol_text e.protocol) proxy_outbound_tag) {
              server = e.host;
              server_port = e.port;
              uuid = e.uuid;
              password = e.password;
              method = e.method;
              tls = map_tls e.tls;
              transport = map_transport e.transport;
            })))))
