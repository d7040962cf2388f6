-- ===== src/Core/Config.antt =====
-- internal/core/config.go: GenerateConfig, up to the encoding of the configuration.
use tui_box.Prelude.{
  Bool, true, false, Option, none, some, List, [], ◌∷◌, ◌++◌, map, Bytes, bytes, if◌then◌else◌,
}
use tui_box.Prelude.Int.{ℤ, pos}
use tui_box.Prelude.Results.{Result, ok, err}
use tui_box.Domain.Checks.{Library}
use tui_box.Domain.Types.{Endpoint, ConnectionMode}
use tui_box.Subscription.Library.{Address}
use tui_box.Core.Mapping.{
  Outbound, proxy_outbound_tag, direct_outbound_tag, blank_outbound, map_endpoint,
}
use tui_box.Core.Request.{
  Prefix, ConnectionRequest, RequestErr, is_proxy, is_direct_route, request_error,
}

abbrev pub dns_server_tag : Bytes
dns_server_tag = bytes "tuibox-dns"

abbrev pub inbound_tag : Bytes
inbound_tag = bytes "tuibox-inbound"

-- dnsServer
pub record DnsServer : Type 0 where
  pub type : Bytes
  pub tag : Bytes
  pub server : Bytes
  pub server_port : ℤ
  pub detour : Bytes

-- dnsOptions
pub record DnsOptions : Type 0 where
  pub servers : List DnsServer
  pub final : Bytes
  pub strategy : Bytes

-- inbound
pub record Inbound : Type 0 where
  pub type : Bytes
  pub tag : Bytes
  pub listen : Bytes
  pub listen_port : ℤ
  pub interface_name : Bytes
  pub address : List Bytes
  pub auto_route : Bool
  pub strict_route : Bool

-- routeRule
pub record RouteRule : Type 0 where
  pub protocol : Bytes
  pub ip_is_private : Bool
  pub domain_suffix : List Bytes
  pub ip_cidr : List Bytes
  pub action : Bytes
  pub outbound : Bytes

-- routeOptions, with domainResolverOptions.
pub record RouteOptions : Type 0 where
  pub rules : List RouteRule
  pub final : Bytes
  pub auto_detect_interface : Bool
  pub resolver_server : Bytes
  pub resolver_strategy : Bytes

-- singBoxConfig; its log is disabled.
pub record Config : Type 0 where
  pub dns : DnsOptions
  pub inbounds : List Inbound
  pub outbounds : List Outbound
  pub route : RouteOptions

-- fixedDNSOptions
unfoldable pub fixed_dns_options : DnsOptions
fixed_dns_options = record {
  servers =
      record {
        type = bytes "udp";
        tag = dns_server_tag;
        server = bytes "1.1.1.1";
        server_port = pos 53;
        detour = direct_outbound_tag;
      }
      ∷ [];
  final = dns_server_tag;
  strategy = bytes "prefer_ipv4";
}

-- buildInbound
unfoldable pub build_inbound : ConnectionMode → Inbound
build_inbound mode =
    if is_proxy mode
    then record {
      type = bytes "mixed";
      tag = inbound_tag;
      listen = bytes "127.0.0.1";
      listen_port = pos 2080;
      interface_name = [];
      address = [];
      auto_route = false;
      strict_route = false;
    }
    else record {
      type = bytes "tun";
      tag = inbound_tag;
      listen = [];
      listen_port = pos 0;
      interface_name = bytes "tuibox0";
      address = bytes "172.19.0.1/30" ∷ [];
      auto_route = true;
      strict_route = true;
    }

-- A rule that sends what it matches straight out.
abbrev pub direct_rule : Bool → List Bytes → List Bytes → RouteRule
direct_rule is_private suffixes cidrs = record {
  protocol = [];
  ip_is_private = is_private;
  domain_suffix = suffixes;
  ip_cidr = cidrs;
  action = bytes "route";
  outbound = direct_outbound_tag;
}

abbrev pub dns_rule : RouteRule
dns_rule = record {
  protocol = bytes "dns";
  ip_is_private = false;
  domain_suffix = [];
  ip_cidr = [];
  action = bytes "hijack-dns";
  outbound = [];
}

abbrev pub fixed_rules : List RouteRule
fixed_rules =
    dns_rule
    ∷ direct_rule true [] []
    ∷ direct_rule false (bytes ".lan" ∷ bytes ".local" ∷ bytes ".localhost" ∷ []) []
    ∷ []

module _ (to_lower : Bytes → Bytes) where
  -- The rules of the request's domain suffixes and prefixes.
  abbrev pub suffix_rules : List Bytes → List RouteRule
  suffix_rules [] = []
  suffix_rules (s ∷ ss) = direct_rule false (map to_lower (s ∷ ss)) [] ∷ []

  abbrev pub cidr_rules : List Prefix → List RouteRule
  cidr_rules [] = []
  cidr_rules (p ∷ ps) = direct_rule false [] (map (λ x. x.text) (p ∷ ps)) ∷ []

  -- fixedRouteOptions
  unfoldable pub fixed_route_options : ConnectionRequest → RouteOptions
  fixed_route_options r = record {
    rules =
        fixed_rules
        ++ (suffix_rules r.rule_direct_domain_suffixes ++ cidr_rules r.rule_direct_cidrs);
    final = if is_direct_route r.route then direct_outbound_tag else proxy_outbound_tag;
    auto_detect_interface = true;
    resolver_server = dns_server_tag;
    resolver_strategy = bytes "prefer_ipv4";
  }

  abbrev pub direct_outbound : Outbound
  direct_outbound = blank_outbound (bytes "direct") direct_outbound_tag

  -- The outbounds; a request without an endpoint was refused, unless its route is direct.
  abbrev pub outbounds_of : Bool → Option Endpoint → List Outbound
  outbounds_of true e = direct_outbound ∷ []
  outbounds_of false (some e) = map_endpoint e ∷ direct_outbound ∷ []
  outbounds_of false none = direct_outbound ∷ []

  unfoldable pub config_of : ConnectionRequest → Config
  unfolding fixed_dns_options build_inbound fixed_route_options map_endpoint
  config_of r = record {
    dns = fixed_dns_options;
    inbounds = build_inbound r.mode ∷ [];
    outbounds = outbounds_of (is_direct_route r.route) r.endpoint;
    route = fixed_route_options r;
  }

  -- GenerateConfig
  unfoldable pub generate_config :
      Library → (Bytes → Option Address) → ConnectionRequest → Result RequestErr Config
  unfolding request_error config_of
  generate_config lib parse_addr r = elim (request_error lib parse_addr to_lower r) [
    | some e ↦ err e
    | none ↦ ok (config_of r)
  ]
