-- ===== src/Domain/Profile.antt =====
-- internal/domain/endpoint.go: what each protocol asks of an endpoint, as a table, beside
-- validateProtocolCombination.
use tui_box.Prelude.{◌≡◌, ◌↔◌, refl, Bool, true, false, none, [], ◌∷◌, Bytes, arith}
use tui_box.Domain.Checks.{is_empty}
use tui_box.Domain.Types.{
  Protocol, TransportOptions, TransportType, Endpoint, vless, vmess, trojan, shadowsocks, hysteria2,
  tuic, tcp, web_socket, grpc, http_upgrade, unset,
}
use tui_box.Domain.NamesLaws.{IsUuid, validate_uuid_iff}
use tui_box.Domain.Tls.{validate_transport}
use tui_box.Domain.Endpoint.{validate_combination, validate_flow, has_vision}

pub data Need : Type 0 where
  must may must_not : Need

-- Which credentials, TLS and stream transport a protocol has.
pub record Profile : Type 0 where
  pub uuid : Need
  pub password : Need
  pub method : Need
  pub tls : Need
  pub stream : Need

abbrev pub profile : Protocol → Profile
profile vless = record {
  uuid = must;
  password = must_not;
  method = must_not;
  tls = may;
  stream = must;
}
profile vmess = record {
  uuid = must;
  password = must_not;
  method = must_not;
  tls = may;
  stream = must;
}
profile trojan = record {
  uuid = must_not;
  password = must;
  method = must_not;
  tls = must;
  stream = must;
}
profile shadowsocks = record {
  uuid = must_not;
  password = must;
  method = must;
  tls = must_not;
  stream = must_not;
}
profile hysteria2 = record {
  uuid = must_not;
  password = must;
  method = must_not;
  tls = must;
  stream = must_not;
}
profile tuic = record {
  uuid = must;
  password = must;
  method = must_not;
  tls = must;
  stream = must_not;
}
profile (Protocol.other s) = record {
  uuid = may;
  password = may;
  method = may;
  tls = may;
  stream = may;
}

abbrev HasText : Need → Bytes → Type 0
HasText must s = is_empty s ≡ false
HasText may s = Unit
HasText must_not s = s ≡ []

abbrev HasUuid : Need → Bytes → Type 0
HasUuid must s = IsUuid s
HasUuid may s = Unit
HasUuid must_not s = s ≡ []

abbrev HasFlag : Need → Bool → Type 0
HasFlag must b = b ≡ true
HasFlag may b = Unit
HasFlag must_not b = b ≡ false

-- The fields that go with each type of stream transport.
abbrev pub IsStream : TransportType → TransportOptions → Type 0
IsStream tcp o = (o.path ≡ []) × (o.host ≡ []) × (o.service_name ≡ [])
IsStream web_socket o = o.service_name ≡ []
IsStream http_upgrade o = o.service_name ≡ []
IsStream grpc o = (o.path ≡ []) × (o.host ≡ [])
IsStream unset o = ⊥
IsStream (TransportType.other s) o = ⊥

abbrev HasStream : Need → TransportOptions → Type 0
HasStream must o = IsStream o.type o
HasStream may o = Unit
HasStream must_not o = (o.type ≡ unset) × (o.path ≡ []) × (o.host ≡ []) × (o.service_name ≡ [])

-- The endpoint has what its protocol's profile asks for, and VLESS with the vision flow has TLS
-- over plain TCP.
pub record FitsProfile (e : Endpoint) : Type 0 where
  pub uuid : HasUuid (profile e.protocol).uuid e.uuid
  pub password : HasText (profile e.protocol).password e.password
  pub method : HasText (profile e.protocol).method e.method
  pub tls : HasFlag (profile e.protocol).tls e.tls.enabled
  pub stream : HasStream (profile e.protocol).stream e.transport
  pub vision :
      e.protocol ≡ vless
      → has_vision e.vless_options ≡ true
      → (e.tls.enabled ≡ true) × (e.transport.type ≡ tcp)

is_empty_iff : (s : Bytes) → (is_empty s ≡ true) ↔ (s ≡ [])
is_empty_iff [] = (λ h. refl, λ h. refl)
is_empty_iff (a ∷ s) = (λ h. cc, λ h. cc)

validate_transport_iff : (o : TransportOptions) → (validate_transport o ≡ none) ↔ IsStream o.type o
unfolding validate_transport
validate_transport_iff o = (
  λ h. ground (arith, is_empty_iff o.path, is_empty_iff o.host, is_empty_iff o.service_name),
  λ h. ground (arith, is_empty_iff o.path, is_empty_iff o.host, is_empty_iff o.service_name),
)

module _ (e : Endpoint) where
  fits_profile : validate_combination e ≡ none → FitsProfile e
  unfolding validate_combination validate_flow
  fits_profile h = ground (
    arith,
    validate_uuid_iff e.uuid,
    validate_transport_iff e.transport,
    is_empty_iff e.uuid,
    is_empty_iff e.password,
    is_empty_iff e.method,
    is_empty_iff e.transport.path,
    is_empty_iff e.transport.host,
    is_empty_iff e.transport.service_name,
  )

  profile_fits : FitsProfile e → validate_combination e ≡ none
  unfolding validate_combination validate_flow
  profile_fits f = ground (
    arith,
    validate_uuid_iff e.uuid,
    validate_transport_iff e.transport,
    is_empty_iff e.uuid,
    is_empty_iff e.password,
    is_empty_iff e.method,
    is_empty_iff e.transport.path,
    is_empty_iff e.transport.host,
    is_empty_iff e.transport.service_name,
  )

-- validateProtocolCombination returns nil exactly for the endpoints that fit their protocol's
-- profile.
pub validate_combination_iff : (e : Endpoint) → (validate_combination e ≡ none) ↔ FitsProfile e
validate_combination_iff e = (fits_profile e, profile_fits e)
