-- ===== src/Domain/OptionsLaws.antt =====
-- What the validators of the protocol options accept.
use tui_box.Prelude.{
  ℕ, ◌≡◌, ◌↔◌, ◌⊎◌, refl, inl, true, false, Option, none, some, List, [], ◌∷◌, Bytes, bytes, same,
  arith, String,
}
use tui_box.Prelude.Int.{ℤ, pos, negsuc, InRange, outside}
use tui_box.Domain.Checks.{Check, Library, IsField, validate_string_iff, if_set, is_empty}
use tui_box.Domain.Types.{
  Protocol, VlessOptions, VmessOptions, Hysteria2Options, TuicOptions, Endpoint, vless, vmess,
  trojan, shadowsocks, hysteria2, tuic,
}
use tui_box.Domain.Tls.{one_of}
use tui_box.Domain.Options.{
  validate_vless, validate_vmess, validate_hysteria2, validate_tuic, validate_packet_encoding,
  validate_mbps, check_obfs, validate_protocol_options, packet_encodings, vision_flow,
  vmess_securities, congestion_controls, udp_relay_modes,
}

pub outside_iff : (lo hi : ℕ) (x : ℤ) → (outside lo hi x ≡ false) ↔ InRange lo hi x
outside_iff lo hi (pos n) = (λ h. (ground arith, ground arith), λ h. ground arith)
outside_iff lo hi (negsuc n) = (λ h. cc, λ h. absurd h)

abbrev pub IfSet : {A : Type 0} → (A → Type 0) → Option A → Type 0
IfSet P none = Unit
IfSet P (some a) = P a

module _ (lib : Library) where
  -- A text of at most 128 bytes that is one of the constants.
  pub record IsChoice (choices : List Bytes) (value : Bytes) : Type 0 where
    pub field : IsField lib 128 false value
    pub known : one_of value choices ≡ true

  pub record IsVless (o : VlessOptions) : Type 0 where
    pub flow : IsChoice (bytes "" ∷ vision_flow ∷ []) o.flow
    pub encoding : IsChoice packet_encodings o.packet_encoding

  pub record IsVmess (o : VmessOptions) : Type 0 where
    pub security : IsChoice vmess_securities o.security
    pub alter_id : InRange 0 65535 o.alter_id
    pub encoding : IsChoice packet_encodings o.packet_encoding

  -- A password goes with the salamander type and with no other.
  pub record IsHysteria2 (o : Hysteria2Options) : Type 0 where
    pub type_field : IsField lib 128 false o.obfs_type
    pub password_field : IsField lib 1024 false o.obfs_password
    pub obfs :
        (o.obfs_type ≡ []) × (o.obfs_password ≡ [])
        ⊎ (same o.obfs_type (bytes "salamander") ≡ true) × (is_empty o.obfs_password ≡ false)
    pub up : InRange 0 1_000_000 o.up_mbps
    pub down : InRange 0 1_000_000 o.down_mbps

  pub record IsTuic (o : TuicOptions) : Type 0 where
    pub congestion : IsChoice congestion_controls o.congestion_control
    pub relay : IsChoice udp_relay_modes o.udp_relay_mode

  encoding_iff : (s : Bytes) → (validate_packet_encoding lib s ≡ none) ↔ IsChoice packet_encodings s
  unfolding validate_packet_encoding
  encoding_iff s = (
    λ h. ground (arith, validate_string_iff lib "packet encoding" s 128 false),
    λ h. ground (arith, validate_string_iff lib "packet encoding" s 128 false),
  )

  validate_vless_iff : (o : VlessOptions) → (validate_vless lib o ≡ none) ↔ IsVless o
  unfolding validate_vless
  validate_vless_iff o = (
    λ h. ground (
      arith,
      validate_string_iff lib "VLESS flow" o.flow 128 false,
      encoding_iff o.packet_encoding,
    ),
    λ h. ground (
      arith,
      validate_string_iff lib "VLESS flow" o.flow 128 false,
      encoding_iff o.packet_encoding,
    ),
  )

  validate_vmess_iff : (o : VmessOptions) → (validate_vmess lib o ≡ none) ↔ IsVmess o
  unfolding validate_vmess
  validate_vmess_iff o = (
    λ h. ground (
      arith,
      validate_string_iff lib "VMess security" o.security 128 false,
      encoding_iff o.packet_encoding,
      outside_iff 0 65535 o.alter_id,
    ),
    λ h. ground (
      arith,
      validate_string_iff lib "VMess security" o.security 128 false,
      encoding_iff o.packet_encoding,
      outside_iff 0 65535 o.alter_id,
    ),
  )

  check_obfs_iff :
      (type password : Bytes)
      → (check_obfs type password ≡ none) ↔ (
          (type ≡ []) × (password ≡ [])
          ⊎ (same type (bytes "salamander") ≡ true) × (is_empty password ≡ false))
  check_obfs_iff [] [] = unfold check_obfs in (λ h. inl (refl, refl), λ h. refl)
  check_obfs_iff [] (p ∷ ps) = unfold check_obfs in (λ h. cc, λ h. ground arith)
  check_obfs_iff (a ∷ s) [] = unfold check_obfs in (λ h. ground arith, λ h. ground arith)
  check_obfs_iff (a ∷ s) (p ∷ ps) = unfold check_obfs in (λ h. ground arith, λ h. ground arith)

  mbps_iff : (name : String) (x : ℤ) → (validate_mbps name x ≡ none) ↔ InRange 0 1_000_000 x
  unfolding validate_mbps
  mbps_iff name x =
      (λ h. (outside_iff 0 1_000_000 x).0 (ground arith), λ h. rw ((outside_iff 0 1_000_000 x).1 h))

  validate_hysteria2_iff :
      (o : Hysteria2Options) → (validate_hysteria2 lib o ≡ none) ↔ IsHysteria2 o
  unfolding validate_hysteria2
  validate_hysteria2_iff o = (
    λ h. ground (
      arith,
      validate_string_iff lib "Hysteria2 obfuscation type" o.obfs_type 128 false,
      validate_string_iff lib "Hysteria2 obfuscation password" o.obfs_password 1024 false,
      check_obfs_iff o.obfs_type o.obfs_password,
      mbps_iff "Hysteria2 upload Mbps must be between 0 and 1000000" o.up_mbps,
      mbps_iff "Hysteria2 download Mbps must be between 0 and 1000000" o.down_mbps,
    ),
    λ h. ground (
      arith,
      validate_string_iff lib "Hysteria2 obfuscation type" o.obfs_type 128 false,
      validate_string_iff lib "Hysteria2 obfuscation password" o.obfs_password 1024 false,
      check_obfs_iff o.obfs_type o.obfs_password,
      mbps_iff "Hysteria2 upload Mbps must be between 0 and 1000000" o.up_mbps,
      mbps_iff "Hysteria2 download Mbps must be between 0 and 1000000" o.down_mbps,
    ),
  )

  validate_tuic_iff : (o : TuicOptions) → (validate_tuic lib o ≡ none) ↔ IsTuic o
  unfolding validate_tuic
  validate_tuic_iff o = (
    λ h. ground (
      arith,
      validate_string_iff lib "TUIC congestion control" o.congestion_control 128 false,
      validate_string_iff lib "TUIC UDP relay mode" o.udp_relay_mode 128 false,
    ),
    λ h. ground (
      arith,
      validate_string_iff lib "TUIC congestion control" o.congestion_control 128 false,
      validate_string_iff lib "TUIC UDP relay mode" o.udp_relay_mode 128 false,
    ),
  )

pub if_set_iff :
    {A : Type 0} {P : A → Type 0} (f : A → Check)
    → ((a : A) → (f a ≡ none) ↔ P a)
    → (o : Option A) → (if_set f o ≡ none) ↔ IfSet P o
if_set_iff f h none = (λ e. tt, λ e. refl)
if_set_iff f h (some a) = h a

-- The options of a protocol: those of another one are absent.
module _ (lib : Library) where
  abbrev pub IsOptionsOf : Protocol → Endpoint → Type 0
  IsOptionsOf vless e =
      IfSet (IsVless lib) e.vless_options
      × (e.vmess_options ≡ none)
      × (e.hysteria2_options ≡ none)
      × (e.tuic_options ≡ none)
  IsOptionsOf vmess e =
      (e.vless_options ≡ none)
      × IfSet (IsVmess lib) e.vmess_options
      × (e.hysteria2_options ≡ none)
      × (e.tuic_options ≡ none)
  IsOptionsOf hysteria2 e =
      (e.vless_options ≡ none)
      × (e.vmess_options ≡ none)
      × IfSet (IsHysteria2 lib) e.hysteria2_options
      × (e.tuic_options ≡ none)
  IsOptionsOf tuic e =
      (e.vless_options ≡ none)
      × (e.vmess_options ≡ none)
      × (e.hysteria2_options ≡ none)
      × IfSet (IsTuic lib) e.tuic_options
  IsOptionsOf trojan e =
      (e.vless_options ≡ none)
      × (e.vmess_options ≡ none)
      × (e.hysteria2_options ≡ none)
      × (e.tuic_options ≡ none)
  IsOptionsOf shadowsocks e =
      (e.vless_options ≡ none)
      × (e.vmess_options ≡ none)
      × (e.hysteria2_options ≡ none)
      × (e.tuic_options ≡ none)
  IsOptionsOf (Protocol.other s) e = Unit

  -- validateProtocolOptions returns nil exactly if the options of other protocols are absent, and
  -- those of the endpoint's own protocol, if set, are within their bounds and of known values; it
  -- accepts every endpoint of an unsupported protocol.
  pub validate_protocol_options_iff :
      (e : Endpoint) → (validate_protocol_options lib e ≡ none) ↔ IsOptionsOf e.protocol e
  unfolding validate_protocol_options
  validate_protocol_options_iff e = (
    λ h. ground (
      arith,
      if_set_iff (validate_vless lib) (validate_vless_iff lib) e.vless_options,
      if_set_iff (validate_vmess lib) (validate_vmess_iff lib) e.vmess_options,
      if_set_iff (validate_hysteria2 lib) (validate_hysteria2_iff lib) e.hysteria2_options,
      if_set_iff (validate_tuic lib) (validate_tuic_iff lib) e.tuic_options,
    ),
    λ h. ground (
      arith,
      if_set_iff (validate_vless lib) (validate_vless_iff lib) e.vless_options,
      if_set_iff (validate_vmess lib) (validate_vmess_iff lib) e.vmess_options,
      if_set_iff (validate_hysteria2 lib) (validate_hysteria2_iff lib) e.hysteria2_options,
      if_set_iff (validate_tuic lib) (validate_tuic_iff lib) e.tuic_options,
    ),
  )
