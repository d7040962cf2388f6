-- ===== src/Domain/Options.antt =====
-- internal/domain/protocol_options.go: the options of single protocols.
use tui_box.Prelude.{
  ℕ, false, not, ◌||◌, none, some, List, [], ◌∷◌, String, Bytes, bytes, same, if◌then◌else◌,
}
use tui_box.Prelude.Int.{ℤ, outside}
use tui_box.Domain.Checks.{
  Check, Library, ◌>>◌, fail_if, is_empty, is_set, if_set, validate_string, message, unsupported,
}
use tui_box.Domain.Types.{
  Protocol, VlessOptions, VmessOptions, Hysteria2Options, TuicOptions, Endpoint, vless, vmess,
  trojan, shadowsocks, hysteria2, tuic,
}
use tui_box.Domain.Tls.{one_of}

abbrev pub max_protocol_option_length : ℕ
max_protocol_option_length = 128

abbrev pub max_vmess_alter_id : ℕ
max_vmess_alter_id = 65535

abbrev pub max_hysteria2_mbps : ℕ
max_hysteria2_mbps = 1_000_000

abbrev pub max_credential_length : ℕ
max_credential_length = 1024

abbrev pub vision_flow : Bytes
vision_flow = bytes "xtls-rprx-vision"

abbrev pub packet_encodings : List Bytes
packet_encodings = bytes "" ∷ bytes "xudp" ∷ bytes "packetaddr" ∷ []

abbrev pub vmess_securities : List Bytes
vmess_securities =
    bytes ""
    ∷ bytes "auto"
    ∷ bytes "none"
    ∷ bytes "zero"
    ∷ bytes "aes-128-gcm"
    ∷ bytes "chacha20-poly1305"
    ∷ []

abbrev pub congestion_controls : List Bytes
congestion_controls = bytes "" ∷ bytes "cubic" ∷ bytes "new_reno" ∷ bytes "bbr" ∷ []

abbrev pub udp_relay_modes : List Bytes
udp_relay_modes = bytes "" ∷ bytes "native" ∷ bytes "quic" ∷ []

-- validateMbps
unfoldable pub validate_mbps : String → ℤ → Check
validate_mbps name value = fail_if (outside 0 max_hysteria2_mbps value) (message name)

-- The switch on the obfuscation type.
unfoldable pub check_obfs : Bytes → Bytes → Check
unfolding same
check_obfs [] password =
    fail_if (not (is_empty password))
      (message "Hysteria2 obfuscation password requires an obfuscation type")
check_obfs (a ∷ s) password =
    if same (a ∷ s) (bytes "salamander")
    then fail_if (is_empty password) (message "Hysteria2 obfuscation password is required")
    else some (unsupported "Hysteria2 obfuscation type")

module _ (lib : Library) where
  -- validatePacketEncoding
  unfoldable pub validate_packet_encoding : Bytes → Check
  validate_packet_encoding e = do
    validate_string lib "packet encoding" e max_protocol_option_length false
    fail_if (not (one_of e packet_encodings)) (unsupported "packet encoding")

  -- VLESSOptions.validate
  unfoldable pub validate_vless : VlessOptions → Check
  validate_vless o = do
    validate_string lib "VLESS flow" o.flow max_protocol_option_length false
    fail_if (not (one_of o.flow (bytes "" ∷ vision_flow ∷ []))) (unsupported "VLESS flow")
    validate_packet_encoding o.packet_encoding

  -- VMessOptions.validate
  unfoldable pub validate_vmess : VmessOptions → Check
  validate_vmess o = do
    validate_string lib "VMess security" o.security max_protocol_option_length false
    fail_if (not (one_of o.security vmess_securities)) (unsupported "VMess security")
    fail_if (outside 0 max_vmess_alter_id o.alter_id)
        (message "VMess alter ID must be between 0 and 65535")
    validate_packet_encoding o.packet_encoding

  -- Hysteria2Options.validate
  unfoldable pub validate_hysteria2 : Hysteria2Options → Check
  validate_hysteria2 o = do
    validate_string lib "Hysteria2 obfuscation type" o.obfs_type max_protocol_option_length false
    validate_string lib "Hysteria2 obfuscation password" o.obfs_password max_credential_length false
    check_obfs o.obfs_type o.obfs_password
    validate_mbps "Hysteria2 upload Mbps must be between 0 and 1000000" o.up_mbps
    validate_mbps "Hysteria2 download Mbps must be between 0 and 1000000" o.down_mbps

  -- TUICOptions.validate
  unfoldable pub validate_tuic : TuicOptions → Check
  validate_tuic o = do
    validate_string lib "TUIC congestion control" o.congestion_control max_protocol_option_length
        false
    fail_if (not (one_of o.congestion_control congestion_controls))
        (unsupported "TUIC congestion control")
    validate_string lib "TUIC UDP relay mode" o.udp_relay_mode max_protocol_option_length false
    fail_if (not (one_of o.udp_relay_mode udp_relay_modes)) (unsupported "TUIC UDP relay mode")

-- Endpoint.validateProtocolOptions, by the protocol.
unfoldable pub validate_options_of : Library → Protocol → Endpoint → Check
validate_options_of lib vless e = do
  fail_if (is_set e.vmess_options || is_set e.hysteria2_options || is_set e.tuic_options)
      (message "protocol options do not match vless")
  if_set (validate_vless lib) e.vless_options
validate_options_of lib vmess e = do
  fail_if (is_set e.vless_options || is_set e.hysteria2_options || is_set e.tuic_options)
      (message "protocol options do not match vmess")
  if_set (validate_vmess lib) e.vmess_options
validate_options_of lib hysteria2 e = do
  fail_if (is_set e.vless_options || is_set e.vmess_options || is_set e.tuic_options)
      (message "protocol options do not match hysteria2")
  if_set (validate_hysteria2 lib) e.hysteria2_options
validate_options_of lib tuic e = do
  fail_if (is_set e.vless_options || is_set e.vmess_options || is_set e.hysteria2_options)
      (message "protocol options do not match tuic")
  if_set (validate_tuic lib) e.tuic_options
validate_options_of lib trojan e =
    fail_if
      (is_set e.vless_options
        || is_set e.vmess_options
        || is_set e.hysteria2_options
        || is_set e.tuic_options)
      (message "protocol options are not applicable to trojan")
validate_options_of lib shadowsocks e =
    fail_if
      (is_set e.vless_options
        || is_set e.vmess_options
        || is_set e.hysteria2_options
        || is_set e.tuic_options)
      (message "protocol options are not applicable to shadowsocks")
validate_options_of lib (Protocol.other s) e = none

unfoldable pub validate_protocol_options : Library → Endpoint → Check
unfolding validate_options_of
validate_protocol_options lib e = validate_options_of lib e.protocol e
