-- ===== src/Subscription/Parser.antt =====
-- internal/subscription/parser.go: the collection of endpoints and warnings from a document.
use tui_box.Prelude.{
  not, Option, none, some, List, [], ◌∷◌, ◌++◌, Bytes, bytes, leb, length, all, take, if◌then◌else◌,
}
use tui_box.Prelude.Int.{ℤ}
use tui_box.Prelude.Hex.{encode_hex}
use tui_box.TerminalText.Utf8.{range_runes}
use tui_box.Domain.Checks.{Library, is_empty}
use tui_box.Domain.Types.{Endpoint, Protocol, vless, vmess, trojan, shadowsocks, hysteria2, tuic}
use tui_box.Domain.Endpoint.{validate, max_id_length}
use tui_box.Domain.Subscription.{Format}
use tui_box.Store.Snapshot.{holds, is_ok}
use tui_box.Subscription.Library.{Digests}
use tui_box.Subscription.Identity.{normalize_endpoint, endpoint_id}
use tui_box.App.Runes.{is_identifier_rune}

-- A warning, by its entry and its code; the message says what the code says.
pub record Warning : Type 0 where
  pub subscription_id : Bytes
  pub entry : ℤ
  pub code : Bytes

-- ParseResult
pub record Parsed : Type 0 where
  pub format : Format
  pub endpoints : List Endpoint
  pub warnings : List Warning

-- defaultEndpointName
unfoldable pub default_endpoint_name : Protocol → Bytes
default_endpoint_name vless = bytes "VLESS endpoint"
default_endpoint_name vmess = bytes "VMess endpoint"
default_endpoint_name trojan = bytes "Trojan endpoint"
default_endpoint_name shadowsocks = bytes "Shadowsocks endpoint"
default_endpoint_name hysteria2 = bytes "Hysteria2 endpoint"
default_endpoint_name tuic = bytes "TUIC endpoint"
default_endpoint_name (Protocol.other s) = bytes "Proxy endpoint"

-- What the functions that parse a format collect: the result, and the keys of `seen`.
pub record Collected : Type 0 where
  pub result : Parsed
  pub seen : List Bytes

module _ (lib : Library) (d : Digests) where
  -- warningSubscriptionID
  unfoldable pub warning_subscription_id : Bytes → Bytes
  warning_subscription_id s =
      if leb (length s) max_id_length
      then (if all is_identifier_rune (range_runes s)
          then s
          else bytes "subscription-" ++ encode_hex (take 8 (d.sha256 s)))
      else bytes "subscription-" ++ encode_hex (take 8 (d.sha256 s))

  -- invalidWarning
  abbrev pub invalid_warning : Bytes → ℤ → Warning
  invalid_warning id entry = record {
    subscription_id = warning_subscription_id id;
    entry = entry;
    code = bytes "entry_skipped";
  }

  -- oversizedWarning
  abbrev pub oversized_warning : Bytes → ℤ → Warning
  oversized_warning id entry = record {
    subscription_id = warning_subscription_id id;
    entry = entry;
    code = bytes "entry_too_large";
  }

  -- result.Warnings = append(result.Warnings, …)
  unfoldable pub add_warning : Warning → Collected → Collected
  add_warning w c = record c {
    result = record (c.result) { warnings = c.result.warnings ++ w ∷ [] };
  }

  -- The endpoint with its subscription and a name.
  abbrev pub named : Bytes → Endpoint → Endpoint
  named id e = record e {
    subscription_id = id;
    name = if is_empty e.name then default_endpoint_name e.protocol else e.name;
  }

  -- The part of addEndpoint on an endpoint with its ID.
  unfoldable pub add_identified : Bytes → ℤ → Endpoint → Collected → Collected
  unfolding add_warning
  add_identified id entry e c =
      if not (is_ok (validate lib e))
      then add_warning (invalid_warning id entry) c
      else if holds c.seen e.id
      then c
      else record {
        result = record (c.result) { endpoints = c.result.endpoints ++ e ∷ [] };
        seen = e.id ∷ c.seen;
      }

  unfoldable pub add_normal : Bytes → ℤ → Endpoint → Option Bytes → Collected → Collected
  unfolding add_identified
  add_normal id entry e none c = add_warning (invalid_warning id entry) c
  add_normal id entry e (some fingerprint) c =
      add_identified id entry (record e { id = fingerprint }) c

  abbrev pub add_normalized : Bytes → ℤ → Option Endpoint → Collected → Collected
  add_normalized id entry none c = add_warning (invalid_warning id entry) c
  add_normalized id entry (some e) c = add_normal id entry e (endpoint_id d e) c

  -- addEndpoint
  unfoldable pub add_endpoint : Bytes → ℤ → Endpoint → Collected → Collected
  unfolding add_normal
  add_endpoint id entry e c = add_normalized id entry (normalize_endpoint d (named id e)) c

  -- A run of the functions that parse a format: they change the result only by adding endpoints and
  -- warnings.
  pub data Collects (id : Bytes) (format : Format) : Collected → Type 0 where
    begin :
        Collects id format
          (record { result = record { format = format; endpoints = []; warnings = [] }; seen = [] })
    adds :
        {c : Collected} (entry : ℤ) (e : Endpoint)
        → Collects id format c
        → Collects id format (add_endpoint id entry e c)
    warns :
        {c : Collected} (w : Warning) → Collects id format c → Collects id format (add_warning w c)
