-- ===== src/Core/Request.antt =====
-- internal/core/config.go: the validation of a request.
use tui_box.Prelude.{
  ℕ, Bool, true, false, not, ◌&&◌, ◌||◌, Option, none, some, List, [], ◌∷◌, Bytes, leb, ltb, ◌==◌,
  length, all, if◌then◌else◌,
}
use tui_box.Prelude.Int.{ℤ, pos, negsuc}
use tui_box.TerminalText.{is_space}
use tui_box.TerminalText.Utf8.{range_runes}
use tui_box.Domain.Checks.{Library, Issue, is_empty}
use tui_box.Domain.Types.{Endpoint, ConnectionMode, RouteMode, proxy, tun, global, rule, direct}
use tui_box.Domain.Names.{first_is, last_is, split, valid_host_label}
use tui_box.Domain.Endpoint.{validate}
use tui_box.Store.Snapshot.{holds}
use tui_box.Subscription.Library.{Address}

-- netip.Prefix: IsValid, whether Masked leaves it as it is, its text, and a key that two prefixes
-- share exactly if they are equal.
pub record Prefix : Type 0 where
  pub is_valid : Bool
  pub is_masked : Bool
  pub text : Bytes
  pub key : Bytes

-- ConnectionRequest
pub record ConnectionRequest : Type 0 where
  pub mode : ConnectionMode
  pub route : RouteMode
  pub endpoint : Option Endpoint
  pub uid : ℤ
  pub gid : ℤ
  pub rule_direct_domain_suffixes : List Bytes
  pub rule_direct_cidrs : List Prefix

-- Why a request is refused.
pub data RequestErr : Type 0 where
  unsupported_mode unsupported_route invalid_uid invalid_gid root_uid root_gid : RequestErr
  direct_fields many_suffixes many_cidrs invalid_suffix duplicate_suffix : RequestErr
  invalid_cidr duplicate_cidr endpoint_required : RequestErr
  invalid_endpoint : Issue → RequestErr

abbrev pub is_mode : ConnectionMode → Bool
is_mode proxy = true
is_mode tun = true
is_mode _ = false

abbrev pub is_route : RouteMode → Bool
is_route global = true
is_route rule = true
is_route direct = true
is_route _ = false

abbrev pub is_proxy : ConnectionMode → Bool
is_proxy proxy = true
is_proxy _ = false

abbrev pub is_rule : RouteMode → Bool
is_rule rule = true
is_rule _ = false

abbrev pub is_direct_route : RouteMode → Bool
is_direct_route direct = true
is_direct_route _ = false

-- validateIdentity returns nil.
unfoldable pub valid_identity : ℤ → Bool
valid_identity (pos n) = ltb n 4_294_967_295
valid_identity (negsuc n) = false

abbrev pub is_zero_id : ℤ → Bool
is_zero_id (pos n) = n == 0
is_zero_id (negsuc n) = false

abbrev first_space : List ℕ → Bool
first_space [] = false
first_space (c ∷ cs) = is_space c

abbrev last_space : List ℕ → Bool
last_space [] = false
last_space (c ∷ []) = is_space c
last_space (c ∷ x ∷ cs) = last_space (x ∷ cs)

-- `parse_addr` is netip.ParseAddr and `to_lower` strings.ToLower.
module _ (lib : Library) (parse_addr : Bytes → Option Address) (to_lower : Bytes → Bytes) where
  abbrev is_address : Option Address → Bool
  is_address none = false
  is_address (some a) = true

  -- validDomainSuffix
  unfoldable pub valid_domain_suffix : Bytes → Bool
  valid_domain_suffix s =
      if is_empty s
        || not (leb (length s) 253)
        || first_space (range_runes s)
        || last_space (range_runes s)
        || first_is b'.' s
        || last_is b'.' s
      then false
      else if is_address (parse_addr s)
      then false
      else all valid_host_label (split b'.' s)

  -- The loop over the domain suffixes; `none` is nil.
  unfoldable pub suffixes_error : List Bytes → List Bytes → Option RequestErr
  unfolding valid_domain_suffix
  suffixes_error seen [] = none
  suffixes_error seen (s ∷ rest) =
      let later = suffixes_error (to_lower s ∷ seen) rest in
      if not (valid_domain_suffix s)
      then some invalid_suffix
      else if holds seen (to_lower s)
      then some duplicate_suffix
      else later

  -- The loop over the prefixes.
  unfoldable pub cidrs_error : List Bytes → List Prefix → Option RequestErr
  cidrs_error seen [] = none
  cidrs_error seen (p ∷ rest) =
      let later = cidrs_error (p.key ∷ seen) rest in
      if not p.is_valid || not p.is_masked
      then some invalid_cidr
      else if holds seen p.key
      then some duplicate_cidr
      else later

  -- validateRuleDirectFields
  unfoldable pub rule_direct_error : ConnectionRequest → Option RequestErr
  unfolding suffixes_error cidrs_error
  rule_direct_error r =
      if not (is_rule r.route)
      then (if not (length r.rule_direct_domain_suffixes == 0)
            || not (length r.rule_direct_cidrs == 0)
          then some direct_fields
          else none)
      else if not (leb (length r.rule_direct_domain_suffixes) 64)
      then some many_suffixes
      else if not (leb (length r.rule_direct_cidrs) 64)
      then some many_cidrs
      else elim (suffixes_error [] r.rule_direct_domain_suffixes) [
        | some e ↦ some e
        | none ↦ cidrs_error [] r.rule_direct_cidrs
      ]

  abbrev pub invalid_of : Option Issue → Option RequestErr
  invalid_of none = none
  invalid_of (some e) = some (invalid_endpoint e)

  abbrev pub endpoint_error : RouteMode → Option Endpoint → Option RequestErr
  endpoint_error route none = if is_direct_route route then none else some endpoint_required
  endpoint_error route (some e) = invalid_of (validate lib e)

  -- ConnectionRequest.validate
  unfoldable pub request_error : ConnectionRequest → Option RequestErr
  unfolding rule_direct_error valid_identity
  request_error r =
      if not (is_mode r.mode)
      then some unsupported_mode
      else if not (is_route r.route)
      then some unsupported_route
      else if not (valid_identity r.uid)
      then some invalid_uid
      else if not (valid_identity r.gid)
      then some invalid_gid
      else if is_proxy r.mode && is_zero_id r.uid
      then some root_uid
      else if is_proxy r.mode && is_zero_id r.gid
      then some root_gid
      else elim (rule_direct_error r) [ some e ↦ some e | none ↦ endpoint_error r.route r.endpoint ]
