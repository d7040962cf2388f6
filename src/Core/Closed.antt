-- ===== src/Core/Closed.antt =====
-- internal/core/config.go: the tags of the generated configuration.
use tui_box.Prelude.{
  ◌≡◌, ◌⊎◌, inl, inr, refl, subst, ◌∙◌, true, false, not, ◌&&◌, Option, none, some, List, [], ◌∷◌,
  ◌++◌, map, Bytes, same, All, Bool-cases, Option-cases, if_both, option_both, arith,
}
use tui_box.Prelude.Results.{Result, ok, err, ok-injective}
use tui_box.Domain.Checks.{Library, Check, is_empty}
use tui_box.Domain.Types.{
  Endpoint, Protocol, vless, vmess, trojan, shadowsocks, hysteria2, tuic, VlessOptions,
  VmessOptions, Hysteria2Options, TuicOptions,
}
use tui_box.Domain.Endpoint.{validate}
use tui_box.Domain.Accepted.{IsValidEndpoint, validate_iff}
use tui_box.Store.Snapshot.{holds}
use tui_box.Subscription.Library.{Address}
use tui_box.Core.Mapping.{
  Outbound, proxy_outbound_tag, direct_outbound_tag, with_vless, with_vmess, with_security,
  with_hysteria2, with_tuic, map_endpoint,
}
use tui_box.Core.Request.{
  Prefix, ConnectionRequest, RequestErr, is_mode, is_route, is_proxy, is_zero_id, is_direct_route,
  valid_identity, rule_direct_error, endpoint_error, request_error, invalid_of,
}
use tui_box.Core.Config.{
  Config, RouteRule, DnsServer, fixed_dns_options, fixed_rules, suffix_rules, cidr_rules,
  fixed_route_options, direct_outbound, config_of, generate_config,
}

abbrev pub tags : Config → List Bytes
tags c = map (λ o. o.tag) c.outbounds

-- A rule names no outbound or one that is there.
abbrev pub Refers : List Bytes → RouteRule → Type 0
Refers ts r = (r.outbound ≡ []) ⊎ (holds ts r.outbound ≡ true)

-- Every tag that the configuration refers to is in it.
pub record IsClosed (c : Config) : Type 0 where
  pub rules : All (Refers (tags c)) c.route.rules
  pub final : holds (tags c) c.route.final ≡ true
  pub detours : All (λ (s : DnsServer). holds (tags c) s.detour ≡ true) c.dns.servers
  pub dns_final : holds (map (λ s. s.tag) c.dns.servers) c.dns.final ≡ true
  pub resolver : holds (map (λ s. s.tag) c.dns.servers) c.route.resolver_server ≡ true

with_vless-tag : (o : Option VlessOptions) (m : Outbound) → (with_vless o m).tag ≡ m.tag
unfolding with_vless
with_vless-tag none m = refl
with_vless-tag (some o) m = refl

with_vmess-tag : (o : Option VmessOptions) (m : Outbound) → (with_vmess o m).tag ≡ m.tag
unfolding with_vmess
with_vmess-tag none m = refl
with_vmess-tag (some o) m = refl

with_security-tag : (p : Protocol) (m : Outbound) → (with_security p m).tag ≡ m.tag
unfolding with_security
with_security-tag vmess m =
    if_both (λ (x : Outbound). x.tag ≡ m.tag) (is_empty m.security) (λ h. refl) (λ h. refl)
with_security-tag vless m = refl
with_security-tag trojan m = refl
with_security-tag shadowsocks m = refl
with_security-tag hysteria2 m = refl
with_security-tag tuic m = refl
with_security-tag (Protocol.other s) m = refl

with_hysteria2-tag : (o : Option Hysteria2Options) (m : Outbound) → (with_hysteria2 o m).tag ≡ m.tag
unfolding with_hysteria2
with_hysteria2-tag none m = refl
with_hysteria2-tag (some o) m = refl

with_tuic-tag : (o : Option TuicOptions) (m : Outbound) → (with_tuic o m).tag ≡ m.tag
unfolding with_tuic
with_tuic-tag none m = refl
with_tuic-tag (some o) m = refl

map_endpoint-tag : (e : Endpoint) → (map_endpoint e).tag ≡ proxy_outbound_tag
unfolding map_endpoint
map_endpoint-tag e =
    with_tuic-tag e.tuic_options _
    ∙ with_hysteria2-tag e.hysteria2_options _
    ∙ with_security-tag e.protocol _
    ∙ with_vmess-tag e.vmess_options _
    ∙ with_vless-tag e.vless_options _

err-ok : (e : RequestErr) (c : Config) → Path (Result RequestErr Config) (err e) (ok c) → ⊥
err-ok e c h = ground arith

module _ (ts : List Bytes) (direct_is : holds ts direct_outbound_tag ≡ true) where
  rules-Refers :
      (to_lower : Bytes → Bytes) (ss : List Bytes) (ps : List Prefix)
      → All (Refers ts) (fixed_rules ++ (suffix_rules to_lower ss ++ cidr_rules to_lower ps))
  rules-Refers to_lower [] [] = (inl refl, (inr direct_is, (inr direct_is, tt)))
  rules-Refers to_lower (s ∷ ss) [] =
      (inl refl, (inr direct_is, (inr direct_is, (inr direct_is, tt))))
  rules-Refers to_lower [] (p ∷ ps) =
      (inl refl, (inr direct_is, (inr direct_is, (inr direct_is, tt))))
  rules-Refers to_lower (s ∷ ss) (p ∷ ps) =
      (inl refl, (inr direct_is, (inr direct_is, (inr direct_is, (inr direct_is, tt)))))

module _ (lib : Library) (parse_addr : Bytes → Option Address) (to_lower : Bytes → Bytes)
    (r : ConnectionRequest) where
  -- What an accepted request has.
  abbrev Needs : Option RequestErr → Type 0
  Needs o =
      o ≡ none
      → (is_direct_route r.route ≡ true)
        ⊎ ((is_direct_route r.route ≡ false)
            × ((e : Endpoint) × (r.endpoint ≡ some e) × IsValidEndpoint lib e))

  refused-Needs : (e : RequestErr) → Needs (some e)
  refused-Needs e h = ground arith

  invalid_of-none : (c : Check) → invalid_of lib parse_addr to_lower c ≡ none → c ≡ none
  invalid_of-none none h = refl
  invalid_of-none (some e) h = ground arith

  endpoint-Needs :
      (o : Option Endpoint)
      → r.endpoint ≡ o
      → Needs (endpoint_error lib parse_addr to_lower r.route o)
  endpoint-Needs none e =
      if_both Needs (is_direct_route r.route) (λ is h. inl is) (λ is. refused-Needs _)
  endpoint-Needs (some x) e = λ h. elim (Bool-cases (is_direct_route r.route)) [
    | inl is ↦ inl is
    | inr is ↦ inr (is, (x, e, (validate_iff lib x).0 (invalid_of-none (validate lib x) h)))
  ]

  request-Needs : Needs (request_error lib parse_addr to_lower r)
  unfolding request_error
  request-Needs =
      if_both Needs (not (is_mode r.mode)) (λ b. refused-Needs _)
        (λ g1.
          if_both Needs (not (is_route r.route)) (λ b. refused-Needs _)
            (λ g2.
              if_both Needs (not (valid_identity r.uid)) (λ b. refused-Needs _)
                (λ g3.
                  if_both Needs (not (valid_identity r.gid)) (λ b. refused-Needs _)
                    (λ g4.
                      if_both Needs (is_proxy r.mode && is_zero_id r.uid) (λ b. refused-Needs _)
                        (λ g5.
                          if_both Needs (is_proxy r.mode && is_zero_id r.gid) (λ b. refused-Needs _)
                            (λ g6.
                              option_both Needs (rule_direct_error lib parse_addr to_lower r)
                                (endpoint-Needs r.endpoint refl) (λ e. refused-Needs e)))))))

  -- The outbounds of a configuration: the endpoint's and the direct one, or the direct one alone.
  abbrev pub HasOutbounds : Config → Type 0
  HasOutbounds c =
      ((is_direct_route r.route ≡ true) × (c.outbounds ≡ direct_outbound to_lower ∷ []))
      ⊎ ((is_direct_route r.route ≡ false)
          × ((e : Endpoint) × (r.endpoint ≡ some e)
              × IsValidEndpoint lib e
              × (c.outbounds ≡ map_endpoint e ∷ direct_outbound to_lower ∷ [])))

  direct-IsClosed :
      (is_direct_route r.route ≡ true)
      → IsClosed (config_of to_lower r) × HasOutbounds (config_of to_lower r)
  unfolding config_of fixed_route_options fixed_dns_options holds same
  direct-IsClosed is = rw is (
    record {
      rules =
          rules-Refers (direct_outbound_tag ∷ []) refl to_lower r.rule_direct_domain_suffixes
            r.rule_direct_cidrs;
      final = refl;
      detours = (refl, tt);
      dns_final = refl;
      resolver = refl;
    },
    inl (refl, refl),
  )

  proxied-IsClosed :
      (e : Endpoint)
      → is_direct_route r.route ≡ false
      → r.endpoint ≡ some e
      → IsValidEndpoint lib e
      → IsClosed (config_of to_lower r) × HasOutbounds (config_of to_lower r)
  unfolding config_of fixed_route_options fixed_dns_options holds same
  proxied-IsClosed e is given v =
      let there : holds ((map_endpoint e).tag ∷ direct_outbound_tag ∷ []) proxy_outbound_tag
          ≡ true =
        rw (map_endpoint-tag e) refl in
      let direct_there : holds ((map_endpoint e).tag ∷ direct_outbound_tag ∷ []) direct_outbound_tag
          ≡ true =
        rw (map_endpoint-tag e) refl in
      rw (is, given)
        (
          record {
            rules =
                rules-Refers ((map_endpoint e).tag ∷ direct_outbound_tag ∷ []) direct_there to_lower
                  r.rule_direct_domain_suffixes r.rule_direct_cidrs;
            final = there;
            detours = (direct_there, tt);
            dns_final = refl;
            resolver = refl;
          },
          inr (refl, (e, refl, v, refl)),
        )

  -- A configuration that GenerateConfig returns: every outbound and DNS server that it refers to is
  -- in it. For the direct route the direct outbound is the only one; for the others the endpoint of the
  -- request, which is valid, is mapped to the first outbound.
  pub generate_config-IsClosed :
      (c : Config) → generate_config to_lower lib parse_addr r ≡ ok c → IsClosed c × HasOutbounds c
  unfolding generate_config
  generate_config-IsClosed c h = elim (Option-cases (request_error lib parse_addr to_lower r)) [
    | inr (e, refused) ↦ absurd (err-ok e c (rw (refused, generate_config) at h))
    | inl accepted ↦
        let c_is : config_of to_lower r ≡ c = ok-injective (rw (accepted, generate_config) at h) in
        subst (λ x. IsClosed x × HasOutbounds x) c_is
          (elim (request-Needs accepted) [
            | inl is ↦ direct-IsClosed is
            | inr (is, (e, given, v)) ↦ proxied-IsClosed e is given v
          ])
  ]
