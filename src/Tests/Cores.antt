-- ===== src/Tests/Cores.antt =====
-- The generated configuration at concrete inputs.
use tui_box.Prelude.{◌≡◌, refl, none, [], Bytes, Option}
use tui_box.Prelude.Int.{pos}
use tui_box.Prelude.Results.{ok}
use tui_box.Domain.Types.{direct, proxy}
use tui_box.Subscription.Library.{Address}
use tui_box.Core.Request.{ConnectionRequest, request_error, rule_direct_error, valid_identity}
use tui_box.Core.Config.{config_of, generate_config}
use tui_box.Core.Closed.{IsClosed, HasOutbounds, generate_config-IsClosed}
use tui_box.Tests.Endpoints.{simple_library}

abbrev request : ConnectionRequest
request = record {
  mode = proxy;
  route = direct;
  endpoint = none;
  uid = pos 1000;
  gid = pos 1000;
  rule_direct_domain_suffixes = [];
  rule_direct_cidrs = [];
}

abbrev no_address : Bytes → Option Address
no_address s = none

generates :
    generate_config (λ s. s) simple_library no_address request ≡ ok (config_of (λ s. s) request)
unfolding generate_config request_error rule_direct_error valid_identity
generates = refl

generate_config-IsClosed_example :
    IsClosed (config_of (λ s. s) request)
    × HasOutbounds simple_library no_address (λ s. s) request (config_of (λ s. s) request)
generate_config-IsClosed_example =
    generate_config-IsClosed simple_library no_address (λ s. s) request (config_of (λ s. s) request)
      generates
