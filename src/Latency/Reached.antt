-- ===== src/Latency/Reached.antt =====
-- When checkOne reports a success.
use tui_box.Prelude.{◌≡◌, ◌↔◌, true, false, none, arith, if◌then◌else◌}
use tui_box.Prelude.Int.{pos}
use tui_box.Domain.Types.{Endpoint}
use tui_box.Domain.Checks.{Library}
use tui_box.Domain.Endpoint.{validate}
use tui_box.Latency.Result.{is_success}
use tui_box.Latency.Probe.{Probe, dialed, supports_tcp_probe, check_one}

-- The endpoint can be probed, and the dialer returned a connection before the context ended.
pub record IsReached (lib : Library) (p : Probe) (e : Endpoint) : Type 0 where
  pub supported : supports_tcp_probe e.protocol ≡ true
  pub valid : validate lib e ≡ none
  pub waiting : p.context_before ≡ none
  pub in_time : p.probe_context ≡ none
  pub dialed_well : p.dial_error ≡ false
  pub connected : p.has_connection ≡ true

-- checkOne reports a success exactly if the endpoint's protocol has a TCP probe, the endpoint is
-- valid, and the dialer returned a connection and no error before the context ended. The result
-- has the endpoint's ID and protocol in any case, the elapsed time if it is a success and else the
-- duration 0.
pub check_one_success_iff :
    (lib : Library) (p : Probe) (e : Endpoint)
    → ((is_success (check_one lib p e).status ≡ true) ↔ IsReached lib p e)
      × ((check_one lib p e).endpoint_id ≡ e.id)
      × ((check_one lib p e).protocol ≡ e.protocol)
      × ((check_one lib p e).duration
          ≡ (if is_success (check_one lib p e).status then p.elapsed else pos 0))
unfolding check_one dialed
check_one_success_iff lib p e = (
  (
    λ h. ground arith,
    λ r. ground (arith, r.supported, r.valid, r.waiting, r.in_time, r.dialed_well, r.connected),
  ),
  ground arith,
  ground arith,
  ground arith,
)
