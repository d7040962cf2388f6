-- ===== src/Latency/Probe.antt =====
-- internal/latency/checker.go: NewChecker's bounds and checkOne.
use tui_box.Prelude.{ℕ, ◌*◌, Bool, true, false, not, ◌||◌, Option, none, some, if◌then◌else◌}
use tui_box.Prelude.Int.{ℤ, pos, int_lt}
use tui_box.Domain.Checks.{Library}
use tui_box.Domain.Types.{Protocol, Endpoint, vless, vmess, trojan, shadowsocks}
use tui_box.Domain.Endpoint.{validate}
use tui_box.Latency.Result.{
  Status, success, unavailable, unsupported, ContextErr, Cause, no_cause, unsupported_protocol,
  no_connection, dial_failed, invalid_endpoint, context, Result,
}

-- 30 * time.Second
abbrev pub max_probe_timeout : ℕ
max_probe_timeout = 30 * 1_000_000_000

abbrev pub max_parallelism : ℕ
max_parallelism = 128

-- The test at the head of NewChecker.
unfoldable pub accepts_config : ℤ → ℤ → Bool
accepts_config timeout max_parallel = not (
    int_lt timeout (pos 1)
    || int_lt (pos max_probe_timeout) timeout
    || int_lt max_parallel (pos 1)
    || int_lt (pos max_parallelism) max_parallel)

-- supportsTCPProbe
unfoldable pub supports_tcp_probe : Protocol → Bool
supports_tcp_probe vless = true
supports_tcp_probe vmess = true
supports_tcp_probe trojan = true
supports_tcp_probe shadowsocks = true
supports_tcp_probe _ = false

-- What checkOne observes: the context before the dial, the probe's context after it, whether the
-- dialer failed, whether it returned a connection, and the time that passed.
pub record Probe : Type 0 where
  pub context_before : Option ContextErr
  pub probe_context : Option ContextErr
  pub dial_error : Bool
  pub has_connection : Bool
  pub elapsed : ℤ

abbrev unreached : Endpoint → Status → Cause → Result
unreached e st cause = record {
  endpoint_id = e.id;
  protocol = e.protocol;
  duration = pos 0;
  status = st;
  error = cause;
}

-- After DialContext has returned.
unfoldable pub dialed : Probe → Endpoint → Result
dialed p e = elim p.probe_context [
  | some c ↦ unreached e unavailable (context c)
  | none ↦
      if p.dial_error
      then unreached e unavailable dial_failed
      else if not p.has_connection
      then unreached e unavailable no_connection
      else record {
        endpoint_id = e.id;
        protocol = e.protocol;
        duration = p.elapsed;
        status = success;
        error = no_cause;
      }
]

-- Whether checkOne closes the connection that the dialer returned.
unfoldable pub closes_connection : Probe → Bool
closes_connection p = elim p.probe_context [
  | some c ↦ p.has_connection
  | none ↦ if p.dial_error then false else p.has_connection
]

-- checkOne
unfoldable pub check_one : Library → Probe → Endpoint → Result
unfolding dialed supports_tcp_probe
check_one lib p e =
    if not (supports_tcp_probe e.protocol)
    then unreached e unsupported unsupported_protocol
    else elim (validate lib e) [
      | some issue ↦ unreached e unavailable (invalid_endpoint issue)
      | none ↦ elim p.context_before [
        | some c ↦ unreached e unavailable (context c)
        | none ↦ dialed p e
      ]
    ]
