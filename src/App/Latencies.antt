-- ===== src/App/Latencies.antt =====
-- internal/app/service.go: the results of the latency checker, as the service keeps and shows them.
use tui_box.Prelude.{Bool, true, false, not, ◌&&◌, List, [], ◌∷◌, Bytes, same, if◌then◌else◌}
use tui_box.Prelude.Int.{ℤ, pos, negsuc}
use tui_box.Domain.Types.{Endpoint}
use tui_box.Latency.Result.{
  Result, Status, unset, success, unavailable, unsupported, Cause, no_cause, shown_unsupported,
  shown_failed,
}
use tui_box.App.World.{World, assign}

abbrev shown : Status → Cause
shown success = no_cause
shown unsupported = shown_unsupported
shown _ = shown_failed

-- safeLatencyResult
unfoldable pub safe_latency_result : Result → Result
safe_latency_result r = record r { error = shown r.status }

abbrev is_known_status : Status → Bool
is_known_status unset = false
is_known_status _ = true

abbrev is_negative : ℤ → Bool
is_negative (pos n) = false
is_negative (negsuc n) = true

-- validLatencyResult
unfoldable pub valid_latency_result : Bytes → Result → Bool
valid_latency_result id r =
    same r.endpoint_id id && not (is_negative r.duration) && is_known_status r.status

-- The result that stands for one that the checker did not give.
abbrev pub missing_result : Endpoint → Result
missing_result e = record {
  endpoint_id = e.id;
  protocol = e.protocol;
  duration = pos 0;
  status = unavailable;
  error = shown_failed;
}

unfoldable pub project_one : Endpoint → Result → Result
unfolding valid_latency_result safe_latency_result
project_one e r =
    if valid_latency_result e.id r
    then record (safe_latency_result r) { endpoint_id = e.id; protocol = e.protocol }
    else missing_result e

-- projectLatencyResults
unfoldable pub project_latency_results : List Endpoint → List Result → List Result
unfolding project_one
project_latency_results [] rs = []
project_latency_results (e ∷ es) [] = missing_result e ∷ project_latency_results es []
project_latency_results (e ∷ es) (r ∷ rs) = project_one e r ∷ project_latency_results es rs

-- cacheLatencyResults
unfoldable pub cache_latency_results : List Result → World → World
cache_latency_results [] w = w
cache_latency_results (r ∷ rs) w =
    cache_latency_results rs (record w { latencies = assign r.endpoint_id r w.latencies })
