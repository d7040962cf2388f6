-- ===== src/Tests/Pools.antt =====
-- A run of the latency checker's pool.
use tui_box.Prelude.{
  ◌+◌, ◌*◌, ◌≤◌, ◌≡◌, ◌⊎◌, refl, min, true, false, none, List, [], ◌∷◌, length, arith, ◌↔◌,
  if◌then◌else◌,
}
use tui_box.Prelude.Int.{pos}
use tui_box.Domain.Types.{Endpoint}
use tui_box.Latency.Probe.{Probe, check_one}
use tui_box.Latency.Pool.{
  Pool, stopped, send, begin, finish, close, quit, start, after, send_to, begin_at, finish_at,
  write_result, quit_at, Reach, here, next, is_finished, returned,
}
use tui_box.Latency.Budget.{events}
use tui_box.Latency.Checked.{HasAnswer, check_complete}
use tui_box.Latency.Progress.{CanGoOn, check_terminates}
use tui_box.Latency.Result.{is_success}
use tui_box.Latency.Reached.{IsReached, check_one_success_iff}
use tui_box.Tests.Endpoints.{simple_library, trojan_server}

abbrev servers : List Endpoint
servers = trojan_server ∷ []

abbrev quick : Probe
quick = record {
  context_before = none;
  probe_context = none;
  dial_error = false;
  has_connection = true;
  elapsed = pos 20;
}

abbrev ended : Pool
ended = record {
  next = 1;
  jobs_closed = true;
  over = none;
  workers = stopped ∷ [];
  results = check_one simple_library quick trojan_server ∷ [];
}

ended_reached : Reach simple_library servers (start simple_library servers 2) ended
unfolding start after send_to begin_at finish_at write_result quit_at
ended_reached =
    next (quit 0)
      (next close (next (finish 0 quick) (next (begin 0) (next (send 0) here refl) refl) refl) refl)
      refl

ended_finished : is_finished ended ≡ true
unfolding is_finished
ended_finished = refl

check_complete_example :
    (length (returned ended) ≡ length servers)
    × HasAnswer simple_library servers 0 trojan_server none (returned ended)
check_complete_example =
    check_complete simple_library servers 2 0 trojan_server ended ended_reached ended_finished refl

check_terminates_example :
    (events simple_library servers ended_reached ≤ 3 * length servers + min 2 (length servers) + 2)
    × ((is_finished ended ≡ true) ⊎ CanGoOn simple_library servers ended)
check_terminates_example =
    check_terminates simple_library servers 2 ended ended_reached (omega arith)

check_one_success_iff_example :
    ((is_success (check_one simple_library quick trojan_server).status ≡ true)
      ↔ IsReached simple_library quick trojan_server)
    × ((check_one simple_library quick trojan_server).endpoint_id ≡ trojan_server.id)
    × ((check_one simple_library quick trojan_server).protocol ≡ trojan_server.protocol)
    × ((check_one simple_library quick trojan_server).duration ≡ (
        if is_success (check_one simple_library quick trojan_server).status
        then quick.elapsed
        else pos 0))
check_one_success_iff_example = check_one_success_iff simple_library quick trojan_server
