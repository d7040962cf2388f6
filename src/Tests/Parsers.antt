-- ===== src/Tests/Parsers.antt =====
-- The collection of endpoints at concrete inputs.
use tui_box.Prelude.{◌≡◌, true, [], Bytes, bytes}
use tui_box.Prelude.Int.{pos}
use tui_box.Domain.Subscription.{uri_list}
use tui_box.Subscription.Parser.{
  Collected, Collects, begin, adds, warns, add_endpoint, add_warning, invalid_warning,
}
use tui_box.App.Identity.{parsed_endpoints_ok}
use tui_box.App.Collected.{collected_endpoints_checked}
use tui_box.Tests.Endpoints.{simple_library, trojan_server}
use tui_box.Tests.Apps.{digests}

abbrev at_start : Collected
at_start = record {
  result = record { format = uri_list; endpoints = []; warnings = [] };
  seen = [];
}

abbrev id : Bytes
id = bytes "s1"

-- A server twice, and an entry that is skipped.
abbrev collected : Collected
collected = add_endpoint simple_library digests id (pos 3) trojan_server (
    add_warning simple_library digests (invalid_warning simple_library digests id (pos 2))
      (add_endpoint simple_library digests id (pos 1) trojan_server at_start))

abbrev run : Collects simple_library digests id uri_list collected
run =
    adds (pos 3) trojan_server
      (warns (invalid_warning simple_library digests id (pos 2)) (adds (pos 1) trojan_server begin))

collected_endpoints_checked_example :
    parsed_endpoints_ok simple_library digests id [] collected.result.endpoints ≡ true
collected_endpoints_checked_example =
    collected_endpoints_checked simple_library digests id uri_list collected run
