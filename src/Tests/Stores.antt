-- ===== src/Tests/Stores.antt =====
-- State files at concrete inputs.
use tui_box.Prelude.{◌≡◌, ◌↔◌, refl, true, false, none, some, [], ◌∷◌, bytes, Option}
use tui_box.Prelude.Int.{pos}
use tui_box.TerminalText.{is_blank, valid}
use tui_box.TerminalText.Utf8.{valid_string}
use tui_box.Domain.Subscription.{Subscription, uri_list}
use tui_box.Store.Snapshot.{Snapshot, valid_snapshot, valid_subscription, holds}
use tui_box.Store.File.{
  StoreErr, Store, decodes, Access, done, unconfirmed, Edit, update, save, increment_revision,
  load_locked, load_content, save_over, write_next,
}
use tui_box.Store.Updates.{UpdateTells, update_lem}
use tui_box.Store.Runs.{Loads, here, next, update_step}
use tui_box.Store.History.{Follows, save_exclusive, revision_tells}
use tui_box.Store.Accepted.{IsValidSnapshot, valid_snapshot_iff}
use tui_box.App.Edits.{telemetry_edit}
use tui_box.App.Errors.{Err}
use tui_box.Tests.Endpoints.{simple_library}

abbrev pub encodes : Snapshot → Option StoreErr
encodes s = none

abbrev pub plain : Access
plain = record { lock_error = none; load_error = none; write_end = done }

-- The write is made, but its error is that it may not be.
abbrev unsure : Access
unsure = record { lock_error = none; load_error = none; write_end = unconfirmed }

abbrev pub home : Subscription
home = record {
  id = bytes "s1";
  name = bytes "Home";
  secret_ref = bytes "subscription-s1";
  format = uri_list;
  refresh_interval_seconds = pos 0;
  last_refresh = some 7;
  last_error = [];
  refresh_token = [];
}

abbrev pub kept : Snapshot
kept = record {
  schema_version = pos 1;
  revision = 4;
  subscriptions = home ∷ [];
  endpoints = [];
  settings = record { telemetry_enabled = false; endpoint_identity_key = [] };
}

abbrev pub file : Store
file = record { closed = false; content = decodes kept }

abbrev switch_on : Snapshot → Edit Err (Unit {0})
switch_on = telemetry_edit true

update_lem_example :
    UpdateTells simple_library encodes switch_on file.content
      (update simple_library encodes unsure switch_on file).1
      (update simple_library encodes unsure switch_on file).0.content
update_lem_example = update_lem simple_library encodes unsure switch_on file

valid_snapshot_iff_example :
    (valid_snapshot simple_library kept ≡ true) ↔ IsValidSnapshot simple_library kept
valid_snapshot_iff_example = valid_snapshot_iff simple_library kept

kept_is_valid : valid_snapshot simple_library kept ≡ true
unfolding valid_snapshot valid_subscription holds is_blank valid_string valid
kept_is_valid = refl

kept-Loads : Loads simple_library encodes file.content kept
unfolding load_content valid_snapshot
kept-Loads = rw kept_is_valid refl

-- Another process has switched telemetry on.
abbrev after : Store
after = (update simple_library encodes unsure switch_on file).0

revision_tells_example : Follows simple_library encodes file.content kept after.content
revision_tells_example =
    revision_tells simple_library encodes kept (next here (update_step unsure switch_on file))
      kept-Loads

-- Another process could not lock the file.
abbrev locked_out : Access
locked_out = record { lock_error = some StoreErr.canceled; load_error = none; write_end = done }

abbrev missed : Store
missed = (update simple_library encodes locked_out switch_on file).0

missed_saves : (save simple_library encodes plain kept missed).1 ≡ none
unfolding save load_locked load_content valid_snapshot update save_over write_next
    increment_revision valid_subscription holds is_blank valid_string valid
missed_saves = refl

save_exclusive_example :
    (missed.content ≡ file.content)
    × ((save simple_library encodes plain kept missed).0.content
        ≡ decodes (record kept { revision = 5 }))
save_exclusive_example =
    save_exclusive simple_library encodes kept kept plain
      (next here (update_step locked_out switch_on file)) kept-Loads refl missed_saves
