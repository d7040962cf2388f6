-- ===== src/Tests/Terminals.antt =====
-- Runs of the terminal interface.
use tui_box.Prelude.{ℕ, ◌≡◌, refl, true, false, none, some, List, [], ◌∷◌, bytes, leb, arith}
use tui_box.TerminalText.{Tables}
use tui_box.Domain.Types.{trojan}
use tui_box.Daemon.State.{is_disconnected}
use tui_box.Tui.Model.{
  Server, KeyName, ActionResult, Message, snapshot, action_result, key_press, Model, new_model,
  no_command, enter,
}
use tui_box.Tui.Invariant.{IsUsable}
use tui_box.Tui.Sound.{reachable-IsUsable}
use tui_box.Tui.Servers.{on_snapshot, take_servers, has_id}
use tui_box.Tui.Update.{update, run, update_key, command_key, connect_key}
use tui_box.Tui.Actions.{
  Begins, IsTarget, update-Begins, update-Aims, own_result_ends, generation_of,
}

abbrev ascii : Tables
ascii = record { format = λ r. false; graphic = λ r. leb 0x20 r }

abbrev press : KeyName → Message
press name = key_press (record { name = name; is_runes = false; runes = [] })

abbrev two_servers : List Server
two_servers =
    record { id = bytes "a"; name = bytes "A"; protocol = trojan; latency = none }
    ∷ record { id = bytes "b"; name = bytes "B"; protocol = trojan; latency = none }
    ∷ []

-- A snapshot, then down and enter: the second server is selected.
abbrev choose_second : List Message
choose_second = snapshot two_servers is_disconnected none ∷ press KeyName.down ∷ press enter ∷ []

abbrev chosen : Model
chosen = run ascii choose_second new_model

reachable-IsUsable_example : IsUsable ascii chosen
reachable-IsUsable_example = reachable-IsUsable ascii choose_second

update-Begins_example : Begins chosen (update ascii (press KeyName.c) chosen)
update-Begins_example =
    update-Begins ascii (press KeyName.c) chosen (reachable-IsUsable ascii choose_second)

update-Aims_example : IsTarget chosen (update ascii (press KeyName.c) chosen).1
update-Aims_example =
    update-Aims ascii (press KeyName.c) chosen (reachable-IsUsable ascii choose_second)

abbrev result_at : ℕ → ActionResult
result_at g = record {
  generation = g;
  servers = none;
  status = is_disconnected;
  has_status = true;
  message = "connected";
  error = none;
}

-- The first connect has generation 1.
chosen_connects : generation_of (update ascii (press KeyName.c) chosen).1 ≡ some 1
unfolding run update on_snapshot update_key command_key connect_key new_model take_servers has_id
chosen_connects = refl

own_result_ends_example :
    ((update ascii (press KeyName.c) chosen).0.busy ≡ true)
    × (update ascii (action_result (result_at 7)) (update ascii (press KeyName.c) chosen).0
        ≡ ((update ascii (press KeyName.c) chosen).0, no_command))
    × ((update ascii (action_result (result_at 1)) (update ascii (press KeyName.c) chosen).0).0.busy
        ≡ false)
own_result_ends_example =
    own_result_ends ascii (press KeyName.c) chosen 1 (result_at 1) (result_at 7)
      (reachable-IsUsable ascii choose_second) chosen_connects refl (omega arith)
