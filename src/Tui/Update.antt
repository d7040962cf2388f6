-- ===== src/Tui/Update.antt =====
-- internal/tui/update.go: Update, by the kind of message.
use tui_box.Prelude.{
  ℕ, ◌+◌, ◌%◌, Bool, true, false, not, ◌&&◌, ◌||◌, Option, none, some, List, [], ◌∷◌, Bytes, bytes,
  ◌==◌, length, get_elem?, if◌then◌else◌,
}
use tui_box.TerminalText.{Tables, is_blank}
use tui_box.TerminalText.Utf8.{write_all}
use tui_box.Domain.Types.{ConnectionMode, RouteMode, tun, proxy, global, rule, direct}
use tui_box.Domain.Checks.{is_empty}
use tui_box.Domain.Endpoint.{max_name_length}
use tui_box.Daemon.Install.{generation_modulus}
use tui_box.Tui.Model.{
  Server, auto, manual, Input, no_input, name_input, url_input, KeyName, ctrl_c, q, down, j, up, k,
  enter, a, m, r, n, u, l, c, d, esc, backspace, Key, Command, no_command, quit, refresh,
  check_latency, disconnect, connect, add_subscription, Message, snapshot, action_result,
  window_size, key_press, Model,
}
use tui_box.Tui.Input.{append_runes_within_bytes, append_secret_runes, remove_last_rune, drop_last}
use tui_box.Tui.Servers.{
  move_down, move_up, is_manual, cancel_input, on_snapshot, on_result, set_width, set_height,
}

abbrev pub auto_target : Bytes
auto_target = bytes "auto"

-- startAction
unfoldable pub start_action : Model → Model
start_action model = record model {
  generation = (model.generation + 1) % generation_modulus;
  busy = true;
}

-- isSideEffectKey
unfoldable pub is_side_effect_key : KeyName → Bool
is_side_effect_key n = true
is_side_effect_key u = true
is_side_effect_key l = true
is_side_effect_key c = true
is_side_effect_key d = true
is_side_effect_key _ = false

abbrev pub Outcome : Type 0
Outcome = Model × Command

abbrev pub act : (ℕ → Command) → Model → Outcome
act command model = let started = start_action model in (started, command started.generation)

abbrev pub next_route : RouteMode → RouteMode
next_route global = rule
next_route rule = direct
next_route _ = global

abbrev pub other_mode : ConnectionMode → ConnectionMode
other_mode tun = proxy
other_mode _ = tun

abbrev pub is_direct : RouteMode → Bool
is_direct direct = true
is_direct _ = false

-- The case "c" of updateKey.
unfoldable pub connect_key : Model → Outcome
unfolding start_action
connect_key model =
    let go = λ (target : Bytes). act (λ g. connect g target model.mode model.route) model in
    if is_direct model.route
    then go []
    else if not (is_manual model.selection)
    then go auto_target
    else if is_empty model.selected_id
    then (record model { error_message = "select a server first" }, no_command)
    else go model.selected_id

abbrev pub select_at : Option Server → Model → Model
select_at none model = model
select_at (some s) model = record model { selection = manual; selected_id = s.id }

-- The switch of updateKey, after the messages were cleared.
unfoldable pub command_key : KeyName → Model → Outcome
unfolding move_down move_up connect_key start_action
command_key q model = (record model { cancelled = true }, quit)
command_key down model = (move_down model, no_command)
command_key j model = (move_down model, no_command)
command_key up model = (move_up model, no_command)
command_key k model = (move_up model, no_command)
command_key enter model = (select_at (get_elem? model.servers model.cursor) model, no_command)
command_key a model = (record model { selection = auto; selected_id = [] }, no_command)
command_key m model = (record model { mode = other_mode model.mode }, no_command)
command_key r model = (record model { route = next_route model.route }, no_command)
command_key n model =
    (record model { input = name_input; input_name = []; secret_input = [] }, no_command)
command_key u model = act refresh model
command_key l model = act check_latency model
command_key c model = connect_key model
command_key d model = act disconnect model
command_key _ model = (model, no_command)

abbrev pub is_naming : Input → Bool
is_naming name_input = true
is_naming _ = false

abbrev pub is_typing : Input → Bool
is_typing no_input = false
is_typing _ = true

abbrev pub is_ctrl_c : KeyName → Bool
is_ctrl_c ctrl_c = true
is_ctrl_c _ = false

module _ (t : Tables) where
  -- The runes of a key that no switch names.
  unfoldable pub typed_key : Key → Model → Outcome
  typed_key key model = (
    if not key.is_runes
        then model
        else if is_naming model.input
        then record model {
          input_name = append_runes_within_bytes t model.input_name key.runes max_name_length;
        }
        else record model { secret_input = append_secret_runes t model.secret_input key.runes },
    no_command,
  )

  -- The case "enter" of updateInput.
  unfoldable pub enter_input : Model → Outcome
  unfolding start_action cancel_input
  enter_input model =
      if is_naming model.input
      then if is_blank model.input_name
        then (record model { error_message = "subscription name is required" }, no_command)
        else (record model { input = url_input; error_message = "" }, no_command)
      else if length model.secret_input == 0 || is_blank (write_all model.secret_input)
      then (record model { error_message = "subscription URL is required" }, no_command)
      else (
        cancel_input (start_action model),
        add_subscription (start_action model).generation model.input_name model.secret_input,
      )

  -- updateInput
  unfoldable pub input_key : KeyName → Key → Model → Outcome
  input_key esc key model = (cancel_input model, no_command)
  input_key backspace key model = (
    if is_naming model.input
        then record model { input_name = remove_last_rune model.input_name }
        else record model { secret_input = drop_last model.secret_input },
    no_command,
  )
  input_key enter key model = enter_input model
  input_key _ key model = typed_key key model

  -- updateKey
  unfoldable pub update_key : Key → Model → Outcome
  update_key key model =
      if is_ctrl_c key.name
      then (record (cancel_input model) { cancelled = true }, quit)
      else if is_typing model.input
      then input_key key.name key model
      else if model.busy && is_side_effect_key key.name
      then (model, no_command)
      else command_key key.name (record model { message = ""; error_message = "" })

  -- Update
  unfoldable pub update : Message → Model → Outcome
  update (snapshot servers status error) model =
      (on_snapshot servers status error model, no_command)
  update (action_result x) model = (on_result x model, no_command)
  update (window_size w h) model = (set_height h (set_width w model), no_command)
  update (key_press key) model = update_key key model

  -- The model after a run of messages.
  unfoldable pub run : List Message → Model → Model
  run [] model = model
  run (x ∷ xs) model = run xs (update x model).0
