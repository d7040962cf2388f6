-- ===== src/Tui/Actions.antt =====
-- internal/tui/model.go: the calls of the backend, and their results.
use tui_box.Prelude.{
  ℕ, ◌+◌, ◌%◌, ◌≡◌, ◌≢◌, ◌⊎◌, refl, sym, ◌∙◌, true, false, ◌&&◌, Option, none, some, [], arith,
  if_both, inl,
}
use tui_box.TerminalText.{Tables}
use tui_box.Domain.Types.{direct}
use tui_box.Daemon.Install.{generation_modulus}
use tui_box.Tui.Model.{
  auto, manual, KeyName, enter, u, l, c, d, Key, Command, no_command, refresh, check_latency,
  disconnect, connect, add_subscription, ActionResult, Message, snapshot, action_result,
  window_size, key_press, Model,
}
use tui_box.Tui.Invariant.{IsUsable, IsSelected}
use tui_box.Tui.Servers.{on_result, has_id, cancel_input, finish_action, take_servers}
use tui_box.Tui.Update.{
  update, update_key, command_key, input_key, enter_input, typed_key, connect_key, start_action,
  auto_target, is_side_effect_key, is_typing, is_ctrl_c, Outcome,
}

-- The backend call of a command carries this generation.
abbrev pub generation_of : Command → Option ℕ
generation_of (refresh g) = some g
generation_of (check_latency g) = some g
generation_of (disconnect g) = some g
generation_of (connect g target mode route) = some g
generation_of (add_subscription g name url) = some g
generation_of _ = none

-- A command that calls the backend: no action was in flight, and the new one is now.
abbrev pub Begins : Model → Outcome → Type 0
Begins x (y, command) =
    (generation_of command ≡ none)
    ⊎ ((x.busy ≡ false)
        × (y.busy ≡ true)
        × (y.generation ≡ (x.generation + 1) % generation_modulus)
        × (generation_of command ≡ some y.generation))

module _ (t : Tables) where
  command_key-Begins :
      (key : KeyName) (x : Model)
      → (x.busy && is_side_effect_key key) ≡ false
      → Begins x (command_key key x)
  unfolding command_key is_side_effect_key start_action
  command_key-Begins c x b = unfold connect_key in ground arith
  command_key-Begins u x b = ground arith
  command_key-Begins l x b = ground arith
  command_key-Begins d x b = ground arith
  command_key-Begins _ x b = ground arith

  input_key-Begins :
      (name : KeyName) (key : Key) (x : Model) → x.busy ≡ false → Begins x (input_key t name key x)
  unfolding input_key enter_input typed_key start_action cancel_input
  input_key-Begins enter key x b = ground arith
  input_key-Begins _ key x b = ground arith

  -- A usable model calls the backend only if no action is in flight; the call then carries the
  -- next generation, which the model takes, and the model is busy.
  pub update-Begins : (msg : Message) (x : Model) → IsUsable t x → Begins x (update t msg x)
  unfolding update update_key
  update-Begins (snapshot servers st e) x v = inl refl
  update-Begins (action_result y) x v = inl refl
  update-Begins (window_size w h) x v = inl refl
  update-Begins (key_press key) x v =
      if_both (Begins x) (is_ctrl_c key.name) (λ _. inl refl)
        (λ _.
          if_both (Begins x) (is_typing x.input)
            (λ typing. input_key-Begins key.name key x (ground (arith, v.quiet)))
            (λ _.
              if_both (Begins x) (x.busy && is_side_effect_key key.name) (λ _. inl refl)
                (λ free.
                  command_key-Begins key.name (record x { message = ""; error_message = "" })
                    free)))

begun_by :
    (x : Model) (o : Outcome) (g : ℕ)
    → Begins x o
    → generation_of o.1 ≡ some g
    → (o.0.busy ≡ true) × (o.0.generation ≡ g)
begun_by x (y, issued) g b h = ground arith

result_stale :
    (t : Tables) (y : ActionResult) (x : Model)
    → y.generation ≢ x.generation
    → update t (action_result y) x ≡ (x, no_command)
unfolding update on_result finish_action take_servers
result_stale t y x h = ground arith

result_ends :
    (t : Tables) (y : ActionResult) (x : Model)
    → y.generation ≡ x.generation
    → (update t (action_result y) x).0.busy ≡ false
unfolding update on_result finish_action take_servers
result_ends t y x h = ground arith

-- A message on which a usable model calls the backend leaves it busy. Then a result of any other
-- generation than the call's changes nothing, and the call's own result ends the action, whether
-- it failed or not.
pub own_result_ends :
    (t : Tables) (msg : Message) (x : Model) (g : ℕ) (own stale : ActionResult)
    → IsUsable t x
    → generation_of (update t msg x).1 ≡ some g
    → own.generation ≡ g
    → stale.generation ≢ g
    → ((update t msg x).0.busy ≡ true)
      × (update t (action_result stale) (update t msg x).0 ≡ ((update t msg x).0, no_command))
      × ((update t (action_result own) (update t msg x).0).0.busy ≡ false)
own_result_ends t msg x g own stale v calls o s =
    let begun = begun_by x (update t msg x) g (update-Begins t msg x v) calls in
    (
      begun.0,
      result_stale t stale (update t msg x).0 (λ e. s (e ∙ begun.1)),
      result_ends t own (update t msg x).0 (o ∙ sym begun.1),
    )

-- The target of a connect command: none for direct routing, `auto` for an automatic selection,
-- else the ID of a listed server.
abbrev pub IsTarget : Model → Command → Type 0
IsTarget x (connect g target mode route) =
    (mode ≡ x.mode)
    × (route ≡ x.route)
    × ((route ≡ direct) × (target ≡ [])
        ⊎ (route ≢ direct) × (x.selection ≡ auto) × (target ≡ auto_target)
        ⊎ (route ≢ direct)
          × (x.selection ≡ manual)
          × (target ≡ x.selected_id)
          × (has_id target x.servers ≡ true))
IsTarget x _ = Unit

abbrev Aims : Model → Outcome → Type 0
Aims x o = IsTarget x o.1

connect_key-Aims :
    (x : Model) → IsSelected x.selection x.selected_id x.servers → Aims x (connect_key x)
unfolding connect_key
connect_key-Aims x s = ground arith

command_key-Aims :
    (key : KeyName) (x : Model)
    → IsSelected x.selection x.selected_id x.servers
    → Aims x (command_key key x)
unfolding command_key
command_key-Aims c x s = connect_key-Aims x s
command_key-Aims _ x s = tt

input_key-Aims :
    (t : Tables) (name : KeyName) (key : Key) (x : Model) → Aims x (input_key t name key x)
unfolding input_key typed_key enter_input
input_key-Aims t enter key x = ground arith
input_key-Aims t _ key x = tt

-- Whatever a usable model asks the daemon to connect: it asks for the model's mode and route. If the
-- route is direct, it asks for no endpoint; for the other routes it asks for `auto` if the selection
-- is automatic, and if it is manual for the selected server, which is one of the listed servers.
pub update-Aims :
    (t : Tables) (msg : Message) (x : Model) → IsUsable t x → IsTarget x (update t msg x).1
unfolding update update_key
update-Aims t (snapshot servers st e) x v = tt
update-Aims t (action_result y) x v = tt
update-Aims t (window_size w h) x v = tt
update-Aims t (key_press key) x v =
    if_both (Aims x) (is_ctrl_c key.name) (λ _. tt)
      (λ _.
        if_both (Aims x) (is_typing x.input) (λ typing. input_key-Aims t key.name key x)
          (λ _.
            if_both (Aims x) (x.busy && is_side_effect_key key.name) (λ _. tt)
              (λ _.
                command_key-Aims key.name (record x { message = ""; error_message = "" })
                  v.selected)))
