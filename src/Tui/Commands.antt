-- ===== src/Tui/Commands.antt =====
-- internal/tui/update.go: the keys outside a text input and the invariant of the model.
use tui_box.Prelude.{
  ℕ, ◌+◌, ◌%◌, ◌≡◌, refl, true, false, not, ◌&&◌, Option, none, some, [], ◌==◌, length, get_elem?,
  arith, if_both,
}
use tui_box.TerminalText.{Tables}
use tui_box.Domain.Endpoint.{max_name_length}
use tui_box.Daemon.Install.{generation_modulus}
use tui_box.Domain.Checks.{is_empty}
use tui_box.Tui.Model.{
  Server, no_input, name_input, KeyName, Command, down, j, up, k, enter, a, m, r, n, u, l, c, d,
  esc, backspace, other_key, ctrl_c, q, refresh, check_latency, disconnect, Model,
}
use tui_box.Tui.Input.{max_secret_input_bytes}
use tui_box.Tui.Servers.{move_down, move_up, cancel_input, is_manual}
use tui_box.Tui.Update.{
  command_key, connect_key, start_action, select_at, act, is_side_effect_key, is_direct, Outcome,
}
use tui_box.Tui.Invariant.{PointsAt, IsSelected, IsUsable, no_text, nothing-IsTyped, select-has_id}

module _ (t : Tables) where
  abbrev pub IsResting : Model → Type 0
  IsResting x =
      PointsAt x.cursor x.servers
      × IsSelected x.selection x.selected_id x.servers
      × (x.input ≡ no_input)
      × (x.input_name ≡ [])
      × (x.secret_input ≡ [])

  -- With no input open, the cursor and the selection are all that is to be kept.
  pub outside_input : (x : Model) → IsResting x → IsUsable t x
  outside_input x (p, s, i, e, f) = record {
    cursor = p;
    selected = s;
    cleared = ground arith;
    quiet = ground arith;
    name = rw e (no_text t max_name_length);
    secret = rw f (nothing-IsTyped t max_secret_input_bytes);
  }

  abbrev pub Fine : Outcome → Type 0
  Fine o = IsUsable t o.0

  pub cancel_input-IsUsable : (x : Model) → IsUsable t x → IsUsable t (cancel_input x)
  unfolding cancel_input
  cancel_input-IsUsable x v =
      outside_input (record x { input = no_input; input_name = []; secret_input = [] })
        (v.cursor, v.selected, refl, refl, refl)

  connect_key-same : (x : Model) → IsResting x → IsUsable t (connect_key x).0
  unfolding connect_key
  connect_key-same x w =
      if_both (λ (o : Outcome). IsUsable t o.0) (is_direct x.route) (λ _. acted)
        (λ _.
          if_both (λ (o : Outcome). IsUsable t o.0) (not (is_manual x.selection)) (λ _. acted)
            (λ _.
              if_both (λ (o : Outcome). IsUsable t o.0) (is_empty x.selected_id)
                (λ _. outside_input _ w) (λ _. acted)))
    where
      acted : IsUsable t (start_action x)
      acted =
          outside_input
            (record x { generation = (x.generation + 1) % generation_modulus; busy = true }) w

  act-Fine : (command : ℕ → Command) (x : Model) → IsResting x → Fine (act command x)
  unfolding start_action
  act-Fine command x w = outside_input _ w

  moved_down : (x : Model) → IsResting x → IsUsable t (move_down x)
  unfolding move_down
  moved_down x w =
      if_both (IsUsable t) (length x.servers == 0)
        (λ zero_servers. outside_input _ (ground arith, w.1, w.2, w.3, w.4))
        (λ servers. outside_input _ (ground arith, w.1, w.2, w.3, w.4))

  moved_up : (x : Model) → IsResting x → IsUsable t (move_up x)
  unfolding move_up
  moved_up x w =
      if_both (IsUsable t) (length x.servers == 0)
        (λ zero_servers. outside_input _ (ground arith, w.1, w.2, w.3, w.4))
        (λ servers. outside_input _ (ground arith, w.1, w.2, w.3, w.4))

  selected_here :
      (o : Option Server) (x : Model)
      → get_elem? x.servers x.cursor ≡ o
      → IsResting x
      → IsUsable t (select_at o x)
  selected_here none x g w = outside_input x w
  selected_here (some v) x g w =
      outside_input _ (w.0, select-has_id t x.cursor x.servers v g, w.2, w.3, w.4)

  name_opened :
      (x : Model)
      → PointsAt x.cursor x.servers
      → IsSelected x.selection x.selected_id x.servers
      → x.busy ≡ false
      → IsUsable t (record x { input = name_input; input_name = []; secret_input = [] })
  name_opened x p s b = record {
    cursor = p;
    selected = s;
    cleared = tt;
    quiet = b;
    name = no_text t max_name_length;
    secret = nothing-IsTyped t max_secret_input_bytes;
  }

  pub command_key-Fine :
      (key : KeyName) (x : Model)
      → IsResting x
      → (x.busy && is_side_effect_key key) ≡ false
      → Fine (command_key key x)
  unfolding command_key is_side_effect_key
  command_key-Fine q x w b = outside_input _ w
  command_key-Fine down x w b = moved_down x w
  command_key-Fine j x w b = moved_down x w
  command_key-Fine up x w b = moved_up x w
  command_key-Fine k x w b = moved_up x w
  command_key-Fine enter x w b = selected_here (get_elem? x.servers x.cursor) x refl w
  command_key-Fine a x w b = outside_input _ (w.0, refl, w.2, w.3, w.4)
  command_key-Fine m x w b = outside_input _ w
  command_key-Fine r x w b = outside_input _ w
  command_key-Fine n x w b = name_opened x w.0 w.1 (ground arith)
  command_key-Fine u x w b = act-Fine refresh x w
  command_key-Fine l x w b = act-Fine check_latency x w
  command_key-Fine c x w b = connect_key-same x w
  command_key-Fine d x w b = act-Fine disconnect x w
  command_key-Fine ctrl_c x w b = outside_input x w
  command_key-Fine esc x w b = outside_input x w
  command_key-Fine backspace x w b = outside_input x w
  command_key-Fine other_key x w b = outside_input x w
