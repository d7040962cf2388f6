-- ===== src/Tui/Sound.antt =====
-- internal/tui/update.go: Update and the invariant of the model, over runs of messages.
use tui_box.Prelude.{
  ℕ, zero, suc, Bool, true, false, not, ◌&&◌, Option, none, some, List, [], ◌∷◌, String, ◌==◌,
  arith, if_both,
}
use tui_box.Prelude.Int.{ℤ, pos, negsuc}
use tui_box.TerminalText.{Tables}
use tui_box.Daemon.State.{SessionStatus}
use tui_box.Tui.Model.{
  Server, Key, ActionResult, Message, snapshot, action_result, window_size, key_press, Model,
  new_model,
}
use tui_box.Tui.Servers.{
  on_result, cancel_input, take_optional, take_status, finish_action, set_width, set_height,
}
use tui_box.Tui.Update.{update, update_key, run, is_side_effect_key, is_typing, is_ctrl_c}
use tui_box.Tui.Invariant.{
  IsUsable, new_model-IsUsable, take_servers-IsUsable, on_snapshot-IsUsable, status_free,
  message_free,
}
use tui_box.Tui.Commands.{cancel_input-IsUsable, Fine, command_key-Fine}
use tui_box.Tui.Typing.{input_key-Fine}

module _ (t : Tables) where
  idle : (x : Model) → IsUsable t x → IsUsable t (record x { busy = false })
  idle x v = record {
    cursor = v.cursor;
    selected = v.selected;
    cleared = v.cleared;
    quiet = ground arith;
    name = v.name;
    secret = v.secret;
  }

  take_optional-IsUsable :
      (o : Option (List Server)) (x : Model) → IsUsable t x → IsUsable t (take_optional o x)
  take_optional-IsUsable none x v = v
  take_optional-IsUsable (some servers) x v = take_servers-IsUsable t servers x v

  take_status-IsUsable :
      (b : Bool) (st : SessionStatus) (x : Model) → IsUsable t x → IsUsable t (take_status b st x)
  take_status-IsUsable true st x v = status_free t st x v
  take_status-IsUsable false st x v = v

  finish_action-IsUsable :
      (e : Option String) (y : ActionResult) (x : Model)
      → IsUsable t x
      → IsUsable t (finish_action e y x)
  unfolding finish_action
  finish_action-IsUsable (some text) y x v = message_free t "" text x v
  finish_action-IsUsable none y x v =
      message_free t y.message "" _
        (take_status-IsUsable y.has_status y.status _ (take_optional-IsUsable y.servers x v))

  on_result-IsUsable : (y : ActionResult) (x : Model) → IsUsable t x → IsUsable t (on_result y x)
  unfolding on_result
  on_result-IsUsable y x v =
      if_both (IsUsable t) (not (y.generation == x.generation)) (λ stale. v)
        (λ current. finish_action-IsUsable y.error y (record x { busy = false }) (idle x v))

  cancelled_free : (x : Model) → IsUsable t x → IsUsable t (record x { cancelled = true })
  cancelled_free x v = record {
    cursor = v.cursor;
    selected = v.selected;
    cleared = v.cleared;
    quiet = v.quiet;
    name = v.name;
    secret = v.secret;
  }

  sized : (w h : ℕ) (x : Model) → IsUsable t x → IsUsable t (record x { width = w; height = h })
  sized w h x v = record {
    cursor = v.cursor;
    selected = v.selected;
    cleared = v.cleared;
    quiet = v.quiet;
    name = v.name;
    secret = v.secret;
  }

  set_width-IsUsable : (w : ℤ) (x : Model) → IsUsable t x → IsUsable t (set_width w x)
  set_width-IsUsable (pos zero) x v = v
  set_width-IsUsable (pos (suc w)) x v = sized (suc w) x.height x v
  set_width-IsUsable (negsuc w) x v = v

  set_height-IsUsable : (h : ℤ) (x : Model) → IsUsable t x → IsUsable t (set_height h x)
  set_height-IsUsable (pos zero) x v = v
  set_height-IsUsable (pos (suc h)) x v = sized x.width (suc h) x v
  set_height-IsUsable (negsuc h) x v = v

  update_key-Fine : (key : Key) (x : Model) → IsUsable t x → Fine t (update_key t key x)
  unfolding update_key
  update_key-Fine key x v =
      if_both (Fine t) (is_ctrl_c key.name)
        (λ _. cancelled_free (cancel_input x) (cancel_input-IsUsable t x v))
        (λ _.
          if_both (Fine t) (is_typing x.input)
            (λ typing. input_key-Fine t key.name key x v (λ p. ground arith))
            (λ resting.
              if_both (Fine t) (x.busy && is_side_effect_key key.name) (λ _. v)
                (λ free.
                  command_key-Fine t key.name _
                    (
                      v.cursor,
                      v.selected,
                      ground arith,
                      ground (arith, v.cleared),
                      ground (arith, v.cleared),
                    )
                    free)))

  update-IsUsable : (msg : Message) (x : Model) → IsUsable t x → IsUsable t (update t msg x).0
  unfolding update
  update-IsUsable (snapshot servers st e) x v = on_snapshot-IsUsable t servers st e x v
  update-IsUsable (action_result y) x v = on_result-IsUsable y x v
  update-IsUsable (window_size w h) x v =
      set_height-IsUsable h (set_width w x) (set_width-IsUsable w x v)
  update-IsUsable (key_press key) x v = update_key-Fine key x v

  run-IsUsable : (xs : List Message) (x : Model) → IsUsable t x → IsUsable t (run t xs x)
  unfolding run
  run-IsUsable [] x v = v
  run-IsUsable (y ∷ ys) x v = run-IsUsable ys (update t y x).0 (update-IsUsable y x v)

-- After any run of messages from the start: the cursor points at a server if there is one, a manual
-- selection is one of the servers and an automatic one names none, outside the input nothing typed
-- is kept, no action is in flight while text is typed, and what was typed is safe for a terminal
-- and within its limit in bytes.
pub reachable-IsUsable : (t : Tables) (xs : List Message) → IsUsable t (run t xs new_model)
reachable-IsUsable t xs = run-IsUsable t xs new_model (new_model-IsUsable t)
