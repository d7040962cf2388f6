-- ===== src/Tui/Typing.antt =====
-- internal/tui/update.go: the keys inside a text input and the invariant of the model.
use tui_box.Prelude.{ℕ, ◌≡◌, ◌≢◌, refl, true, not, ◌||◌, List, Bytes, ◌==◌, length, arith, if_both}
use tui_box.TerminalText.{Tables, is_blank}
use tui_box.TerminalText.Utf8.{write_all}
use tui_box.Domain.Endpoint.{max_name_length}
use tui_box.Tui.Model.{no_input, url_input, KeyName, Key, enter, esc, backspace, Model}
use tui_box.Tui.Input.{max_secret_input_bytes}
use tui_box.Tui.InputLaws.{
  IsTyped, IsTypedText, append_secret_runes-IsTyped, append_runes-IsTypedText,
  remove_last_rune-IsTypedText, drop_last-IsTyped,
}
use tui_box.Tui.Update.{input_key, enter_input, typed_key, is_naming}
use tui_box.Tui.Invariant.{IsUsable, message_free}
use tui_box.Tui.Commands.{outside_input, cancel_input-IsUsable, Fine}

module _ (t : Tables) where
  typed_name :
      (x : Model) (text : Bytes)
      → IsUsable t x
      → x.input ≢ no_input
      → IsTypedText t max_name_length text
      → IsUsable t (record x { input_name = text })
  typed_name x text v i h = record {
    cursor = v.cursor;
    selected = v.selected;
    cleared = ground (arith, v.cleared);
    quiet = v.quiet;
    name = h;
    secret = v.secret;
  }

  typed_secret :
      (x : Model) (rs : List ℕ)
      → IsUsable t x
      → x.input ≢ no_input
      → IsTyped t max_secret_input_bytes rs
      → IsUsable t (record x { secret_input = rs })
  typed_secret x rs v i h = record {
    cursor = v.cursor;
    selected = v.selected;
    cleared = ground (arith, v.cleared);
    quiet = v.quiet;
    name = v.name;
    secret = h;
  }

  typed_key-Fine :
      (key : Key) (x : Model) → IsUsable t x → x.input ≢ no_input → Fine t (typed_key t key x)
  unfolding typed_key
  typed_key-Fine key x v i =
      if_both (IsUsable t) (not key.is_runes) (λ _. v)
        (λ _.
          if_both (IsUsable t) (is_naming x.input)
            (λ _.
              typed_name x _ v i
                (append_runes-IsTypedText t max_name_length x.input_name key.runes v.name))
            (λ _.
              typed_secret x _ v i
                (append_secret_runes-IsTyped t x.secret_input key.runes v.secret)))

  backspace-Fine :
      (key : Key) (x : Model)
      → IsUsable t x
      → x.input ≢ no_input
      → Fine t (input_key t backspace key x)
  unfolding input_key
  backspace-Fine key x v i =
      if_both (IsUsable t) (is_naming x.input)
        (λ _.
          typed_name x _ v i (remove_last_rune-IsTypedText t max_name_length x.input_name v.name))
        (λ _.
          typed_secret x _ v i (drop_last-IsTyped t max_secret_input_bytes x.secret_input v.secret))

  url_opened :
      (x : Model)
      → IsUsable t x
      → is_naming x.input ≡ true
      → IsUsable t (record x { input = url_input; error_message = "" })
  url_opened x v i = record {
    cursor = v.cursor;
    selected = v.selected;
    cleared = tt;
    quiet = ground (arith, v.quiet);
    name = v.name;
    secret = v.secret;
  }

  enter_input-Fine : (x : Model) → IsUsable t x → x.input ≢ no_input → Fine t (enter_input t x)
  unfolding enter_input
  enter_input-Fine x v i =
      if_both (Fine t) (is_naming x.input)
        (λ naming.
          if_both (Fine t) (is_blank x.input_name) (λ _. message_free t x.message _ x v)
            (λ _. url_opened x v naming))
        (λ _.
          if_both (Fine t) (length x.secret_input == 0 || is_blank (write_all x.secret_input))
            (λ _. message_free t x.message _ x v)
            (λ _. outside_input t _ (v.cursor, v.selected, refl, refl, refl)))

  pub input_key-Fine :
      (name : KeyName) (key : Key) (x : Model)
      → IsUsable t x
      → x.input ≢ no_input
      → Fine t (input_key t name key x)
  unfolding input_key
  input_key-Fine esc key x v i = cancel_input-IsUsable t x v
  input_key-Fine backspace key x v i = backspace-Fine key x v i
  input_key-Fine enter key x v i = enter_input-Fine x v i
  input_key-Fine _ key x v i = typed_key-Fine key x v i
