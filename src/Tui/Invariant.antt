-- ===== src/Tui/Invariant.antt =====
-- internal/tui/update.go: the invariant of the model.
use tui_box.Prelude.{
  ℕ, zero, suc, ◌≡◌, ◌<◌, refl, Bool, true, false, not, Option, none, some, List, [], ◌∷◌, Bytes,
  String, same_refl, ◌==◌, length, get_elem?, arith, if_both,
}
use tui_box.TerminalText.{Tables}
use tui_box.TerminalText.Utf8.{write_all}
use tui_box.Domain.Endpoint.{max_name_length}
use tui_box.Daemon.State.{SessionStatus}
use tui_box.Tui.Model.{Server, Selection, auto, manual, Input, no_input, Model, new_model}
use tui_box.Tui.Input.{max_secret_input_bytes}
use tui_box.Tui.InputLaws.{IsTyped, IsTypedText}
use tui_box.Tui.Servers.{on_snapshot, take_servers, has_id, clamp_cursor, move_down, move_up}

-- The cursor points at a server, if there is one.
abbrev pub PointsAt : ℕ → List Server → Type 0
PointsAt cursor [] = cursor ≡ 0
PointsAt cursor (s ∷ ss) = cursor < length (s ∷ ss)

-- A manual selection is one of the servers; an automatic one names none.
abbrev pub IsSelected : Selection → Bytes → List Server → Type 0
IsSelected manual id servers = has_id id servers ≡ true
IsSelected auto id servers = id ≡ []

-- Outside the input nothing typed is kept, no secret above all.
abbrev pub IsCleared : Input → Bytes → List ℕ → Type 0
IsCleared no_input name secret = (name ≡ []) × (secret ≡ [])
IsCleared _ name secret = Unit

-- No action is in flight while text is typed.
abbrev pub IsQuiet : Input → Bool → Type 0
IsQuiet no_input busy = Unit
IsQuiet _ busy = busy ≡ false

pub record IsUsable (t : Tables) (x : Model) : Type 0 where
  pub cursor : PointsAt x.cursor x.servers
  pub selected : IsSelected x.selection x.selected_id x.servers
  pub cleared : IsCleared x.input x.input_name x.secret_input
  pub quiet : IsQuiet x.input x.busy
  pub name : IsTypedText t max_name_length x.input_name
  pub secret : IsTyped t max_secret_input_bytes x.secret_input

module _ (t : Tables) where
  pub nothing-IsTyped : (maximum : ℕ) → IsTyped t maximum []
  nothing-IsTyped maximum = record { safe = refl; fits = unfold write_all in omega arith }

  pub no_text : (maximum : ℕ) → IsTypedText t maximum []
  no_text maximum = ([], unfold write_all in refl, nothing-IsTyped maximum)

  pub new_model-IsUsable : IsUsable t new_model
  unfolding new_model
  new_model-IsUsable = record {
    cursor = refl;
    selected = refl;
    cleared = (refl, refl);
    quiet = tt;
    name = no_text max_name_length;
    secret = nothing-IsTyped max_secret_input_bytes;
  }

  pub clamp_cursor-PointsAt : (x : Model) → PointsAt (clamp_cursor x).cursor x.servers
  unfolding clamp_cursor
  clamp_cursor-PointsAt x = ground arith

  pub move_down-PointsAt : (x : Model) → PointsAt (move_down x).cursor x.servers
  unfolding move_down
  move_down-PointsAt x = ground arith

  pub move_up-PointsAt : (x : Model) → PointsAt (move_up x).cursor x.servers
  unfolding move_up
  move_up-PointsAt x = ground arith

  take_servers-cursor :
      (servers : List Server) (x : Model)
      → PointsAt (take_servers servers x).cursor (take_servers servers x).servers
  unfolding take_servers
  take_servers-cursor servers x = ground arith

  take_servers-IsSelected :
      (servers : List Server) (x : Model)
      → IsSelected x.selection x.selected_id x.servers
      → IsSelected
          (take_servers servers x).selection
          (take_servers servers x).selected_id
          (take_servers servers x).servers
  unfolding take_servers
  take_servers-IsSelected servers x h = ground arith

  take_servers-name :
      (servers : List Server) (x : Model) → (take_servers servers x).input_name ≡ x.input_name
  unfolding take_servers
  take_servers-name servers x = ground arith

  take_servers-secret :
      (servers : List Server) (x : Model) → (take_servers servers x).secret_input ≡ x.secret_input
  unfolding take_servers
  take_servers-secret servers x = ground arith

  pub status_free :
      (st : SessionStatus) (x : Model) → IsUsable t x → IsUsable t (record x { status = st })
  status_free st x v = record {
    cursor = v.cursor;
    selected = v.selected;
    cleared = v.cleared;
    quiet = v.quiet;
    name = v.name;
    secret = v.secret;
  }

  pub message_free :
      (text error : String) (x : Model)
      → IsUsable t x
      → IsUsable t (record x { message = text; error_message = error })
  message_free text error x v = record {
    cursor = v.cursor;
    selected = v.selected;
    cleared = v.cleared;
    quiet = v.quiet;
    name = v.name;
    secret = v.secret;
  }

  -- Taking servers changes nothing of the input.
  pub take_servers-IsUsable :
      (servers : List Server) (x : Model) → IsUsable t x → IsUsable t (take_servers servers x)
  take_servers-IsUsable servers x v = record {
    cursor = take_servers-cursor servers x;
    selected = take_servers-IsSelected servers x v.selected;
    cleared = unfold take_servers in ground (arith, v.cleared);
    quiet = unfold take_servers in ground (arith, v.quiet);
    name = rw (take_servers-name servers x) v.name;
    secret = rw (take_servers-secret servers x) v.secret;
  }

  pub select-has_id :
      (i : ℕ) (servers : List Server) (s : Server)
      → get_elem? servers i ≡ some s
      → has_id s.id servers ≡ true
  unfolding has_id
  select-has_id i [] s h = cc
  select-has_id zero (x ∷ xs) s h = ground (arith, same_refl s.id)
  select-has_id (suc i) (x ∷ xs) s h = ground (arith, select-has_id i xs s)

  pub on_snapshot-IsUsable :
      (servers : List Server) (status : SessionStatus) (error : Option String) (x : Model)
      → IsUsable t x
      → IsUsable t (on_snapshot servers status error x)
  unfolding on_snapshot
  on_snapshot-IsUsable servers status none x v =
      if_both (IsUsable t) (not (x.generation == 0)) (λ old. v)
        (λ fresh.
          take_servers-IsUsable servers (record x { status = status }) (status_free status x v))
  on_snapshot-IsUsable servers status (some text) x v =
      if_both (IsUsable t) (not (x.generation == 0)) (λ old. v)
        (λ fresh.
          message_free "" text (take_servers servers (record x { status = status }))
            (take_servers-IsUsable servers (record x { status = status }) (status_free status x v)))
