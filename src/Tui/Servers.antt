-- ===== src/Tui/Servers.antt =====
-- internal/tui/update.go: the cursor, the selection, and what snapshots and results change.
use tui_box.Prelude.{
  suc, ◌+◌, ◌-◌, ◌%◌, Bool, true, false, not, ◌||◌, Option, none, some, List, [], Bytes, String,
  same, leb, ◌==◌, length, any, if◌then◌else◌,
}
use tui_box.Prelude.Int.{ℤ, pos}
use tui_box.Daemon.State.{SessionStatus}
use tui_box.Tui.Model.{Server, Selection, auto, manual, no_input, ActionResult, Model}

-- clampCursor; a cursor is never negative.
unfoldable pub clamp_cursor : Model → Model
clamp_cursor model =
    if length model.servers == 0
    then record model { cursor = 0 }
    else if leb (length model.servers) model.cursor
    then record model { cursor = length model.servers - 1 }
    else model

-- moveCursor(1) and moveCursor(-1)
unfoldable pub move_down : Model → Model
move_down model =
    if length model.servers == 0
    then record model { cursor = 0 }
    else record model { cursor = (model.cursor + 1 + length model.servers) % length model.servers }

unfoldable pub move_up : Model → Model
move_up model =
    if length model.servers == 0
    then record model { cursor = 0 }
    else record model { cursor = (model.cursor + length model.servers - 1) % length model.servers }

unfoldable pub has_id : Bytes → List Server → Bool
has_id id servers = any (λ s. same s.id id) servers

abbrev pub is_manual : Selection → Bool
is_manual manual = true
is_manual auto = false

-- reconcileSelection
unfoldable pub reconcile_selection : Model → Model
reconcile_selection model =
    if not (is_manual model.selection) || has_id model.selected_id model.servers
    then model
    else record model { selection = auto; selected_id = [] }

-- cancelInput; what clearSecretInput overwrites is unreachable after it.
unfoldable pub cancel_input : Model → Model
cancel_input model = record model { input = no_input; input_name = []; secret_input = [] }

-- The servers that a snapshot or a result brings.
unfoldable pub take_servers : List Server → Model → Model
unfolding clamp_cursor reconcile_selection
take_servers servers model = reconcile_selection (clamp_cursor (record model { servers = servers }))

abbrev with_error : Option String → Model → Model
with_error none model = model
with_error (some text) model = record model { error_message = text; message = "" }

-- snapshotMsg
unfoldable pub on_snapshot : List Server → SessionStatus → Option String → Model → Model
on_snapshot servers status error model =
    if not (model.generation == 0)
    then model
    else with_error error (take_servers servers (record model { status = status }))

abbrev pub take_optional : Option (List Server) → Model → Model
take_optional none model = model
take_optional (some servers) model = take_servers servers model

abbrev pub take_status : Bool → SessionStatus → Model → Model
take_status true status model = record model { status = status }
take_status false status model = model

unfoldable pub finish_action : Option String → ActionResult → Model → Model
finish_action (some text) x model = record model { error_message = text; message = "" }
finish_action none x model =
    record (take_status x.has_status x.status (take_optional x.servers model)) {
      message = x.message;
      error_message = "";
    }

-- actionResultMsg
unfoldable pub on_result : ActionResult → Model → Model
on_result x model =
    if not (x.generation == model.generation)
    then model
    else finish_action x.error x (record model { busy = false })

abbrev pub set_width : ℤ → Model → Model
set_width (pos (suc w)) model = record model { width = suc w }
set_width _ model = model

abbrev pub set_height : ℤ → Model → Model
set_height (pos (suc h)) model = record model { height = suc h }
set_height _ model = model
