-- ===== src/App/Remove.antt =====
-- internal/app/service.go: RemoveSubscription, which puts the secret back when the state is not
-- saved.
use tui_box.Prelude.{not, Option, none, some, List, [], ◌∷◌, Bytes, if◌then◌else◌}
use tui_box.Prelude.Results.{Result, ok, err}
use tui_box.Domain.Checks.{Library}
use tui_box.Domain.Types.{Endpoint}
use tui_box.Latency.Result.{ContextErr}
use tui_box.Store.Snapshot.{Snapshot}
use tui_box.Store.File.{StoreErr, Access, Failure, update, load}
use tui_box.App.Errors.{
  Err, invalid_input, subscription_not_found, state_operation, secret_operation, store_cause,
  operation_error, valid_identifier,
}
use tui_box.App.World.{
  World, Others, SecretErr, not_found, failed, get_secret, set_secret, delete_secret, WriteSecret,
}
use tui_box.App.Edits.{find_subscription, remove_edit}
use tui_box.App.Add.{owns_secret}
use tui_box.App.Refresh.{in_store, update_error, is_not_found, clear_latencies}

-- What RemoveSubscription observes, in order.
pub record RemoveTrace : Type 0 where
  pub load : Access
  pub load_over : Option ContextErr
  pub meanwhile : Others
  pub get_error : Option (Option ContextErr)
  pub get_over : Option ContextErr
  pub delete : WriteSecret
  pub delete_over : Option ContextErr
  pub before_update : Others
  pub update : Access
  pub update_over : Option ContextErr
  pub before_load : Others
  pub reload : Access
  pub before_restore : Others
  pub restore : WriteSecret

-- The world, and the joined errors.
abbrev pub Removed : Type 0
Removed = World × List Err

abbrev pub restored : Err → World × Option (Option ContextErr) → Removed
restored primary (w, none) = (w, primary ∷ [])
restored primary (w, some cause) = (w, primary ∷ secret_operation ∷ [])

module _ (lib : Library) (encode_error : Snapshot → Option StoreErr) where
  -- The current state was loaded again; `url` is the secret, if there was one.
  unfoldable pub restore_loaded :
      RemoveTrace → Bytes → Bytes → Option Bytes → Err → Result StoreErr Snapshot → World → Removed
  restore_loaded t id secret_ref url primary (err e) w = (w, primary ∷ secret_operation ∷ [])
  restore_loaded t id secret_ref url primary (ok current) w =
      if not (owns_secret secret_ref (find_subscription id current.subscriptions))
      then (w, primary ∷ [])
      else elim url [
        | none ↦ (w, primary ∷ secret_operation ∷ [])
        | some u ↦ restored primary (set_secret t.restore secret_ref u (t.before_restore w))
      ]

  unfoldable pub remove_updated :
      RemoveTrace
      → Bytes
      → Bytes
      → Option Bytes
      → List Endpoint
      → World × Result (Failure Err) (Unit {0})
      → Removed
  unfolding restore_loaded load clear_latencies
  remove_updated t id secret_ref url old (w, ok u) =
      (record w { latencies = clear_latencies id old w.latencies }, [])
  remove_updated t id secret_ref url old (w, err e) =
      let w' = t.before_load w in
      restore_loaded t id secret_ref url (update_error is_not_found t.update_over e)
        (load lib encode_error t.reload w'.store) w'

  -- The secret is gone.
  unfoldable pub remove_state :
      RemoveTrace → Bytes → Bytes → Option Bytes → List Endpoint → World → Removed
  unfolding remove_updated update remove_edit
  remove_state t id secret_ref url old w =
      let w' = t.before_update w in
      remove_updated t id secret_ref url old
        (in_store w' (update lib encode_error t.update (remove_edit id secret_ref) w'.store))

  abbrev pub after_delete :
      RemoveTrace
      → Bytes
      → Bytes
      → Bytes
      → List Endpoint
      → World × Option (Option ContextErr)
      → Removed
  after_delete t id secret_ref url old (w, none) = remove_state t id secret_ref (some url) old w
  after_delete t id secret_ref url old (w, some cause) =
      (w, operation_error t.delete_over cause secret_operation ∷ [])

  unfoldable pub remove_secret :
      RemoveTrace → Bytes → Bytes → List Endpoint → Result SecretErr Bytes → World → Removed
  unfolding remove_state
  remove_secret t id secret_ref old (err (failed cause)) w =
      (w, operation_error t.get_over cause secret_operation ∷ [])
  remove_secret t id secret_ref old (err not_found) w = remove_state t id secret_ref none old w
  remove_secret t id secret_ref old (ok url) w =
      after_delete t id secret_ref url old (delete_secret t.delete secret_ref w)

  unfoldable pub remove_loaded : RemoveTrace → Bytes → Result StoreErr Snapshot → World → Removed
  unfolding remove_secret
  remove_loaded t id (err e) w =
      (w, operation_error t.load_over (store_cause e) state_operation ∷ [])
  remove_loaded t id (ok s) w = elim (find_subscription id s.subscriptions) [
    | none ↦ (w, subscription_not_found ∷ [])
    | some c ↦
        let w' = t.meanwhile w in
        remove_secret t id c.secret_ref s.endpoints (get_secret t.get_error c.secret_ref w') w'
  ]

  -- RemoveSubscription
  unfoldable pub remove_subscription : RemoveTrace → Bytes → World → Removed
  unfolding remove_loaded load
  remove_subscription t id w =
      if not (valid_identifier id)
      then (w, invalid_input ∷ [])
      else remove_loaded t id (load lib encode_error t.load w.store) w
