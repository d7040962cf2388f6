-- ===== src/App/Add.antt =====
-- internal/app/service.go: AddSubscription, which takes the secret back when the state is not saved.
use tui_box.Prelude.{
  ℕ, Bool, true, false, not, ◌||◌, Option, none, some, List, [], ◌∷◌, ◌++◌, Bytes, bytes, same, leb,
  ◌==◌, length, if◌then◌else◌,
}
use tui_box.Prelude.Int.{pos}
use tui_box.Prelude.Results.{Result, ok, err}
use tui_box.TerminalText.{is_blank}
use tui_box.TerminalText.Utf8.{valid_string}
use tui_box.Domain.Checks.{Library}
use tui_box.Domain.Endpoint.{max_name_length}
use tui_box.Domain.Subscription.{Subscription, is_known_format}
use tui_box.Latency.Result.{ContextErr}
use tui_box.Store.Snapshot.{Snapshot}
use tui_box.Store.File.{StoreErr, Access, Failure, of_store, of_edit, update, load}
use tui_box.Subscription.Library.{Digests}
use tui_box.App.Errors.{
  Err, invalid_input, state_operation, secret_operation, refresh_failed, context, store_cause,
  operation_error, valid_text, valid_identifier,
}
use tui_box.App.Identity.{parsed_endpoints_ok}
use tui_box.App.World.{
  World, Others, SecretErr, not_found, failed, get_secret, set_secret, delete_secret, WriteSecret,
}
use tui_box.Subscription.Parser.{Parsed}
use tui_box.App.Edits.{find_subscription, add_edit}
use tui_box.App.Refresh.{in_store}

-- What AddSubscription observes, in order.
pub record AddTrace : Type 0 where
  pub id : Option Bytes
  pub get_error : Option (Option ContextErr)
  pub get_over : Option ContextErr
  pub fetched : Result (Option ContextErr) Bytes
  pub fetch_over : Option ContextErr
  pub parse_error : Option (Option ContextErr)
  pub parsed : Parsed
  pub parse_over : Option ContextErr
  pub parsed_over : Option ContextErr
  pub meanwhile : Others
  pub set : WriteSecret
  pub set_over : Option ContextErr
  pub now : ℕ
  pub before_update : Others
  pub update : Access
  pub update_over : Option ContextErr
  pub before_load : Others
  pub load : Access
  pub before_delete : Others
  pub delete : WriteSecret

-- The subscription and the number of its servers, of which the view is made.
abbrev pub Added : Type 0
Added = World × Result (List Err) (Subscription × ℕ)

abbrev pub secret_ref_of : Bytes → Bytes
secret_ref_of id = bytes "subscription-" ++ id

-- The mapping of the error of Update.
abbrev pub primary_error : Option ContextErr → Failure Err → Err
primary_error over (of_store e) = operation_error over (store_cause e) state_operation
primary_error over (of_edit invalid_input) = invalid_input
primary_error over (of_edit refresh_failed) = refresh_failed
primary_error over (of_edit e) = operation_error over none state_operation

-- currentSubscription.SecretRef == secretRef, where it is found.
abbrev pub owns_secret : Bytes → Option Subscription → Bool
owns_secret secret_ref none = false
owns_secret secret_ref (some s) = same s.secret_ref secret_ref

abbrev pub deleted : Err → World × Option (Option ContextErr) → Added
deleted primary (w, none) = (w, err (primary ∷ []))
deleted primary (w, some cause) = (w, err (primary ∷ secret_operation ∷ []))

module _ (lib : Library) (encode_error : Snapshot → Option StoreErr) (d : Digests)
    (candidate : Bytes) where
  -- The current state was loaded again, to see whether the subscription is in it.
  unfoldable pub compensate_loaded :
      AddTrace → Bytes → Bytes → Err → Result StoreErr Snapshot → World → Added
  compensate_loaded t id secret_ref primary (err e) w = (w, err (primary ∷ secret_operation ∷ []))
  compensate_loaded t id secret_ref primary (ok current) w =
      if owns_secret secret_ref (find_subscription id current.subscriptions)
      then (w, err (primary ∷ []))
      else deleted primary (delete_secret t.delete secret_ref (t.before_delete w))

  -- The update failed.
  unfoldable pub compensate : AddTrace → Bytes → Bytes → Err → World → Added
  unfolding compensate_loaded load
  compensate t id secret_ref primary w =
      let w' = t.before_load w in
      compensate_loaded t id secret_ref primary (load lib encode_error t.load w'.store) w'

  unfoldable pub add_updated : AddTrace → Subscription → World × Result (Failure Err) ℕ → Added
  unfolding compensate
  add_updated t sub (w, ok count) = (w, ok (sub, count))
  add_updated t sub (w, err e) =
      compensate t sub.id sub.secret_ref (primary_error t.update_over e) w

  abbrev pub new_subscription : AddTrace → Bytes → Bytes → Subscription
  new_subscription t id name = record {
    id = id;
    name = name;
    secret_ref = secret_ref_of id;
    format = t.parsed.format;
    refresh_interval_seconds = pos 0;
    last_refresh = some t.now;
    last_error = [];
    refresh_token = [];
  }

  -- The secret was written.
  unfoldable pub add_stored : AddTrace → Bytes → Bytes → World × Option (Option ContextErr) → Added
  unfolding add_updated update add_edit
  add_stored t id name (w, some cause) =
      (w, err (operation_error t.set_over cause secret_operation ∷ []))
  add_stored t id name (w, none) =
      let w' = t.before_update w in
      add_updated t (new_subscription t id name) (
        in_store w' (
          update lib encode_error t.update
            (add_edit lib d candidate (new_subscription t id name) t.parsed) w'.store))

  -- The document was fetched.
  unfoldable pub add_parsed : AddTrace → Bytes → Bytes → Bytes → World → Added
  unfolding add_stored
  add_parsed t id name url w = elim t.parse_error [
    | some cause ↦ (w, err (operation_error t.parse_over cause refresh_failed ∷ []))
    | none ↦
        if length t.parsed.endpoints == 0
          || not (is_known_format t.parsed.format)
          || not (parsed_endpoints_ok lib d id [] t.parsed.endpoints)
        then (w, err (refresh_failed ∷ []))
        else elim t.parsed_over [
          | some c ↦ (w, err (context c ∷ []))
          | none ↦ add_stored t id name (set_secret t.set (secret_ref_of id) url (t.meanwhile w))
        ]
  ]

  unfoldable pub add_fetched :
      AddTrace → Bytes → Bytes → Bytes → Result (Option ContextErr) Bytes → World → Added
  unfolding add_parsed
  add_fetched t id name url (err cause) w =
      (w, err (operation_error t.fetch_over cause refresh_failed ∷ []))
  add_fetched t id name url (ok document) w = add_parsed t id name url w

  -- The secret's name must be free.
  unfoldable pub add_named :
      AddTrace → Bytes → Bytes → Bytes → Result SecretErr Bytes → World → Added
  unfolding add_fetched
  add_named t id name url (ok old) w = (w, err (invalid_input ∷ []))
  add_named t id name url (err (failed cause)) w =
      (w, err (operation_error t.get_over cause secret_operation ∷ []))
  add_named t id name url (err not_found) w = add_fetched t id name url t.fetched w

  unfoldable pub add_with_id : AddTrace → Bytes → Bytes → Option Bytes → World → Added
  unfolding add_named
  add_with_id t name url none w = (w, err (invalid_input ∷ []))
  add_with_id t name url (some id) w =
      if not (valid_identifier id) || not (leb (length (secret_ref_of id)) 128)
      then (w, err (invalid_input ∷ []))
      else add_named t id name url (get_secret t.get_error (secret_ref_of id) w) w

  -- AddSubscription
  unfoldable pub add_subscription : AddTrace → Bytes → Bytes → World → Added
  unfolding add_with_id
  add_subscription t name url w =
      if not (valid_text lib.tables name max_name_length true)
        || is_blank url
        || not (valid_string url)
      then (w, err (invalid_input ∷ []))
      else add_with_id t name url t.id w
