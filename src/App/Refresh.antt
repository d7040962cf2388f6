-- ===== src/App/Refresh.antt =====
-- internal/app/service.go: refreshSubscription, recordRefreshFailure and UpdateSubscriptions.
use tui_box.Prelude.{
  ℕ, Bool, true, false, not, ◌||◌, Option, none, some, List, [], ◌∷◌, Bytes, same, ◌==◌, length,
  if◌then◌else◌,
}
use tui_box.Prelude.Results.{Result, ok, err}
use tui_box.Domain.Checks.{Library}
use tui_box.Domain.Types.{Endpoint}
use tui_box.Domain.Subscription.{Subscription, Format, is_known_format}
use tui_box.Latency.Result.{ContextErr, Result as Measured}
use tui_box.Store.Snapshot.{Snapshot}
use tui_box.Store.File.{StoreErr, Access, Failure, of_store, of_edit, Updated, update}
use tui_box.Subscription.Library.{Digests}
use tui_box.App.Errors.{
  Err, subscription_not_found, state_operation, refresh_failed, refresh_stale, context, store_cause,
  context_error, operation_error, valid_identifier,
}
use tui_box.App.Identity.{parsed_endpoints_ok}
use tui_box.App.World.{World, Others, SecretErr, not_found, failed, get_secret, erase}
use tui_box.Subscription.Parser.{Warning, Parsed}
use tui_box.App.Edits.{safe_warnings, mark_refresh, record_failure, commit_refresh}

-- RefreshResult; `failed` stands for the message of ErrRefreshFailed in its field Error.
pub record RefreshResult : Type 0 where
  pub subscription_id : Bytes
  pub format : Option Format
  pub refreshed_at : Option ℕ
  pub server_count : ℕ
  pub warnings : List Warning
  pub has_failed : Bool

-- What a refresh observes, in order: the token that was generated, the stores, ctx.Err() where the
-- code asks for it, the secret store, the fetcher and the parser, the clock, and what others do
-- while it waits.
pub record RefreshTrace : Type 0 where
  pub token : Option Bytes
  pub mark : Access
  pub mark_over : Option ContextErr
  pub meanwhile : Others
  pub get_error : Option (Option ContextErr)
  pub fetched : Result (Option ContextErr) Bytes
  pub parsed : Option Parsed
  pub wait_over : Option ContextErr
  pub parse_over : Option ContextErr
  pub now : ℕ
  pub during : Others
  pub commit : Access
  pub commit_over : Option ContextErr
  pub before_failure : Others
  pub failure : Access
  pub failure_over : Option ContextErr

abbrev pub in_store : {A : Type 0} → World → Updated Err A → World × Result (Failure Err) A
in_store w (store, r) = (record w { store = store }, r)

-- The mapping of the errors of Update, with the errors that pass unchanged.
abbrev pub update_error : (Err → Bool) → Option ContextErr → Failure Err → Err
update_error passes over (of_store e) = operation_error over (store_cause e) state_operation
update_error passes over (of_edit e) =
    if passes e then e else operation_error over none state_operation

abbrev pub is_lost : Err → Bool
is_lost subscription_not_found = true
is_lost refresh_stale = true
is_lost _ = false

abbrev pub is_not_found : Err → Bool
is_not_found subscription_not_found = true
is_not_found _ = false

abbrev pub is_refresh_failed : Failure Err → Bool
is_refresh_failed (of_edit refresh_failed) = true
is_refresh_failed _ = false

-- clearLatenciesForSubscription
unfoldable pub clear_latencies :
    Bytes → List Endpoint → List (Bytes × Measured) → List (Bytes × Measured)
clear_latencies id [] m = m
clear_latencies id (e ∷ rest) m =
    clear_latencies id rest (if same e.subscription_id id then erase e.id m else m)

module _ (lib : Library) (encode_error : Snapshot → Option StoreErr) (d : Digests)
    (candidate : Bytes) where
  abbrev pub Refreshed : Type 0
  Refreshed = World × Result Err RefreshResult

  abbrev pub failure_result :
      Bytes → Option ContextErr → World × Result (Failure Err) (Unit {0}) → Refreshed
  failure_result id over (w, ok u) = (
    w,
    ok (record {
      subscription_id = id;
      format = none;
      refreshed_at = none;
      server_count = 0;
      warnings = [];
      has_failed = true;
    }),
  )
  failure_result id over (w, err e) = (w, err (update_error is_lost over e))

  -- recordRefreshFailure
  unfoldable pub record_refresh_failure : RefreshTrace → Bytes → Bytes → Bytes → World → Refreshed
  unfolding update
  record_refresh_failure t id secret_ref token w =
      let w' = t.before_failure w in
      failure_result id t.failure_over (
        in_store w'
          (update lib encode_error t.failure (record_failure id secret_ref token) w'.store))

  -- A failure of the secret store or of the fetcher.
  abbrev pub failed_wait :
      RefreshTrace → Option ContextErr → Bytes → Bytes → Bytes → World → Refreshed
  failed_wait t cause id secret_ref token w = elim (context_error t.wait_over cause) [
    | some c ↦ (w, err (context c))
    | none ↦ record_refresh_failure t id secret_ref token w
  ]

  -- The second Update has returned.
  unfoldable pub committed :
      RefreshTrace
      → Bytes
      → Bytes
      → Bytes
      → List Endpoint
      → Parsed
      → World × Result (Failure Err) ℕ
      → Refreshed
  unfolding record_refresh_failure clear_latencies
  committed t id secret_ref token old parsed (w, ok count) = (
    record w { latencies = clear_latencies id old w.latencies },
    ok (record {
      subscription_id = id;
      format = some parsed.format;
      refreshed_at = some t.now;
      server_count = count;
      warnings = safe_warnings id parsed.warnings;
      has_failed = false;
    }),
  )
  committed t id secret_ref token old parsed (w, err e) =
      if is_refresh_failed e
      then record_refresh_failure t id secret_ref token w
      else (w, err (update_error is_lost t.commit_over e))

  -- The document was parsed.
  unfoldable pub parsed_stage :
      RefreshTrace → Bytes → Bytes → Bytes → List Endpoint → Option Parsed → World → Refreshed
  unfolding update committed
  parsed_stage t id secret_ref token old none w = record_refresh_failure t id secret_ref token w
  parsed_stage t id secret_ref token old (some parsed) w =
      if length parsed.endpoints == 0
        || not (is_known_format parsed.format)
        || not (parsed_endpoints_ok lib d id [] parsed.endpoints)
      then record_refresh_failure t id secret_ref token w
      else elim t.parse_over [
        | some c ↦ (w, err (context c))
        | none ↦
            let w' = t.during w in
            committed t id secret_ref token old parsed (
              in_store w' (
                update lib encode_error t.commit
                  (commit_refresh lib d candidate id secret_ref token t.now parsed) w'.store))
      ]

  unfoldable pub fetched_stage :
      RefreshTrace
      → Bytes
      → Bytes
      → Bytes
      → List Endpoint
      → Result (Option ContextErr) Bytes
      → World
      → Refreshed
  unfolding parsed_stage
  fetched_stage t id secret_ref token old (err cause) w = failed_wait t cause id secret_ref token w
  fetched_stage t id secret_ref token old (ok document) w =
      parsed_stage t id secret_ref token old t.parsed w

  unfoldable pub secret_stage :
      RefreshTrace
      → Bytes
      → Bytes
      → Bytes
      → List Endpoint
      → Result SecretErr Bytes
      → World
      → Refreshed
  unfolding fetched_stage
  secret_stage t id secret_ref token old (err not_found) w =
      failed_wait t none id secret_ref token w
  secret_stage t id secret_ref token old (err (failed cause)) w =
      failed_wait t cause id secret_ref token w
  secret_stage t id secret_ref token old (ok url) w =
      fetched_stage t id secret_ref token old t.fetched w

  -- The first Update has returned.
  unfoldable pub marked :
      RefreshTrace
      → Bytes
      → Bytes
      → World × Result (Failure Err) (Subscription × List Endpoint)
      → Refreshed
  unfolding secret_stage
  marked t id token (w, err e) = (w, err (update_error is_not_found t.mark_over e))
  marked t id token (w, ok (sub, old)) =
      let w' = t.meanwhile w in
      secret_stage t id sub.secret_ref token old (get_secret t.get_error sub.secret_ref w') w'

  unfoldable pub with_token : RefreshTrace → Bytes → Option Bytes → World → Refreshed
  unfolding marked update mark_refresh
  with_token t id none w = (w, err refresh_failed)
  with_token t id (some token) w =
      if not (valid_identifier token)
      then (w, err refresh_failed)
      else marked t id token
          (in_store w (update lib encode_error t.mark (mark_refresh id token) w.store))

  -- refreshSubscription
  unfoldable pub refresh_subscription : RefreshTrace → Bytes → World → Refreshed
  unfolding with_token
  refresh_subscription t id w = with_token t id t.token w

  abbrev pub Refreshes : Type 0
  Refreshes = World × List RefreshResult × Option Err

  -- The loop of UpdateSubscriptions, over the subscriptions' IDs, each with ctx.Err() before its
  -- refresh and what the refresh observes.
  unfoldable pub refresh_each : List (Bytes × Option ContextErr × RefreshTrace) → World → Refreshes
  unfolding refresh_subscription
  refresh_each [] w = (w, [], none)
  refresh_each ((id, over, t) ∷ rest) w =
      let (w', r) = refresh_subscription t id w in
      let (w'', results, e) = refresh_each rest w' in
      elim over [
        | some c ↦ (w, [], some (context c))
        | none ↦ elim r [ err e' ↦ (w', [], some e') | ok x ↦ (w'', x ∷ results, e) ]
      ]
