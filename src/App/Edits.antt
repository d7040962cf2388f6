-- ===== src/App/Edits.antt =====
-- internal/app/service.go: the callbacks of Update, and the lookups that they share.
use tui_box.Prelude.{
  ℕ, Bool, not, Option, none, some, List, [], ◌∷◌, ◌++◌, Bytes, bytes, same, length, if◌then◌else◌,
}
use tui_box.Prelude.Results.{Result, ok, err}
use tui_box.Domain.Checks.{Library}
use tui_box.Domain.Types.{Endpoint}
use tui_box.Domain.Subscription.{Subscription, Format}
use tui_box.Store.Snapshot.{Snapshot}
use tui_box.Store.File.{Edit, reject, accept, others}
use tui_box.Subscription.Library.{Digests}
use tui_box.Subscription.Parser.{Warning, Parsed}
use tui_box.App.Errors.{Err, invalid_input, subscription_not_found, refresh_stale}
use tui_box.App.Identity.{prepare_endpoints, rekey_from, ensure_endpoint_identity_key}

-- safeWarnings; the message says what the code says.
unfoldable pub safe_warnings : Bytes → List Warning → List Warning
safe_warnings id [] = []
safe_warnings id (w ∷ rest) =
    record {
      subscription_id = id;
      entry = w.entry;
      code =
          if same w.code (bytes "entry_too_large")
          then bytes "entry_too_large"
          else bytes "entry_skipped";
    }
    ∷ safe_warnings id rest

-- findSubscription, by subscriptionIndex.
unfoldable pub find_subscription : Bytes → List Subscription → Option Subscription
find_subscription id [] = none
find_subscription id (s ∷ rest) =
    let later = find_subscription id rest in if same s.id id then some s else later

-- An assignment to the fields of snapshot.Subscriptions[index].
unfoldable pub change_subscription :
    Bytes → (Subscription → Subscription) → List Subscription → List Subscription
change_subscription id f [] = []
change_subscription id f (s ∷ rest) =
    let later = change_subscription id f rest in if same s.id id then f s ∷ rest else s ∷ later

-- The removal of snapshot.Subscriptions[index].
unfoldable pub drop_subscription : Bytes → List Subscription → List Subscription
drop_subscription id [] = []
drop_subscription id (s ∷ rest) =
    let later = drop_subscription id rest in if same s.id id then rest else s ∷ later

-- findEndpoint
unfoldable pub find_endpoint : Bytes → List Endpoint → Option Endpoint
find_endpoint id [] = none
find_endpoint id (e ∷ rest) =
    let later = find_endpoint id rest in if same e.id id then some e else later

-- The first callback of refreshSubscription.
unfoldable pub mark_refresh : Bytes → Bytes → Snapshot → Edit Err (Subscription × List Endpoint)
mark_refresh id token s = elim (find_subscription id s.subscriptions) [
  | none ↦ reject subscription_not_found
  | some c ↦
      accept
        (record s {
          subscriptions =
              change_subscription id (λ x. record x { refresh_token = token }) s.subscriptions;
        })
        (record c { refresh_token = token }, s.endpoints)
]

-- The tests with which the callbacks of a running refresh begin.
unfoldable pub still_ours : Option Subscription → Bytes → Bytes → Option Err
still_ours none secret_ref token = some subscription_not_found
still_ours (some c) secret_ref token =
    if not (same c.secret_ref secret_ref)
    then some subscription_not_found
    else if not (same c.refresh_token token)
    then some refresh_stale
    else none

-- The callback of recordRefreshFailure.
unfoldable pub record_failure : Bytes → Bytes → Bytes → Snapshot → Edit Err (Unit {0})
unfolding still_ours
record_failure id secret_ref token s =
    elim (still_ours (find_subscription id s.subscriptions) secret_ref token) [
      | some e ↦ reject e
      | none ↦
          accept
            (record s {
              subscriptions =
                  change_subscription id
                    (λ x. record x {
                      last_error = bytes "subscription refresh failed";
                      refresh_token = [];
                    })
                    s.subscriptions;
            })
            tt
    ]

-- The callback of RemoveSubscription.
unfoldable pub remove_edit : Bytes → Bytes → Snapshot → Edit Err (Unit {0})
remove_edit id secret_ref s = elim (find_subscription id s.subscriptions) [
  | none ↦ reject subscription_not_found
  | some c ↦
      if not (same c.secret_ref secret_ref)
      then reject subscription_not_found
      else accept
          (record s {
            subscriptions = drop_subscription id s.subscriptions;
            endpoints = others id s.endpoints;
          })
          tt
]

-- The callback of SetTelemetry.
unfoldable pub telemetry_edit : Bool → Snapshot → Edit Err (Unit {0})
telemetry_edit enabled s =
    accept (record s { settings = record (s.settings) { telemetry_enabled = enabled } }) tt

-- `candidate` is the service's identityKeyCandidate.
module _ (lib : Library) (d : Digests) (candidate : Bytes) where
  -- The endpoints that are stored for a subscription, with the key that they got.
  unfoldable pub with_prepared :
      Bytes → List Endpoint → Snapshot → Result Err (Snapshot × List Endpoint)
  with_prepared id es s = elim (ensure_endpoint_identity_key lib d candidate s) [
    | err e ↦ err e
    | ok (s', key) ↦ elim (prepare_endpoints lib d key id es) [
      | err e ↦ err e
      | ok prepared ↦ ok (s', prepared)
    ]
  ]

  abbrev pub refreshed : Format → ℕ → Subscription → Subscription
  refreshed format now x = record x {
    format = format;
    last_refresh = some now;
    last_error = [];
    refresh_token = [];
  }

  -- The second callback of refreshSubscription.
  unfoldable pub commit_refresh : Bytes → Bytes → Bytes → ℕ → Parsed → Snapshot → Edit Err ℕ
  unfolding still_ours with_prepared
  commit_refresh id secret_ref token now parsed s =
      elim (still_ours (find_subscription id s.subscriptions) secret_ref token) [
        | some e ↦ reject e
        | none ↦ elim (with_prepared id parsed.endpoints s) [
          | err e ↦ reject e
          | ok (s', prepared) ↦
              accept
                (record s' {
                  endpoints = others id s'.endpoints ++ prepared;
                  subscriptions =
                      change_subscription id (refreshed parsed.format now) s'.subscriptions;
                })
                (length prepared)
        ]
      ]

  -- The callback of AddSubscription.
  unfoldable pub add_edit : Subscription → Parsed → Snapshot → Edit Err ℕ
  unfolding with_prepared
  add_edit sub parsed s = elim (find_subscription sub.id s.subscriptions) [
    | some c ↦ reject invalid_input
    | none ↦ elim (with_prepared sub.id parsed.endpoints s) [
      | err e ↦ reject e
      | ok (s', prepared) ↦
          accept
            (record s' {
              subscriptions = s'.subscriptions ++ sub ∷ [];
              endpoints = s'.endpoints ++ prepared;
            })
            (length prepared)
    ]
  ]

  -- The callback of loadEndpointSnapshot.
  unfoldable pub rekey_edit : Snapshot → Edit Err (Unit {0})
  rekey_edit s = elim (ensure_endpoint_identity_key lib d candidate s) [
    | err e ↦ reject e
    | ok (s', key) ↦ elim (rekey_from lib d key [] s'.endpoints) [
      | err e ↦ reject e
      | ok rekeyed ↦ accept (record s' { endpoints = rekeyed }) tt
    ]
  ]
