-- ===== src/App/Edited.antt =====
-- internal/app/service.go: what the callbacks of Update make of a snapshot.
use tui_box.Prelude.{
  ℕ, ◌≡◌, ap, sym, inl, inr, refl, ◌∙◌, false, Option, none, some, List, [], ◌∷◌, ◌++◌, map, Bytes,
  bytes, same, same_iff, Bool-cases, Option-cases, arith,
}
use tui_box.Domain.Types.{Endpoint}
use tui_box.Domain.Subscription.{Subscription}
use tui_box.Store.Snapshot.{Snapshot}
use tui_box.Store.File.{Edit, reject, accept, others}
use tui_box.Store.Accepted.{Distinct}
use tui_box.App.Errors.{Err}
use tui_box.App.Edits.{find_subscription, still_ours, mark_refresh, record_failure, remove_edit}
use tui_box.App.Entries.{
  IsAt, find-IsAt, change-IsAt, drop-IsAt, find-drop, has_endpoint, none-others,
}

-- A callback accepts with this snapshot and result.
abbrev pub Gives : {A : Type 0} → Edit Err A → Snapshot → A → Type 0
Gives o s a = o ≡ accept s a

abbrev pub subscriptions_by : {A : Type 0} → Edit Err A → List Subscription
subscriptions_by (reject e) = []
subscriptions_by (accept s a) = s.subscriptions

abbrev pub endpoints_by : {A : Type 0} → Edit Err A → List Endpoint
endpoints_by (reject e) = []
endpoints_by (accept s a) = s.endpoints

abbrev pub result_by : {A : Type 0} → A → Edit Err A → A
result_by a (reject e) = a
result_by a (accept s b) = b

-- The subscription has the secret and the token with which a refresh runs.
abbrev pub IsOurs : Bytes → Bytes → Subscription → Type 0
IsOurs secret_ref token c = (c.secret_ref ≡ secret_ref) × (c.refresh_token ≡ token)

-- After the first callback of a refresh: the subscription has the token, and is returned with the
-- endpoints, which are as they were.
pub record IsMarked (id token : Bytes) (s s' : Snapshot) (r : Subscription × List Endpoint)
    : Type 0 where
  pub old : Subscription
  pub at : IsAt id s.subscriptions old
  pub subscriptions :
      s'.subscriptions ≡ at.before ++ record old { refresh_token = token } ∷ at.after
  pub endpoints : s'.endpoints ≡ s.endpoints
  pub returned : r ≡ (record old { refresh_token = token }, s.endpoints)

-- After a failure: the subscription has the error and no token; the other subscriptions and the
-- endpoints are as they were.
pub record IsNoted (id secret_ref token : Bytes) (s s' : Snapshot) : Type 0 where
  pub old : Subscription
  pub ours : IsOurs secret_ref token old
  pub at : IsAt id s.subscriptions old
  pub subscriptions :
      s'.subscriptions
      ≡ at.before
        ++ record old { last_error = bytes "subscription refresh failed"; refresh_token = [] }
          ∷ at.after
  pub endpoints : s'.endpoints ≡ s.endpoints

-- After a removal: the subscription is not in the list, none of its endpoints is left, and the other
-- subscriptions and endpoints are as they were.
pub record IsDropped (id secret_ref : Bytes) (s s' : Snapshot) : Type 0 where
  pub old : Subscription
  pub owner : old.secret_ref ≡ secret_ref
  pub at : IsAt id s.subscriptions old
  pub subscriptions : s'.subscriptions ≡ at.before ++ at.after
  pub gone : find_subscription id s'.subscriptions ≡ none
  pub endpoints : s'.endpoints ≡ others id s.endpoints
  pub none_left : has_endpoint id s'.endpoints ≡ false

pub mark_refresh-IsMarked :
    (id token : Bytes) (s s' : Snapshot) (revision : ℕ) (r : Subscription × List Endpoint)
    → Gives (mark_refresh id token s) s' r
    → IsMarked id token s (record s' { revision = revision }) r
unfolding mark_refresh
mark_refresh-IsMarked id token s s' revision r h =
    elim (Option-cases (find_subscription id s.subscriptions)) [
      | inl missing ↦ absurd (ground arith)
      | inr (c, found) ↦
          let at = find-IsAt id s.subscriptions c found in
          let with_token : Subscription → Subscription = λ x. record x { refresh_token = token } in
          let accepted = rw (found, mark_refresh) at h in
          record {
            old = c;
            at = at;
            subscriptions =
                sym (ap subscriptions_by accepted) ∙ change-IsAt id s.subscriptions c with_token at;
            endpoints = sym (ap endpoints_by accepted);
            returned =
                sym (ap (result_by (record c { refresh_token = token }, s.endpoints)) accepted);
          }
    ]

still_ours-IsOurs :
    (c : Subscription) (secret_ref token : Bytes)
    → still_ours (some c) secret_ref token ≡ none
    → IsOurs secret_ref token c
unfolding still_ours
still_ours-IsOurs c secret_ref token h =
    ground (arith, (same_iff c.secret_ref secret_ref).0, (same_iff c.refresh_token token).0)

-- The subscription that passes the tests.
pub found-IsOurs :
    (o : Option Subscription) (secret_ref token : Bytes)
    → still_ours o secret_ref token ≡ none
    → (c : Subscription) × (o ≡ some c) × IsOurs secret_ref token c
unfolding still_ours
found-IsOurs none secret_ref token h = ground arith
found-IsOurs (some c) secret_ref token h = (c, refl, still_ours-IsOurs c secret_ref token h)

pub record_failure-IsNoted :
    (id secret_ref token : Bytes) (s s' : Snapshot) (r : ℕ)
    → Gives (record_failure id secret_ref token s) s' tt
    → IsNoted id secret_ref token s (record s' { revision = r })
unfolding record_failure
record_failure-IsNoted id secret_ref token s s' r h =
    elim (Option-cases (still_ours (find_subscription id s.subscriptions) secret_ref token)) [
      | inr (e, refused) ↦ absurd (ground arith)
      | inl passed ↦
          let (c, found, ours) =
            found-IsOurs (find_subscription id s.subscriptions) secret_ref token passed in
          let at = find-IsAt id s.subscriptions c found in
          let noted : Subscription → Subscription = λ x. record x {
            last_error = bytes "subscription refresh failed";
            refresh_token = [];
          } in
          let accepted = rw (passed, record_failure) at h in
          record {
            old = c;
            ours = ours;
            at = at;
            subscriptions =
                sym (ap subscriptions_by accepted) ∙ change-IsAt id s.subscriptions c noted at;
            endpoints = sym (ap endpoints_by accepted);
          }
    ]

pub remove_edit-IsDropped :
    (id secret_ref : Bytes) (s s' : Snapshot) (r : ℕ)
    → Distinct (map (λ x. x.id) s.subscriptions)
    → Gives (remove_edit id secret_ref s) s' tt
    → IsDropped id secret_ref s (record s' { revision = r })
unfolding remove_edit
remove_edit-IsDropped id secret_ref s s' r distinct h =
    elim (Option-cases (find_subscription id s.subscriptions)) [
      | inl missing ↦ absurd (ground arith)
      | inr (c, found) ↦ elim (Bool-cases (same c.secret_ref secret_ref)) [
        | inr moved ↦ absurd (ground arith)
        | inl ours ↦
            let at = find-IsAt id s.subscriptions c found in
            let accepted = rw (found, remove_edit, ours) at h in
            let dropped = sym (ap subscriptions_by accepted) in
            let now_is : s'.endpoints ≡ others id s.endpoints = sym (ap endpoints_by accepted) in
            record {
              old = c;
              owner = (same_iff c.secret_ref secret_ref).0 ours;
              at = at;
              subscriptions = dropped ∙ drop-IsAt id s.subscriptions c at;
              gone = ap (find_subscription id) dropped ∙ find-drop id s.subscriptions distinct;
              endpoints = now_is;
              none_left = rw now_is (none-others id s.endpoints);
            }
      ]
    ]
