-- ===== src/App/Tokens.antt =====
-- internal/app/service.go: the refresh tokens of refreshes that overlap.
use tui_box.Prelude.{
  ◌≡◌, ◌≢◌, ap, ◌⊎◌, inl, inr, refl, true, not, Option, some, List, [], ◌∷◌, Bytes, same, same_iff,
  Option-cases, if_both, Bool-cases, ℕ, arith,
}
use tui_box.Domain.Checks.{Library}
use tui_box.Domain.Types.{Endpoint}
use tui_box.Domain.Subscription.{Subscription}
use tui_box.Store.Snapshot.{Snapshot}
use tui_box.Store.File.{Edit, reject, accept}
use tui_box.Subscription.Library.{Digests}
use tui_box.App.Errors.{Err, subscription_not_found, refresh_stale}
use tui_box.Subscription.Parser.{Parsed}
use tui_box.App.Edits.{
  find_subscription, change_subscription, still_ours, mark_refresh, record_failure, commit_refresh,
}

-- The errors after which a refresh writes nothing.
abbrev pub IsLost : Err → Type 0
IsLost e = (e ≡ subscription_not_found) ⊎ (e ≡ refresh_stale)

find_change :
    (id : Bytes) (f : Subscription → Subscription) (l : List Subscription) (c : Subscription)
    → ((x : Subscription) → (f x).id ≡ x.id)
    → find_subscription id l ≡ some c
    → find_subscription id (change_subscription id f l) ≡ some (f c)
unfolding find_subscription change_subscription
find_change id f [] c keeps h = ground arith
find_change id f (x ∷ rest) c keeps h = elim (Bool-cases (same x.id id)) [
  | inl it ↦
      let there : same (f x).id id ≡ true = rw (keeps x) it in
      let c_is : x ≡ c = ground arith in rw (it, find_subscription, there, c_is) refl
  | inr other ↦ ground (arith, find_change id f rest c keeps)
]

abbrev IsLostOr : Option Err → Type 0
IsLostOr o = (e : Err) × (o ≡ some e) × IsLost e

still_ours-other :
    (c : Subscription) (secret_ref token : Bytes)
    → c.refresh_token ≢ token
    → IsLostOr (still_ours (some c) secret_ref token)
unfolding still_ours
still_ours-other c secret_ref token other =
    if_both IsLostOr (not (same c.secret_ref secret_ref))
      (λ moved. (subscription_not_found, refl, inl refl))
      (λ ours.
        if_both IsLostOr (not (same c.refresh_token token))
          (λ stale. (refresh_stale, refl, inr refl))
          (λ same_one. absurd (other ((same_iff c.refresh_token token).0 (ground arith)))))

-- The subscriptions of the snapshot that a callback returns.
abbrev kept_by : {A : Type 0} → Edit Err A → List Subscription
kept_by (reject e) = []
kept_by (accept s a) = s.subscriptions

-- Another refresh has begun: the state holds its token.
marked_over :
    (id token' : Bytes) (s s' : Snapshot) (r : Subscription × List Endpoint)
    → mark_refresh id token' s ≡ accept s' r
    → (c : Subscription) × (find_subscription id s'.subscriptions
        ≡ some (record c { refresh_token = token' }))
unfolding mark_refresh
marked_over id token' s s' r h = elim (Option-cases (find_subscription id s.subscriptions)) [
  | inl missing ↦ ground arith
  | inr (c, found) ↦
      let f : Subscription → Subscription = λ x. record x { refresh_token = token' } in
      let now_is : change_subscription id f s.subscriptions ≡ s'.subscriptions =
        ap kept_by (rw (found, mark_refresh) at h) in
      (c, rw (← now_is) (find_change id f s.subscriptions c (λ x. refl) found))
]

-- The two callbacks with which a refresh ends, on a snapshot whose token is another one.
abbrev pub BothLost :
    Library → Digests → Bytes → Bytes → Bytes → Bytes → ℕ → Parsed → Snapshot → Type 0
BothLost lib d candidate id secret_ref token now parsed s =
    (e : Err) × IsLost e
    × (commit_refresh lib d candidate id secret_ref token now parsed s ≡ reject e)
    × (record_failure id secret_ref token s ≡ reject e)

-- Once another refresh of the subscription has stored its token, a refresh with a different token can
-- no longer write its endpoints or its failure: both callbacks reject the snapshot with the same
-- error, ErrSubscriptionNotFound or errRefreshStale.
pub superseded_refresh_lost :
    (lib : Library) (d : Digests) (candidate id secret_ref token token' : Bytes) (now : ℕ)
    (parsed : Parsed) (s s' : Snapshot) (r : Subscription × List Endpoint)
    → token' ≢ token
    → mark_refresh id token' s ≡ accept s' r
    → BothLost lib d candidate id secret_ref token now parsed s'
unfolding commit_refresh record_failure
superseded_refresh_lost lib d candidate id secret_ref token token' now parsed s s' r other h =
    let (c, found) = marked_over id token' s s' r h in
    let (e, rejects, lost) =
      still_ours-other (record c { refresh_token = token' }) secret_ref token other in
    (e, lost, rw (found, rejects, commit_refresh) refl, rw (found, rejects, record_failure) refl)
