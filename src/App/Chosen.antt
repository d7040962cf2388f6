-- ===== src/App/Chosen.antt =====
-- internal/app/service.go: the request that Connect sends to the daemon.
use tui_box.Prelude.{
  ◌≡◌, ◌≢◌, ◌⊎◌, inl, inr, ◌↔◌, refl, sym, ap, subst, true, false, not, ◌||◌, Option, none, some,
  List, [], ◌∷◌, Bytes, same, same_iff, all, All, all_iff, Bool-cases, if_both, option_both, arith,
}
use tui_box.Prelude.Results.{Result, ok, err}
use tui_box.Domain.Checks.{Library, Check, is_empty}
use tui_box.Domain.Types.{Endpoint, ConnectionMode, RouteMode, direct}
use tui_box.Domain.Endpoint.{validate}
use tui_box.Domain.Accepted.{IsValidEndpoint, validate_iff}
use tui_box.Latency.Result.{Result as Measured}
use tui_box.Latency.Best.{best, best-IsBest, IsBest}
use tui_box.Daemon.State.{SessionStatus}
use tui_box.Store.Snapshot.{Snapshot, is_ok}
use tui_box.Store.File.{StoreErr, Failure}
use tui_box.Subscription.Library.{Digests}
use tui_box.Rpc.Messages.{ConnectPayload}
use tui_box.App.Errors.{Err, valid_connection_mode, valid_route_mode, context_error}
use tui_box.App.World.{World}
use tui_box.App.Edits.{find_endpoint}
use tui_box.App.Latencies.{project_latency_results}
use tui_box.App.Servers.{
  ConnectTrace, auto_target, is_direct, Loaded, Connected, load_endpoint_snapshot, answer, send,
  send_endpoint, send_best, connect_loaded, connect,
}

-- The first endpoint with an ID.
abbrev pub IsFirst : Bytes → Endpoint → List Endpoint → Type 0
IsFirst id e es = (find_endpoint id es ≡ some e) × (e.id ≡ id)

find_endpoint-id :
    (id : Bytes) (es : List Endpoint) (e : Endpoint) → find_endpoint id es ≡ some e → e.id ≡ id
unfolding find_endpoint
find_endpoint-id id [] e h = ground arith
find_endpoint-id id (x ∷ rest) e h = elim (Bool-cases (same x.id id)) [
  | inl it ↦
      let e_is : x ≡ e = ground arith in subst (λ y. y.id ≡ id) e_is ((same_iff x.id id).0 it)
  | inr other ↦ find_endpoint-id id rest e (ground arith)
]

is_ok-none : (c : Check) → (is_ok c ≡ true) ↔ (c ≡ none)
is_ok-none none = (λ h. refl, λ h. refl)
is_ok-none (some e) = (λ h. ground arith, λ h. ground arith)

valid_one_iff :
    (lib : Library) (e : Endpoint) → (is_ok (validate lib e) ≡ true) ↔ IsValidEndpoint lib e
valid_one_iff lib e =
    let ok_iff = is_ok-none (validate lib e) in
    let valid_iff = validate_iff lib e in
    (λ h. valid_iff.0 (ok_iff.0 h), λ v. ok_iff.1 (valid_iff.1 v))

direct_route : (r : RouteMode) → is_direct r ≡ true → r ≡ direct
direct_route direct h = refl
direct_route RouteMode.unset h = ground arith
direct_route RouteMode.global h = ground arith
direct_route RouteMode.rule h = ground arith
direct_route (RouteMode.other s) h = ground arith

not_direct : (r : RouteMode) → r ≡ direct → is_direct r ≢ false
not_direct r h n = ground (arith, ap is_direct h)

not_bare : (s : Bytes) → s ≡ [] → is_empty s ≢ false
not_bare s h n = ground (arith, ap is_empty h)

module _ (lib : Library) (encode_error : Snapshot → Option StoreErr) (d : Digests)
    (candidate : Bytes) (t : ConnectTrace) (target : Bytes) (mode : ConnectionMode)
    (route : RouteMode) where
  -- The endpoint that the target stands for: the best that the checker reached, or the one that it
  -- names.
  abbrev pub IsTarget : Endpoint → List Endpoint → Type 0
  IsTarget e es =
      ((target ≡ auto_target)
        × ((b : Measured) × IsBest (some b) (project_latency_results es t.results)
            × IsFirst b.endpoint_id e es))
      ⊎ ((target ≢ auto_target) × IsFirst target e es)

  abbrev pub IsChosen : Option Endpoint → List Endpoint → Type 0
  IsChosen none es = ⊥
  IsChosen (some e) es = IsTarget e es

  -- The payload of a route that needs an endpoint.
  abbrev pub Sends : Option ConnectPayload → Snapshot → Type 0
  Sends none s = Unit
  Sends (some p) s =
      (p.mode ≡ mode)
      × (p.route ≡ route)
      × All (IsValidEndpoint lib) s.endpoints
      × IsChosen p.endpoint s.endpoints

  abbrev pub SendsLoaded : Result (Failure Err) Snapshot → Option ConnectPayload → Type 0
  SendsLoaded (err e) p = p ≡ none
  SendsLoaded (ok s) p = Sends p s

  -- If the daemon is sent something, the result is its answer; else it is an error.
  abbrev pub Answers : Option ConnectPayload → Result Err SessionStatus → Type 0
  Answers (some p) r = r ≡ answer t.daemon_over t.daemon
  Answers none r = (e : Err) × (r ≡ err e)

  -- What may be sent for a mode and a route that are valid.
  abbrev pub Fits : World → Option ConnectPayload → Type 0
  Fits w p =
      (p ≡ none)
      ⊎ ((route ≡ direct) × (p ≡ some (record { endpoint = none; mode = mode; route = route })))
      ⊎ ((route ≢ direct)
          × (target ≢ [])
          × SendsLoaded (load_endpoint_snapshot lib encode_error d candidate t.loaded w).1 p)

  abbrev pub ConnectOutcome : World → Connected → Type 0
  ConnectOutcome w (w', p, r) =
      Answers p r
      × Fits w p
      × (p ≢ none → (valid_connection_mode mode ≡ true) × (valid_route_mode route ≡ true))

  abbrev Good : Result (Failure Err) Snapshot → Connected → Type 0
  Good r (w', p, a) = Answers p a × SendsLoaded r p

  send_endpoint-Good :
      (s : Snapshot) (o : Option Endpoint) (w : World)
      → All (IsValidEndpoint lib) s.endpoints
      → ((e : Endpoint) → o ≡ some e → IsTarget e s.endpoints)
      → Good (ok s) (send_endpoint lib encode_error d candidate t mode route o w)
  unfolding send
  send_endpoint-Good s none w v chosen = ((_, refl), tt)
  send_endpoint-Good s (some e) w v chosen = (refl, (refl, refl, v, chosen e refl))

  send_best-Good :
      (s : Snapshot) (o : Option Measured) (w : World)
      → All (IsValidEndpoint lib) s.endpoints
      → target ≡ auto_target
      → IsBest o (project_latency_results s.endpoints t.results)
      → Good (ok s) (send_best lib encode_error d candidate t mode route s.endpoints o w)
  send_best-Good s none w v auto b =
      option_both (Good (ok s)) (context_error t.best_over none) ((_, refl), tt)
        (λ c. ((_, refl), tt))
  send_best-Good s (some b) w v auto is_best =
      send_endpoint-Good s (find_endpoint b.endpoint_id s.endpoints) w v (λ e found.
        inl (auto, (b, is_best, (found, find_endpoint-id b.endpoint_id s.endpoints e found))))

  connect_loaded-Good :
      (w : World) (r : Result (Failure Err) Snapshot)
      → Good r (connect_loaded lib encode_error d candidate t target mode route (w, r))
  unfolding connect_loaded
  connect_loaded-Good w (err e) = ((_, refl), refl)
  connect_loaded-Good w (ok s) =
      if_both (Good (ok s)) (not (all (λ e. is_ok (validate lib e)) s.endpoints))
        (λ bad. ((_, refl), tt))
        (λ good.
          let v =
            (all_iff (λ e. is_ok (validate lib e)) (valid_one_iff lib) s.endpoints).0
              (ground arith) in
          if_both (Good (ok s)) (same target auto_target)
            (λ auto.
              send_best-Good s (best (project_latency_results s.endpoints t.results)) _ v
                ((same_iff target auto_target).0 auto)
                (best-IsBest (project_latency_results s.endpoints t.results)))
            (λ named. send_endpoint-Good s (find_endpoint target s.endpoints) w v (λ e found. inr (
              (λ h. ground (arith, (same_iff target auto_target).1 h)),
              (found, find_endpoint-id target s.endpoints e found),
            ))))

  loaded_outcome :
      (w : World) (x : Loaded) (c : Connected)
      → (load_endpoint_snapshot lib encode_error d candidate t.loaded w).1 ≡ x.1
      → route ≢ direct
      → target ≢ []
      → Good x.1 c
      → Answers c.1 c.2 × Fits w c.1
  loaded_outcome w x c l r h g = (g.0, inr (inr (r, h, subst (λ y. SendsLoaded y c.1) (sym l) g.1)))

  -- Connect of the service, whatever the store, the checker and the daemon do. The daemon is sent a
  -- request only for a valid mode and route, and the request has these; the result is then the
  -- daemon's answer, and an error if nothing was sent. For the direct route no endpoint is sent. For
  -- the other routes all endpoints of the state are valid, and one of them is sent: if the target is
  -- "auto", that of the best of the projected results of the latency check, else the one whose ID is
  -- the target.
  pub connect_lem :
      (w : World) → ConnectOutcome w (connect lib encode_error d candidate t target mode route w)
  unfolding connect
  connect_lem w =
      if_both (ConnectOutcome w) (not (valid_connection_mode mode) || not (valid_route_mode route))
        (λ bad. ((_, refl), inl refl, λ h. absurd (h refl)))
        (λ good.
          if_both (ConnectOutcome w) (is_direct route)
            (λ is.
              (refl, inr (inl (direct_route route is, refl)), λ h. (ground arith, ground arith)))
            (λ other.
              if_both (ConnectOutcome w) (is_empty target)
                (λ bare. ((_, refl), inl refl, λ h. absurd (h refl)))
                (λ named.
                  let x = load_endpoint_snapshot lib encode_error d candidate t.loaded w in
                  let c = connect_loaded lib encode_error d candidate t target mode route x in
                  let (a, f) =
                    loaded_outcome w x c refl (λ h. not_direct route h other)
                      (λ h. not_bare target h named) (connect_loaded-Good x.0 x.1) in
                  (a, f, λ h. (ground arith, ground arith)))))
