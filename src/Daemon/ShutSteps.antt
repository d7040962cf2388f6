-- ===== src/Daemon/ShutSteps.antt =====
-- internal/daemon/service.go: each operation on a service that is closed.
use tui_box.Prelude.{
  ℕ, suc, ◌≡◌, refl, subst, sym, ◌∙◌, if_both, not, ◌&&◌, ◌||◌, ◌==◌, true, Bool, Option, none,
  some, List, [], ◌∷◌, arith,
}
use tui_box.Daemon.State.{
  SessionStatus, is_disconnected, set_status, Err, Effect, started, reaped, Previous, Session,
  Service, Request, note, set_active, run_cancel,
}
use tui_box.Daemon.Stop.{StopTrace, stop_session, stop_waited, kill_and_wait}
use tui_box.Daemon.StopLaws.{SameButLog, stop_session-SameButLog}
use tui_box.Daemon.Install.{RollbackTrace}
use tui_box.Daemon.Connect.{ConnectTrace, connect}
use tui_box.Daemon.Operations.{
  CloseTrace, disconnect, disconnecting_status, exit_active, exit_previous, finish_exit, close,
  close_active, close_session, finish_close,
}

-- How many processes were started.
abbrev pub starts : List Effect → ℕ
starts [] = 0
starts (started h p ∷ log) = suc (starts log)
starts (x ∷ log) = starts log

-- The second session is the first one, or there is none any more.
abbrev pub Remains : Option Session → Option Session → Type 0
Remains a none = Unit
Remains none (some c) = ⊥
Remains (some c) (some c') = (c'.ident ≡ c.ident) × (c'.process ≡ c.process)

-- Nothing was begun between the two states, of which the later one is closed.
pub record IsShut (s s' : Service) : Type 0 where
  pub closed : s'.closed ≡ true
  pub installed : s'.installed ≡ s.installed
  pub generation : s'.generation ≡ s.generation
  pub starts_none : starts s'.log ≡ starts s.log
  pub session : Remains s.active s'.active

pub Remains-self : (a : Option Session) → Remains a a
Remains-self none = tt
Remains-self (some c) = (refl, refl)

Remains-trans : (a b c : Option Session) → Remains a b → Remains b c → Remains a c
Remains-trans a b none r q = tt
Remains-trans none none (some z) r q = absurd q
Remains-trans none (some y) (some z) r q = absurd r
Remains-trans (some x) none (some z) r q = absurd q
Remains-trans (some x) (some y) (some z) r q = (q.0 ∙ r.0, q.1 ∙ r.1)

pub IsShut-self : (s : Service) → s.closed ≡ true → IsShut s s
IsShut-self s c = record {
  closed = c;
  installed = refl;
  generation = refl;
  starts_none = refl;
  session = Remains-self s.active;
}

pub IsShut-trans : (s u v : Service) → IsShut s u → IsShut u v → IsShut s v
IsShut-trans s u v a b = record {
  closed = b.closed;
  installed = b.installed ∙ a.installed;
  generation = b.generation ∙ a.generation;
  starts_none = b.starts_none ∙ a.starts_none;
  session = Remains-trans s.active u.active v.active a.session b.session;
}

stop-starts :
    (t : StopTrace) (c : Session) (s : Service) → starts (stop_session t c s).0.log ≡ starts s.log
unfolding stop_session stop_waited kill_and_wait
stop-starts t c s = ground arith

pub connect-IsShut :
    (t : ConnectTrace) (r : Request) (s : Service) → s.closed ≡ true → IsShut s (connect t r s).0
unfolding connect
connect-IsShut t r s c = subst (IsShut s) (ground arith) (IsShut-self s c)

pub disconnect-IsShut :
    (e ctx : Option Err) (t : StopTrace) (s : Service)
    → s.closed ≡ true
    → IsShut s (disconnect e ctx t s).0
unfolding disconnect
disconnect-IsShut (some e) ctx t s c = IsShut-self s c
disconnect-IsShut none ctx t s c = subst (IsShut s) (ground arith) (IsShut-self s c)

-- The end of a session: its configuration is closed, and the status is set.
released-IsShut :
    (st : SessionStatus) (h : ℕ) (s s' : Service)
    → IsShut s s'
    → IsShut s (set_status st (note (Effect.closed h) s'))
released-IsShut st h s s' k = record {
  closed = k.closed;
  installed = k.installed;
  generation = k.generation;
  starts_none = k.starts_none;
  session = k.session;
}

finish_exit-IsShut : (c : Session) (s s' : Service) → IsShut s s' → IsShut s (finish_exit c s')
unfolding finish_exit
finish_exit-IsShut c s s' h = record {
  closed = h.closed;
  installed = h.installed;
  generation = h.generation;
  starts_none = h.starts_none;
  session = h.session;
}

exit_previous-IsShut :
    (o : Option Previous) (t : RollbackTrace) (c : Session) (s s' : Service)
    → IsShut s s'
    → IsShut s (exit_previous o t c s')
unfolding exit_previous
exit_previous-IsShut none t c s s' h = finish_exit-IsShut c s s' h
exit_previous-IsShut (some p) t c s s' h =
    if_both (IsShut s) (c.stopping && not s'.closed) (λ back. absurd (ground (arith, h.closed)))
      (λ ends. finish_exit-IsShut c s s' h)

-- The session is gone.
left-IsShut :
    (c : Session) (s s' : Service)
    → s.closed ≡ true
    → SameButLog s s'
    → starts s'.log ≡ starts s.log
    → IsShut s (run_cancel c (set_active none s'))
left-IsShut c s s' h same_one n =
    if_both (IsShut s) c.has_cancel
      (λ yes. record {
        closed = same_one.closed ∙ h;
        installed = same_one.installed;
        generation = same_one.generation;
        starts_none = n;
        session = tt;
      })
      (λ no. record {
        closed = same_one.closed ∙ h;
        installed = same_one.installed;
        generation = same_one.generation;
        starts_none = n;
        session = tt;
      })

pub exit_active-IsShut :
    (a : Option Session) (t : RollbackTrace) (ident generation : ℕ) (s : Service)
    → s.closed ≡ true
    → IsShut s (exit_active a t ident generation s)
unfolding exit_active
exit_active-IsShut none t ident generation s h = IsShut-self s h
exit_active-IsShut (some c) t ident generation s h =
    if_both (IsShut s) (not (c.ident == ident) || not (s.generation == generation))
      (λ other. IsShut-self s h)
      (λ ours. exit_previous-IsShut c.rollback_previous t c s _ (
        left-IsShut c s (note (reaped c.process) s) h
          (record {
            closed = refl;
            generation = refl;
            active = refl;
            status = refl;
            close_called = refl;
            close_err = refl;
            runner_closed = refl;
            installed = refl;
          })
          refl))

close_session-IsShut :
    (t : CloseTrace) (c : Session) (s : Service)
    → s.active ≡ some c
    → s.closed ≡ true
    → IsShut s (close_session t c s).0
unfolding close_session
close_session-IsShut t c s a h =
    let marked = record c { stopping = true; rollback_previous = none } in
    let u = record s { active = some marked; status = disconnecting_status s } in
    let same_one = stop_session-SameButLog t.stop marked u in
    let begun = stop-starts t.stop marked u in
    let there : IsShut s u = record {
      closed = h;
      installed = refl;
      generation = refl;
      starts_none = refl;
      session = subst (λ x. Remains x (some marked)) (sym a) (refl, refl);
    } in
    let s' = (stop_session t.stop marked u).0 in
    let stopped : IsShut u s' = record {
      closed = same_one.closed ∙ h;
      installed = same_one.installed;
      generation = same_one.generation;
      starts_none = begun;
      session = subst (Remains (some marked)) (sym same_one.active) (refl, refl);
    } in
    if_both {A = Service × List Err} (λ x. IsShut s x.0) (stop_session t.stop marked u).1
      (λ done.
        released-IsShut is_disconnected c.prepared s _
          (IsShut-trans s u _ there (left-IsShut c u s' h same_one begun)))
      (λ stuck. IsShut-trans s u s' there stopped)

close_active-IsShut :
    (a : Option Session) (t : CloseTrace) (s : Service)
    → s.active ≡ a
    → s.closed ≡ true
    → IsShut s (close_active a t s).0
unfolding close_active
close_active-IsShut none t s a h = IsShut-self s h
close_active-IsShut (some c) t s a h = close_session-IsShut t c s a h

finish_close-IsShut :
    (t : CloseTrace) (errs : List Err) (s s' : Service)
    → IsShut s s'
    → IsShut s (finish_close t errs s')
unfolding finish_close
finish_close-IsShut t errs s s' h =
    if_both (IsShut s) t.monitors_finished (λ yes. kept h) (λ no. kept h)
  where
    kept :
        {r : Bool} {e : List Err}
        → IsShut s s'
        → IsShut s (record s' { runner_closed = r; close_err = e })
    kept h = record {
      closed = h.closed;
      installed = h.installed;
      generation = h.generation;
      starts_none = h.starts_none;
      session = h.session;
    }

pub close-IsShut : (t : CloseTrace) (s : Service) → s.closed ≡ true → IsShut s (close t s).0
unfolding close
close-IsShut t s h =
    let u = record s { closed = true; close_called = true } in
    let there : IsShut s u = record {
      closed = refl;
      installed = refl;
      generation = refl;
      starts_none = refl;
      session = Remains-self s.active;
    } in
    if_both {A = Service × List Err} (λ x. IsShut s x.0) s.close_called (λ again. IsShut-self s h)
      (λ first.
        finish_close-IsShut t (close_active s.active t u).1 s (close_active s.active t u).0
          (IsShut-trans s u _ there (close_active-IsShut s.active t u refl refl)))
