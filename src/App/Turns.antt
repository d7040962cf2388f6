-- ===== src/App/Turns.antt =====
-- internal/app/service.go: the state file before and after an Update whose callback is accepted.
use tui_box.Prelude.{suc, ◌≡◌, ap, subst, inl, inr, Option, map, Bool-cases, arith}
use tui_box.Prelude.Results.{ok-injective}
use tui_box.Domain.Checks.{Library}
use tui_box.Store.Snapshot.{Snapshot, new_snapshot, valid_snapshot}
use tui_box.Store.File.{StoreErr, Content, absent, undecodable, decodes, load_content, Edit}
use tui_box.Store.Accepted.{Distinct, valid_snapshot_iff}
use tui_box.Store.Updates.{Committed}
use tui_box.Store.Runs.{Loads}
use tui_box.Store.History.{IsNext-Loads}
use tui_box.App.Errors.{Err}
use tui_box.App.Edited.{Gives}

-- The file held a valid snapshot, and holds one of the next revision that relates to it so.
pub record Turns (lib : Library) (encode_error : Snapshot → Option StoreErr)
    (Relates : Snapshot → Snapshot → Type 0) (before after : Content) : Type 0 where
  pub old : Snapshot
  pub new : Snapshot
  pub loaded : Loads lib encode_error before old
  pub loads : Loads lib encode_error after new
  pub next : new.revision ≡ suc old.revision
  pub relates : Relates old new

pub Committed-Turns :
    {A : Type 0} (lib : Library) (encode_error : Snapshot → Option StoreErr)
    (edit : Snapshot → Edit Err A) (before after : Content) (a : A)
    (Relates : Snapshot → Snapshot → Type 0)
    → ((s s' : Snapshot)
        → Loads lib encode_error before s
        → Gives (edit s) s' a
        → Relates s (record s' { revision = suc s'.revision }))
    → Committed lib encode_error edit before a after
    → Turns lib encode_error Relates before after
Committed-Turns lib encode_error edit before after a Relates law (s, s', l, e, n) = record {
  old = s;
  new = record s' { revision = suc s'.revision };
  loaded = l;
  loads = IsNext-Loads lib encode_error s s' after n;
  next = ap suc n.from;
  relates = law s s' l e;
}

pub Loads-Distinct :
    (lib : Library) (encode_error : Snapshot → Option StoreErr) (c : Content) (s : Snapshot)
    → Loads lib encode_error c s
    → Distinct (map (λ x. x.id) s.subscriptions)
unfolding load_content new_snapshot
Loads-Distinct lib encode_error absent s h =
    subst (λ x. Distinct (map (λ x. x.id) x.subscriptions)) (ok-injective h) tt
Loads-Distinct lib encode_error undecodable s h = absurd (ground arith)
Loads-Distinct lib encode_error (decodes s') s h = elim (Bool-cases (valid_snapshot lib s')) [
  | inr invalid ↦ absurd (ground arith)
  | inl is_valid ↦
      subst (λ x. Distinct (map (λ x. x.id) x.subscriptions))
        (ok-injective (rw (is_valid, load_content) at h))
        (((valid_snapshot_iff lib s').0 is_valid).subscription_ids)
]
