-- ===== src/Latency/Best.antt =====
-- internal/latency/checker.go: Best.
use tui_box.Prelude.{
  ◌≡◌, ◌⊎◌, refl, true, false, ◌&&◌, Option, none, some, List, [], ◌∷◌, All, arith, if◌then◌else◌,
  Bool-cases, inl, inr,
}
use tui_box.Latency.Result.{Result, is_success}
use tui_box.Latency.Order.{better, better_trans, better_irrefl}

-- The loop of Best over the results that are left, with the best so far.
unfoldable pub best_from : Option Result → List Result → Option Result
best_from found [] = found
best_from none (r ∷ rs) = best_from (if is_success r.status then some r else none) rs
best_from (some b) (r ∷ rs) =
    best_from (some (if is_success r.status && better r b then r else b)) rs

-- Best; `none` stands for ErrNoAvailableEndpoint.
unfoldable pub best : List Result → Option Result
unfolding best_from
best results = best_from none results

-- The results that are a success, in a list.
abbrev pub Among : Result → List Result → Type 0
Among b [] = ⊥
Among b (r ∷ rs) = (b ≡ r) ⊎ Among b rs

-- No success in the list comes before `b`.
abbrev pub Leads : Result → List Result → Type 0
Leads b rs = All (λ r. is_success r.status ≡ true → better r b ≡ false) rs

-- Best found nothing, and nothing succeeded; or it found a leading success.
abbrev pub IsBest : Option Result → List Result → Type 0
IsBest none rs = All (λ r. is_success r.status ≡ false) rs
IsBest (some b) rs = Among b rs × (is_success b.status ≡ true) × Leads b rs

-- The best so far was never behind what came before.
abbrev NotBehind : Result → Result → Type 0
NotBehind b c = (x : Result) → better x b ≡ false → better x c ≡ false

abbrev Improves : Result → List Result → Option Result → Type 0
Improves b rs none = ⊥
Improves b rs (some c) =
    ((c ≡ b) ⊎ Among c rs) × (is_success c.status ≡ true) × Leads c rs × NotBehind b c

not_behind : (r b : Result) → better r b ≡ true → NotBehind b r
not_behind r b h x e = elim (Bool-cases (better x r)) [
  | inl ahead ↦ cc (better_trans x r b ahead h)
  | inr level ↦ level
]

replaced :
    (r b : Result) (rs : List Result) (o : Option Result)
    → better r b ≡ true
    → Improves r rs o
    → Improves b (r ∷ rs) o
replaced r b rs none h i = i
replaced r b rs (some c) h i =
    (inr i.0, i.1, (λ s. i.3 r (better_irrefl r), i.2), λ x e. i.3 x (not_behind r b h x e))

weaken : (c b r : Result) (rs : List Result) → (c ≡ b) ⊎ Among c rs → (c ≡ b) ⊎ Among c (r ∷ rs)
weaken c b r rs (inl e) = inl e
weaken c b r rs (inr m) = inr (inr m)

kept :
    (r b : Result) (rs : List Result) (o : Option Result)
    → (is_success r.status ≡ true → better r b ≡ false)
    → Improves b rs o
    → Improves b (r ∷ rs) o
kept r b rs none h i = i
kept r b rs (some c) h i = (weaken c b r rs i.0, i.1, (λ s. i.3 r (h s), i.2), i.3)

best_from-Improves :
    (b : Result) (rs : List Result)
    → is_success b.status ≡ true
    → Improves b rs (best_from (some b) rs)
unfolding best_from
best_from-Improves b [] s = (inl refl, s, tt, λ x e. e)
best_from-Improves b (r ∷ rs) s =
    let with_r = best_from-Improves r rs in
    let with_b = best_from-Improves b rs s in
    elim (Bool-cases (is_success r.status && better r b)) [
      | inl better_now ↦
          rw (better_now, best_from) (replaced r b rs _ (ground arith) (with_r (ground arith)))
      | inr stays ↦ rw (stays, best_from) (kept r b rs _ (λ success_r. ground arith) with_b)
    ]

from_first :
    (r : Result) (rs : List Result) (o : Option Result) → Improves r rs o → IsBest o (r ∷ rs)
from_first r rs none i = absurd i
from_first r rs (some c) i = (i.0, i.1, (λ s. i.3 r (better_irrefl r), i.2))

skip_first :
    (r : Result) (rs : List Result) (o : Option Result)
    → is_success r.status ≡ false
    → IsBest o rs
    → IsBest o (r ∷ rs)
skip_first r rs none h b = (h, b)
skip_first r rs (some c) h b = (inr b.0, b.1, (λ s. cc, b.2))

best_from-IsBest : (rs : List Result) → IsBest (best_from none rs) rs
unfolding best_from
best_from-IsBest [] = tt
best_from-IsBest (r ∷ rs) =
    let later = best_from-IsBest rs in
    elim (Bool-cases (is_success r.status)) [
      | inl good ↦ rw (good, best_from) (from_first r rs _ (best_from-Improves r rs good))
      | inr bad ↦ rw (bad, best_from) (skip_first r rs _ bad later)
    ]

-- Best reports no endpoint exactly when no result is a success; otherwise it returns one of the
-- results, a success, such that no success has a shorter duration, nor the same duration and a
-- smaller endpoint ID.
pub best-IsBest : (results : List Result) → IsBest (best results) results
unfolding best
best-IsBest results = best_from-IsBest results
