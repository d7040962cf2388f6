-- ===== src/Latency/Order.antt =====
-- internal/latency/checker.go: the order by which Best chooses.
use tui_box.Prelude.{◌≡◌, refl, Bool, true, false, ◌&&◌, ◌||◌, [], ◌∷◌, Bytes, ltb, ◌==◌, arith}
use tui_box.Prelude.Int.{int_eq, ℤ, pos, negsuc, int_lt}
use tui_box.Latency.Result.{Result}

-- `a < b` on strings.
unfoldable pub bytes_lt : Bytes → Bytes → Bool
bytes_lt [] [] = false
bytes_lt [] (b ∷ t) = true
bytes_lt (a ∷ s) [] = false
bytes_lt (a ∷ s) (b ∷ t) = ltb a b || a == b && bytes_lt s t

-- The result `a` comes before `b`.
unfoldable pub better : Result → Result → Bool
better a b =
    int_lt a.duration b.duration
    || int_eq a.duration b.duration && bytes_lt a.endpoint_id b.endpoint_id

bytes_lt_trans : (s t u : Bytes) → bytes_lt s t ≡ true → bytes_lt t u ≡ true → bytes_lt s u ≡ true
unfolding bytes_lt
bytes_lt_trans [] [] u h k = cc
bytes_lt_trans [] (b ∷ t) [] h k = cc
bytes_lt_trans [] (b ∷ t) (c ∷ u) h k = refl
bytes_lt_trans (a ∷ s) [] u h k = cc
bytes_lt_trans (a ∷ s) (b ∷ t) [] h k = cc
bytes_lt_trans (a ∷ s) (b ∷ t) (c ∷ u) h k = ground (arith, bytes_lt_trans s t u)

int_lt_trans : (x y z : ℤ) → int_lt x y ≡ true → int_lt y z ≡ true → int_lt x z ≡ true
int_lt_trans (pos a) (pos b) (pos c) h k = ground arith
int_lt_trans (pos a) (pos b) (negsuc c) h k = cc
int_lt_trans (pos a) (negsuc b) z h k = cc
int_lt_trans (negsuc a) (pos b) (pos c) h k = refl
int_lt_trans (negsuc a) (pos b) (negsuc c) h k = cc
int_lt_trans (negsuc a) (negsuc b) (pos c) h k = refl
int_lt_trans (negsuc a) (negsuc b) (negsuc c) h k = ground arith

int_eq→eq : (x y : ℤ) → int_eq x y ≡ true → x ≡ y
int_eq→eq (pos a) (pos b) h = ground arith
int_eq→eq (pos a) (negsuc b) h = cc
int_eq→eq (negsuc a) (pos b) h = cc
int_eq→eq (negsuc a) (negsuc b) h = ground arith

int_eq_refl : (x : ℤ) → int_eq x x ≡ true
int_eq_refl (pos a) = ground arith
int_eq_refl (negsuc a) = ground arith

pub better_trans : (a b c : Result) → better a b ≡ true → better b c ≡ true → better a c ≡ true
unfolding better
better_trans a b c h k = ground (
  arith,
  int_lt_trans a.duration b.duration c.duration,
  int_eq→eq a.duration b.duration,
  int_eq→eq b.duration c.duration,
  int_eq_refl a.duration,
  bytes_lt_trans a.endpoint_id b.endpoint_id c.endpoint_id,
)

bytes_lt_irrefl : (s : Bytes) → bytes_lt s s ≡ false
unfolding bytes_lt
bytes_lt_irrefl [] = refl
bytes_lt_irrefl (a ∷ s) = ground (arith, bytes_lt_irrefl s)

int_lt_irrefl : (x : ℤ) → int_lt x x ≡ false
int_lt_irrefl (pos a) = ground arith
int_lt_irrefl (negsuc a) = ground arith

pub better_irrefl : (a : Result) → better a a ≡ false
unfolding better
better_irrefl a =
    rw (int_lt_irrefl a.duration, int_eq_refl a.duration) (bytes_lt_irrefl a.endpoint_id)
