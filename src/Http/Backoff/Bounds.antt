-- ===== src/Http/Backoff/Bounds.antt =====
-- How long backoffSleep (internal/engine/http_executor.go) waits.
use native.Mathlib.Nat.{suc-add, two-pow-succ}
use Prim.Native.Nat.{min}
use resource_action_operator.Prelude.{
  ℕ, zero, suc, ◌+◌, ◌-◌, ◌*◌, ◌/◌, ◌%◌, ◌^◌, ◌≤◌, ◌<◌, ◌≡◌, refl, ap, ◌∙◌, arith, if◌then◌else◌,
  Bool-cases, inl, inr, ltb, eqb,
}
use resource_action_operator.Prelude.Int.{ℤ, pos, negsuc, ◌*ℤ◌, wrap64, mul64, add64-pos, mul64-pos}
use resource_action_operator.Http.Backoff.{multiplier, capped, add_jitter, backoff_sleep}

multiplier-pos : (k : ℕ) → 2 ^ k < 2 ^ 63 → multiplier (suc k) ≡ pos (2 ^ k)
unfolding multiplier
multiplier-pos k h = ground arith

capped-pos :
    (base max k : ℕ)
    → 2 ^ k < 2 ^ 63
    → base * 2 ^ k < 2 ^ 63
    → capped (pos base) (pos max) (suc k)
      ≡ pos (if ltb max (base * 2 ^ k) then max else base * 2 ^ k)
unfolding capped
capped-pos base max k small h =
    rw (multiplier-pos k small) (rw (mul64-pos base (2 ^ k) h) (ground arith))

if-min : (a b : ℕ) → (if ltb b a then b else a) ≡ min a b
if-min a b = ground arith

add_jitter_bounds :
    (draw : ℕ → ℕ) (sleep : ℕ)
    → ((n : ℕ) → 0 < n → draw n < n)
    → sleep + sleep / 4 < 2 ^ 63
    → (r : ℕ) × (add_jitter draw (pos sleep) ≡ pos r) × (sleep ≤ r) × (r ≤ sleep + sleep / 4)
unfolding add_jitter
add_jitter_bounds draw sleep below h = elim (Bool-cases (eqb (sleep / 4) 0)) [
  | inl z ↦ (sleep, ground arith, omega arith, omega arith)
  | inr n ↦
      let jitter = draw (sleep / 4) in
      let small : jitter < sleep / 4 = below (sleep / 4) (ground arith) in
      (sleep + jitter, rw n (add64-pos sleep jitter (omega arith)), omega arith, omega arith)
]

-- As long as the exponential wait `base * 2 ^ (attempt - 1)` and the longest jittered wait fit in
-- 63 bits, the wait is the exponential one or `max`, whichever is less, plus at most a quarter of
-- it; `draw` draws below its bound.
pub backoff_sleep_bounds :
    (draw : ℕ → ℕ) (base max k : ℕ)
    → ((n : ℕ) → 0 < n → draw n < n)
    → 2 ^ k < 2 ^ 63
    → base * 2 ^ k < 2 ^ 63
    → max + max / 4 < 2 ^ 63
    → let wait = min (base * 2 ^ k) max in
      (r : ℕ) × (backoff_sleep draw (pos base) (pos max) (suc k) ≡ pos r)
      × (wait ≤ r)
      × (r ≤ wait + wait / 4)
unfolding backoff_sleep
backoff_sleep_bounds draw base max k below small fits room =
    let capped_min : capped (pos base) (pos max) (suc k) ≡ pos (min (base * 2 ^ k) max) =
      capped-pos base max k small fits ∙ ap pos (if-min (base * 2 ^ k) max) in
    rw capped_min (add_jitter_bounds draw (min (base * 2 ^ k) max) below (omega arith))

two_pow_64 : (k : ℕ) → (q : ℕ) × (2 ^ (k + 64) ≡ q * 2 ^ 64)
two_pow_64 zero = (1, refl)
two_pow_64 (suc k) =
    let (q, e) = two_pow_64 k in (2 * q, rw suc-add (omega (arith, two-pow-succ (k + 64))))

multiplier_wraps : (k : ℕ) → multiplier (suc (k + 64)) ≡ pos 0
unfolding multiplier
multiplier_wraps k =
    let shift : suc (k + 64) - 1 ≡ k + 64 = omega arith in
    let low_bits : 2 ^ (k + 64) % 2 ^ 64 ≡ 0 = omega (arith, (two_pow_64 k).1) in
    rw shift (rw low_bits)

mul64-zero : (a : ℤ) → mul64 a (pos 0) ≡ pos 0
unfolding mul64
mul64-zero a = ground arith

capped_zero : (base : ℤ) (max k : ℕ) → capped base (pos max) (suc (k + 64)) ≡ pos 0
unfolding capped
capped_zero base max k = rw (multiplier_wraps k) (rw (mul64-zero base) (ground arith))

-- From the 65th attempt on the shift leaves no bit, and there is no wait at all, whatever the base
-- and the limit (a limit that is not negative) are.
pub backoff_sleep_vanishes :
    (draw : ℕ → ℕ) (base : ℤ) (max k : ℕ) → backoff_sleep draw base (pos max) (suc (k + 64)) ≡ pos 0
unfolding backoff_sleep
backoff_sleep_vanishes draw base max k = rw (capped_zero base max k)

wraps-negative : (n : ℕ) → 2 ^ 63 ≤ n → n < 2 ^ 64 → wrap64 (pos n) ≡ negsuc (2 ^ 64 - 1 - n)
unfolding wrap64
wraps-negative n low high = ground arith

mul64-negative :
    (a b : ℕ)
    → 2 ^ 63 ≤ a * b
    → a * b < 2 ^ 64
    → mul64 (pos a) (pos b) ≡ negsuc (2 ^ 64 - 1 - a * b)
unfolding mul64 ◌*ℤ◌
mul64-negative a b low high =
    let exact : (pos a *ℤ pos b) ≡ pos (a * b) = ground arith in
    ap wrap64 exact ∙ wraps-negative (a * b) low high

add_jitter-negative : (draw : ℕ → ℕ) (n : ℕ) → add_jitter draw (negsuc n) ≡ negsuc n
unfolding add_jitter
add_jitter-negative draw n = ground arith

capped-negative :
    (base max k : ℕ)
    → 2 ^ k < 2 ^ 63
    → 2 ^ 63 ≤ base * 2 ^ k
    → base * 2 ^ k < 2 ^ 64
    → capped (pos base) (pos max) (suc k) ≡ negsuc (2 ^ 64 - 1 - base * 2 ^ k)
unfolding capped
capped-negative base max k small low high =
    rw (multiplier-pos k small) (rw (mul64-negative base (2 ^ k) low high) (ground arith))

-- Where the exponential wait `base * 2 ^ (attempt - 1)` has 64 bits, the wait is negative, whatever
-- the limit (a limit that is not negative) is.
pub backoff_sleep_negative :
    (draw : ℕ → ℕ) (base max k : ℕ)
    → 2 ^ k < 2 ^ 63
    → 2 ^ 63 ≤ base * 2 ^ k
    → base * 2 ^ k < 2 ^ 64
    → backoff_sleep draw (pos base) (pos max) (suc k) ≡ negsuc (2 ^ 64 - 1 - base * 2 ^ k)
unfolding backoff_sleep
backoff_sleep_negative draw base max k small low high =
    rw (capped-negative base max k small low high) (add_jitter-negative draw _)
