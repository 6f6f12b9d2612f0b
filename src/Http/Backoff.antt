-- ===== src/Http/Backoff.antt =====
-- backoffSleep and parseDurationDefault (internal/engine/http_executor.go). A duration is an int64
-- of nanoseconds.
pub mod Bounds
use resource_action_operator.Prelude.{
  ℕ, ◌-◌, ◌^◌, ◌%◌, String, Result, ok, err, eqb, ◌==◌, if◌then◌else◌,
}
use resource_action_operator.Prelude.Int.{ℤ, pos, ltb_ℤ, from_u64, add64, mul64, quot}
use resource_action_operator.Std.{Std}

abbrev pub millisecond : ℕ
millisecond = 1000000

abbrev pub second : ℕ
second = 1000000000

unfoldable pub parse_duration_default : Std → String → ℤ → ℤ
parse_duration_default std s def =
    if s == "" then def else elim (std.parse_duration s) [ ok d ↦ d | err e ↦ def ]

-- `1 << (attempt - 1)`, an int: 0 from 64 bits on.
unfoldable pub multiplier : ℕ → ℤ
multiplier attempt = from_u64 (2 ^ (attempt - 1) % 2 ^ 64)

-- The exponential wait, cut at `max`.
unfoldable pub capped : ℤ → ℤ → ℕ → ℤ
unfolding multiplier mul64
capped base max attempt =
    let sleep = mul64 base (multiplier attempt) in if ltb_ℤ max sleep then max else sleep

-- `draw n` is rng.Int63n(n), called only for a positive n.
unfoldable pub add_jitter : (ℕ → ℕ) → ℤ → ℤ
unfolding add64 quot
add_jitter draw sleep = elim (quot sleep 4) [
  | pos jitter_max ↦ if eqb jitter_max 0 then sleep else add64 sleep (pos (draw jitter_max))
  | _ ↦ sleep
]

unfoldable pub backoff_sleep : (ℕ → ℕ) → ℤ → ℤ → ℕ → ℤ
unfolding capped add_jitter
backoff_sleep draw base max attempt = add_jitter draw (capped base max attempt)
