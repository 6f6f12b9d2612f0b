-- ===== src/Http/Attempts/Counts.antt =====
-- What the attempts of an HTTP action add up to (ExecuteWithMetrics of
-- internal/engine/http_executor.go).
use resource_action_operator.Prelude.{
  ℕ, zero, suc, ◌+◌, ◌≤◌, ◌<◌, ◌≡◌, refl, inl, inr, arith, true, ltb, ◌&&◌, Bool-cases, Result, ok,
  err, Check, Error, ltb→lt,
}
use resource_action_operator.Prelude.Text.{itoa}
use resource_action_operator.Std.{Std}
use resource_action_operator.Runtime.{Runtime, Response}
use resource_action_operator.Http.Attempts.{
  HttpExecutionMetrics, Call, is_retryable_net_err, retries_status, Round, finished, again, Ended,
  returned, exhausted, finish, wait, on_network_error, on_response, on_reply, on_request, round,
  after_round, attempts_from,
}

module _ {W : Type 0} (std : Std) (rt : Runtime W) (call : Call) where
  abbrev pub retries : HttpExecutionMetrics → ℕ
  retries m = m.network_retry_count + m.status_retry_count

  -- An attempt that does not end the call counts one retry more, and is not the last one allowed.
  -- One that ends it counts no retry, and if it succeeds the status is an expected one.
  abbrev RoundCounts : ℕ → HttpExecutionMetrics → Round → Type 0
  RoundCounts attempt m (finished m' r) =
      (m'.attempts ≡ m.attempts)
      × (retries m' ≡ retries m)
      × (r ≡ ok tt → call.expected (itoa m'.status_code) ≡ true)
  RoundCounts attempt m (again m') = (attempt < call.max_attempts) × (retries m' ≡ retries m + 1)

  on_network_error_counts :
      (attempt : ℕ) (m : HttpExecutionMetrics) (e : Error) (w : W)
      → RoundCounts attempt m (on_network_error std rt call attempt m e w).0
  unfolding on_network_error wait finish
  on_network_error_counts attempt m e w =
      elim (Bool-cases
        (call.retry_on_network && ltb attempt call.max_attempts && is_retryable_net_err std e)) [
          | inl more ↦ rw more (ltb→lt _ _ (ground arith), omega arith)
          | inr ends ↦ rw ends (refl, refl, λ h. cc)
        ]

  on_response_counts :
      (attempt : ℕ) (m : HttpExecutionMetrics) (resp : Response) (w : W)
      → RoundCounts attempt m (on_response std rt call attempt m resp w).0
  unfolding on_response wait finish
  on_response_counts attempt m resp w = elim (Bool-cases (call.expected (itoa resp.status_code))) [
    | inl hit ↦ rw hit (refl, refl, λ h. hit)
    | inr miss ↦
        elim (Bool-cases
          (retries_status call.retry_on_status resp.status_code && ltb attempt call.max_attempts)) [
            | inl more ↦ rw (miss, more) (ltb→lt _ _ (ground arith), omega arith)
            | inr ends ↦ rw (miss, ends) (refl, refl, λ h. cc)
          ]
  ]

  on_reply_counts :
      (attempt : ℕ) (m : HttpExecutionMetrics) (reply : Result Response) (w : W)
      → RoundCounts attempt m (on_reply std rt call attempt m reply w).0
  on_reply_counts attempt m (ok resp) w = on_response_counts attempt m resp w
  on_reply_counts attempt m (err e) w = on_network_error_counts attempt m e w

  on_request_counts :
      (attempt : ℕ) (m : HttpExecutionMetrics) (built : Check) (w : W)
      → RoundCounts attempt m (on_request std rt call attempt m built w).0
  on_request_counts attempt m (ok _) w =
      let (reply, w') = rt.send call.transport call.timeout call.request w in
      on_reply_counts attempt m reply w'
  on_request_counts attempt m (err e) w = unfold finish in (refl, refl, λ h. cc)

  round_counts :
      (attempt : ℕ) (m : HttpExecutionMetrics) (w : W)
      → RoundCounts attempt (record m { attempts = attempt }) (round std rt call attempt m w).0
  unfolding round
  round_counts attempt m w =
      on_request_counts attempt (record m { attempts = attempt })
        (std.new_request call.request.method call.request.url) w

  -- What holds of the metrics and the error that the loop returns.
  pub record IsCounted (m : HttpExecutionMetrics) (r : Check) : Type 0 where
    pub at_least_one : 1 ≤ m.attempts
    pub at_most : m.attempts ≤ call.max_attempts
    pub retried : m.attempts ≡ m.network_retry_count + m.status_retry_count + 1
    pub success : r ≡ ok tt → call.expected (itoa m.status_code) ≡ true

  abbrev pub Returns : Ended → Type 0
  Returns (exhausted m) = ⊥
  Returns (returned m r) = IsCounted m r

  after_round_counts :
      (next : HttpExecutionMetrics → W → Ended × W) (attempt : ℕ) (m : HttpExecutionMetrics)
      (r : Round) (w : W)
      → attempt ≤ call.max_attempts
      → attempt ≡ retries m + 1
      → RoundCounts attempt (record m { attempts = attempt }) r
      → ((m' : HttpExecutionMetrics) (w' : W)
          → attempt < call.max_attempts
          → retries m' ≡ retries m + 1
          → Returns (next m' w').0)
      → Returns (after_round std rt call next (r, w)).0
  after_round_counts next attempt m (finished m' r) w le counted h rest = record {
    at_least_one = omega arith;
    at_most = omega arith;
    retried = omega arith;
    success = h.2;
  }
  after_round_counts next attempt m (again m') w le counted h rest = rest m' w h.0 h.1

  pub attempts_from_counts :
      (left attempt : ℕ) (m : HttpExecutionMetrics) (w : W)
      → attempt + left ≡ call.max_attempts
      → attempt ≡ retries m + 1
      → Returns (attempts_from std rt call (suc left) attempt m w).0
  unfolding attempts_from
  attempts_from_counts zero attempt m w fuel counted =
      let (r, w') = round std rt call attempt m w in
      after_round_counts _ attempt m r w' (omega arith) counted (round_counts attempt m w)
        (λ m' w'' more more_counted. absurd (omega arith))
  attempts_from_counts (suc left) attempt m w fuel counted =
      let (r, w') = round std rt call attempt m w in
      after_round_counts _ attempt m r w' (omega arith) counted (round_counts attempt m w)
        (λ m' w'' more more_counted.
          attempts_from_counts left (suc attempt) m' w'' (omega arith) (omega arith))
