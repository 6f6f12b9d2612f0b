-- ===== src/Http/Attempts.antt =====
-- The attempts of ExecuteWithMetrics (internal/engine/http_executor.go), the loop over a request.
pub mod Counts
pub mod Repeated
pub mod Frame
use resource_action_operator.Prelude.{
  ℕ, zero, suc, ◌+◌, ◌*◌, String, Option, none, some, List, [], ◌∷◌, Bool, true, false, not, ◌&&◌,
  ◌||◌, ◌==◌, ltb, any, Result, ok, err, Check, Error, call_failed, if◌then◌else◌,
}
use resource_action_operator.Prelude.Int.{ℤ, pos, negsuc, sub_ℕ, add64, quot, eqb_ℤ}
use resource_action_operator.Prelude.Text.{itoa, contains_fold}
use resource_action_operator.Api.{JobExecutionRecord}
use resource_action_operator.Std.{Std, Regexp}
use resource_action_operator.Runtime.{Runtime, Transport, Request, Response}
use resource_action_operator.Http.Backoff.{millisecond, capped, backoff_sleep}

-- HTTPExecutionMetrics. The counters count attempts, at most the attempts allowed, which is an int.
pub record HttpExecutionMetrics : Type 0 where
  pub attempts : ℕ
  pub status_code : ℕ
  pub network_retry_count : ℕ
  pub status_retry_count : ℕ
  pub backoff_millis : ℤ
  pub duration_millis : ℤ
  pub job : Option JobExecutionRecord

abbrev pub no_metrics : HttpExecutionMetrics
no_metrics = record {
  attempts = 0;
  status_code = 0;
  network_retry_count = 0;
  status_retry_count = 0;
  backoff_millis = pos 0;
  duration_millis = pos 0;
  job = none;
}

-- The local variables of ExecuteWithMetrics that the loop reads.
pub record Call : Type 0 where
  pub transport : Transport
  pub timeout : ℤ
  pub request : Request
  pub expected : Regexp
  pub max_attempts : ℕ
  pub backoff_base : ℤ
  pub max_backoff : ℤ
  pub retry_on_network : Bool
  pub retry_on_status : List ℤ
  pub started_at : ℕ

-- The words of the regular expression of isRetryableNetErr.
abbrev retryable_words : List String
retryable_words =
    "connection reset" ∷ "broken pipe" ∷ "EOF" ∷ "i/o timeout" ∷ "tls handshake timeout" ∷ []

unfoldable pub is_retryable_net_err : Std → Error → Bool
is_retryable_net_err std e =
    std.is_timeout e || any (λ word. contains_fold word (std.error_text e)) retryable_words

-- `retryOnStatus[status]`
unfoldable pub retries_status : List ℤ → ℕ → Bool
retries_status statuses status = any (λ s. eqb_ℤ s (pos status)) statuses

-- How a round of the loop ends: with a return, or with `continue`.
pub data Round : Type 0 where
  finished : HttpExecutionMetrics → Check → Round
  again : HttpExecutionMetrics → Round

-- How the loop ends: with a return from its body, or by its condition.
pub data Ended : Type 0 where
  returned : HttpExecutionMetrics → Check → Ended
  exhausted : HttpExecutionMetrics → Ended

module _ {W : Type 0} (std : Std) (rt : Runtime W) (call : Call) where
  -- A return sets the duration first.
  unfoldable pub finish : HttpExecutionMetrics → Check → W → Round × W
  finish m r w =
      let (now, w') = rt.clock w in
      (finished (record m { duration_millis = sub_ℕ now call.started_at }) r, w')

  -- The jitter is drawn only where a quarter of the wait is positive.
  abbrev pub draw_for : ℕ → ℤ → W → ℤ × W
  draw_for attempt (pos (suc n)) w =
      let (jitter, w') = rt.int63n (suc n) w in
      (backoff_sleep (λ _. jitter) call.backoff_base call.max_backoff attempt, w')
  draw_for attempt (pos zero) w =
      (backoff_sleep (λ _. 0) call.backoff_base call.max_backoff attempt, w)
  draw_for attempt (negsuc n) w =
      (backoff_sleep (λ _. 0) call.backoff_base call.max_backoff attempt, w)

  unfoldable pub draw_backoff : ℕ → W → ℤ × W
  unfolding capped quot
  draw_backoff attempt w =
      draw_for attempt (quot (capped call.backoff_base call.max_backoff attempt) 4) w

  unfoldable pub wait : ℕ → HttpExecutionMetrics → W → Round × W
  unfolding draw_backoff
  wait attempt m w =
      let (sleep, w') = draw_backoff attempt w in
      (
        again (record m { backoff_millis = add64 m.backoff_millis (quot sleep millisecond) }),
        rt.sleep sleep w',
      )

  unfoldable pub on_network_error : ℕ → HttpExecutionMetrics → Error → W → Round × W
  unfolding wait finish
  on_network_error attempt m e w =
      if call.retry_on_network && ltb attempt call.max_attempts && is_retryable_net_err std e
      then wait attempt (record m { network_retry_count = m.network_retry_count + 1 }) w
      else finish m (err e) w

  unfoldable pub on_response : ℕ → HttpExecutionMetrics → Response → W → Round × W
  unfolding wait finish
  on_response attempt m resp w =
      let m' = record m { status_code = resp.status_code } in
      if call.expected (itoa resp.status_code)
      then finish m' (ok tt) w
      else if retries_status call.retry_on_status resp.status_code && ltb attempt call.max_attempts
      then wait attempt (record m' { status_retry_count = m'.status_retry_count + 1 }) w
      else finish m' (err (call_failed resp.status_code resp.body)) w

  abbrev pub on_reply : ℕ → HttpExecutionMetrics → Result Response → W → Round × W
  on_reply attempt m (ok resp) w = on_response attempt m resp w
  on_reply attempt m (err e) w = on_network_error attempt m e w

  abbrev pub on_request : ℕ → HttpExecutionMetrics → Check → W → Round × W
  on_request attempt m (err e) w = finish m (err e) w
  on_request attempt m (ok _) w =
      let (reply, w') = rt.send call.transport call.timeout call.request w in
      on_reply attempt m reply w'

  -- The body of the loop.
  unfoldable pub round : ℕ → HttpExecutionMetrics → W → Round × W
  unfolding on_network_error on_response
  round attempt m w =
      on_request attempt (record m { attempts = attempt })
        (std.new_request call.request.method call.request.url) w

  -- A `continue` goes on with the next round.
  abbrev pub after_round : (HttpExecutionMetrics → W → Ended × W) → Round × W → Ended × W
  after_round next (finished m r, w) = (returned m r, w)
  after_round next (again m, w) = next m w

  -- `for attempt := ...; attempt <= maxAttempts; attempt++` with the rounds left counted down.
  unfoldable pub attempts_from : ℕ → ℕ → HttpExecutionMetrics → W → Ended × W
  unfolding round
  attempts_from zero attempt m w = (exhausted m, w)
  attempts_from (suc left) attempt m w =
      after_round (attempts_from left (suc attempt)) (round attempt m w)
