-- ===== src/Http/Attempts/Frame.antt =====
-- The attempts of an HTTP action leave the stored ResourceActions alone
-- (internal/engine/http_executor.go).
use resource_action_operator.Prelude.{
  ℕ, zero, suc, ◌≡◌, refl, ◌∙◌, inl, inr, ◌&&◌, ltb, Bool-cases, Result, ok, err, Check,
  call_failed, ◌+◌,
}
use resource_action_operator.Prelude.Int.{ℤ, pos, negsuc, quot}
use resource_action_operator.Prelude.Text.{itoa}
use resource_action_operator.Std.{Std}
use resource_action_operator.Runtime.{Runtime, Response}
use resource_action_operator.Runtime.Frame.{Keeps}
use resource_action_operator.Http.Backoff.{capped}
use resource_action_operator.Http.Attempts.{
  HttpExecutionMetrics, Call, Round, finished, again, Ended, is_retryable_net_err, retries_status,
  finish, draw_for, draw_backoff, wait, on_network_error, on_response, on_reply, on_request, round,
  after_round, attempts_from,
}

module _ {W S : Type 0} (std : Std) (rt : Runtime W) (stored : W → S) (k : Keeps rt stored)
    (call : Call) where
  draw_for_keeps :
      (attempt : ℕ) (quarter : ℤ) (w : W)
      → stored (draw_for std rt call attempt quarter w).1 ≡ stored w
  draw_for_keeps attempt (pos (suc n)) w = k.int63n (suc n) w
  draw_for_keeps attempt (pos zero) w = refl
  draw_for_keeps attempt (negsuc n) w = refl

  wait_keeps :
      (attempt : ℕ) (m : HttpExecutionMetrics) (w : W)
      → stored (wait std rt call attempt m w).1 ≡ stored w
  unfolding wait draw_backoff
  wait_keeps attempt m w =
      let quarter = quot (capped call.backoff_base call.max_backoff attempt) 4 in
      let (sleep, w') = draw_for std rt call attempt quarter w in
      k.sleep sleep w' ∙ draw_for_keeps attempt quarter w

  finish_keeps :
      (m : HttpExecutionMetrics) (r : Check) (w : W)
      → stored (finish std rt call m r w).1 ≡ stored w
  unfolding finish
  finish_keeps m r w = k.clock w

  on_reply_keeps :
      (attempt : ℕ) (m : HttpExecutionMetrics) (reply : Result Response) (w : W)
      → stored (on_reply std rt call attempt m reply w).1 ≡ stored w
  unfolding on_response on_network_error
  on_reply_keeps attempt m (err e) w =
      elim (Bool-cases
        (call.retry_on_network && ltb attempt call.max_attempts && is_retryable_net_err std e)) [
          | inl more ↦
              rw more (
                wait_keeps attempt (record m { network_retry_count = m.network_retry_count + 1 }) w)
          | inr ends ↦ rw ends (finish_keeps m (err e) w)
        ]
  on_reply_keeps attempt m (ok resp) w =
      let m' = record m { status_code = resp.status_code } in
      elim (Bool-cases (call.expected (itoa resp.status_code))) [
        | inl hit ↦ rw hit (finish_keeps m' (ok tt) w)
        | inr miss ↦
            elim (Bool-cases (
              retries_status call.retry_on_status resp.status_code
              && ltb attempt call.max_attempts)) [
                | inl more ↦
                    rw (miss, more)
                      (wait_keeps attempt
                        (record m' { status_retry_count = m'.status_retry_count + 1 }) w)
                | inr ends ↦
                    rw (miss, ends)
                      (finish_keeps m' (err (call_failed resp.status_code resp.body)) w)
              ]
      ]

  on_request_keeps :
      (attempt : ℕ) (m : HttpExecutionMetrics) (built : Check) (w : W)
      → stored (on_request std rt call attempt m built w).1 ≡ stored w
  on_request_keeps attempt m (err e) w = finish_keeps m (err e) w
  on_request_keeps attempt m (ok _) w =
      let (reply, w') = rt.send call.transport call.timeout call.request w in
      on_reply_keeps attempt m reply w' ∙ k.send call.transport call.timeout call.request w

  round_keeps :
      (attempt : ℕ) (m : HttpExecutionMetrics) (w : W)
      → stored (round std rt call attempt m w).1 ≡ stored w
  unfolding round
  round_keeps attempt m w =
      on_request_keeps attempt (record m { attempts = attempt })
        (std.new_request call.request.method call.request.url) w

  after_round_keeps :
      (next : HttpExecutionMetrics → W → Ended × W) (r : Round) (w : W)
      → ((m : HttpExecutionMetrics) (w' : W) → stored (next m w').1 ≡ stored w')
      → stored (after_round std rt call next (r, w)).1 ≡ stored w
  after_round_keeps next (finished m r) w h = refl
  after_round_keeps next (again m) w h = h m w

  pub attempts_from_keeps :
      (left attempt : ℕ) (m : HttpExecutionMetrics) (w : W)
      → stored (attempts_from std rt call left attempt m w).1 ≡ stored w
  unfolding attempts_from
  attempts_from_keeps zero attempt m w = refl
  attempts_from_keeps (suc left) attempt m w =
      let (r, w') = round std rt call attempt m w in
      after_round_keeps (attempts_from std rt call left (suc attempt)) r w'
        (attempts_from_keeps left (suc attempt))
      ∙ round_keeps attempt m w
