-- ===== src/Http/Attempts/Repeated.antt =====
-- When an attempt of an HTTP action is followed by another one (the loop of ExecuteWithMetrics of
-- internal/engine/http_executor.go).
use resource_action_operator.Prelude.{
  ℕ, zero, suc, ◌+◌, ◌<◌, ◌≡◌, refl, sym, subst, ◌↔◌, arith, any, true, false, ltb, ◌&&◌,
  Bool-cases, inl, inr, Result, ok, err, Check, Error, ltb→lt, lt→ltb,
}
use resource_action_operator.Prelude.Int.{pos, eqb_ℤ}
use resource_action_operator.Prelude.Text.{itoa}
use resource_action_operator.Std.{Std}
use resource_action_operator.Runtime.{Runtime, Response}
use resource_action_operator.Http.Attempts.{
  HttpExecutionMetrics, Call, is_retryable_net_err, retries_status, Round, finished, again, finish,
  wait, on_network_error, on_response, on_reply, on_request, round, Ended, returned, after_round,
  attempts_from,
}

module _ {W : Type 0} (std : Std) (rt : Runtime W) (call : Call) where
  abbrev pub IsAgain : Round → Type 0
  IsAgain (finished m r) = ⊥
  IsAgain (again m) = Unit

  -- A reply that another attempt may change: an error of the network that can pass, where those are
  -- retried, or a status that is not expected and is one of those that are retried.
  abbrev pub MayChange : Result Response → Type 0
  MayChange (err e) = (call.retry_on_network ≡ true) × (is_retryable_net_err std e ≡ true)
  MayChange (ok resp) =
      (call.expected (itoa resp.status_code) ≡ false)
      × (any (λ s. eqb_ℤ s (pos resp.status_code)) call.retry_on_status ≡ true)

  on_network_error_iff :
      (attempt : ℕ) (m : HttpExecutionMetrics) (e : Error) (w : W)
      → IsAgain (on_network_error std rt call attempt m e w).0
        ↔ ((attempt < call.max_attempts) × MayChange (err e))
  unfolding on_network_error wait finish
  on_network_error_iff attempt m e w =
      elim (Bool-cases
        (call.retry_on_network && ltb attempt call.max_attempts && is_retryable_net_err std e)) [
          | inl more ↦
              rw more ((λ h. (ltb→lt _ _ (ground arith), (ground arith, ground arith))), (λ h. tt))
          | inr ends ↦ rw ends ((λ h. elim h [ ]), (λ h. absurd (ground (arith, lt→ltb _ _ h.0))))
        ]

  on_response_iff :
      (attempt : ℕ) (m : HttpExecutionMetrics) (resp : Response) (w : W)
      → IsAgain (on_response std rt call attempt m resp w).0
        ↔ ((attempt < call.max_attempts) × MayChange (ok resp))
  unfolding on_response wait finish retries_status
  on_response_iff attempt m resp w = elim (Bool-cases (call.expected (itoa resp.status_code))) [
    | inl hit ↦ rw hit ((λ h. elim h [ ]), (λ h. cc))
    | inr miss ↦
        elim (Bool-cases (
          any (λ s. eqb_ℤ s (pos resp.status_code)) call.retry_on_status
          && ltb attempt call.max_attempts)) [
            | inl more ↦
                rw (miss, more)
                  ((λ h. (ltb→lt _ _ (ground arith), (refl, ground arith))), (λ h. tt))
            | inr ends ↦
                rw (miss, ends) ((λ h. elim h [ ]), (λ h. absurd (ground (arith, lt→ltb _ _ h.0))))
          ]
  ]

  on_reply_iff :
      (attempt : ℕ) (m : HttpExecutionMetrics) (reply : Result Response) (w : W)
      → IsAgain (on_reply std rt call attempt m reply w).0
        ↔ ((attempt < call.max_attempts) × MayChange reply)
  on_reply_iff attempt m (ok resp) w = on_response_iff attempt m resp w
  on_reply_iff attempt m (err e) w = on_network_error_iff attempt m e w

  -- What an attempt in a world must be for another one to follow: it is not the last one allowed, its
  -- request can be built, and its reply may change.
  abbrev pub IsRepeated : ℕ → W → Type 0
  IsRepeated attempt w =
      (std.new_request call.request.method call.request.url ≡ ok tt)
      × (attempt < call.max_attempts)
      × MayChange (rt.send call.transport call.timeout call.request w).0

  on_request_iff :
      (attempt : ℕ) (m : HttpExecutionMetrics) (built : Check) (w : W)
      → IsAgain (on_request std rt call attempt m built w).0 ↔ (
          (built ≡ ok tt)
          × (attempt < call.max_attempts)
          × MayChange (rt.send call.transport call.timeout call.request w).0)
  unfolding finish
  on_request_iff attempt m (ok _) w =
      let (reply, w') = rt.send call.transport call.timeout call.request w in
      let step = on_reply_iff attempt m reply w' in
      ((λ h. let (more, change) = step.0 h in (refl, more, change)), (λ h. step.1 (h.1, h.2)))
  on_request_iff attempt m (err e) w = ((λ h. elim h [ ]), (λ h. cc))

  -- Another attempt follows exactly if the request can be built, the attempt is not the last one
  -- allowed, and its reply is an error of the network that can pass, where those are retried, or a
  -- status that is not expected and is one of those that are retried.
  pub round_iff :
      (attempt : ℕ) (m : HttpExecutionMetrics) (w : W)
      → IsAgain (round std rt call attempt m w).0 ↔ IsRepeated attempt w
  unfolding round
  round_iff attempt m w =
      on_request_iff attempt (record m { attempts = attempt })
        (std.new_request call.request.method call.request.url) w

  -- The attempts of a call, from one on: each one but the last is repeated, and the last one ends it.
  pub data Attempts : ℕ → HttpExecutionMetrics → W → Ended × W → Type 0 where
    stops :
        {attempt : ℕ} {m m' : HttpExecutionMetrics} {r : Check} {w w' : W}
        → ¬ IsRepeated attempt w
        → round std rt call attempt m w ≡ (finished m' r, w')
        → Attempts attempt m w (returned m' r, w')
    repeats :
        {attempt : ℕ} {m m' : HttpExecutionMetrics} {w w' : W} {p : Ended × W}
        → IsRepeated attempt w
        → round std rt call attempt m w ≡ (again m', w')
        → Attempts (suc attempt) m' w' p
        → Attempts attempt m w p

  after_round-Attempts :
      (next : HttpExecutionMetrics → W → Ended × W) (attempt : ℕ) (m : HttpExecutionMetrics) (w : W)
      (r : Round) (w' : W)
      → round std rt call attempt m w ≡ (r, w')
      → ((m' : HttpExecutionMetrics)
          → IsRepeated attempt w
          → Attempts (suc attempt) m' w' (next m' w'))
      → Attempts attempt m w (after_round std rt call next (r, w'))
  after_round-Attempts next attempt m w (finished m' r) w' own rest =
      stops (λ repeated. subst (λ p. IsAgain p.0) own ((round_iff attempt m w).1 repeated)) own
  after_round-Attempts next attempt m w (again m') w' own rest =
      let repeated = (round_iff attempt m w).0 (subst (λ p. IsAgain p.0) (sym own) tt) in
      repeats repeated own (rest m' repeated)

  loop-Attempts :
      (left attempt : ℕ) (m : HttpExecutionMetrics) (w : W)
      → attempt + left ≡ call.max_attempts
      → Attempts attempt m w (attempts_from std rt call (suc left) attempt m w)
  unfolding attempts_from
  loop-Attempts zero attempt m w fuel =
      let (r, w') = round std rt call attempt m w in
      after_round-Attempts _ attempt m w r w' refl
        (λ m' repeated. absurd (let more = repeated.1 in omega arith))
  loop-Attempts (suc left) attempt m w fuel =
      let (r, w') = round std rt call attempt m w in
      after_round-Attempts _ attempt m w r w' refl
        (λ m' repeated. loop-Attempts left (suc attempt) m' w' (omega arith))

  -- For at least one attempt that is allowed, the loop is a sequence of attempts that ends. Each one
  -- but the last is repeated: it is not the last one allowed, its request can be built, and its reply
  -- is an error of the network that can pass, where those are retried, or a status that is not
  -- expected and is one of those that are retried. The last one is not, and its result is returned.
  pub attempts_from-Attempts :
      (k : ℕ) (m : HttpExecutionMetrics) (w : W)
      → call.max_attempts ≡ suc k
      → Attempts 1 m w (attempts_from std rt call call.max_attempts 1 m w)
  attempts_from-Attempts k m w allowed =
      subst (λ n. Attempts 1 m w (attempts_from std rt call n 1 m w)) (sym allowed)
        (loop-Attempts k 1 m w (omega arith))
