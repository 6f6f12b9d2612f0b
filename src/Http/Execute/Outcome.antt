-- ===== src/Http/Execute/Outcome.antt =====
-- How an HTTP action ends (ExecuteWithMetrics of internal/engine/http_executor.go).
use resource_action_operator.Prelude.{
  ℕ, zero, suc, ◌+◌, ◌≤◌, ◌≡◌, refl, sym, ap, subst, ◌∙◌, ◌⊎◌, inl, inr, arith, String, Option,
  none, some, List, true, Result, Result-cases, ok, err, Check, Error, ◌>>=◌, >>=_iff, >>-ok, wrap,
  wrap-ok, ok-injective, expected_status_regex,
}
use resource_action_operator.Prelude.Int.{ℤ, pos, negsuc}
use resource_action_operator.Prelude.Text.{itoa}
use resource_action_operator.Api.{ActionSpec, RetrySpec}
use resource_action_operator.Std.{Std, Unstructured, Regexp}
use resource_action_operator.Runtime.{Runtime, Transport}
use resource_action_operator.Http.Policy.{validate_target_url}
use resource_action_operator.Http.Transport.{build_transport}
use resource_action_operator.Http.Attempts.{
  HttpExecutionMetrics, no_metrics, Call, Ended, returned, exhausted, attempts_from,
}
use resource_action_operator.Http.Attempts.Counts.{Returns, attempts_from_counts}
use resource_action_operator.Http.Attempts.Repeated.{Attempts}
use resource_action_operator.Http.Execute.{
  max_attempts, attempts_of, expected_pattern, render_body, prepare, behind_loop, run_call,
  execute_with_metrics,
}

attempts_of_pos : (n : ℤ) → (k : ℕ) × (attempts_of n ≡ suc k)
attempts_of_pos (pos zero) = (0, refl)
attempts_of_pos (pos (suc n)) = (n, refl)
attempts_of_pos (negsuc n) = (0, refl)

max_attempts_pos : (retry : Option RetrySpec) → (k : ℕ) × (max_attempts retry ≡ suc k)
unfolding max_attempts
max_attempts_pos none = (0, refl)
max_attempts_pos (some retry) = attempts_of_pos retry.max_attempts

module _ {W : Type 0} (std : Std) (rt : Runtime W) (action : ActionSpec) where
  -- What a prepared call takes from the action.
  pub record IsPrepared (call : Call) : Type 0 where
    limit : call.max_attempts ≡ max_attempts action.retry
    compiled : std.compile (expected_pattern action) ≡ ok call.expected
    target : validate_target_url std action.url action.url_policy ≡ ok tt

  prepare-IsPrepared :
      (obj : Unstructured) (headers : List (String × String)) (started_at : ℕ)
      (transport : Transport) (call : Call)
      → prepare std rt action obj headers started_at transport ≡ ok call
      → IsPrepared call
  unfolding prepare
  prepare-IsPrepared obj headers started_at transport call h =
      let (body, rendered, h1) = (>>=_iff (render_body std action.body obj) _ call).0 h in
      let (re, compiled, h2) =
        (>>=_iff (wrap expected_status_regex (std.compile (expected_pattern action))) _ call).0
          h1 in
      let (target, h3) = >>-ok (validate_target_url std action.url action.url_policy) _ h2 in
      let same : _ ≡ call = ok-injective h3 in
      record {
        limit = sym (ap (λ c. c.max_attempts) same);
        compiled = wrap-ok _ _ compiled ∙ ap (λ (c : Call). ok c.expected) same;
        target = target;
      }

  -- An action that was sent.
  pub record IsSent (m : HttpExecutionMetrics) (r : Check) : Type 0 where
    pub at_least_one : 1 ≤ m.attempts
    pub at_most : m.attempts ≤ max_attempts action.retry
    pub retried : m.attempts ≡ m.network_retry_count + m.status_retry_count + 1
    pub target : validate_target_url std action.url action.url_policy ≡ ok tt
    pub success :
        r ≡ ok tt
        → (re : Regexp) × (std.compile (expected_pattern action) ≡ ok re)
          × (re (itoa m.status_code) ≡ true)

  abbrev pub Sends : HttpExecutionMetrics × Check → Type 0
  Sends (m, r) = IsSent m r

  -- The attempts of a call with the limit of the action, the first one in the world `unsent`.
  abbrev pub IsAttempted : W → (HttpExecutionMetrics × Check) × W → Type 0
  IsAttempted unsent ((m, r), w) =
      (call : Call) × (call.max_attempts ≡ max_attempts action.retry)
      × Attempts std rt call 1 no_metrics unsent (returned m r, w)

  -- An error, no metrics, and the world in which nothing has been sent; or an action that was sent.
  abbrev pub Outcome : W → (HttpExecutionMetrics × Check) × W → Type 0
  Outcome unsent ((m, r), w) =
      ((e : Error) × (◌≡◌ {A = (HttpExecutionMetrics × Check) × W} ((m, r), w)
          ((no_metrics, err e), unsent)))
      ⊎ (IsSent m r × IsAttempted unsent ((m, r), w))

  behind_loop-IsSent :
      (call : Call) (ended : Ended) (w : W)
      → IsPrepared call
      → Returns std rt call ended
      → Sends (behind_loop std rt call (ended, w)).0
  behind_loop-IsSent call (returned m r) w p c = record {
    at_least_one = c.at_least_one;
    at_most = omega (arith, c.at_most, p.limit);
    retried = c.retried;
    target = p.target;
    success = λ h. (call.expected, p.compiled, c.success h);
  }
  behind_loop-IsSent call (exhausted m) w p c = elim c [ ]

  loop-Returns :
      (call : Call) (w : W)
      → IsPrepared call
      → Returns std rt call (attempts_from std rt call call.max_attempts 1 no_metrics w).0
  loop-Returns call w p =
      let (k, positive) = max_attempts_pos action.retry in
      let limit = p.limit ∙ positive in
      subst (λ n. Returns std rt call (attempts_from std rt call n 1 no_metrics w).0) (sym limit)
        (attempts_from_counts std rt call k 1 no_metrics w (omega arith) (omega arith))

  -- A prepared call is sent.
  pub run_call-IsSent :
      (call : Call) (w : W) → IsPrepared call → Sends (run_call std rt (ok call) w).0
  run_call-IsSent call w p =
      let (ended, w') = attempts_from std rt call call.max_attempts 1 no_metrics w in
      behind_loop-IsSent call ended w' p (loop-Returns call w p)

  pub IsPrepared-call :
      (obj : Unstructured) (headers : List (String × String)) (started_at : ℕ)
      (transport : Result Transport) (call : Call)
      → (transport >>= prepare std rt action obj headers started_at) ≡ ok call
      → IsPrepared call
  IsPrepared-call obj headers started_at (ok transport) call h =
      prepare-IsPrepared obj headers started_at transport call h
  IsPrepared-call obj headers started_at (err e) call h = cc

  blocked_call :
      (obj : Unstructured) (headers : List (String × String)) (started_at : ℕ)
      (transport : Result Transport) (w : W) {blocked : Error}
      → validate_target_url std action.url action.url_policy ≡ err blocked
      → (e : Error) × (run_call std rt
            (transport >>= prepare std rt action obj headers started_at)
            w
          ≡ ((no_metrics, err e), w))
  blocked_call obj headers started_at transport w h =
      elim (Result-cases (transport >>= prepare std rt action obj headers started_at)) [
        | inl (call, e) ↦
            absurd
              (let p = IsPrepared-call obj headers started_at transport call e in cc (h, p.target))
        | inr (x, e) ↦ (x, rw e)
      ]

  -- If the URL policy rejects the target of an action, the action fails, nothing is sent, and the
  -- world is left as the transport was built, after the clock and the Secrets were read.
  pub execute_with_metrics_blocked :
      (namespace : String) (obj : Unstructured) (headers : List (String × String)) (w : W)
      {blocked : Error}
      → validate_target_url std action.url action.url_policy ≡ err blocked
      → (e : Error) × (execute_with_metrics std rt action namespace obj headers w
          ≡ ((no_metrics, err e), (build_transport std rt namespace action.tls (rt.clock w).1).1))
  unfolding execute_with_metrics
  execute_with_metrics_blocked namespace obj headers w h =
      let (started_at, w') = rt.clock w in
      let (transport, w'') = build_transport std rt namespace action.tls w' in
      blocked_call obj headers started_at transport w'' h
