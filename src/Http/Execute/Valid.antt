-- ===== src/Http/Execute/Valid.antt =====
-- How an HTTP action ends that the validation let through: validateHTTPAction of
-- api/v1alpha1/validation.go before ExecuteWithMetrics of internal/engine/http_executor.go.
use resource_action_operator.Prelude.{
  ℕ, ◌≡◌, ◌≢◌, refl, ◌⊎◌, inl, inr, String, List, Bool-cases, ◌==◌, Result, ok, err, Check, Error,
  ◌>>=◌, >>=-err, >>-err, wrap, expected_status_regex,
}
use resource_action_operator.Prelude.Text.{ne_iff}
use resource_action_operator.Api.{ActionSpec}
use resource_action_operator.Std.{Std, Unstructured, Regexp}
use resource_action_operator.Runtime.{Runtime, Transport}
use resource_action_operator.Validation.Http.{validate_http_action}
use resource_action_operator.Validation.Http.Accepted.{
  Compiles, IsValidHttp, validate_http_action_iff,
}
use resource_action_operator.Http.Policy.{validate_target_url}
use resource_action_operator.Http.Policy.Valid.{IsRefusal, validate_target_url_valid}
use resource_action_operator.Http.Transport.{build_transport}
use resource_action_operator.Http.Attempts.{HttpExecutionMetrics, no_metrics, Call}
use resource_action_operator.Http.Execute.{
  expected_pattern, render_body, prepare, run_call, execute_with_metrics,
}
use resource_action_operator.Http.Execute.Outcome.{
  IsPrepared, IsPrepared-call, IsSent, run_call-IsSent,
}

module _ {W : Type 0} (std : Std) (rt : Runtime W) (action : ActionSpec) where
  expected_pattern-Compiles :
      IsValidHttp std action → Compiles std "^2..$" → Compiles std (expected_pattern action)
  unfolding expected_pattern
  expected_pattern-Compiles valid default = elim (Bool-cases (action.expected_status == "")) [
    | inl empty ↦ rw empty default
    | inr given ↦ elim valid.expected [
      | inl empty ↦ absurd ((ne_iff _ _).0 given empty)
      | inr compiles ↦ rw given compiles
    ]
  ]

  compiled-not_err :
      (compiled : Result Regexp) (re : Regexp) {e : Error}
      → compiled ≡ ok re
      → wrap expected_status_regex compiled ≢ err e
  compiled-not_err (ok _) re h = λ failed. cc
  compiled-not_err (err x) re h = λ failed. cc

  -- Why nothing was sent.
  pub data IsCause (transport : Result Transport) (obj : Unstructured) (e : Error) : Type 0 where
    no_transport : transport ≡ err e → IsCause transport obj e
    no_body : render_body std action.body obj ≡ err e → IsCause transport obj e
    refused :
        validate_target_url std action.url action.url_policy ≡ err e
        → IsRefusal e
        → IsCause transport obj e

  prepare-IsCause :
      (built : Result Transport) (obj : Unstructured) (headers : List (String × String))
      (started_at : ℕ) (transport : Transport) (e : Error)
      → IsValidHttp std action
      → Compiles std "^2..$"
      → prepare std rt action obj headers started_at transport ≡ err e
      → IsCause built obj e
  unfolding prepare
  prepare-IsCause built obj headers started_at transport e valid default h =
      let (re, compiles) = expected_pattern-Compiles valid default in
      elim (>>=-err (render_body std action.body obj) _ h) [
        | inl body ↦ no_body body
        | inr (body, rendered, h1) ↦
            elim (>>=-err (wrap expected_status_regex (std.compile (expected_pattern action))) _
              h1) [
                | inl failed ↦ absurd (compiled-not_err _ re compiles failed)
                | inr (compiled, same, h2) ↦
                    elim (>>-err (validate_target_url std action.url action.url_policy) _ h2) [
                      | inl target ↦
                          refused target (validate_target_url_valid std action e valid target)
                      | inr done ↦ absurd (cc)
                    ]
              ]
      ]

  call-IsCause :
      (transport : Result Transport) (obj : Unstructured) (headers : List (String × String))
      (started_at : ℕ) (e : Error)
      → IsValidHttp std action
      → Compiles std "^2..$"
      → (transport >>= prepare std rt action obj headers started_at) ≡ err e
      → IsCause transport obj e
  call-IsCause transport obj headers started_at e valid default h =
      elim (>>=-err transport (prepare std rt action obj headers started_at) h) [
        | inl failed ↦ no_transport failed
        | inr (t, built, h1) ↦ prepare-IsCause transport obj headers started_at t e valid default h1
      ]

  -- The action was sent, or there is a cause why it was not.
  abbrev pub SentOrCaused : Result Transport → Unstructured → HttpExecutionMetrics × Check → Type 0
  SentOrCaused transport obj (m, r) =
      IsSent std rt action m r
      ⊎ ((m ≡ no_metrics) × ((e : Error) × (r ≡ err e) × IsCause transport obj e))

  run_call-SentOrCaused :
      (transport : Result Transport) (obj : Unstructured) (prepared : Result Call) (w : W)
      → ((call : Call) → prepared ≡ ok call → IsPrepared std rt action call)
      → ((e : Error) → prepared ≡ err e → IsCause transport obj e)
      → SentOrCaused transport obj (run_call std rt prepared w).0
  run_call-SentOrCaused transport obj (ok call) w sent caused =
      inl (run_call-IsSent std rt action call w (sent call refl))
  run_call-SentOrCaused transport obj (err e) w sent caused = inr (refl, (e, refl, caused e refl))

  -- If "^2..$" compiles, an http action that the validation accepts is sent, with all that holds of
  -- an action that was sent, or it fails with no metrics, for one of three causes: its transport
  -- cannot be built, its body cannot be rendered, or its host is blocked or not allowed.
  pub execute_with_metrics_valid :
      (i : ℕ) (namespace : String) (obj : Unstructured) (headers : List (String × String)) (w : W)
      → validate_http_action std i action ≡ ok tt
      → Compiles std "^2..$"
      → SentOrCaused
          (build_transport std rt namespace action.tls (rt.clock w).1).0
          obj
          (execute_with_metrics std rt action namespace obj headers w).0
  unfolding execute_with_metrics
  execute_with_metrics_valid i namespace obj headers w accepted default =
      let valid = (validate_http_action_iff std i action).0 accepted in
      let (started_at, w') = rt.clock w in
      let (transport, w'') = build_transport std rt namespace action.tls w' in
      run_call-SentOrCaused transport obj
        (transport >>= prepare std rt action obj headers started_at) w''
        (IsPrepared-call std rt action obj headers started_at transport)
        (λ e h. call-IsCause transport obj headers started_at e valid default h)
