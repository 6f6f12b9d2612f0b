-- ===== src/Http/Execute/Frame.antt =====
-- An HTTP action leaves the stored ResourceActions alone (internal/engine/http_executor.go).
use resource_action_operator.Prelude.{
  ◌≡◌, refl, ◌∙◌, String, Option, none, some, List, Result, ok, err, ◌>>=◌, ◌==◌, ◌||◌, not,
  reject_if, ca_secret_empty, ca_pem_invalid, client_cert_missing,
}
use resource_action_operator.Api.{ActionSpec, TlsSpec, SecretKeyRef, TlsClientCertRef}
use resource_action_operator.Std.{Std, Unstructured}
use resource_action_operator.Runtime.{Runtime, lift}
use resource_action_operator.Matching.{lookup, value_or_empty}
use resource_action_operator.Runtime.Frame.{Keeps, >>=-KeepsIo}
use resource_action_operator.Http.Transport.{root_cas, client_certificate, build_transport}
use resource_action_operator.Http.Attempts.{
  Call, Ended, returned, exhausted, attempts_from, no_metrics,
}
use resource_action_operator.Http.Attempts.Frame.{attempts_from_keeps}
use resource_action_operator.Http.Execute.{prepare, behind_loop, run_call, execute_with_metrics}

module _ {W S : Type 0} (std : Std) (rt : Runtime W) (stored : W → S) (k : Keeps rt stored) where
  root_cas_keeps :
      (namespace : String) (ref : Option SecretKeyRef) (w : W)
      → stored (root_cas std rt namespace ref w).1 ≡ stored w
  unfolding root_cas
  root_cas_keeps namespace none = λ w. refl
  root_cas_keeps namespace (some ref) =
      >>=-KeepsIo rt stored (rt.get_secret ref.name namespace) _ (k.get_secret ref.name namespace)
        (λ data_of.
          let ca = value_or_empty (lookup ref.key data_of) in
          >>=-KeepsIo rt stored
            (lift (reject_if (ca == "") (ca_secret_empty namespace ref.name ref.key))) _ (λ w. refl)
            (λ _.
              >>=-KeepsIo rt stored
                (lift (reject_if (not (std.append_certs ca)) (ca_pem_invalid namespace ref.name))) _
                (λ w. refl) (λ _ w. refl)))

  client_certificate_keeps :
      (namespace : String) (ref : Option TlsClientCertRef) (w : W)
      → stored (client_certificate std rt namespace ref w).1 ≡ stored w
  unfolding client_certificate
  client_certificate_keeps namespace none = λ w. refl
  client_certificate_keeps namespace (some ref) =
      >>=-KeepsIo rt stored (rt.get_secret ref.name namespace) _ (k.get_secret ref.name namespace)
        (λ data_of.
          let cert = value_or_empty (lookup ref.cert_key data_of) in
          let key = value_or_empty (lookup ref.key_key data_of) in
          >>=-KeepsIo rt stored
            (lift (reject_if (cert == "" || key == "") (client_cert_missing namespace ref.name))) _
            (λ w. refl)
            (λ _. >>=-KeepsIo rt stored (lift (std.key_pair cert key)) _ (λ w. refl) (λ _ w. refl)))

  build_transport_keeps :
      (namespace : String) (tls : Option TlsSpec) (w : W)
      → stored (build_transport std rt namespace tls w).1 ≡ stored w
  unfolding build_transport
  build_transport_keeps namespace none = λ w. refl
  build_transport_keeps namespace (some tls) =
      >>=-KeepsIo rt stored (root_cas std rt namespace tls.ca_secret_ref) _
        (root_cas_keeps namespace tls.ca_secret_ref)
        (λ cas.
          >>=-KeepsIo rt stored (client_certificate std rt namespace tls.client_cert_secret_ref) _
            (client_certificate_keeps namespace tls.client_cert_secret_ref) (λ certificate w. refl))

  behind_loop_keeps :
      (call : Call) (ended : Ended) (w : W)
      → stored (behind_loop std rt call (ended, w)).1 ≡ stored w
  behind_loop_keeps call (returned m r) w = refl
  behind_loop_keeps call (exhausted m) w = k.clock w

  run_call_keeps : (call : Result Call) (w : W) → stored (run_call std rt call w).1 ≡ stored w
  run_call_keeps (err e) w = refl
  run_call_keeps (ok call) w =
      let (ended, w') = attempts_from std rt call call.max_attempts 1 no_metrics w in
      behind_loop_keeps call ended w'
      ∙ attempts_from_keeps std rt stored k call call.max_attempts 1 no_metrics w

  pub execute_with_metrics_keeps :
      (action : ActionSpec) (namespace : String) (obj : Unstructured)
      (headers : List (String × String)) (w : W)
      → stored (execute_with_metrics std rt action namespace obj headers w).1 ≡ stored w
  unfolding execute_with_metrics
  execute_with_metrics_keeps action namespace obj headers w =
      let (started_at, w') = rt.clock w in
      let (transport, w'') = build_transport std rt namespace action.tls w' in
      run_call_keeps (transport >>= prepare std rt action obj headers started_at) w''
      ∙ build_transport_keeps namespace action.tls w'
      ∙ k.clock w
