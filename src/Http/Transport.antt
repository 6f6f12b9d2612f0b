-- ===== src/Http/Transport.antt =====
-- buildTransport (internal/engine/http_executor.go).
pub mod Secured
use resource_action_operator.Prelude.{
  ℕ, String, Option, none, some, true, not, ◌||◌, ◌==◌, reject_if, ca_secret_empty, ca_pem_invalid,
  client_cert_missing,
}
use resource_action_operator.Api.{TlsSpec, SecretKeyRef, TlsClientCertRef}
use resource_action_operator.Std.{Std}
use resource_action_operator.Runtime.{Runtime, Io, Transport, pure, lift, ◌>>=◌, ◌>>◌}
use resource_action_operator.Matching.{lookup, value_or_empty}

abbrev pub base_transport : Transport
base_transport = record {
  dial_timeout = 5;
  keep_alive = 30;
  force_attempt_http2 = true;
  max_idle_conns = 100;
  idle_conn_timeout = 90;
  tls_handshake_timeout = 10;
  tls_client_config = none;
}

-- tls.VersionTLS12
abbrev pub version_tls12 : ℕ
version_tls12 = 0x0303

module _ {W : Type 0} (std : Std) (rt : Runtime W) (namespace : String) where
  -- The CA bundle of a Secret: `sec.Data[key]` is empty where the key is missing.
  unfoldable pub root_cas : Option SecretKeyRef → Io W (Option String)
  unfolding lookup
  root_cas none = pure none
  root_cas (some ref) = do
    data_of ← rt.get_secret ref.name namespace
    let ca = value_or_empty (lookup ref.key data_of)
    lift (reject_if (ca == "") (ca_secret_empty namespace ref.name ref.key))
    lift (reject_if (not (std.append_certs ca)) (ca_pem_invalid namespace ref.name))
    pure (some ca)

  unfoldable pub client_certificate : Option TlsClientCertRef → Io W (Option (String × String))
  unfolding lookup
  client_certificate none = pure none
  client_certificate (some ref) = do
    data_of ← rt.get_secret ref.name namespace
    let cert = value_or_empty (lookup ref.cert_key data_of)
    let key = value_or_empty (lookup ref.key_key data_of)
    lift (reject_if (cert == "" || key == "") (client_cert_missing namespace ref.name))
    lift (std.key_pair cert key)
    pure (some (cert, key))

  unfoldable pub build_transport : Option TlsSpec → Io W Transport
  unfolding root_cas client_certificate
  build_transport none = pure base_transport
  build_transport (some tls) = do
    cas ← root_cas tls.ca_secret_ref
    certificate ← client_certificate tls.client_cert_secret_ref
    pure (record base_transport {
      tls_client_config = some (record {
        min_version = version_tls12;
        insecure_skip_verify = tls.insecure_skip_verify;
        server_name = tls.server_name;
        root_cas = cas;
        certificate = certificate;
      });
    })
