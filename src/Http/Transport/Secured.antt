-- ===== src/Http/Transport/Secured.antt =====
-- The transports that buildTransport (internal/engine/http_executor.go) builds, described by the
-- Secrets that they need.
use resource_action_operator.Prelude.{
  ◌≡◌, refl, sym, ap, ◌≢◌, ◌↔◌, String, Option, none, some, List, true, not, ◌||◌, ◌==◌, arith,
  Result, ok, err, reject_if, reject_if-ok, ok-injective, ca_secret_empty, ca_pem_invalid,
  client_cert_missing,
}
use resource_action_operator.Prelude.Text.{ne_iff}
use resource_action_operator.Api.{TlsSpec, SecretKeyRef, TlsClientCertRef}
use resource_action_operator.Std.{Std}
use resource_action_operator.Runtime.{Runtime, Io, Transport, continue}
use resource_action_operator.Matching.{lookup, value_or_empty}
use resource_action_operator.Http.Transport.{
  base_transport, version_tls12, root_cas, client_certificate, build_transport,
}

-- What a step that succeeds and the rest of a chain give.
continue-ok {ℓ κ} :
    {W : Type 0} {A : Type ℓ} {B : Type κ} (r : Result A) (f : A → Io W B) (w : W) {b : B}
    → (continue r f w).0 ≡ ok b
    → (a : A) × (r ≡ ok a) × ((f a w).0 ≡ ok b)
continue-ok (ok a) f w h = (a, refl, h)
continue-ok (err e) f w h = cc

filled_value :
    (found : Option String) → value_or_empty found ≢ "" → found ≡ some (value_or_empty found)
filled_value none h = absurd (h refl)
filled_value (some value) h = refl

module _ {W : Type 0} (std : Std) (rt : Runtime W) (namespace : String)
    (secret : String → Result (List (String × String)))
    (read : (name : String) (w : W) → rt.get_secret name namespace w ≡ (secret name, w)) where
  -- A Secret has a value under a key that is not empty.
  abbrev pub HasValue : List (String × String) → String → String → Type 0
  HasValue data_of key value = (lookup key data_of ≡ some value) × (value ≢ "")

  -- The CA bundle: none is asked for, or its Secret has one that parses.
  abbrev pub RootsOf : Option SecretKeyRef → Option String → Type 0
  RootsOf none cas = cas ≡ none
  RootsOf (some ref) cas =
      (data_of : List (String × String)) × (ca : String) × (secret ref.name ≡ ok data_of)
      × HasValue data_of ref.key ca
      × (std.append_certs ca ≡ true)
      × (cas ≡ some ca)

  root_cas-RootsOf :
      (ref : Option SecretKeyRef) (w : W) (cas : Option String)
      → (root_cas std rt namespace ref w).0 ≡ ok cas
      → RootsOf ref cas
  unfolding root_cas
  root_cas-RootsOf none w cas h = sym (ok-injective h)
  root_cas-RootsOf (some ref) w cas h =
      let (data_of, stored, h1) = continue-ok (secret ref.name) _ w (rw (read ref.name w) at h) in
      let ca = value_or_empty (lookup ref.key data_of) in
      let (_, filled, h2) =
        continue-ok (reject_if (ca == "") (ca_secret_empty namespace ref.name ref.key)) _ w h1 in
      let (_, parsed, h3) =
        continue-ok (reject_if (not (std.append_certs ca)) (ca_pem_invalid namespace ref.name)) _ w
          h2 in
      let named = (ne_iff ca "").0 (reject_if-ok _ _ filled) in
      (
        data_of,
        ca,
        stored,
        (filled_value (lookup ref.key data_of) named, named),
        ground (arith, reject_if-ok (not (std.append_certs ca)) _ parsed),
        sym (ok-injective h3),
      )

  RootsOf-root_cas :
      (ref : Option SecretKeyRef) (w : W) (cas : Option String)
      → RootsOf ref cas
      → (root_cas std rt namespace ref w).0 ≡ ok cas
  unfolding root_cas
  RootsOf-root_cas none w cas h = ap ok (sym h)
  RootsOf-root_cas (some ref) w cas (data_of, ca, stored, (found, named), parsed, same) =
      rw (read ref.name w, stored, found, (ne_iff ca "").1 named, parsed) (ap ok (sym same))

  -- The client certificate: none is asked for, or its Secret has a certificate with its key.
  abbrev pub CertificateOf : Option TlsClientCertRef → Option (String × String) → Type 0
  CertificateOf none certificate = certificate ≡ none
  CertificateOf (some ref) certificate =
      (data_of : List (String × String)) × (cert : String) × (key : String) × (secret ref.name
        ≡ ok data_of)
      × HasValue data_of ref.cert_key cert
      × HasValue data_of ref.key_key key
      × (std.key_pair cert key ≡ ok tt)
      × (certificate ≡ some (cert, key))

  client_certificate-CertificateOf :
      (ref : Option TlsClientCertRef) (w : W) (certificate : Option (String × String))
      → (client_certificate std rt namespace ref w).0 ≡ ok certificate
      → CertificateOf ref certificate
  unfolding client_certificate
  client_certificate-CertificateOf none w certificate h = sym (ok-injective h)
  client_certificate-CertificateOf (some ref) w certificate h =
      let (data_of, stored, h1) = continue-ok (secret ref.name) _ w (rw (read ref.name w) at h) in
      let cert = value_or_empty (lookup ref.cert_key data_of) in
      let key = value_or_empty (lookup ref.key_key data_of) in
      let (_, filled, h2) =
        continue-ok (reject_if (cert == "" || key == "") (client_cert_missing namespace ref.name)) _
          w h1 in
      let (_, paired, h3) = continue-ok (std.key_pair cert key) _ w h2 in
      let both = reject_if-ok (cert == "" || key == "") _ filled in
      let cert_named = (ne_iff cert "").0 (ground arith) in
      let key_named = (ne_iff key "").0 (ground arith) in
      (
        data_of,
        cert,
        key,
        stored,
        (filled_value (lookup ref.cert_key data_of) cert_named, cert_named),
        (filled_value (lookup ref.key_key data_of) key_named, key_named),
        paired,
        sym (ok-injective h3),
      )

  CertificateOf-client_certificate :
      (ref : Option TlsClientCertRef) (w : W) (certificate : Option (String × String))
      → CertificateOf ref certificate
      → (client_certificate std rt namespace ref w).0 ≡ ok certificate
  unfolding client_certificate
  CertificateOf-client_certificate none w certificate h = ap ok (sym h)
  CertificateOf-client_certificate (some ref) w certificate
        (data_of, cert, key, stored, (found, named), (key_found, key_named), paired, same) =
      rw
        (
          read ref.name w,
          stored,
          found,
          key_found,
          (ne_iff cert "").1 named,
          (ne_iff key "").1 key_named,
          paired,
        )
        (ap ok (sym same))

  -- The transport of an action: without TLS settings the one with Go's defaults; with them a TLS
  -- configuration of version 1.2 at least, which verifies the server unless the action says not to,
  -- against the CA bundle and with the client certificate that the action names.
  abbrev pub IsTransport : Option TlsSpec → Transport → Type 0
  IsTransport none transport = transport ≡ base_transport
  IsTransport (some tls) transport =
      (cas : Option String) × (certificate : Option (String × String)) × RootsOf tls.ca_secret_ref
        cas
      × CertificateOf tls.client_cert_secret_ref certificate
      × (transport ≡ record base_transport {
        tls_client_config = some (record {
          min_version = version_tls12;
          insecure_skip_verify = tls.insecure_skip_verify;
          server_name = tls.server_name;
          root_cas = cas;
          certificate = certificate;
        });
      })

  -- While the Secrets of the namespace are the same at each read, and a read leaves the world as it
  -- is, a transport is built for TLS settings exactly when it is theirs: each Secret that they name
  -- has the values under its keys, the CA bundle parses and the certificate fits its key.
  pub build_transport_iff :
      (tls : Option TlsSpec) (w : W) (transport : Transport)
      → ((build_transport std rt namespace tls w).0 ≡ ok transport) ↔ IsTransport tls transport
  unfolding build_transport
  build_transport_iff none w transport = (λ h. sym (ok-injective h), λ h. ap ok (sym h))
  build_transport_iff (some tls) w transport = (
    λ h.
        let (cas, rooted, h1) =
          continue-ok (root_cas std rt namespace tls.ca_secret_ref w).0 _ _ h in
        let (certificate, certified, h2) =
          continue-ok
            (client_certificate std rt namespace tls.client_cert_secret_ref
              (root_cas std rt namespace tls.ca_secret_ref w).1).0
            _ _ h1 in
        (
          cas,
          certificate,
          root_cas-RootsOf tls.ca_secret_ref w cas rooted,
          client_certificate-CertificateOf tls.client_cert_secret_ref _ certificate certified,
          sym (ok-injective h2),
        ),
    λ (cas, certificate, rooted, certified, same).
        rw
          (
            RootsOf-root_cas tls.ca_secret_ref w cas rooted,
            CertificateOf-client_certificate tls.client_cert_secret_ref
                (root_cas std rt namespace tls.ca_secret_ref w).1 certificate certified,
          )
          (ap ok (sym same)),
  )
