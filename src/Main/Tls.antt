-- ===== src/Main/Tls.antt =====
-- The TLS settings of the two servers of the manager (cmd/main.go).
use resource_action_operator.Prelude.{
  ◌≡◌, refl, Option, none, some, List, [], ◌∷◌, Bool, true, false, if◌then◌else◌,
}
use resource_action_operator.Main.{
  Flags, CertFiles, ServerTls, TlsOption, apply_option, tls_opts, with_watcher, manager_options,
}

-- A server applies its options to its configuration from the first to the last.
abbrev pub apply_options : List TlsOption → ServerTls → ServerTls
apply_options [] c = c
apply_options (opt ∷ opts) c = apply_options opts (apply_option opt c)

-- The certificate of a configuration, with a watcher set.
abbrev pub certificate_or : Option CertFiles → Option CertFiles → Option CertFiles
certificate_or none old = old
certificate_or (some watcher) old = some watcher

abbrev pub SetUp : Bool → Option CertFiles → ServerTls → List TlsOption → Type 0
SetUp http2 watcher c opts = apply_options opts c ≡ record {
  next_protos = if http2 then c.next_protos else "http/1.1" ∷ [];
  certificate = certificate_or watcher c.certificate;
}

watcher-SetUp :
    (http2 : Bool) (flags : Flags) (watcher : Option CertFiles) (c : ServerTls)
    → flags.enable_http2 ≡ http2
    → SetUp http2 watcher c (with_watcher (tls_opts flags) watcher)
unfolding with_watcher tls_opts apply_option
watcher-SetUp true flags none c h = rw h refl
watcher-SetUp true flags (some watcher) c h = rw h refl
watcher-SetUp false flags none c h = rw h refl
watcher-SetUp false flags (some watcher) c h = rw h refl

-- Whatever the configuration that the two servers of the manager start from, their options leave it
-- with HTTP/1.1 alone unless HTTP/2 is enabled, with the certificate of the watcher of that server
-- where it has one, and as it was otherwise.
pub manager_options_tls :
    (flags : Flags) (webhook_watcher metrics_watcher : Option CertFiles) (c : ServerTls)
    → let options = manager_options flags webhook_watcher metrics_watcher in
      SetUp flags.enable_http2 webhook_watcher c options.webhook_tls_opts
      × SetUp flags.enable_http2 metrics_watcher c options.metrics.tls_opts
unfolding manager_options
manager_options_tls flags webhook_watcher metrics_watcher c = (
  watcher-SetUp flags.enable_http2 flags webhook_watcher c refl,
  watcher-SetUp flags.enable_http2 flags metrics_watcher c refl,
)
