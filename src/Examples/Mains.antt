-- ===== src/Examples/Mains.antt =====
-- The setup of the operator (cmd/main.go), where the calls are noted and the webhook cannot be made.
use Prim.Native.String.{◌++◌}
use resource_action_operator.Prelude.{
  ◌≡◌, refl, String, some, none, List, [], ◌∷◌, true, ok, err, Check, length, external,
  setup_failed,
}
use resource_action_operator.Main.{
  Flags, default_flags, CertFiles, ServerTls, manager_options, Call, complete_webhook, program,
}
use resource_action_operator.Main.Steps.{run_steps, setup_steps, program-eq-run_steps}
use resource_action_operator.Main.Tls.{SetUp, manager_options_tls}

abbrev noted : Call → List Call → Check × List Call
noted complete_webhook calls = (err (external "no webhook"), complete_webhook ∷ calls)
noted c calls = (ok tt, c ∷ calls)

abbrev join : String → String → String
join dir name = dir ++ ("/" ++ name)

abbrev webhook_flags : Flags
webhook_flags = record default_flags { enable_webhook = true; webhook_cert_path = "/certs" }

-- The tenth call fails, and nothing is called after it.
webhook_fails :
    (program join noted webhook_flags []).0
    ≡ err (setup_failed "unable to create webhook" (external "no webhook"))
unfolding program
webhook_fails = refl

webhook_fails_calls : length (program join noted webhook_flags []).1 ≡ 10
unfolding program
webhook_fails_calls = refl

program-eq-run_steps_example :
    program join noted webhook_flags [] ≡ run_steps join noted (setup_steps join webhook_flags) []
program-eq-run_steps_example = program-eq-run_steps join noted webhook_flags []

abbrev webhook_files : CertFiles
webhook_files = record { cert = "/certs/tls.crt"; key = "/certs/tls.key" }

abbrev plain_tls : ServerTls
plain_tls = record { next_protos = "h2" ∷ []; certificate = none }

manager_options_tls_example :
    let options = manager_options webhook_flags (some webhook_files) none in
    SetUp webhook_flags.enable_http2 (some webhook_files) plain_tls options.webhook_tls_opts
    × SetUp webhook_flags.enable_http2 none plain_tls options.metrics.tls_opts
manager_options_tls_example = manager_options_tls webhook_flags (some webhook_files) none plain_tls
