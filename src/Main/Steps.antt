-- ===== src/Main/Steps.antt =====
-- The setup of the operator as a list of calls (cmd/main.go).
use resource_action_operator.Prelude.{
  ◌≡◌, refl, ◌∙◌, inl, inr, String, Option, none, some, List, [], ◌∷◌, ◌++◌, Bool, true, false,
  ◌==◌, Bool-cases, Result, ok, err, Check, Error, wrap, if◌then◌else◌, setup_failed, scheme_panic,
}
use resource_action_operator.Runtime.{Io, pure, continue, ◌>>=◌, ◌>>◌}
use resource_action_operator.Engine.{new_engine}
use resource_action_operator.Main.{
  Flags, CertFiles, K8sExecutor, k8s_executor, manager_options, Call, add_client_go_to_scheme,
  own_types, new_cert_watcher, get_config, new_manager, new_clientset, new_dynamic_client,
  new_discovery_client, complete_controller, complete_webhook, add_runnable, add_healthz_check,
  add_readyz_check, start, or_exit, or_panic, init, watch_certs, new, setup_webhook, add_watcher,
  main, program,
}

-- What an error of a call does: it ends the program, as this error, or it is dropped.
pub data OnError : Type 0 where
  fatal : (Error → Error) → OnError
  dropped : OnError

-- The files that are watched, and the calls that are made only with certain flags.
abbrev pub watched : String → CertFiles → Option CertFiles
watched path files = if path == "" then none else some files

abbrev pub watch_steps : String → Option CertFiles → List (Call × OnError)
watch_steps message none = []
watch_steps message (some files) = (new_cert_watcher files, fatal (setup_failed message)) ∷ []

abbrev pub webhook_steps : Bool → List (Call × OnError)
webhook_steps false = []
webhook_steps true = (complete_webhook, fatal (setup_failed "unable to create webhook")) ∷ []

abbrev pub watcher_steps : Option CertFiles → List (Call × OnError)
watcher_steps none = []
watcher_steps (some files) = (add_runnable files, dropped) ∷ []

abbrev pub engine_failed : Error → Error
engine_failed = setup_failed "unable to create event engine"

module _ (join : String → String → String) (flags : Flags) where
  abbrev pub webhook_files : CertFiles
  webhook_files = record {
    cert = join flags.webhook_cert_path flags.webhook_cert_name;
    key = join flags.webhook_cert_path flags.webhook_cert_key;
  }

  abbrev pub metrics_files : CertFiles
  metrics_files = record {
    cert = join flags.metrics_cert_path flags.metrics_cert_name;
    key = join flags.metrics_cert_path flags.metrics_cert_key;
  }

  -- The calls of the setup; the start of the manager is the last one.
  abbrev pub setup_steps : List (Call × OnError)
  setup_steps =
      let webhook_watcher = watched flags.webhook_cert_path webhook_files in
      let metrics_watcher = watched flags.metrics_cert_path metrics_files in
      (add_client_go_to_scheme, fatal scheme_panic)
      ∷ (own_types, fatal scheme_panic)
      ∷ (watch_steps "failed to init webhook cert watcher" webhook_watcher
          ++ (watch_steps "failed to init metrics cert watcher" metrics_watcher
              ++ (get_config, fatal (λ e. e))
                ∷ (
                  new_manager (manager_options flags webhook_watcher metrics_watcher),
                  fatal (setup_failed "unable to start manager"),
                )
                ∷ (new_clientset, fatal (setup_failed "unable to create kubernetes clientset"))
                ∷ (new_dynamic_client, fatal engine_failed)
                ∷ (new_discovery_client, fatal engine_failed)
                ∷ (
                  complete_controller "resourceaction",
                  fatal (setup_failed "unable to create controller"),
                )
                ∷ (webhook_steps flags.enable_webhook
                    ++ (watcher_steps metrics_watcher
                        ++ (watcher_steps webhook_watcher
                            ++ (
                              add_healthz_check "healthz",
                              fatal (setup_failed "unable to set up health check"),
                            )
                              ∷ (
                                add_readyz_check "readyz",
                                fatal (setup_failed "unable to set up ready check"),
                              )
                              ∷ (start, fatal (setup_failed "problem running manager"))
                              ∷ [])))))

module _ {W : Type 0} (join : String → String → String) (call : Call → W → Check × W) where
  abbrev pub after_step : OnError → Check → Io W (Unit {0}) → Io W (Unit {0})
  after_step dropped r next w = next w
  after_step (fatal f) (ok _) next w = next w
  after_step (fatal f) (err e) next w = (err (f e), w)

  -- The calls of a list, until one fails whose error is fatal.
  abbrev pub run_steps : List (Call × OnError) → Io W (Unit {0})
  run_steps [] w = (ok tt, w)
  run_steps ((c, on_error) ∷ steps) w =
      let (r, w') = call c w in after_step on_error r (run_steps steps) w'

  continue_assoc :
      {A B : Type 0} (r : Result A) (f : A → Io W B) (g : B → Io W (Unit {0})) (w : W)
      → continue (continue r f w).0 g (continue r f w).1 ≡ continue r (λ a. f a >>= g) w
  continue_assoc (ok a) f g w = refl
  continue_assoc (err e) f g w = refl

  -- A computation is a list of steps.
  record IsSteps (m : Io W (Unit {0})) (steps : List (Call × OnError)) : Type 0 where
    runs : (w : W) → m w ≡ run_steps steps w

  checked :
      (f : Error → Error) (r : Check) (k : Io W (Unit {0})) (steps : List (Call × OnError)) (w : W)
      → IsSteps k steps
      → continue (wrap f r) (λ _. k) w ≡ after_step (fatal f) r (run_steps steps) w
  checked f (ok _) k steps w rest = rest.runs w
  checked f (err e) k steps w rest = refl

  or_exit-IsSteps :
      (message : String) (c : Call) (k : Io W (Unit {0})) (steps : List (Call × OnError))
      → IsSteps k steps
      → IsSteps
          (or_exit join call message (call c) >> k)
          ((c, fatal (setup_failed message)) ∷ steps)
  or_exit-IsSteps message c k steps rest = record {
    runs = λ w. let (r, w') = call c w in checked (setup_failed message) r k steps w' rest;
  }

  or_panic-IsSteps :
      (c : Call) (k : Io W (Unit {0})) (steps : List (Call × OnError))
      → IsSteps k steps
      → IsSteps (or_panic join call (call c) >> k) ((c, fatal scheme_panic) ∷ steps)
  or_panic-IsSteps c k steps rest = record {
    runs = λ w. let (r, w') = call c w in checked scheme_panic r k steps w' rest;
  }

  call-IsSteps :
      (c : Call) (k : Io W (Unit {0})) (steps : List (Call × OnError))
      → IsSteps k steps
      → IsSteps (call c >> k) ((c, fatal (λ e. e)) ∷ steps)
  call-IsSteps c k steps rest = record { runs = λ w. let (r, w') = call c w in plain r w' }
    where
      plain :
          (r : Check) (w' : W)
          → continue r (λ _. k) w' ≡ after_step (fatal (λ e. e)) r (run_steps steps) w'
      plain (ok _) w' = rest.runs w'
      plain (err e) w' = refl

  watch_certs-IsSteps :
      (message path : String) (files : CertFiles) (k : Option CertFiles → Io W (Unit {0}))
      (steps : List (Call × OnError))
      → IsSteps (k (watched path files)) steps
      → IsSteps
          (watch_certs join call message path files >>= k)
          (watch_steps message (watched path files) ++ steps)
  unfolding watch_certs
  watch_certs-IsSteps message path files k steps rest = record {
    runs = λ w. elim (Bool-cases (path == "")) [
      | inl none' ↦ rw none' ((rw none' at rest.runs) w)
      | inr some' ↦
          rw some'
            (let (r, w') = call (new_cert_watcher files) w in watching r w' (rw some' at rest.runs))
    ];
  }
    where
      watching :
          (r : Check) (w' : W)
          → ((v : W) → k (some files) v ≡ run_steps steps v)
          → continue
              (continue (wrap (setup_failed message) r) (λ _. pure (some files)) w').0
              k
              (continue (wrap (setup_failed message) r) (λ _. pure (some files)) w').1
            ≡ after_step (fatal (setup_failed message)) r (run_steps steps) w'
      watching (ok _) w' rest' = rest' w'
      watching (err e) w' rest' = refl

  init-IsSteps :
      (k : Io W (Unit {0})) (steps : List (Call × OnError))
      → IsSteps k steps
      → IsSteps
          (init join call >> k)
          ((add_client_go_to_scheme, fatal scheme_panic) ∷ (own_types, fatal scheme_panic) ∷ steps)
  unfolding init
  init-IsSteps k steps rest = record {
    runs = λ w.
        let (r, w') = call add_client_go_to_scheme w in
        continue_assoc (wrap scheme_panic r) _ (λ _. k) w'
        ∙ checked scheme_panic r _ ((own_types, fatal scheme_panic) ∷ steps) w'
            (or_panic-IsSteps own_types k steps rest);
  }

  new-IsSteps :
      (e : K8sExecutor) (k : Io W (Unit {0})) (steps : List (Call × OnError))
      → IsSteps k steps
      → IsSteps
          (or_exit join call "unable to create event engine" (new join call (k8s_executor e))
            >>= λ _. k)
          ((new_dynamic_client, fatal engine_failed)
            ∷ (new_discovery_client, fatal engine_failed)
            ∷ steps)
  unfolding new
  new-IsSteps e k steps rest = record {
    runs = λ w. let (r, w') = call new_dynamic_client w in dynamic r w';
  }
    where
      discovery :
          (r : Check) (w' : W)
          → continue
              (wrap engine_failed (continue r (λ _ v. (ok new_engine, v)) w').0)
              (λ _. k)
              (continue r (λ _ v. (ok new_engine, v)) w').1
            ≡ after_step (fatal engine_failed) r (run_steps steps) w'
      discovery (ok _) w' = rest.runs w'
      discovery (err x) w' = refl

      dynamic :
          (r : Check) (w' : W)
          → (or_exit join call "unable to create event engine"
                  (λ v. continue r (λ _. call new_discovery_client >> (λ u. (ok new_engine, u))) v)
                >>= λ _. k)
              w'
            ≡ after_step
                (fatal engine_failed)
                r
                (run_steps ((new_discovery_client, fatal engine_failed) ∷ steps))
                w'
      dynamic (ok _) w' = let (r, w'') = call new_discovery_client w' in discovery r w''
      dynamic (err x) w' = refl

  setup_webhook-IsSteps :
      (enabled : Bool) (k : Io W (Unit {0})) (steps : List (Call × OnError))
      → IsSteps k steps
      → IsSteps (setup_webhook join call enabled >> k) (webhook_steps enabled ++ steps)
  unfolding setup_webhook
  setup_webhook-IsSteps false k steps rest = record { runs = λ w. rest.runs w }
  setup_webhook-IsSteps true k steps rest = or_exit-IsSteps _ complete_webhook k steps rest

  add_watcher-IsSteps :
      (watcher : Option CertFiles) (k : Io W (Unit {0})) (steps : List (Call × OnError))
      → IsSteps k steps
      → IsSteps (add_watcher join call watcher >> k) (watcher_steps watcher ++ steps)
  unfolding add_watcher
  add_watcher-IsSteps none k steps rest = record { runs = λ w. rest.runs w }
  add_watcher-IsSteps (some files) k steps rest = record {
    runs = λ w. rest.runs (call (add_runnable files) w).1;
  }

  start-IsSteps :
      IsSteps
        (or_exit join call "problem running manager" (call start))
        ((start, fatal (setup_failed "problem running manager")) ∷ [])
  start-IsSteps = record { runs = λ w. let (r, w') = call start w in ended r w' }
    where
      ended :
          (r : Check) (w' : W)
          → (wrap (setup_failed "problem running manager") r, w')
            ≡ after_step (fatal (setup_failed "problem running manager")) r (run_steps []) w'
      ended (ok _) w' = refl
      ended (err x) w' = refl

  ruleset step_rules = (
    init-IsSteps, watch_certs-IsSteps, call-IsSteps, or_exit-IsSteps, new-IsSteps,
    setup_webhook-IsSteps, add_watcher-IsSteps, start-IsSteps,
  )

  program-IsSteps : (flags : Flags) → IsSteps (program join call flags) (setup_steps join flags)
  unfolding program main
  program-IsSteps flags = search (step_rules) depth 14

  -- The program makes the calls of its setup in their order and nothing else: it adds the types to
  -- the scheme, watches the certificates that have a path, makes the manager with its options, the
  -- clients, the controller, the webhook if it is enabled, adds the watchers and the two checks, and
  -- starts the manager last. The first call that fails ends it with the error of its place, except
  -- that an error of adding a watcher is dropped.
  pub program-eq-run_steps :
      (flags : Flags) (w : W) → program join call flags w ≡ run_steps (setup_steps join flags) w
  program-eq-run_steps flags = (program-IsSteps flags).runs
