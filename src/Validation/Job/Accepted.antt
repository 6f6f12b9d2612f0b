-- ===== src/Validation/Job/Accepted.antt =====
-- The job actions that validateJobAction (api/v1alpha1/validation.go) accepts, described without
-- its order of checks.
use resource_action_operator.Prelude.{
  ℕ, ◌≡◌, refl, sym, ◌∙◌, ◌≢◌, ◌↔◌, ◌⊎◌, inl, inr, String, Option, none, some, List, [], ◌∷◌, All,
  arith, Check, ok, ◌>>=◌, ◌>>◌, >>_iff, >>=_iff, ↔-trans, reject_if_iff, Bool, true, false, not,
  ◌&&◌, ◌==◌, eq_iff, is_some, is_empty, same,
}
use resource_action_operator.Prelude.Int.{ℤ}
use resource_action_operator.Prelude.Text.{is_blank, ne_iff}
use resource_action_operator.Api.{ActionSpec, JobSpec, JobEnvVar, JobVolumeMount, ValueFrom}
use resource_action_operator.Std.{Std}
use resource_action_operator.Validation.Each.{for_each_iff, validate_non_empty_strings_iff}
use resource_action_operator.Validation.Http.Accepted.{unless_empty_iff}
use resource_action_operator.Validation.Job.{
  validate_job_execution, has_secret_key_ref, check_env, validate_job_env, contains, check_mount,
  validate_job_volumes, validate_job_volume_mounts, is_negative, check_timeout, validate_job,
  check_job, validate_job_action,
}
use resource_action_operator.Validation.Job.Volumes.{
  IsValidVolume, Distinct, names, collected, validate_job_volumes_iff, contains-volumes,
}

abbrev pub NonBlank : List String → Type 0
NonBlank = All (λ s. is_blank s ≡ false)

-- A script that is not blank and no command or arguments, or a command and no script.
abbrev pub HasProgram : JobSpec → Type 0
HasProgram job =
    ((is_blank job.script ≡ false) × (is_empty job.command ≡ true) × (is_empty job.args ≡ true))
    ⊎ ((is_blank job.script ≡ true) × (is_empty job.command ≡ false) × NonBlank job.command)

program_iff :
    (blank : Bool) (command args : List String)
    → ((same (not blank) (not (is_empty command)) ≡ false)
        × ((not blank && not (is_empty args) ≡ false) × NonBlank command))
      ↔ (((blank ≡ false) × (is_empty command ≡ true) × (is_empty args ≡ true))
          ⊎ ((blank ≡ true) × (is_empty command ≡ false) × NonBlank command))
program_iff true [] args = ((λ h. cc (h.0)), (λ h. elim h [ inl p ↦ cc (p.0) | inr q ↦ cc (q.1) ]))
program_iff true (c ∷ cs) args = (
  (λ h. inr (refl, refl, h.1.1)),
  (λ h. elim h [ inl p ↦ cc (p.0) | inr q ↦ (refl, (refl, q.2)) ]),
)
program_iff false [] [] = ((λ h. inl (refl, refl, refl)), (λ h. (refl, (refl, tt))))
program_iff false [] (a ∷ args) =
    ((λ h. cc (h.1.0)), (λ h. elim h [ inl p ↦ cc (p.2) | inr q ↦ cc (q.0) ]))
program_iff false (c ∷ cs) args =
    ((λ h. cc (h.0)), (λ h. elim h [ inl p ↦ cc (p.1) | inr q ↦ cc (q.0) ]))

validate_job_execution_iff :
    (i : ℕ) (job : JobSpec) → (validate_job_execution i job ≡ ok tt) ↔ HasProgram job
unfolding validate_job_execution
validate_job_execution_iff i job =
    ↔-trans
      (>>_iff _ _ (reject_if_iff (same (not (is_blank job.script)) (not (is_empty job.command))) _)
        (>>_iff _ _ (reject_if_iff (not (is_blank job.script) && not (is_empty job.args)) _)
          (validate_non_empty_strings_iff i "job.command" job.command)))
      (program_iff (is_blank job.script) job.command job.args)

-- A named variable has a value, or a reference to a key of a Secret, and not both.
abbrev pub Supplied : String → Option ValueFrom → Type 0
Supplied value none = value ≢ ""
Supplied value (some from) = (value ≡ "") × (is_some from.secret_key_ref ≡ true)

abbrev pub IsValidEnv : JobEnvVar → Type 0
IsValidEnv env = (is_blank env.name ≡ false) × Supplied env.value env.value_from

Supplied-iff :
    (value : String) (from : Option ValueFrom)
    → ((same (not (value == "")) (is_some from) ≡ false)
        × (is_some from && not (has_secret_key_ref from) ≡ false))
      ↔ Supplied value from
Supplied-iff value none =
    ((λ h e. ground (arith, eq_iff value "")), (λ h. (ground (arith, ne_iff value ""), refl)))
Supplied-iff value (some from) = (
  (λ h. (ground (arith, eq_iff value ""), ground arith)),
  (λ h. (ground (arith, eq_iff value ""), ground arith)),
)

check_env_iff : (i j : ℕ) (env : JobEnvVar) → (check_env i j env ≡ ok tt) ↔ IsValidEnv env
unfolding check_env
check_env_iff i j env =
    ↔-trans
      (>>_iff _ _ (reject_if_iff (is_blank env.name) _) (
        >>_iff _ _ (reject_if_iff (same (not (env.value == "")) (is_some env.value_from)) _)
          (reject_if_iff (is_some env.value_from && not (has_secret_key_ref env.value_from)) _)))
      (
        (λ h. (h.0, (Supplied-iff env.value env.value_from).0 h.1)),
        (λ h. (h.0, (Supplied-iff env.value env.value_from).1 h.1)),
      )

validate_job_env_iff :
    (i : ℕ) (job : JobSpec)
    → (validate_job_env i job ≡ ok tt)
      ↔ (NonBlank job.args × (NonBlank job.interpreter_command × All IsValidEnv job.env))
unfolding validate_job_env
validate_job_env_iff i job = >>_iff _ _ (validate_non_empty_strings_iff i "job.args" job.args) (
    >>_iff _ _ (validate_non_empty_strings_iff i "job.interpreterCommand" job.interpreter_command)
      (for_each_iff (check_env i) (check_env_iff i) 0 job.env))

-- A mount names a volume of the job and a path.
abbrev pub IsValidMount : List String → JobVolumeMount → Type 0
IsValidMount volumes mount =
    (is_blank mount.name ≡ false)
    × (is_blank mount.mount_path ≡ false)
    × (contains volumes mount.name ≡ true)

check_mount_iff :
    (i j : ℕ) (volumes : List String) (mount : JobVolumeMount)
    → (check_mount i volumes j mount ≡ ok tt) ↔ IsValidMount volumes mount
unfolding check_mount
check_mount_iff i j volumes mount =
    ↔-trans
      (>>_iff _ _ (reject_if_iff (is_blank mount.name) _) (
        >>_iff _ _ (reject_if_iff (is_blank mount.mount_path) _)
          (reject_if_iff (not (contains volumes mount.name)) _)))
      ((λ h. (h.0, h.1.0, ground arith)), (λ h. (h.0, (h.1, ground arith))))

-- The loop returns the names of the volumes in another order.
mounts_iff :
    (i : ℕ) (job : JobSpec) (volumes : List String)
    → collected [] job.volumes ≡ volumes
    → (validate_job_volume_mounts i job volumes ≡ ok tt)
      ↔ All (IsValidMount (names job.volumes)) job.volume_mounts
unfolding validate_job_volume_mounts
mounts_iff i job volumes e =
    for_each_iff _
      (λ j mount.
        let same_names : contains volumes mount.name ≡ contains (names job.volumes) mount.name =
          rw (← e) (contains-volumes job.volumes mount.name) in
        ↔-trans (check_mount_iff i j volumes mount)
          ((λ h. (h.0, h.1, sym same_names ∙ h.2)), (λ h. (h.0, h.1, same_names ∙ h.2))))
      0 job.volume_mounts

volumes_and_mounts_iff :
    (i : ℕ) (job : JobSpec) (k : Check) {P : Type 0}
    → (k ≡ ok tt) ↔ P
    → ((validate_job_volumes i job >>= λ volumes. validate_job_volume_mounts i job volumes >> k)
        ≡ ok tt)
      ↔ ((All IsValidVolume job.volumes × Distinct (names job.volumes))
          × (All (IsValidMount (names job.volumes)) job.volume_mounts × P))
volumes_and_mounts_iff i job k p = ↔-trans (>>=_iff (validate_job_volumes i job) _ tt) (
  (λ (volumes, e, rest).
      let (valid, same_names) = (validate_job_volumes_iff i job volumes).0 e in
      (valid, (>>_iff _ _ (mounts_iff i job volumes same_names) p).0 rest)),
  (λ h. (
    collected [] job.volumes,
    (validate_job_volumes_iff i job _).1 (h.0, refl),
    (>>_iff _ _ (mounts_iff i job _ refl) p).1 h.1,
  )),
)

module _ (std : Std) where
  abbrev pub Parses : String → Type 0
  Parses duration = (d : ℤ) × (std.parse_duration duration ≡ ok d)

  check_timeout_iff :
      (i : ℕ) (timeout : String)
      → (check_timeout std i timeout ≡ ok tt) ↔ ((timeout ≡ "") ⊎ Parses timeout)
  check_timeout_iff i timeout = unless_empty_iff timeout _ (std.parse_duration timeout)

  pub record IsValidJob (job : JobSpec) : Type 0 where
    pub image : is_blank job.image ≡ false
    pub program : HasProgram job
    pub args : NonBlank job.args
    pub interpreter : NonBlank job.interpreter_command
    pub env : All IsValidEnv job.env
    pub volumes : All IsValidVolume job.volumes
    pub distinct : Distinct (names job.volumes)
    pub mounts : All (IsValidMount (names job.volumes)) job.volume_mounts
    pub timeout : (job.timeout ≡ "") ⊎ Parses job.timeout
    pub log_tail : is_negative job.log_tail_lines ≡ false

  -- A job passes the validation exactly when it has an image, a script or a command and not both, no
  -- arguments beside a script, no blank argument, command or interpreter word, variables with one
  -- value each, named volumes with one source and distinct names, mounts of those volumes, a timeout
  -- that is empty or parses, and no negative number of log lines.
  pub validate_job_iff : (i : ℕ) (job : JobSpec) → (validate_job std i job ≡ ok tt) ↔ IsValidJob job
  unfolding validate_job
  validate_job_iff i job =
      let conjunction = >>_iff _ _ (reject_if_iff (is_blank job.image) _) (
        >>_iff _ _ (validate_job_execution_iff i job) (
          >>_iff _ _ (validate_job_env_iff i job) (
            volumes_and_mounts_iff i job _ (
              >>_iff _ _ (check_timeout_iff i job.timeout)
                (reject_if_iff (is_negative job.log_tail_lines) _))))) in
      ↔-trans conjunction (
        (λ h. record {
          image = h.0;
          program = h.1.0;
          args = h.1.1.0.0;
          interpreter = h.1.1.0.1.0;
          env = h.1.1.0.1.1;
          volumes = h.1.1.1.0.0;
          distinct = h.1.1.1.0.1;
          mounts = h.1.1.1.1.0;
          timeout = h.1.1.1.1.1.0;
          log_tail = h.1.1.1.1.1.1;
        }),
        (λ h. (
          h.image,
          (
            h.program,
            (
              (h.args, (h.interpreter, h.env)),
              ((h.volumes, h.distinct), (h.mounts, (h.timeout, h.log_tail))),
            ),
          ),
        )),
      )

  -- The action has a job, which is valid, and no URL.
  abbrev pub HasValidJob : String → Option JobSpec → Type 0
  HasValidJob url none = ⊥
  HasValidJob url (some job) = (url ≡ "") × IsValidJob job

  job_action_iff :
      (i : ℕ) (type url : String) (job : Option JobSpec)
      → (check_job std i type url job ≡ ok tt) ↔ HasValidJob url job
  job_action_iff i type url none = ((λ h. cc), (λ h. elim h [ ]))
  job_action_iff i type url (some job) =
      ↔-trans (>>_iff _ _ (reject_if_iff (not (url == "")) _) (validate_job_iff i job))
        ((λ h. (ground (arith, eq_iff url ""), h.1)), (λ h. (ground (arith, eq_iff url ""), h.1)))

  pub validate_job_action_iff :
      (i : ℕ) (action : ActionSpec)
      → (validate_job_action std i action ≡ ok tt) ↔ HasValidJob action.url action.job
  unfolding validate_job_action
  validate_job_action_iff i action = job_action_iff i action.type action.url action.job
