-- ===== src/Jobs/Command.antt =====
-- resolveJobCommand (internal/engine/job_executor.go).
use resource_action_operator.Prelude.{
  String, List, [], ◌∷◌, not, Result, ok, err, is_empty, if◌then◌else◌, ◌≡◌, refl, inl, inr,
  job_command_required, false,
}
use resource_action_operator.Prelude.Text.{is_blank}
use resource_action_operator.Api.{JobSpec}
use resource_action_operator.Validation.Job.Accepted.{HasProgram}

abbrev interpreter : JobSpec → List String
interpreter job =
    if is_empty job.interpreter_command then "/bin/sh" ∷ "-c" ∷ [] else job.interpreter_command

non_empty_or_default {ℓ} :
    {A : Type ℓ} (xs ys : List A)
    → is_empty ys ≡ false
    → is_empty (if is_empty xs then ys else xs) ≡ false
non_empty_or_default [] ys h = h
non_empty_or_default (x ∷ xs) ys h = refl

-- A script is the one argument of its interpreter; otherwise the command runs with its arguments.
unfoldable pub resolve_job_command : JobSpec → Result (List String × List String)
resolve_job_command job =
    if not (is_blank job.script)
    then ok (interpreter job, job.script ∷ [])
    else if is_empty job.command
    then err job_command_required
    else ok (job.command, job.args)

-- A job that the validation accepts has a command to run.
pub resolve_job_command_valid :
    (job : JobSpec)
    → HasProgram job
    → (program : List String × List String) × (resolve_job_command job ≡ ok program)
      × (is_empty program.0 ≡ false)
unfolding resolve_job_command
resolve_job_command_valid job (inl script) = (
  (interpreter job, job.script ∷ []),
  rw (script.0),
  non_empty_or_default job.interpreter_command _ refl,
)
resolve_job_command_valid job (inr command) =
    ((job.command, job.args), rw (command.0, command.1), command.1)
