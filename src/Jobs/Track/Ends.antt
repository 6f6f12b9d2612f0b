-- ===== src/Jobs/Track/Ends.antt =====
-- How the tracking of a Job ends (trackJobExecution of internal/engine/job_executor.go).
use resource_action_operator.Prelude.{
  ◌≡◌, refl, sym, subst, ◌∙◌, inl, inr, String, Option, none, some, List, [], ◌∷◌, ◌++◌, any,
  length, arith, Bool, true, false, ◌&&◌, ◌||◌, ◌==◌, eq_iff, Bool-cases, ok, if◌then◌else◌,
}
use resource_action_operator.Api.{ResourceAction, JobSpec, ExecutionRecord, JobExecutionRecord}
use resource_action_operator.Kube.{KubeJob}
use resource_action_operator.Runtime.{Runtime}
use resource_action_operator.Matching.{MatchInput}
use resource_action_operator.Metrics.Frame.{observe_job_execution_keeps}
use resource_action_operator.Jobs.Track.{
  Wake, deadline, tick, is_final, is_execution_of, update_job_once, update_job_execution_record,
  collect_job_execution_details, timeout_record, observe_final, on_current, track_round,
  track_job_execution,
}
use resource_action_operator.Jobs.Track.Reported.{has_status, reports, AllOwn, update_reported}
use resource_action_operator.Executor.Run.Step.{IsStore}

-- An execution of the event and of the Job of a name, whose status is one of the last ones.
abbrev pub is_end : Option JobExecutionRecord → Bool
is_end none = false
is_end (some job) = is_final job.status || job.status == "Timeout"

abbrev pub is_settled : MatchInput → String → ExecutionRecord → Bool
is_settled input name exec = is_execution_of input name exec && is_end exec.job

any-imp :
    (p q : ExecutionRecord → Bool)
    → ((exec : ExecutionRecord) → p exec ≡ true → q exec ≡ true)
    → (execs : List ExecutionRecord) → any p execs ≡ true
    → any q execs ≡ true
any-imp p q imp [] h = h
any-imp p q imp (exec ∷ execs) h = ground (arith, imp exec, any-imp p q imp execs)

AllOwn-imp :
    (p q : ExecutionRecord → Bool) (ra : ResourceAction)
    → ((exec : ExecutionRecord) → p exec ≡ true → q exec ≡ true)
    → (ras : List ResourceAction) → AllOwn p ra ras
    → AllOwn q ra ras
AllOwn-imp p q ra imp [] h = tt
AllOwn-imp p q ra imp (x ∷ ras) h =
    (λ own. any-imp p q imp x.status.executions (h.0 own), AllOwn-imp p q ra imp ras h.1)

has_status-is_end :
    (status : String) (job : Option JobExecutionRecord)
    → (is_final status || status == "Timeout") ≡ true
    → has_status status job ≡ true
    → is_end job ≡ true
has_status-is_end status none final h = cc
has_status-is_end status (some job) final h = rw ((eq_iff job.status status).0 h) final

reports-is_settled :
    (input : MatchInput) (r : JobExecutionRecord) (name : String)
    → r.name ≡ name
    → (is_final r.status || r.status == "Timeout") ≡ true
    → (exec : ExecutionRecord) → reports input r exec ≡ true
    → is_settled input name exec ≡ true
reports-is_settled input r name named final exec h =
    subst (λ n. is_settled input n exec ≡ true) named
      (ground (arith, has_status-is_end r.status exec.job final))

module _ {W : Type 0} (rt : Runtime W) (ra : ResourceAction) (input : MatchInput) (job : KubeJob)
    (spec : JobSpec) where
  track : List Wake → W → W
  track = track_job_execution rt ra input job spec

  -- With a round that ends the loop it does not matter which wakes follow.
  same_rest :
      (goes_on : Bool) (a b c : W) → a ≡ b → (if goes_on then a else c) ≡ (if goes_on then b else c)
  same_rest goes_on a b c h = rw h refl

  -- The tracking has ended by its deadline: whatever wakes would come after it, there is nothing more
  -- that the goroutine does.
  pub track_job_execution_ends :
      (before after : List Wake) (w : W)
      → track_job_execution rt ra input job spec (before ++ deadline ∷ after) w
        ≡ track_job_execution rt ra input job spec (before ++ deadline ∷ []) w
  unfolding track_job_execution track_round
  track_job_execution_ends [] after w = refl
  track_job_execution_ends (wake ∷ before) after w =
      let (goes_on, w') = track_round rt ra input job spec wake w in
      same_rest goes_on _ _ w' (track_job_execution_ends before after w')

  module _ (stored : W → List ResourceAction) (store : IsStore rt stored)
      (succeeds : (r : JobExecutionRecord) (v : W)
        → (rt.retry_on_conflict (update_job_once rt ra input r) v).0 ≡ ok tt)
      (found : (v : W)
        → (current : KubeJob) × ((rt.get_job job.name job.namespace v).0 ≡ ok current)
          × (current.name ≡ job.name)) where
    abbrev Settled : W → Type 0
    Settled w = AllOwn (is_settled input job.name) ra (stored w)

    reported-Settled :
        (r : JobExecutionRecord) (w : W)
        → r.name ≡ job.name
        → (is_final r.status || r.status == "Timeout") ≡ true
        → Settled (update_job_execution_record rt ra input r w)
    reported-Settled r w named final =
        AllOwn-imp (reports input r) (is_settled input job.name) ra
          (reports-is_settled input r job.name named final) _
          (update_reported rt stored store ra input r w (succeeds r w))

    observe_final_keeps :
        (current : KubeJob) (r : JobExecutionRecord) (w : W)
        → stored (observe_final rt ra input job spec current r w) ≡ stored w
    unfolding observe_final
    observe_final_keeps current r w =
        observe_job_execution_keeps rt stored store.keeps _ _ (length r.log_tail) _
        ∙ store.keeps.clock w

    abbrev EndsSettled : Bool × W → Type 0
    EndsSettled p = p.0 ≡ false → Settled p.1

    current-EndsSettled :
        (current : KubeJob) (w : W)
        → current.name ≡ job.name
        → EndsSettled (on_current rt ra input job spec (ok current) w)
    unfolding on_current collect_job_execution_details
    current-EndsSettled current w named =
        let (r, w') = collect_job_execution_details rt current spec w in
        let w'' = update_job_execution_record rt ra input r w' in
        elim (Bool-cases (is_final r.status)) [
          | inr running ↦ rw running (λ h. cc)
          | inl final ↦ rw final (λ h.
              subst (AllOwn (is_settled input job.name) ra)
                (sym (observe_final_keeps current r w''))
                (reported-Settled r w' named (rw final refl)))
        ]

    round-EndsSettled :
        (wake : Wake) (w : W) → EndsSettled (track_round rt ra input job spec wake w)
    unfolding track_round
    round-EndsSettled deadline w = λ h. reported-Settled (timeout_record job) w refl refl
    round-EndsSettled tick w =
        let (current, got, named) = found w in
        let w' = (rt.get_job job.name job.namespace w).1 in
        subst (λ r. EndsSettled (on_current rt ra input job spec r w')) (sym got)
          (current-EndsSettled current w' named)

    -- While the Job can be read and the status be updated, and only the operator writes
    -- ResourceActions, the tracking of a Job leaves an execution with a last status by its deadline:
    -- whatever happens before, each stored version of its ResourceAction then has an execution of the
    -- event and of the Job that is reported as Succeeded, Failed or Timeout.
    pub track_job_execution_settles :
        (before after : List Wake) (w : W)
        → AllOwn
            (is_settled input job.name)
            ra
            (stored (track_job_execution rt ra input job spec (before ++ deadline ∷ after) w))
    unfolding track_job_execution
    track_job_execution_settles [] after w = reported-Settled (timeout_record job) w refl refl
    track_job_execution_settles (wake ∷ before) after w =
        let (goes_on, w') = track_round rt ra input job spec wake w in
        elim (Bool-cases goes_on) [
          | inl more ↦ rw more (track_job_execution_settles before after w')
          | inr ends ↦ rw ends (round-EndsSettled wake w ends)
        ]
