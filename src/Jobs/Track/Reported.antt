-- ===== src/Jobs/Track/Reported.antt =====
-- A report on a Job reaches the store (updateJobExecutionRecord of internal/engine/job_executor.go).
use resource_action_operator.Prelude.{
  ℕ, ◌≡◌, refl, sym, ap, subst, ◌∙◌, inl, inr, String, Option, none, some, List, [], ◌∷◌, All, any,
  any-append, arith, Bool, true, false, ◌&&◌, ◌==◌, eq_refl, Bool-cases, Result, ok, err, Check,
  Error,
}
use resource_action_operator.Api.{ResourceAction, ExecutionRecord, JobExecutionRecord}
use resource_action_operator.Runtime.{Runtime, continue, ◌>>=◌}
use resource_action_operator.Matching.{MatchInput, event_text}
use resource_action_operator.Jobs.Track.{
  is_execution_of, or_here, later_or_here, replace_last, job_only_record, replaced_or_appended,
  put_job_record, append_time, with_executions, update_job_once, update_job_execution_record,
}
use resource_action_operator.Executor.Run.Step.{with_status, set_status, IsStore}

abbrev pub has_status : String → Option JobExecutionRecord → Bool
has_status status none = false
has_status status (some job) = job.status == status

-- An execution of the event and the Job of a report, with the status that was reported.
abbrev pub reports : MatchInput → JobExecutionRecord → ExecutionRecord → Bool
reports input r exec = is_execution_of input r.name exec && has_status r.status exec.job

module _ (input : MatchInput) (r : JobExecutionRecord) where
  replaced_reports :
      (exec : ExecutionRecord)
      → is_execution_of input r.name exec ≡ true
      → reports input r (record exec { job = some r }) ≡ true
  unfolding is_execution_of
  replaced_reports exec h = rw (eq_refl r.name, eq_refl r.status) (ground arith)

  appended_reports : (now : ℕ) → reports input r (job_only_record input now r) ≡ true
  unfolding is_execution_of
  appended_reports now =
      rw (eq_refl r.name, eq_refl r.status, eq_refl input.obj.uid)
        (ground (arith, eq_refl (event_text input.event)))

  -- Some execution of the list reports it.
  abbrev AnyReports : Option (List ExecutionRecord) → Type 0
  AnyReports none = Unit
  AnyReports (some execs) = any (reports input r) execs ≡ true

  or_here_reports :
      (exec : ExecutionRecord) (execs : List ExecutionRecord) (here : Bool)
      → is_execution_of input r.name exec ≡ here
      → AnyReports (or_here here exec r execs)
  or_here_reports exec execs false h = tt
  or_here_reports exec execs true h = rw (replaced_reports exec h) refl

  later_reports :
      (exec : ExecutionRecord) (execs : List ExecutionRecord) (o : Option (List ExecutionRecord))
      → AnyReports o
      → AnyReports (later_or_here input r exec execs o)
  later_reports exec execs none h = or_here_reports exec execs _ refl
  later_reports exec execs (some later) h = rw h (ground arith)

  replace_last_reports : (execs : List ExecutionRecord) → AnyReports (replace_last input r execs)
  unfolding replace_last
  replace_last_reports [] = tt
  replace_last_reports (exec ∷ execs) =
      later_reports exec execs (replace_last input r execs) (replace_last_reports execs)

  put_reports :
      (now : ℕ) (execs : List ExecutionRecord) (o : Option (List ExecutionRecord))
      → AnyReports o
      → any (reports input r) (replaced_or_appended input now r execs o) ≡ true
  put_reports now execs (some replaced) h = h
  put_reports now execs none h =
      any-append (reports input r) execs (job_only_record input now r ∷ [])
      ∙ rw (appended_reports now) (ground arith)

  -- Whatever the executions were, one of them reports it once it is put.
  pub put_job_record-reports :
      (now : ℕ) (execs : List ExecutionRecord)
      → any (reports input r) (put_job_record input now r execs) ≡ true
  unfolding put_job_record
  put_job_record-reports now execs =
      put_reports now execs (replace_last input r execs) (replace_last_reports execs)

-- Every stored version of the resource satisfies `p` at some execution.
abbrev pub AllOwn : (ExecutionRecord → Bool) → ResourceAction → List ResourceAction → Type 0
AllOwn p ra = All (λ x.
    (x.name == ra.name && x.namespace == ra.namespace) ≡ true → any p x.status.executions ≡ true)

set_status-AllOwn :
    (p : ExecutionRecord → Bool) (ra new : ResourceAction) (ras : List ResourceAction)
    → new.name ≡ ra.name
    → new.namespace ≡ ra.namespace
    → any p new.status.executions ≡ true
    → AllOwn p ra (set_status new ras)
set_status-AllOwn p ra new [] name namespace h = tt
set_status-AllOwn p ra new (x ∷ ras) name namespace h =
    (one, set_status-AllOwn p ra new ras name namespace h)
  where
    one :
        ((with_status new x).name == ra.name && (with_status new x).namespace == ra.namespace)
          ≡ true
        → any p (with_status new x).status.executions ≡ true
    one own = elim (Bool-cases (x.name == new.name && x.namespace == new.namespace)) [
      | inl same ↦ rw same h
      | inr other ↦ cc (sym other ∙ as_new ∙ rw other at own)
    ]
      where
        as_new :
            (x.name == new.name && x.namespace == new.namespace)
            ≡ (x.name == ra.name && x.namespace == ra.namespace)
        as_new = rw (name, namespace) refl

module _ {W : Type 0} (rt : Runtime W) (stored : W → List ResourceAction)
    (store : IsStore rt stored) (ra : ResourceAction) (input : MatchInput)
    (r : JobExecutionRecord) where
  abbrev update_got : Result ResourceAction → W → Check × W
  update_got (err e) w = (err e, w)
  update_got (ok latest) w =
      let execs = latest.status.executions in
      let (now, w') = append_time rt (replace_last input r execs) w in
      rt.update_status (with_executions rt latest (put_job_record input now r execs)) w'

  update_job_once-eq-update_got :
      (w : W)
      → update_job_once rt ra input r w
        ≡ (let (found, w') = rt.get_action ra.name ra.namespace w in update_got found w')
  unfolding update_job_once
  update_job_once-eq-update_got w =
      let (found, w') = rt.get_action ra.name ra.namespace w in got found w'
    where
      got :
          (found : Result ResourceAction) (w' : W)
          → continue found
              (λ latest.
                let execs = latest.status.executions in
                (λ v. let (t, v') = append_time rt (replace_last input r execs) v in (ok t, v'))
                >>= λ now.
                    rt.update_status (with_executions rt latest (put_job_record input now r execs)))
              w'
            ≡ update_got found w'
      got (err e) w' = refl
      got (ok latest) w' = refl

  append_time_keeps :
      (o : Option (List ExecutionRecord)) (w : W) → stored (append_time rt o w).1 ≡ stored w
  append_time_keeps none w = store.keeps.clock w
  append_time_keeps (some replaced) w = refl

  got_failed :
      (found : Result ResourceAction) (w : W) (e : Error)
      → (update_got found w).0 ≡ err e
      → stored (update_got found w).1 ≡ stored w
  got_failed (err x) w e h = refl
  got_failed (ok latest) w e h =
      let execs = latest.status.executions in
      let o = replace_last input r execs in
      let (now, w') = append_time rt o w in
      store.not_updated (with_executions rt latest (put_job_record input now r execs)) w' e h
      ∙ append_time_keeps o w

  got_reported :
      (found : Result ResourceAction) (w : W)
      → ((latest : ResourceAction)
          → found ≡ ok latest
          → (latest.name ≡ ra.name) × (latest.namespace ≡ ra.namespace))
      → (update_got found w).0 ≡ ok tt
      → AllOwn (reports input r) ra (stored (update_got found w).1)
  got_reported (err x) w named h = cc
  got_reported (ok latest) w named h =
      let execs = latest.status.executions in
      let o = replace_last input r execs in
      let (now, w') = append_time rt o w in
      let (name, namespace) = named latest refl in
      let new = with_executions rt latest (put_job_record input now r execs) in
      subst (AllOwn (reports input r) ra) (sym (store.updated new w' h)) (
        set_status-AllOwn (reports input r) ra new (stored w') name namespace
          (put_job_record-reports input r now execs))

  once_failed :
      (w : W) (e : Error)
      → (update_job_once rt ra input r w).0 ≡ err e
      → stored (update_job_once rt ra input r w).1 ≡ stored w
  once_failed w e h =
      let same = update_job_once-eq-update_got w in
      let (found, w') = rt.get_action ra.name ra.namespace w in
      ap (λ p. stored p.1) same
      ∙ got_failed found w' e (sym (ap (λ p. p.0) same) ∙ h)
      ∙ store.get_keeps ra.name ra.namespace w

  once_reported :
      (w : W)
      → (update_job_once rt ra input r w).0 ≡ ok tt
      → AllOwn (reports input r) ra (stored (update_job_once rt ra input r w).1)
  once_reported w h =
      let same = update_job_once-eq-update_got w in
      let (found, w') = rt.get_action ra.name ra.namespace w in
      subst (λ p. AllOwn (reports input r) ra (stored p.1)) (sym same)
        (got_reported found w' (λ latest e. store.get_named ra.name ra.namespace w latest e)
          (sym (ap (λ p. p.0) same) ∙ h))

  -- If the status can be updated, every stored version of the resource has the report.
  pub update_reported :
      (w : W)
      → (rt.retry_on_conflict (update_job_once rt ra input r) w).0 ≡ ok tt
      → AllOwn (reports input r) ra (stored (update_job_execution_record rt ra input r w))
  unfolding update_job_execution_record
  update_reported w h =
      let (v, same, before) = store.retried (update_job_once rt ra input r) w once_failed h in
      subst (λ p. AllOwn (reports input r) ra (stored p.1)) same
        (once_reported v (ap (λ p. p.0) same ∙ h))
