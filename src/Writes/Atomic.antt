-- ===== src/Writes/Atomic.antt =====
-- A status that is written under RetryOnConflict is that of the version that it replaces
-- (Execute of internal/engine/executor.go and updateJobExecutionRecord of
-- internal/engine/job_executor.go).
use resource_action_operator.Prelude.{
  ℕ, ◌≡◌, refl, ap, ◌∙◌, subst, String, Option, none, some, List, [], ◌∷◌, ◌++◌, ◌||◌, ◌&&◌, ◌==◌,
  Bool, true, false, any-append, Result, ok, err, Check,
}
use resource_action_operator.Api.{ResourceAction, ExecutionRecord, JobExecutionRecord}
use resource_action_operator.Std.{Std}
use resource_action_operator.Runtime.{Runtime, continue, ◌>>=◌}
use resource_action_operator.Matching.{MatchInput, event_text, already_executed}
use resource_action_operator.Executor.Status.Recorded.{
  error_of, ready_of, executions-record_run, record_run_status,
}
use resource_action_operator.Jobs.Track.Executed.{put_job_record-already_executed}
use resource_action_operator.Conditions.{set_condition, find_condition}
use resource_action_operator.Conditions.Upsert.{moved}
use resource_action_operator.Executor.Status.{record_run, update_once}
use resource_action_operator.Jobs.Track.{
  replace_last, put_job_record, append_time, with_executions, update_job_once,
}
use resource_action_operator.Writes.{
  Commits, Write, run_write, report_write, IsServer, closure, effect,
}

or_false : (a b : Bool) → (a || (b || false)) ≡ (a || b)
or_false true b = refl
or_false false true = refl
or_false false false = refl

-- An execution more.
one_more :
    (execs : List ExecutionRecord) (exec : ExecutionRecord) (uid event : String)
    → already_executed (execs ++ exec ∷ []) uid event
      ≡ (already_executed execs uid event || (exec.resource_uid == uid && exec.event == event))
unfolding already_executed
one_more execs exec uid event = any-append _ execs (exec ∷ []) ∙ or_false _ _

-- Is a write of an event of an object?
abbrev pub is_own : Write → String → String → Bool
is_own (run_write exec result) uid event = exec.resource_uid == uid && exec.event == event
is_own (report_write input r) uid event = input.obj.uid == uid && event_text input.event == event

-- What a write may change of a resource. A run is appended to the executions, the last error is its
-- own, and so is the condition Ready; a report is put into the executions, and changes nothing else
-- of the status.
abbrev pub PutInto : Std → Write → ℕ → ResourceAction → ResourceAction → Type 0
PutInto std (run_write exec result) now latest new =
    (new.status.executions ≡ latest.status.executions ++ exec ∷ [])
    × (new.status.last_error ≡ error_of std result)
    × (find_condition "Ready" new.status.conditions
        ≡ some (record (ready_of std result) {
          observed_generation = latest.generation;
          last_transition_time =
              moved now (ready_of std result) (find_condition "Ready" latest.status.conditions);
        }))
PutInto std (report_write input r) now latest new =
    (new.status.executions ≡ put_job_record input now r latest.status.executions)
    × (new.status.last_error ≡ latest.status.last_error)
    × (new.status.conditions ≡ latest.status.conditions)

module _ {W : Type 0} (std : Std) (rt : Runtime W) where
  effect_named :
      (write : Write) (now : ℕ) (latest : ResourceAction)
      → ((effect std rt write now latest).name ≡ latest.name)
        × (((effect std rt write now latest).namespace ≡ latest.namespace)
            × ((effect std rt write now latest).resource_version ≡ latest.resource_version))
  unfolding effect record_run set_condition
  effect_named (run_write exec (ok _)) now latest = (refl, (refl, refl))
  effect_named (run_write exec (err e)) now latest = (refl, (refl, refl))
  effect_named (report_write input r) now latest = (refl, (refl, refl))

  -- A write makes its own event count as executed, and changes this for no other event.
  effect-already_executed :
      (write : Write) (now : ℕ) (latest : ResourceAction) (uid event : String)
      → already_executed (effect std rt write now latest).status.executions uid event
        ≡ (already_executed latest.status.executions uid event || is_own write uid event)
  unfolding effect
  effect-already_executed (run_write exec result) now latest uid event =
      ap (λ execs. already_executed execs uid event)
        (executions-record_run std exec result now latest)
      ∙ one_more latest.status.executions exec uid event
  effect-already_executed (report_write input r) now latest uid event =
      put_job_record-already_executed input r uid event now latest.status.executions

  effect-PutInto :
      (write : Write) (now : ℕ) (latest : ResourceAction)
      → PutInto std write now latest (effect std rt write now latest)
  unfolding effect
  effect-PutInto (run_write exec result) now latest = record_run_status std exec result now latest
  effect-PutInto (report_write input r) now latest = (refl, refl, refl)

  module _ (stored : W → List ResourceAction) (Was : W → ResourceAction → Type 0)
      (server : IsServer rt stored Was) where
    -- The last call is an update, in a world `u`, of the version that is stored there, with the write
    -- put into it; the events that count as executed are those that did, and that of the write.
    abbrev pub Replaced : String → String → Write → Check × W → Type 0
    Replaced name namespace write p =
        (u : W) × (latest : ResourceAction) × (new : ResourceAction) × (now : ℕ) × (rt.update_status
            new u
          ≡ p)
        × (latest.name ≡ name)
        × (latest.namespace ≡ namespace)
        × Commits (stored u) latest new (stored p.1)
        × PutInto std write now latest new
        × ((uid event : String)
            → already_executed new.status.executions uid event
              ≡ (already_executed latest.status.executions uid event || is_own write uid event))

    abbrev Read : String → String → Result ResourceAction → W → Type 0
    Read name namespace found w =
        (latest : ResourceAction)
        → found ≡ ok latest
        → Was w latest × ((latest.name ≡ name) × (latest.namespace ≡ namespace))

    update-Replaced :
        (write : Write) (name namespace : String) (now : ℕ) (latest : ResourceAction) (w : W)
        → Was w latest
        → latest.name ≡ name
        → latest.namespace ≡ namespace
        → (rt.update_status (effect std rt write now latest) w).0 ≡ ok tt
        → Replaced name namespace write (rt.update_status (effect std rt write now latest) w)
    update-Replaced write name namespace now latest w was same_name same_namespace h =
        let kept = effect_named write now latest in
        (
          w,
          latest,
          effect std rt write now latest,
          now,
          refl,
          same_name,
          same_namespace,
          server.accepted w latest (effect std rt write now latest) was kept.0 kept.1.0 kept.1.1 h,
          effect-PutInto write now latest,
          effect-already_executed write now latest,
        )

    run-Replaced :
        (exec : ExecutionRecord) (result : Check) (name namespace : String)
        (found : Result ResourceAction) (w : W)
        → Read name namespace found w
        → let p =
            continue found
              (λ latest. (λ w. let (t, w') = rt.clock w in (ok t, w')) >>= λ now.
                rt.update_status (record_run std exec result now latest))
              w in
          p.0 ≡ ok tt → Replaced name namespace (run_write exec result) p
    unfolding effect
    run-Replaced exec result name namespace (err e) w read h = cc
    run-Replaced exec result name namespace (ok latest) w read h =
        let (now, w') = rt.clock w in
        let (was, named) = read latest refl in
        update-Replaced (run_write exec result) name namespace now latest w'
          (server.later w latest was) named.0 named.1 h

    append_time-Was :
        (o : Option (List ExecutionRecord)) (w : W) (latest : ResourceAction)
        → Was w latest
        → Was (append_time rt o w).1 latest
    append_time-Was none w latest was = server.later w latest was
    append_time-Was (some replaced) w latest was = was

    report-Replaced :
        (input : MatchInput) (r : JobExecutionRecord) (name namespace : String)
        (found : Result ResourceAction) (w : W)
        → Read name namespace found w
        → let p =
            continue found
              (λ latest.
                let execs = latest.status.executions in
                (λ v. let (t, v') = append_time rt (replace_last input r execs) v in (ok t, v'))
                >>= λ now.
                    rt.update_status (with_executions rt latest (put_job_record input now r execs)))
              w in
          p.0 ≡ ok tt → Replaced name namespace (report_write input r) p
    unfolding effect
    report-Replaced input r name namespace (err e) w read h = cc
    report-Replaced input r name namespace (ok latest) w read h =
        let o = replace_last input r latest.status.executions in
        let (now, w') = append_time rt o w in
        let (was, named) = read latest refl in
        update-Replaced (report_write input r) name namespace now latest w'
          (append_time-Was o w latest was) named.0 named.1 h

    get_action-Read :
        (name namespace : String) (w : W)
        → Read name namespace (rt.get_action name namespace w).0 (rt.get_action name namespace w).1
    get_action-Read name namespace w latest found = server.read name namespace w latest found

    call-Replaced :
        (write : Write) (ra : ResourceAction) (w : W)
        → (closure std rt write ra w).0 ≡ ok tt
        → Replaced ra.name ra.namespace write (closure std rt write ra w)
    unfolding closure update_once update_job_once
    call-Replaced (run_write exec result) ra w h =
        run-Replaced exec result ra.name ra.namespace (rt.get_action ra.name ra.namespace w).0 _
          (get_action-Read ra.name ra.namespace w) h
    call-Replaced (report_write input r) ra w h =
        report-Replaced input r ra.name ra.namespace (rt.get_action ra.name ra.namespace w).0 _
          (get_action-Read ra.name ra.namespace w) h

    -- Whatever others write between the calls, a status that is written under RetryOnConflict comes
    -- from an update of the version that is stored when it is made. Of the status of that version a run
    -- gets appended to the executions and sets the last error and the condition Ready, and a report on a
    -- Job is put into the executions alone; the events that counted as executed still do, and of all
    -- others only that of the write.
    pub retry_on_conflict-Replaced :
        (write : Write) (ra : ResourceAction) (w : W)
        → (rt.retry_on_conflict (closure std rt write ra) w).0 ≡ ok tt
        → Replaced ra.name ra.namespace write (rt.retry_on_conflict (closure std rt write ra) w)
    retry_on_conflict-Replaced write ra w h =
        let (v, same) = server.retried (closure std rt write ra) w h in
        subst (λ (p : Check × W). Replaced ra.name ra.namespace write p) same
          (call-Replaced write ra v (ap (λ p. p.0) same ∙ h))
