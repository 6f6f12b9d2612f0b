-- ===== src/Jobs/Track/Executed.antt =====
-- Which events count as executed once a report on a Job is recorded (updateJobExecutionRecord of
-- internal/engine/job_executor.go).
use mathlib.Core.Option.{some-injective}
use resource_action_operator.Prelude.{
  ℕ, ◌≡◌, refl, sym, ap, ◌∙◌, inl, inr, String, Option, none, some, List, [], ◌∷◌, ◌++◌, arith,
  Bool, true, false, ◌&&◌, ◌||◌, ◌==◌, eq_iff, Bool-cases, any, any-append, is_some,
}
use resource_action_operator.Api.{ExecutionRecord, JobExecutionRecord}
use resource_action_operator.Matching.{MatchInput, event_text, already_executed}
use resource_action_operator.Jobs.Track.{
  is_execution_of, or_here, later_or_here, replace_last, job_only_record, replaced_or_appended,
  put_job_record,
}
use resource_action_operator.Jobs.Track.Recorded.{replace_last-is_some}

or_true : (b : Bool) → (b || true) ≡ true
or_true b = ground arith

or_false : (b : Bool) → (b || false) ≡ b
or_false true = refl
or_false false = refl

absorbed : (a b : Bool) → (b ≡ true → a ≡ true) → a ≡ (a || b)
absorbed true b h = refl
absorbed false true h = h refl
absorbed false false h = refl

module _ (input : MatchInput) (r : JobExecutionRecord) (uid event : String) where
  -- The event and the object are those of the Job.
  abbrev own : Bool
  own = input.obj.uid == uid && event_text input.event == event

  or_here_executed :
      (exec : ExecutionRecord) (execs replaced : List ExecutionRecord) (here : Bool)
      → or_here here exec r execs ≡ some replaced
      → already_executed replaced uid event ≡ already_executed (exec ∷ execs) uid event
  unfolding already_executed
  or_here_executed exec execs replaced false h = cc
  or_here_executed exec execs replaced true h =
      sym (ap (λ l. already_executed l uid event) (some-injective _ _ h))

  step_executed :
      (exec : ExecutionRecord) (execs replaced : List ExecutionRecord)
      (o : Option (List ExecutionRecord))
      → ((later : List ExecutionRecord)
          → o ≡ some later
          → already_executed later uid event ≡ already_executed execs uid event)
      → later_or_here input r exec execs o ≡ some replaced
      → already_executed replaced uid event ≡ already_executed (exec ∷ execs) uid event
  unfolding already_executed
  step_executed exec execs replaced none ih h =
      or_here_executed exec execs replaced (is_execution_of input r.name exec) h
  step_executed exec execs replaced (some later) ih h =
      sym (ap (λ l. already_executed l uid event) (some-injective _ _ h))
      ∙ ap (λ b. (exec.resource_uid == uid && exec.event == event) || b) (ih later refl)

  -- A replacement leaves the objects and the events as they are.
  replaced_executed :
      (execs replaced : List ExecutionRecord)
      → replace_last input r execs ≡ some replaced
      → already_executed replaced uid event ≡ already_executed execs uid event
  unfolding replace_last
  replaced_executed [] replaced h = cc
  replaced_executed (exec ∷ execs) replaced h =
      step_executed exec execs replaced (replace_last input r execs) (replaced_executed execs) h

  own_execution_executed :
      (exec : ExecutionRecord)
      → own ≡ true
      → is_execution_of input r.name exec ≡ true
      → (exec.resource_uid == uid && exec.event == event) ≡ true
  unfolding is_execution_of
  own_execution_executed exec mine of_job = ground (
    arith,
    eq_iff exec.resource_uid input.obj.uid,
    eq_iff exec.event (event_text input.event),
    eq_iff input.obj.uid uid,
    eq_iff (event_text input.event) event,
    eq_iff exec.resource_uid uid,
    eq_iff exec.event event,
  )

  -- Where an execution is of the Job, its event counts as executed.
  own_executed :
      (execs : List ExecutionRecord)
      → own ≡ true
      → any (is_execution_of input r.name) execs ≡ true
      → already_executed execs uid event ≡ true
  unfolding already_executed
  own_executed [] mine h = cc
  own_executed (exec ∷ execs) mine h = elim (Bool-cases (is_execution_of input r.name exec)) [
    | inl of_job ↦ rw (own_execution_executed exec mine of_job) refl
    | inr other ↦
        rw (own_executed execs mine (rw other at h))
          (or_true (exec.resource_uid == uid && exec.event == event))
  ]

  appended_executed :
      (now : ℕ) (execs : List ExecutionRecord)
      → already_executed (execs ++ job_only_record input now r ∷ []) uid event
        ≡ (already_executed execs uid event || own)
  unfolding already_executed
  appended_executed now execs =
      any-append (λ exec. exec.resource_uid == uid && exec.event == event) execs _
      ∙ ap (λ b. already_executed execs uid event || b) (or_false own)

  put_executed :
      (now : ℕ) (execs : List ExecutionRecord) (o : Option (List ExecutionRecord))
      → replace_last input r execs ≡ o
      → already_executed (replaced_or_appended input now r execs o) uid event
        ≡ (already_executed execs uid event || own)
  put_executed now execs (some replaced) h =
      replaced_executed execs replaced h
      ∙ absorbed (already_executed execs uid event) own (λ mine.
        own_executed execs mine (sym (replace_last-is_some input r execs) ∙ ap is_some h))
  put_executed now execs none h = appended_executed now execs

  -- A report on a Job makes the event of its object count as executed, and changes this for no other
  -- object and no other event.
  pub put_job_record-already_executed :
      (now : ℕ) (execs : List ExecutionRecord)
      → already_executed (put_job_record input now r execs) uid event
        ≡ (already_executed execs uid event || own)
  unfolding put_job_record
  put_job_record-already_executed now execs =
      put_executed now execs (replace_last input r execs) refl
