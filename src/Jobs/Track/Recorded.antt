-- ===== src/Jobs/Track/Recorded.antt =====
-- What updateJobExecutionRecord (internal/engine/job_executor.go) does to the executions.
use resource_action_operator.Prelude.{
  ℕ, ◌≡◌, refl, sym, ap, ◌∙◌, inl, inr, Option, none, some, List, [], ◌∷◌, ◌++◌, arith, Bool, true,
  false, ◌||◌, eq_refl, Bool-cases, any, is_some,
}
use mathlib.Core.Option.{some-injective}
use resource_action_operator.Api.{ExecutionRecord, JobExecutionRecord}
use resource_action_operator.Matching.{MatchInput, event_text}
use resource_action_operator.Jobs.Track.{
  is_execution_of, or_here, later_or_here, replace_last, job_only_record, replaced_or_appended,
  put_job_record,
}

module _ (input : MatchInput) where
  -- An execution that takes a record of a Job is of that Job still.
  still_execution :
      (exec : ExecutionRecord) (r : JobExecutionRecord)
      → is_execution_of input r.name exec ≡ true
      → is_execution_of input r.name (record exec { job = some r }) ≡ true
  unfolding is_execution_of
  still_execution exec r h = ground (arith, eq_refl r.name)

  own_execution :
      (now : ℕ) (r : JobExecutionRecord)
      → is_execution_of input r.name (job_only_record input now r) ≡ true
  unfolding is_execution_of
  own_execution now r =
      ground (arith, eq_refl r.name, eq_refl input.obj.uid, eq_refl (event_text input.event))

  -- On a list that ends with an execution of the Job, that one is replaced.
  pub replace_last-append :
      (r : JobExecutionRecord) (execs : List ExecutionRecord) (exec : ExecutionRecord)
      → is_execution_of input r.name exec ≡ true
      → replace_last input r (execs ++ exec ∷ [])
        ≡ some (execs ++ record exec { job = some r } ∷ [])
  unfolding replace_last
  replace_last-append r [] exec h = rw h
  replace_last-append r (e ∷ execs) exec h =
      ap (later_or_here input r e (execs ++ exec ∷ [])) (replace_last-append r execs exec h)

  -- The loop finds an execution exactly if there is one.
  pub replace_last-is_some :
      (r : JobExecutionRecord) (execs : List ExecutionRecord)
      → is_some (replace_last input r execs) ≡ any (is_execution_of input r.name) execs
  unfolding replace_last
  replace_last-is_some r [] = refl
  replace_last-is_some r (exec ∷ execs) =
      found exec execs (replace_last input r execs) (replace_last-is_some r execs)
    where
      found :
          (exec : ExecutionRecord) (execs : List ExecutionRecord)
          (o : Option (List ExecutionRecord))
          → is_some o ≡ any (is_execution_of input r.name) execs
          → is_some (later_or_here input r exec execs o)
            ≡ (is_execution_of input r.name exec || any (is_execution_of input r.name) execs)
      found exec execs (some later) h = elim (Bool-cases (is_execution_of input r.name exec)) [
        | inl here ↦ rw here refl
        | inr other ↦ rw other h
      ]
      found exec execs none h = elim (Bool-cases (is_execution_of input r.name exec)) [
        | inl here ↦ rw here refl
        | inr other ↦ rw other h
      ]

  module _ (r1 r2 : JobExecutionRecord) (same_name : r2.name ≡ r1.name) where
    same_is_some :
        (execs : List ExecutionRecord)
        → is_some (replace_last input r1 execs) ≡ is_some (replace_last input r2 execs)
    same_is_some execs =
        replace_last-is_some r1 execs
        ∙ ap (λ name. any (is_execution_of input name) execs) (sym same_name)
        ∙ sym (replace_last-is_some r2 execs)

    of_both :
        (exec : ExecutionRecord)
        → is_execution_of input r1.name exec ≡ true
        → (is_execution_of input r2.name exec ≡ true)
          × (is_execution_of input r2.name (record exec { job = some r1 }) ≡ true)
    of_both exec here = (
      ap (λ name. is_execution_of input name exec) same_name ∙ here,
      ap (λ name. is_execution_of input name (record exec { job = some r1 })) same_name
          ∙ still_execution exec r1 here,
    )

    -- The second record takes the place of the first one.
    overwritten :
        (exec : ExecutionRecord) (execs : List ExecutionRecord)
        → is_execution_of input r1.name exec ≡ true
        → replace_last input r2 execs ≡ none
        → replace_last input r2 (record exec { job = some r1 } ∷ execs)
          ≡ or_here (is_execution_of input r2.name exec) exec r2 execs
    unfolding replace_last
    overwritten exec execs here absent =
        let (old, new) = of_both exec here in rw (absent, old, new) refl

    replaced_here :
        (exec : ExecutionRecord) (execs replaced : List ExecutionRecord) (here : Bool)
        → is_execution_of input r1.name exec ≡ here
        → replace_last input r2 execs ≡ none
        → or_here here exec r1 execs ≡ some replaced
        → replace_last input r2 replaced
          ≡ or_here (is_execution_of input r2.name exec) exec r2 execs
    replaced_here exec execs replaced false other absent h = cc
    replaced_here exec execs replaced true here absent h =
        ap (replace_last input r2) (sym (some-injective _ _ h)) ∙ overwritten exec execs here absent

    later_replaced :
        (exec : ExecutionRecord) (execs replaced : List ExecutionRecord)
        (o1 o2 : Option (List ExecutionRecord))
        → replace_last input r2 execs ≡ o2
        → is_some o1 ≡ is_some o2
        → ((later : List ExecutionRecord) → o1 ≡ some later → replace_last input r2 later ≡ o2)
        → later_or_here input r1 exec execs o1 ≡ some replaced
        → replace_last input r2 replaced ≡ later_or_here input r2 exec execs o2
    unfolding replace_last
    later_replaced exec execs replaced none none found both ih h =
        replaced_here exec execs replaced (is_execution_of input r1.name exec) refl found h
    later_replaced exec execs replaced (some later) (some x) found both ih h =
        ap (replace_last input r2) (sym (some-injective _ _ h))
        ∙ ap (later_or_here input r2 exec later) (ih later refl)
    later_replaced exec execs replaced none (some x) found both ih h = cc
    later_replaced exec execs replaced (some later) none found both ih h = cc

    replace_last_again :
        (execs replaced : List ExecutionRecord)
        → replace_last input r1 execs ≡ some replaced
        → replace_last input r2 replaced ≡ replace_last input r2 execs
    unfolding replace_last
    replace_last_again [] replaced h = cc
    replace_last_again (exec ∷ execs) replaced h =
        later_replaced exec execs replaced (replace_last input r1 execs)
          (replace_last input r2 execs) refl (same_is_some execs) (replace_last_again execs) h

    put_replaced :
        (now1 now2 : ℕ) (execs : List ExecutionRecord) (o1 o2 : Option (List ExecutionRecord))
        → replace_last input r1 execs ≡ o1
        → replace_last input r2 execs ≡ o2
        → put_job_record input now2 r2 (replaced_or_appended input now1 r1 execs o1)
          ≡ replaced_or_appended input now1 r2 execs o2
    unfolding put_job_record
    put_replaced now1 now2 execs (some replaced) (some x) h1 h2 =
        rw (replace_last_again execs replaced h1, h2) refl
    put_replaced now1 now2 execs (some replaced) none h1 h2 =
        absurd (let both = same_is_some execs in cc (ap is_some h1, ap is_some h2))
    put_replaced now1 now2 execs none (some x) h1 h2 =
        absurd (let both = same_is_some execs in cc (ap is_some h1, ap is_some h2))
    put_replaced now1 now2 execs none none h1 h2 =
        rw
          (replace_last-append r2 execs (job_only_record input now1 r1) (
            ap (λ name. is_execution_of input name (job_only_record input now1 r1)) same_name
            ∙ own_execution now1 r1))
          refl

    -- Of two reports on one Job the later one stands: recording both is recording the later one at
    -- the time of the earlier one.
    pub put_job_record_twice :
        (now1 now2 : ℕ) (execs : List ExecutionRecord)
        → put_job_record input now2 r2 (put_job_record input now1 r1 execs)
          ≡ put_job_record input now1 r2 execs
    unfolding put_job_record
    put_job_record_twice now1 now2 execs =
        put_replaced now1 now2 execs (replace_last input r1 execs) (replace_last input r2 execs)
          refl refl
