-- ===== src/Examples/Contended.antt =====
-- A status update that meets a conflict: another writer changes every resource when the clock is read
-- for the first time (Execute of internal/engine/executor.go).
use Prim.Native.String.{char_at}
use resource_action_operator.Prelude.{
  ℕ, suc, ◌+◌, ◌≤◌, ◌≡◌, refl, sym, ap, subst, ◌∙◌, ◌≢◌, arith, String, Option, none, some, List,
  [], ◌∷◌, map, Bool, true, false, ◌==◌, eqb, eq_iff, Bool-cases, inl, inr, Result, ok, err, Check,
  ok-injective, external, if◌then◌else◌,
}
use mathlib.Core.Option.{some-injective}
use resource_action_operator.Api.{ResourceAction, ExecutionRecord, Condition}
use resource_action_operator.Runtime.{Runtime}
use resource_action_operator.Writes.{
  is_named, find_named, commit, Commits, run_write, IsServer, closure,
}
use resource_action_operator.Writes.Atomic.{Replaced, retry_on_conflict-Replaced}
use resource_action_operator.Conditions.{set_condition, set_spec_condition}
use resource_action_operator.Controller.{
  captured_condition, valid_condition, set_spec_condition_once,
}
use resource_action_operator.Writes.Conditioned.{IsPut, retry_condition-IsPut}
use resource_action_operator.Executor.Actions.{no_totals}
use resource_action_operator.Executor.Status.{exec_record, record_run, update_once}
use resource_action_operator.Validation.Spec.{validate_resource_action_spec}
use resource_action_operator.Engine.{new_engine}
use resource_action_operator.Controller.{reconcile}
use resource_action_operator.Controller.Verdict.{verdict, update, Follows, reconcile-verdict}
use resource_action_operator.Examples.Validations.{accepts_sample}
use resource_action_operator.Examples.Sample.{
  World, sample_std, sample_runtime, sample_input, start_world, sample_action,
}

-- Each version has one character more than the one before it.
abbrev next_version : String → String
next_version version = String.◌∷◌ (char_at "v" 0) version

count : String → ℕ
count String.[] = 0
count (String.◌∷◌ c s) = suc (count s)

abbrev touch : ResourceAction → ResourceAction
touch ra = record ra {
  status = record ra.status { last_error = "touched" };
  resource_version = next_version ra.resource_version;
}

abbrev found_or_error : Option ResourceAction → Result ResourceAction
found_or_error none = err (external "not found")
found_or_error (some ra) = ok ra

abbrev contend : Bool → List ResourceAction → List ResourceAction
contend true ras = map touch ras
contend false ras = ras

abbrev accept : ResourceAction → Option ResourceAction → World → Check × World
accept new none w = (err (external "not found"), w)
accept new (some current) w =
    if current.resource_version == new.resource_version
    then (ok tt, record w { stored = commit (next_version new.resource_version) new w.stored })
    else (err (external "conflict"), w)

abbrev again_once : (World → Check × World) → Check × World → Check × World
again_once f (ok _, w) = (ok tt, w)
again_once f (err e, w) = f w

abbrev condition_again :
    (Condition × World → Check × (Condition × World))
    → Check × (Condition × World)
    → Check × (Condition × World)
condition_again f (ok _, s) = (ok tt, s)
condition_again f (err e, s) = f s

abbrev contended : Runtime World
contended = record sample_runtime {
  get_action = λ name namespace w. (found_or_error (find_named name namespace w.stored), w);
  clock =
      λ w. (w.time, record w { time = w.time + 1; stored = contend (eqb w.time 1000) w.stored });
  update_status = λ new w. accept new (find_named new.name new.namespace w.stored) w;
  retry_on_conflict = λ f w. again_once f (f w);
  retry_condition = λ f s. condition_again f (f s);
}

-- A version that is older than the current one, or is the current one.
abbrev Was : World → ResourceAction → Type 0
Was w ra =
    (current : ResourceAction) × (find_named ra.name ra.namespace w.stored ≡ some current)
    × (count ra.resource_version ≤ count current.resource_version)
    × (ra.resource_version ≡ current.resource_version → ra ≡ current)

find_named_named :
    (name namespace : String) (ras : List ResourceAction) (latest : ResourceAction)
    → find_named name namespace ras ≡ some latest
    → (latest.name ≡ name) × (latest.namespace ≡ namespace)
unfolding find_named
find_named_named name namespace [] latest h = cc
find_named_named name namespace (ra ∷ ras) latest h =
    elim (Bool-cases (is_named name namespace ra)) [
      | inl own ↦
          let same : ra ≡ latest = some-injective _ _ (rw own at h) in
          (
            sym (ap (λ r. r.name) same) ∙ ground (arith, eq_iff ra.name name),
            sym (ap (λ r. r.namespace) same) ∙ ground (arith, eq_iff ra.namespace namespace),
          )
      | inr other ↦ find_named_named name namespace ras latest (rw other at h)
    ]

find_named-touch :
    (name namespace : String) (ras : List ResourceAction) (current : ResourceAction)
    → find_named name namespace ras ≡ some current
    → find_named name namespace (map touch ras) ≡ some (touch current)
unfolding find_named
find_named-touch name namespace [] current h = cc
find_named-touch name namespace (ra ∷ ras) current h =
    elim (Bool-cases (is_named name namespace ra)) [
      | inl own ↦ rw own (ap (λ r. some (touch r)) (some-injective ra current (rw own at h)))
      | inr other ↦ rw other (find_named-touch name namespace ras current (rw other at h))
    ]

found_inverted :
    (o : Option ResourceAction) (latest : ResourceAction)
    → found_or_error o ≡ ok latest
    → o ≡ some latest
found_inverted none latest h = cc
found_inverted (some ra) latest h = ap some (ok-injective h)

read_by_get :
    (name namespace : String) (w : World) (latest : ResourceAction)
    → found_or_error (find_named name namespace w.stored) ≡ ok latest
    → Was w latest × ((latest.name ≡ name) × (latest.namespace ≡ namespace))
read_by_get name namespace w latest h =
    let found = found_inverted (find_named name namespace w.stored) latest h in
    let (same_name, same_namespace) = find_named_named name namespace w.stored latest found in
    (
      (
        latest,
        ap (λ n. find_named n latest.namespace w.stored) same_name
            ∙ ap (λ n. find_named name n w.stored) same_namespace
            ∙ found,
        omega arith,
        λ same. refl,
      ),
      (same_name, same_namespace),
    )

not_next :
    (version : String) (old : String) → count old ≤ count version → old ≢ next_version version
unfolding count
not_next version old h e =
    let same : count old ≡ suc (count version) = ap count e in absurd (omega arith)

older_still :
    (version old : String) → count old ≤ count version → count old ≤ count (next_version version)
unfolding count
older_still version old h = omega arith

later_version :
    (b : Bool) (w : World) (ra : ResourceAction)
    → Was w ra
    → Was (record w { time = w.time + 1; stored = contend b w.stored }) ra
later_version false w ra was = was
later_version true w ra (current, found, older, same) = (
  touch current,
  find_named-touch ra.name ra.namespace w.stored current found,
  older_still current.resource_version ra.resource_version older,
  λ e. absurd (not_next current.resource_version ra.resource_version older e),
)

accepted_only_if_current :
    (found : Option ResourceAction) (w : World) (latest new : ResourceAction)
    → find_named new.name new.namespace w.stored ≡ found
    → Was w latest
    → new.name ≡ latest.name
    → new.namespace ≡ latest.namespace
    → new.resource_version ≡ latest.resource_version
    → (accept new found w).0 ≡ ok tt
    → Commits w.stored latest new (accept new found w).1.stored
accepted_only_if_current none w latest new own was name namespace version h = cc
accepted_only_if_current (some x) w latest new own (current, found, older, same) name namespace
      version h =
    elim (Bool-cases (x.resource_version == new.resource_version)) [
      | inl equal ↦
          let is_x : current ≡ x =
            some-injective current x (sym found ∙ rw (sym name, sym namespace) own) in
          let is_latest : latest ≡ current =
            same (
              sym version ∙ sym ((eq_iff _ _).0 equal) ∙ sym (ap (λ r. r.resource_version) is_x)) in
          (next_version new.resource_version, found ∙ ap some (sym is_latest), rw equal refl)
      | inr other ↦ cc (rw other at h)
    ]

retried_once :
    (f : World → Check × World) (w : World) (first : Check × World)
    → f w ≡ first
    → (again_once f first).0 ≡ ok tt
    → (v : World) × (f v ≡ again_once f first)
retried_once f w (ok _, w') own h = (w, own)
retried_once f w (err e, w') own h = (w', refl)

condition_retried :
    (f : Condition × World → Check × (Condition × World)) (P : Condition → Type 0)
    (s : Condition × World) (first : Check × (Condition × World))
    → f s ≡ first
    → P s.0
    → P first.1.0
    → (condition_again f first).0 ≡ ok tt
    → (s' : Condition × World) × P s'.0 × (f s' ≡ condition_again f first)
condition_retried f P s (ok _, s') own before after h = (s, before, own)
condition_retried f P s (err e, s') own before after h = (s', after, refl)

contended_server : IsServer contended (λ w. w.stored) Was
contended_server = record {
  read = read_by_get;
  later = λ w ra was. later_version (eqb w.time 1000) w ra was;
  accepted = λ w latest new was name namespace version h.
      accepted_only_if_current (find_named new.name new.namespace w.stored) w latest new refl was
        name namespace version h;
  retried = λ f w h. retried_once f w (f w) refl h;
  retried_condition = λ f P s p keeps h. condition_retried f P s (f s) refl p (keeps s p) h;
}

abbrev an_execution : ExecutionRecord
an_execution = exec_record sample_input 900 no_totals

second_try_succeeds :
    (contended.retry_on_conflict
      (closure sample_std contended (run_write an_execution (ok tt)) sample_action)
      start_world).0
    ≡ ok tt
unfolding closure update_once find_named record_run set_condition
second_try_succeeds = refl

first_try_conflicts :
    (closure sample_std contended (run_write an_execution (ok tt)) sample_action start_world).0
    ≡ err (external "conflict")
unfolding closure update_once find_named record_run set_condition
first_try_conflicts = refl

retry_on_conflict-Replaced_example :
    Replaced sample_std contended
      (λ w. w.stored)
      Was
      contended_server
      sample_action.name
      sample_action.namespace
      (run_write an_execution (ok tt))
      (contended.retry_on_conflict
        (closure sample_std contended (run_write an_execution (ok tt)) sample_action)
        start_world)
retry_on_conflict-Replaced_example =
    retry_on_conflict-Replaced sample_std contended (λ w. w.stored) Was contended_server
      (run_write an_execution (ok tt)) sample_action start_world second_try_succeeds

condition_put :
    (contended.retry_condition
      (set_spec_condition_once sample_std contended sample_action.name sample_action.namespace)
      (valid_condition, start_world)).0
    ≡ ok tt
unfolding set_spec_condition_once find_named set_spec_condition captured_condition
condition_put = refl

condition_conflicts :
    (set_spec_condition_once sample_std contended sample_action.name sample_action.namespace
      (valid_condition, start_world)).0
    ≡ err (external "conflict")
unfolding set_spec_condition_once find_named set_spec_condition captured_condition
condition_conflicts = refl

retry_condition-IsPut_example :
    IsPut sample_std contended
      (λ w. w.stored)
      Was
      contended_server
      sample_action.name
      sample_action.namespace
      valid_condition
      (contended.retry_condition
        (set_spec_condition_once sample_std contended sample_action.name sample_action.namespace)
        (valid_condition, start_world))
retry_condition-IsPut_example =
    retry_condition-IsPut sample_std contended (λ w. w.stored) Was contended_server valid_condition
      sample_action.name sample_action.namespace start_world condition_put

reads_sample :
    contended.get_action sample_action.name sample_action.namespace start_world
    ≡ (ok sample_action, start_world)
unfolding find_named
reads_sample = refl

verdict_put :
    (update sample_std contended sample_action
      (verdict sample_std (validate_resource_action_spec sample_std sample_action.spec))
      start_world).0
    ≡ ok tt
verdict_put =
    subst
      (λ checked.
        (update sample_std contended sample_action (verdict sample_std checked) start_world).0
        ≡ ok tt)
      (sym accepts_sample) condition_put

reconcile-verdict_example :
    let checked = validate_resource_action_spec sample_std sample_action.spec in
    let updated =
      update sample_std contended sample_action (verdict sample_std checked) start_world in
    IsPut sample_std contended
      (λ w. w.stored)
      Was
      contended_server
      sample_action.name
      sample_action.namespace
      (verdict sample_std checked)
      updated
    × Follows sample_std contended sample_action checked new_engine updated.1.1 (
        reconcile sample_std contended true sample_action.name sample_action.namespace
          (new_engine, start_world))
reconcile-verdict_example =
    reconcile-verdict sample_std contended (λ w. w.stored) Was contended_server sample_action.name
      sample_action.namespace sample_action new_engine start_world start_world reads_sample
      verdict_put
