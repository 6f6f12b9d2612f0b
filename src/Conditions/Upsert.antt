-- ===== src/Conditions/Upsert.antt =====
-- What setting a condition does to the list of conditions (setCondition of
-- internal/engine/executor.go, setSpecCondition of
-- internal/controller/resourceaction_controller.go).
use resource_action_operator.Prelude.{
  ℕ, ◌≡◌, refl, ap, ◌∙◌, inl, inr, String, Option, none, some, List, [], ◌∷◌, arith, false, ◌==◌,
  eq_iff, Bool-cases, if◌then◌else◌, any,
}
use resource_action_operator.Api.{Condition, ResourceAction}
use resource_action_operator.Conditions.{
  time_or, replace_or_append, set_condition, replace_or_append_spec, set_spec_condition,
  find_condition,
}

-- The transition time after the set: that of the old condition, unless the status changes.
abbrev pub moved : ℕ → Condition → Option Condition → Option ℕ
moved now cond none = time_or now cond.last_transition_time
moved now cond (some old) = if old.status == cond.status then old.last_transition_time else some now

-- The same for a condition that is stamped.
abbrev placed : ℕ → Condition → Option Condition → Option ℕ
placed now cond none = cond.last_transition_time
placed now cond (some old) =
    if old.status == cond.status then old.last_transition_time else some now

find-replace_or_append :
    (now : ℕ) (cond : Condition) (type : String) (cs : List Condition)
    → find_condition type (replace_or_append now cond cs) ≡ (
        if cond.type == type
        then some
            (record cond { last_transition_time = placed now cond (find_condition cond.type cs) })
        else find_condition type cs)
unfolding find_condition replace_or_append
find-replace_or_append now cond type [] = ground arith
find-replace_or_append now cond type (c ∷ cs) = ground (
  arith,
  eq_iff c.type cond.type,
  eq_iff cond.type type,
  eq_iff c.type type,
  find-replace_or_append now cond type cs,
)

-- After a condition is set, the condition of its type is the one given, with the generation of the
-- resource and the transition time of the old condition, or the present time if the status differs
-- from the old one; every other type has the condition that it had.
pub find-set_condition :
    (now : ℕ) (ra : ResourceAction) (cond : Condition) (type : String)
    → find_condition type (set_condition now ra cond).status.conditions ≡ (
        if cond.type == type
        then some (record cond {
          observed_generation = ra.generation;
          last_transition_time = moved now cond (find_condition cond.type ra.status.conditions);
        })
        else find_condition type ra.status.conditions)
unfolding set_condition
find-set_condition now ra cond type =
    find-replace_or_append now
      (record cond {
        observed_generation = ra.generation;
        last_transition_time = time_or now cond.last_transition_time;
      })
      type ra.status.conditions
    ∙ ground arith

-- The same for a condition that setSpecCondition puts: its own time stands where the status differs.
abbrev pub lent : Condition → Option Condition → Option ℕ
lent cond none = cond.last_transition_time
lent cond (some old) =
    if old.status == cond.status then old.last_transition_time else cond.last_transition_time

find-replace_or_append_spec :
    (cond : Condition) (type : String) (cs : List Condition)
    → find_condition type (replace_or_append_spec cond cs) ≡ (
        if cond.type == type
        then some (record cond { last_transition_time = lent cond (find_condition cond.type cs) })
        else find_condition type cs)
unfolding find_condition replace_or_append_spec
find-replace_or_append_spec cond type [] = ground arith
find-replace_or_append_spec cond type (c ∷ cs) = ground (
  arith,
  eq_iff c.type cond.type,
  eq_iff cond.type type,
  eq_iff c.type type,
  find-replace_or_append_spec cond type cs,
)

abbrev pub stamped : ℕ → ResourceAction → Condition → Condition
stamped now latest cond = record cond {
  observed_generation = latest.generation;
  last_transition_time = time_or now cond.last_transition_time;
}

-- The condition that setSpecCondition puts.
abbrev pub put_condition : ℕ → ResourceAction → Condition → Condition
put_condition now latest cond = record cond {
  observed_generation = latest.generation;
  last_transition_time =
      lent (stamped now latest cond) (find_condition cond.type latest.status.conditions);
}

pub find-set_spec_condition :
    (now : ℕ) (latest : ResourceAction) (cond : Condition) (type : String)
    → find_condition type (set_spec_condition now cond latest).status.conditions ≡ (
        if cond.type == type
        then some (put_condition now latest cond)
        else find_condition type latest.status.conditions)
unfolding set_spec_condition
find-set_spec_condition now latest cond type =
    find-replace_or_append_spec
      (record cond {
        observed_generation = latest.generation;
        last_transition_time = time_or now cond.last_transition_time;
      })
      type latest.status.conditions

-- No type stands twice.
abbrev pub UniqueTypes : List Condition → Type 0
UniqueTypes [] = Unit
UniqueTypes (c ∷ cs) = (any (λ d. d.type == c.type) cs ≡ false) × UniqueTypes cs

any-replace_or_append :
    (now : ℕ) (cond : Condition) (type : String) (cs : List Condition)
    → any (λ d. d.type == type) cs ≡ false
    → (cond.type == type) ≡ false
    → any (λ d. d.type == type) (replace_or_append now cond cs) ≡ false
unfolding replace_or_append
any-replace_or_append now cond type [] h n = ground arith
any-replace_or_append now cond type (c ∷ cs) h n =
    ground (arith, any-replace_or_append now cond type cs, eq_iff c.type cond.type)

replace_or_append-UniqueTypes :
    (now : ℕ) (cond : Condition) (cs : List Condition)
    → UniqueTypes cs
    → UniqueTypes (replace_or_append now cond cs)
unfolding replace_or_append
replace_or_append-UniqueTypes now cond [] h = (refl, tt)
replace_or_append-UniqueTypes now cond (c ∷ cs) h = elim (Bool-cases (c.type == cond.type)) [
  | inl e ↦ rw e (rw (← (eq_iff c.type cond.type).0 e) h.0, h.1)
  | inr e ↦ rw e (
    any-replace_or_append now cond c.type cs h.0
        (ground (arith, eq_iff c.type cond.type, eq_iff cond.type c.type)),
    replace_or_append-UniqueTypes now cond cs h.1,
  )
]

-- Setting a condition keeps the types of the conditions distinct.
pub set_condition-UniqueTypes :
    (now : ℕ) (ra : ResourceAction) (cond : Condition)
    → UniqueTypes ra.status.conditions
    → UniqueTypes (set_condition now ra cond).status.conditions
unfolding set_condition
set_condition-UniqueTypes now ra cond = replace_or_append-UniqueTypes now _ ra.status.conditions

replace_or_append_spec-eq :
    (now : ℕ) (cond : Condition) (cs : List Condition)
    → cond.last_transition_time ≡ some now
    → replace_or_append_spec cond cs ≡ replace_or_append now cond cs
unfolding replace_or_append_spec replace_or_append
replace_or_append_spec-eq now cond [] h = refl
replace_or_append_spec-eq now cond (c ∷ cs) h =
    ground (arith, replace_or_append_spec-eq now cond cs h)

-- Both functions give the same conditions for a condition that has no time yet.
pub set_spec_condition-eq-set_condition :
    (now : ℕ) (ra : ResourceAction) (cond : Condition)
    → cond.last_transition_time ≡ none
    → set_spec_condition now cond ra ≡ set_condition now ra cond
unfolding set_spec_condition set_condition
set_spec_condition-eq-set_condition now ra cond h =
    let cond' : Condition = record cond {
      observed_generation = ra.generation;
      last_transition_time = time_or now cond.last_transition_time;
    } in
    ap (λ cs. record ra { status = record ra.status { conditions = cs } })
      (replace_or_append_spec-eq now cond' ra.status.conditions (ap (time_or now) h))
