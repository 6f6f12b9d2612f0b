-- ===== src/Executor/Run/Later.antt =====
-- Later versions of the ResourceActions of a store, while the executor writes their status (Execute
-- of internal/engine/executor.go).
use resource_action_operator.Prelude.{
  ◌≡◌, refl, ◌⊎◌, inl, inr, List, [], ◌∷◌, All, Bool, true, ◌&&◌, ◌==◌, eq_iff, arith, Bool-cases,
}
use resource_action_operator.Api.{ResourceAction}
use resource_action_operator.Std.{Std}
use resource_action_operator.Matching.{MatchInput, event_text, concerns, already_executed}
use resource_action_operator.Executor.Run.Effects.{IsIdle}
use resource_action_operator.Executor.Run.Step.{with_status, set_status}

module _ (std : Std) (input : MatchInput) where
  abbrev pub executed : ResourceAction → Bool
  executed ra = already_executed ra.status.executions input.obj.uid (event_text input.event)

  -- A later version of a resource: the status is the same, or has the run of the event on record.
  abbrev pub Later : ResourceAction → ResourceAction → Type 0
  Later ra ra' =
      (ra'.name ≡ ra.name)
      × (ra'.namespace ≡ ra.namespace)
      × (ra'.spec ≡ ra.spec)
      × ((ra'.status ≡ ra.status) ⊎ (executed ra' ≡ true))

  abbrev pub AllLater : List ResourceAction → List ResourceAction → Type 0
  AllLater [] [] = Unit
  AllLater (ra ∷ ras) (ra' ∷ ras') = Later ra ra' × AllLater ras ras'
  AllLater _ _ = ⊥

  pub AllLater-refl : (ras : List ResourceAction) → AllLater ras ras
  AllLater-refl [] = tt
  AllLater-refl (ra ∷ ras) = ((refl, refl, refl, inl refl), AllLater-refl ras)

  pub Later-IsIdle :
      (ra ra' : ResourceAction) → Later ra ra' → IsIdle std input ra → IsIdle std input ra'
  unfolding concerns
  Later-IsIdle ra ra' later (inl other) = inl (rw (later.2) other)
  Later-IsIdle ra ra' (_, _, _, inr done') idle = inr (inl done')
  Later-IsIdle ra ra' (_, _, _, inl same) (inr (inl done)) = inr (inl (rw same done))
  Later-IsIdle ra ra' (_, _, spec, _) (inr (inr scheduled)) = inr (inr (rw spec scheduled))

  pub with_status-Later :
      (new ra ra' : ResourceAction)
      → executed new ≡ true
      → Later ra ra'
      → Later ra (with_status new ra')
  with_status-Later new ra ra' done later =
      elim (Bool-cases (ra'.name == new.name && ra'.namespace == new.namespace)) [
        | inl own ↦ rw own (later.0, later.1, later.2, inr done)
        | inr other ↦ rw other later
      ]

  pub with_status-AllLater :
      (new : ResourceAction) (ras ras' : List ResourceAction)
      → executed new ≡ true
      → AllLater ras ras'
      → AllLater ras (set_status new ras')
  with_status-AllLater new [] [] done later = tt
  with_status-AllLater new (ra ∷ ras) (ra' ∷ ras') done later =
      (with_status-Later new ra ra' done later.0, with_status-AllLater new ras ras' done later.1)
  with_status-AllLater new [] (ra' ∷ ras') done later = elim later [ ]
  with_status-AllLater new (ra ∷ ras) [] done later = elim later [ ]

  pub with_status-IsIdle :
      (new ra' : ResourceAction)
      → executed new ≡ true
      → IsIdle std input ra'
      → IsIdle std input (with_status new ra')
  with_status-IsIdle new ra' done idle =
      Later-IsIdle ra' (with_status new ra')
        (with_status-Later new ra' ra' done (refl, refl, refl, inl refl)) idle

  pub set_status-IsIdle :
      (new : ResourceAction) (ras : List ResourceAction)
      → executed new ≡ true
      → All (IsIdle std input) ras
      → All (IsIdle std input) (set_status new ras)
  set_status-IsIdle new [] done idle = tt
  set_status-IsIdle new (ra ∷ ras) done idle =
      (with_status-IsIdle new ra done idle.0, set_status-IsIdle new ras done idle.1)

  pub own_status-IsIdle :
      (new ra ra' : ResourceAction)
      → executed new ≡ true
      → new.name ≡ ra.name
      → new.namespace ≡ ra.namespace
      → Later ra ra'
      → IsIdle std input (with_status new ra')
  own_status-IsIdle new ra ra' done name namespace later =
      let own : (ra'.name == new.name && ra'.namespace == new.namespace) ≡ true = ground (
        arith,
        eq_iff ra'.name new.name,
        eq_iff ra'.namespace new.namespace,
        later.0,
        later.1,
        name,
        namespace,
      ) in
      rw own (inr (inl done))
