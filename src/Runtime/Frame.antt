-- ===== src/Runtime/Frame.antt =====
-- A part of the world that the operations of a run leave alone: it is read by `stored`.
use resource_action_operator.Prelude.{◌≡◌, refl, ◌∙◌, String, ℕ, List, Result, ok, err}
use resource_action_operator.Prelude.Int.{ℤ}
use resource_action_operator.Api.{ResourceAction}
use resource_action_operator.Kube.{KubeJob}
use resource_action_operator.Metrics.Collectors.{Collector, Amount}
use resource_action_operator.Runtime.{Runtime, Transport, Request, Task, Io, continue, ◌>>=◌}

module _ {W : Type 0} {S : Type 0} (rt : Runtime W) (stored : W → S) where
  -- All operations but those on the ResourceActions keep it.
  pub record Keeps : Type 0 where
    pub get_secret :
        (name namespace : String) (w : W) → stored (rt.get_secret name namespace w).1 ≡ stored w
    pub create_job : (job : KubeJob) (w : W) → stored (rt.create_job job w).1 ≡ stored w
    pub random_suffix : (w : W) → stored (rt.random_suffix w).1 ≡ stored w
    pub start : (task : Task) (w : W) → stored (rt.start task w) ≡ stored w
    pub metrics_init :
        (f : W → W) (w : W)
        → ((v : W) → stored (f v) ≡ stored v)
        → stored (rt.metrics_init f w) ≡ stored w
    pub must_register :
        (collectors : List Collector) (w : W) → stored (rt.must_register collectors w) ≡ stored w
    pub inc : (c : Collector) (labels : List String) (w : W) → stored (rt.inc c labels w) ≡ stored w
    pub add :
        (c : Collector) (labels : List String) (amount : Amount) (w : W)
        → stored (rt.add c labels amount w) ≡ stored w
    pub observe :
        (c : Collector) (labels : List String) (amount : Amount) (w : W)
        → stored (rt.observe c labels amount w) ≡ stored w
    pub record_event :
        (ra : ResourceAction) (event_type reason message : String) (w : W)
        → stored (rt.record_event ra event_type reason message w) ≡ stored w
    pub send :
        (transport : Transport) (timeout : ℤ) (request : Request) (w : W)
        → stored (rt.send transport timeout request w).1 ≡ stored w
    pub clock : (w : W) → stored (rt.clock w).1 ≡ stored w
    pub int63n : (n : ℕ) (w : W) → stored (rt.int63n n w).1 ≡ stored w
    pub sleep : (duration : ℤ) (w : W) → stored (rt.sleep duration w) ≡ stored w

  abbrev pub KeepsIo {ℓ} : {A : Type ℓ} → Io W A → Type 0
  KeepsIo m = (w : W) → stored (m w).1 ≡ stored w

  module _ {A B : Type 0} where
    continue-KeepsIo :
        (r : Result A) (f : A → Io W B) → ((a : A) → KeepsIo (f a)) → KeepsIo (continue r f)
    continue-KeepsIo (ok a) f h w = h a w
    continue-KeepsIo (err e) f h w = refl

    pub >>=-KeepsIo :
        (m : Io W A) (f : A → Io W B) → KeepsIo m → ((a : A) → KeepsIo (f a)) → KeepsIo (m >>= f)
    >>=-KeepsIo m f hm hf w = let (r, w') = m w in continue-KeepsIo r f hf w' ∙ hm w
