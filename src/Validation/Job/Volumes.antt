-- ===== src/Validation/Job/Volumes.antt =====
-- The volumes that validateJobVolumes (api/v1alpha1/validation.go) accepts, and the names that it
-- collects for the mounts.
use resource_action_operator.Prelude.{
  ℕ, suc, ◌≡◌, refl, ap, ◌↔◌, String, Option, none, some, List, [], ◌∷◌, map, All, arith, ok, >>-ok,
  >>_iff, ↔-trans, reject_if_iff, false, ◌||◌, eq_iff, same, is_some, ok-injective,
}
use resource_action_operator.Prelude.Text.{is_blank}
use resource_action_operator.Api.{JobSpec, JobVolume, JobSecretVolume, JobConfigMapVolume}
use resource_action_operator.Validation.Job.{
  contains, check_volume, secret_name_blank, config_map_name_blank, validate_volumes_from,
  validate_job_volumes,
}

abbrev pub Source : Option JobSecretVolume → Option JobConfigMapVolume → Type 0
Source (some secret) none = is_blank secret.secret_name ≡ false
Source none (some config_map) = is_blank config_map.name ≡ false
Source _ _ = ⊥

-- A named volume has one source, a Secret or a ConfigMap, and the source is named.
abbrev pub IsValidVolume : JobVolume → Type 0
IsValidVolume vol = (is_blank vol.name ≡ false) × Source vol.secret vol.config_map

Source-iff :
    (s : Option JobSecretVolume) (c : Option JobConfigMapVolume)
    → ((same (is_some s) (is_some c) ≡ false)
        × ((secret_name_blank s ≡ false) × (config_map_name_blank c ≡ false)))
      ↔ Source s c
Source-iff none none = ((λ h. cc (h.0)), (λ h. elim h [ ]))
Source-iff none (some c) = ((λ h. h.1.1), (λ h. (refl, (refl, h))))
Source-iff (some s) none = ((λ h. h.1.0), (λ h. (refl, (h, refl))))
Source-iff (some s) (some c) = ((λ h. cc (h.0)), (λ h. elim h [ ]))

check_volume_iff :
    (i j : ℕ) (seen : List String) (vol : JobVolume)
    → (check_volume i j seen vol ≡ ok tt) ↔ (IsValidVolume vol × (contains seen vol.name ≡ false))
unfolding check_volume
check_volume_iff i j seen vol =
    let source = Source-iff vol.secret vol.config_map in
    ↔-trans
      (>>_iff _ _ (reject_if_iff (is_blank vol.name) _) (
        >>_iff _ _ (reject_if_iff (contains seen vol.name) _) (
          >>_iff _ _ (reject_if_iff (same (is_some vol.secret) (is_some vol.config_map)) _) (
            >>_iff _ _ (reject_if_iff (secret_name_blank vol.secret) _)
              (reject_if_iff (config_map_name_blank vol.config_map) _)))))
      ((λ h. ((h.0, source.0 h.1.1), h.1.0)), (λ h. (h.0.0, (h.1, source.1 h.0.1))))

-- No name stands twice.
abbrev pub Distinct : List String → Type 0
Distinct [] = Unit
Distinct (n ∷ ns) = (contains ns n ≡ false) × Distinct ns

abbrev pub names : List JobVolume → List String
names = map (λ vol. vol.name)

abbrev Fresh : List String → List String → Type 0
Fresh seen = All (λ n. contains seen n ≡ false)

-- The loop adds one name to those seen; what stays fresh is what does not repeat it.
Fresh-cons_iff :
    (n : String) (seen ns : List String)
    → Fresh (n ∷ seen) ns ↔ ((contains ns n ≡ false) × Fresh seen ns)
Fresh-cons_iff n seen [] = ((λ h. (refl, tt)), (λ h. tt))
Fresh-cons_iff n seen (m ∷ ns) =
    let ih = Fresh-cons_iff n seen ns in
    (
      (λ h. let ih' = ih.0 h.1 in (ground (arith, eq_iff m n, eq_iff n m), (ground arith, ih'.1))),
      (λ h. (ground (arith, eq_iff m n, eq_iff n m), ih.1 (ground arith, h.1.1))),
    )

-- The names that the loop returns, in its order.
abbrev pub collected : List String → List JobVolume → List String
collected seen [] = seen
collected seen (vol ∷ vols) = collected (vol.name ∷ seen) vols

validate_volumes_from_iff :
    (i j : ℕ) (seen : List String) (vols : List JobVolume) (volumes : List String)
    → (validate_volumes_from i j seen vols ≡ ok volumes) ↔ (
        (All IsValidVolume vols × (Distinct (names vols) × Fresh seen (names vols)))
        × (collected seen vols ≡ volumes))
unfolding validate_volumes_from
validate_volumes_from_iff i j seen [] volumes =
    ((λ h. ((tt, (tt, tt)), ok-injective h)), (λ h. ap ok h.1))
validate_volumes_from_iff i j seen (vol ∷ vols) volumes =
    let fresh = Fresh-cons_iff vol.name seen (names vols) in
    let head = check_volume_iff i j seen vol in
    let rest = validate_volumes_from_iff i (suc j) (vol.name ∷ seen) vols volumes in
    (
      (λ h.
          let (passed, returned) = >>-ok (check_volume i j seen vol) _ h in
          let ih = rest.0 returned in
          let first = head.0 passed in
          let apart = fresh.0 ih.0.1.1 in
          (((first.0, ih.0.0), ((apart.0, ih.0.1.0), (first.1, apart.1))), ih.1)),
      (λ h.
          rw (head.1 (h.0.0.0, h.0.1.1.0))
            (rest.1 ((h.0.0.1, (h.0.1.0.1, fresh.1 (h.0.1.0.0, h.0.1.1.1))), h.1))),
    )

contains-collected :
    (seen : List String) (vols : List JobVolume) (n : String)
    → contains (collected seen vols) n ≡ (contains (names vols) n || contains seen n)
contains-collected seen [] n = refl
contains-collected seen (vol ∷ vols) n = ground (arith, contains-collected (vol.name ∷ seen) vols n)

Fresh-nil : (ns : List String) → Fresh [] ns
Fresh-nil [] = tt
Fresh-nil (n ∷ ns) = (refl, Fresh-nil ns)

-- The loop over the volumes returns names exactly when every volume is valid and no two share a
-- name, and the names are those of the volumes in reverse.
pub validate_job_volumes_iff :
    (i : ℕ) (job : JobSpec) (volumes : List String)
    → (validate_job_volumes i job ≡ ok volumes) ↔ (
        (All IsValidVolume job.volumes × Distinct (names job.volumes))
        × (collected [] job.volumes ≡ volumes))
unfolding validate_job_volumes
validate_job_volumes_iff i job volumes =
    ↔-trans (validate_volumes_from_iff i 0 [] job.volumes volumes) (
      (λ h. ((h.0.0, h.0.1.0), h.1)),
      (λ h. ((h.0.0, (h.0.1, Fresh-nil (names job.volumes))), h.1)),
    )

-- They are the names of the volumes.
pub contains-volumes :
    (vols : List JobVolume) (n : String) → contains (collected [] vols) n ≡ contains (names vols) n
contains-volumes vols n = ground (arith, contains-collected [] vols n)
