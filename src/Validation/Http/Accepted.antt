-- ===== src/Validation/Http/Accepted.antt =====
-- The http actions that validateHTTPAction (api/v1alpha1/validation.go) accepts, described
-- without its order of checks.
use resource_action_operator.Prelude.{
  ℕ, ◌≡◌, refl, >>=_iff, ◌≢◌, >>_iff, wrap_iff, reject_if_iff, ↔-trans, ◌↔◌, ◌⊎◌, inl, inr, String,
  Option, none, some, All, arith, Result, ok, err, wrap, Error, ◌==◌, eq_iff, Bool-cases, false,
  is_some, if◌then◌else◌,
}
use resource_action_operator.Prelude.Text.{is_blank, ne_iff}
use resource_action_operator.Api.{ActionSpec, UrlPolicySpec}
use resource_action_operator.Std.{Std, Url, Regexp}
use resource_action_operator.Validation.Each.{for_each_iff}
use resource_action_operator.Validation.Http.{
  checked, check_url, validate_action_url, check_regex, check_policy, validate_http_action,
}

pub checked-wrap_iff {ℓ} :
    {A : Type ℓ} (f : Error → Error) (r : Result A)
    → (checked (wrap f r) ≡ ok tt) ↔ ((a : A) × (r ≡ ok a))
checked-wrap_iff f (ok a) = (λ h. (a, refl), λ h. refl)
checked-wrap_iff f (err e) = (λ h. cc, λ h. cc (h.1))

-- `if s != "" { ... }` around a call of which only the error is used.
pub unless_empty_iff {ℓ} :
    {A : Type ℓ} (s : String) (f : Error → Error) (r : Result A)
    → ((if s == "" then ok tt else checked (wrap f r)) ≡ ok tt)
      ↔ ((s ≡ "") ⊎ ((a : A) × (r ≡ ok a)))
unless_empty_iff s f r = elim (Bool-cases (s == "")) [
  | inl e ↦ ((λ h. inl ((eq_iff _ _).0 e)), (λ h. rw e))
  | inr e ↦ (
    (λ h. inr ((checked-wrap_iff f r).0 (rw e at h))),
    (λ h. elim h [
      | inl p ↦ absurd ((ne_iff _ _).0 e p)
      | inr c ↦ rw e ((checked-wrap_iff f r).1 c)
    ]),
  )
]

-- The scheme is http or https, and the host is not blank.
abbrev pub IsHttpUrl : Url → Type 0
IsHttpUrl u = ((u.scheme ≡ "http") ⊎ (u.scheme ≡ "https")) × (is_blank u.hostname ≡ false)

check_url_iff : (u : Url) → (check_url u ≡ ok tt) ↔ IsHttpUrl u
unfolding check_url
check_url_iff u = (
  (λ h. ground (arith, eq_iff u.scheme "http", eq_iff u.scheme "https")),
  (λ h. ground (arith, eq_iff u.scheme "http", eq_iff u.scheme "https")),
)

module _ (std : Std) where
  abbrev pub Compiles : String → Type 0
  Compiles pattern = (re : Regexp) × (std.compile pattern ≡ ok re)

  abbrev pub IsTarget : String → Type 0
  IsTarget raw = (u : Url) × (std.parse_url raw ≡ ok u) × IsHttpUrl u

  pub validate_action_url_iff :
      (raw : String) → (validate_action_url std raw ≡ ok tt) ↔ IsTarget raw
  unfolding validate_action_url
  validate_action_url_iff raw =
      ↔-trans (>>=_iff (std.parse_url raw) check_url tt)
        ((λ h. (h.0, h.1, (check_url_iff h.0).0 h.2)), (λ h. (h.0, h.1, (check_url_iff h.0).1 h.2)))

  pub check_regex_iff :
      (f : Error → Error) (pattern : String)
      → (check_regex std f pattern ≡ ok tt) ↔ ((pattern ≡ "") ⊎ Compiles pattern)
  check_regex_iff f pattern = unless_empty_iff pattern f (std.compile pattern)

  abbrev pub PolicyCompiles : Option UrlPolicySpec → Type 0
  PolicyCompiles none = Unit
  PolicyCompiles (some policy) =
      All Compiles policy.allowed_host_regex × All Compiles policy.blocked_host_regex

  pub check_policy_iff :
      (i : ℕ) (policy : Option UrlPolicySpec)
      → (check_policy std i policy ≡ ok tt) ↔ PolicyCompiles policy
  check_policy_iff i none = (λ h. tt, λ h. refl)
  check_policy_iff i (some policy) =
      >>_iff _ _ (for_each_iff _ (λ _ p. checked-wrap_iff _ _) 0 policy.allowed_host_regex)
        (for_each_iff _ (λ _ p. checked-wrap_iff _ _) 0 policy.blocked_host_regex)

  pub record IsValidHttp (action : ActionSpec) : Type 0 where
    pub no_job : is_some action.job ≡ false
    pub has_url : action.url ≢ ""
    pub target : IsTarget action.url
    pub expected : (action.expected_status ≡ "") ⊎ Compiles action.expected_status
    pub policy : PolicyCompiles action.url_policy

  -- An http action passes the validation exactly when it has no job, a URL that parses with the
  -- scheme http or https and a host that is not blank, an expected status that is empty or compiles,
  -- and a URL policy whose patterns all compile.
  pub validate_http_action_iff :
      (i : ℕ) (action : ActionSpec)
      → (validate_http_action std i action ≡ ok tt) ↔ IsValidHttp action
  unfolding validate_http_action
  validate_http_action_iff i action =
      let conjunction = >>_iff _ _ (reject_if_iff (is_some action.job) _) (
        >>_iff _ _ (reject_if_iff (action.url == "") _) (
          >>_iff _ _ (↔-trans (wrap_iff _ _) (validate_action_url_iff action.url)) (
            >>_iff _ _ (check_regex_iff _ action.expected_status)
              (check_policy_iff i action.url_policy)))) in
      ↔-trans conjunction (
        (λ h. record {
          no_job = h.0;
          has_url = (ne_iff _ _).0 h.1.0;
          target = h.1.1.0;
          expected = h.1.1.1.0;
          policy = h.1.1.1.1;
        }),
        (λ h. (h.no_job, ((ne_iff _ _).1 h.has_url, (h.target, (h.expected, h.policy))))),
      )
