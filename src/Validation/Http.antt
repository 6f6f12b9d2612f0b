-- ===== src/Validation/Http.antt =====
-- validateHTTPAction and validateActionURL (api/v1alpha1/validation.go), and the actions they accept.
pub mod Accepted
use resource_action_operator.Prelude.{
  ℕ, ◌≡◌, refl, ◌↔◌, ◌⊎◌, inl, inr, String, Option, none, some, List, All, arith, Check, Result, ok,
  err, ◌>>◌, ◌>>=◌, reject_if, wrap, Error, bad_scheme, host_required, job_not_allowed,
  url_required, action_url, expected_status_invalid, allowed_host_regex_invalid,
  blocked_host_regex_invalid, true, false, not, ◌&&◌, ◌==◌, if◌then◌else◌, is_some,
}
use resource_action_operator.Prelude.Text.{is_blank}
use resource_action_operator.Api.{ActionSpec, UrlPolicySpec}
use resource_action_operator.Std.{Std, Url}
use resource_action_operator.Validation.Each.{for_each, for_each_iff}

-- `_, err := f(x)`, where only the error is used.
abbrev pub checked {ℓ} : {A : Type ℓ} → Result A → Check
checked (ok a) = ok tt
checked (err e) = err e

check_url : Url → Check
check_url u = do
  reject_if (not (u.scheme == "http") && not (u.scheme == "https")) bad_scheme
  reject_if (is_blank u.hostname) host_required

module _ (std : Std) where
  open std use {compile, parse_url}

  unfoldable pub validate_action_url : String → Check
  unfolding check_url
  validate_action_url raw = do u ← parse_url raw; check_url u

  -- `if pattern != "" { regexp.Compile(pattern) }`
  abbrev pub check_regex : (Error → Error) → String → Check
  check_regex invalid pattern =
      if pattern == "" then ok tt else checked (wrap invalid (compile pattern))

  abbrev pub check_policy : ℕ → Option UrlPolicySpec → Check
  check_policy i none = ok tt
  check_policy i (some policy) = do
    for_each (λ _ p. checked (wrap (allowed_host_regex_invalid i p) (compile p))) 0
        policy.allowed_host_regex
    for_each (λ _ p. checked (wrap (blocked_host_regex_invalid i p) (compile p))) 0
        policy.blocked_host_regex

  unfoldable pub validate_http_action : ℕ → ActionSpec → Check
  validate_http_action i action = do
    reject_if (is_some action.job) (job_not_allowed i action.type)
    reject_if (action.url == "") (url_required i)
    wrap (action_url i) (validate_action_url action.url)
    check_regex (expected_status_invalid i) action.expected_status
    check_policy i action.url_policy
