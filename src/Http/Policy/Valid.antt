-- ===== src/Http/Policy/Valid.antt =====
-- Why the target of a valid action is refused (validateTargetURL of
-- internal/engine/http_executor.go, after validateHTTPAction of api/v1alpha1/validation.go).
use resource_action_operator.Prelude.{
  ◌≡◌, refl, sym, subst, ap, ◌∙◌, ok-injective, ◌≢◌, inl, inr, String, Option, none, some, List, [],
  ◌∷◌, All, Bool, true, false, not, ◌&&◌, Bool-cases, Result, ok, err, Check, ◌>>=◌, ◌>>◌, wrap,
  reject_if, Error, host_blocked_by_default, host_blocked, host_not_allowed, target_url_invalid,
}
use resource_action_operator.Prelude.Text.{is_blank, trim_space, to_lower, ne_iff}
use resource_action_operator.Api.{ActionSpec, UrlPolicySpec}
use resource_action_operator.Std.{Std, Url}
use resource_action_operator.Validation.Http.Accepted.{Compiles, PolicyCompiles, IsValidHttp}
use resource_action_operator.Http.Policy.{
  match_any_regex, allows_unsafe, is_default_blocked_host, check_blocked, check_allowed,
  check_lists, check_host, validate_target_url,
}

-- The policy refuses the host; the URL and the patterns are in order.
abbrev pub IsRefusal : Error → Type 0
IsRefusal (host_blocked_by_default host) = Unit
IsRefusal (host_blocked host) = Unit
IsRefusal (host_not_allowed host) = Unit
IsRefusal _ = ⊥

abbrev Refuses : Check → Type 0
Refuses (ok _) = Unit
Refuses (err e) = IsRefusal e

reject_if-Refuses : (b : Bool) (e : Error) → IsRefusal e → Refuses (reject_if b e)
reject_if-Refuses true e h = h
reject_if-Refuses false e h = tt

>>-Refuses : (m k : Check) → Refuses m → Refuses k → Refuses (m >> k)
>>-Refuses (ok _) k h h' = h'
>>-Refuses (err e) k h h' = h

module _ (std : Std) where
  match_any_regex-ok :
      (patterns : List String) (value : String)
      → All (Compiles std) patterns
      → (b : Bool) × (match_any_regex std patterns value ≡ ok b)
  unfolding match_any_regex
  match_any_regex-ok [] value h = (false, refl)
  match_any_regex-ok (p ∷ patterns) value ((re, compiled), rest) =
      let (b, matched) = match_any_regex-ok patterns value rest in
      elim (Bool-cases (re value)) [
        | inl hit ↦ (true, rw (compiled, hit) refl)
        | inr miss ↦ (b, rw (compiled, miss) matched)
      ]

  check_blocked-Refuses :
      (patterns : List String) (host : String)
      → All (Compiles std) patterns
      → Refuses (check_blocked std patterns host)
  unfolding check_blocked
  check_blocked-Refuses [] host h = tt
  check_blocked-Refuses (p ∷ patterns) host h =
      let (b, matched) = match_any_regex-ok (p ∷ patterns) host h in
      subst Refuses (sym (ap (λ r. r >>= λ b. reject_if b (host_blocked host)) matched))
        (reject_if-Refuses b (host_blocked host) tt)

  check_allowed-Refuses :
      (patterns : List String) (host : String)
      → All (Compiles std) patterns
      → Refuses (check_allowed std patterns host)
  unfolding check_allowed
  check_allowed-Refuses [] host h = tt
  check_allowed-Refuses (p ∷ patterns) host h =
      let (b, matched) = match_any_regex-ok (p ∷ patterns) host h in
      subst Refuses (sym (ap (λ r. r >>= λ b. reject_if (not b) (host_not_allowed host)) matched))
        (reject_if-Refuses (not b) (host_not_allowed host) tt)

  check_lists-Refuses :
      (policy : Option UrlPolicySpec) (host : String)
      → PolicyCompiles std policy
      → Refuses (check_lists std policy host)
  check_lists-Refuses none host h = tt
  check_lists-Refuses (some policy) host h =
      >>-Refuses (check_blocked std policy.blocked_host_regex host) _
        (check_blocked-Refuses policy.blocked_host_regex host h.1)
        (check_allowed-Refuses policy.allowed_host_regex host h.0)

  check_host-Refuses :
      (policy : Option UrlPolicySpec) (host : String)
      → host ≢ ""
      → PolicyCompiles std policy
      → Refuses (check_host std policy host)
  unfolding check_host
  check_host-Refuses policy host named h = rw ((ne_iff host "").1 named) (
      >>-Refuses
        (reject_if (not (allows_unsafe std policy) && is_default_blocked_host std host)
          (host_blocked_by_default host))
        _ (reject_if-Refuses _ (host_blocked_by_default host) tt)
        (check_lists-Refuses policy host h))

  to_lower_named : (s : String) → is_blank s ≡ false → to_lower std.lower_rune s ≢ ""
  unfolding to_lower trim_space
  to_lower_named String.[] h = cc
  to_lower_named (String.◌∷◌ c s) h = λ e. cc

  url-Refuses :
      (policy : Option UrlPolicySpec) (parsed : Result Url) (u : Url)
      → parsed ≡ ok u
      → is_blank u.hostname ≡ false
      → PolicyCompiles std policy
      → Refuses (
          wrap target_url_invalid parsed >>= λ u.
          check_host std policy (to_lower std.lower_rune u.hostname))
  url-Refuses policy (err e) u parsed named h = absurd (cc)
  url-Refuses policy (ok u') u parsed named h =
      check_host-Refuses policy (to_lower std.lower_rune u'.hostname)
        (to_lower_named u'.hostname (ap (λ u. is_blank u.hostname) (ok-injective parsed) ∙ named)) h

  -- If a valid http action is refused before it is sent by the check of its target, that is because
  -- its host is blocked or not allowed: a URL or a pattern that does not parse is excluded by the
  -- validation.
  pub validate_target_url_valid :
      (action : ActionSpec) (e : Error)
      → IsValidHttp std action
      → validate_target_url std action.url action.url_policy ≡ err e
      → IsRefusal e
  unfolding validate_target_url
  validate_target_url_valid action e valid h =
      let (u, parsed, named) = valid.target in
      subst Refuses h
        (url-Refuses action.url_policy (std.parse_url action.url) u parsed named.1 valid.policy)
