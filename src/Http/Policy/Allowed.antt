-- ===== src/Http/Policy/Allowed.antt =====
-- The targets that the URL safety policy lets through (validateTargetURL of
-- internal/engine/http_executor.go), described without its order of checks.
use resource_action_operator.Prelude.{
  ◌≡◌, refl, ap, ◌∙◌, ◌≢◌, ◌↔◌, ◌⊎◌, inl, inr, String, Option, none, some, List, [], ◌∷◌, All,
  arith, Bool, true, false, not, ◌&&◌, ◌==◌, Bool-cases, ok, wrap, wrap-ok, >>_iff, >>=_iff,
  ↔-trans, reject_if_iff, is_empty, target_url_invalid, url_policy_regex,
}
use resource_action_operator.Prelude.Text.{ne_iff, to_lower}
use resource_action_operator.Api.{UrlPolicySpec}
use resource_action_operator.Std.{Std, Url, Regexp}
use resource_action_operator.Http.Policy.{
  is_default_blocked_host, match_any_regex, allows_unsafe, check_blocked, check_allowed,
  check_lists, check_host, validate_target_url,
}

safe_iff :
    (unsafe blocked : Bool)
    → ((not unsafe && blocked) ≡ false) ↔ ((unsafe ≡ true) ⊎ (blocked ≡ false))
safe_iff true blocked = ((λ h. inl refl), (λ h. refl))
safe_iff false true = ((λ h. cc), (λ h. elim h [ inl p ↦ cc | inr q ↦ cc ]))
safe_iff false false = ((λ h. inr refl), (λ h. refl))

module _ (std : Std) where
  -- The pattern compiles, and its answer on the value is this one.
  abbrev pub Answers : String → String → Bool → Type 0
  Answers pattern value answer = (re : Regexp) × (std.compile pattern ≡ ok re) × (re value ≡ answer)

  -- Every pattern compiles, and none matches.
  abbrev pub NoneMatches : List String → String → Type 0
  NoneMatches patterns value = All (λ p. Answers p value false) patterns

  -- A pattern matches, and those before it compile and do not match.
  abbrev pub SomeMatches : List String → String → Type 0
  SomeMatches [] value = ⊥
  SomeMatches (p ∷ patterns) value =
      Answers p value true ⊎ (Answers p value false × SomeMatches patterns value)

  -- One round of the loop.
  round_false_iff :
      (p : String) (patterns : List String) (value : String)
      → (match_any_regex std (p ∷ patterns) value ≡ ok false)
        ↔ (Answers p value false × (match_any_regex std patterns value ≡ ok false))
  unfolding match_any_regex
  round_false_iff p patterns value =
      ↔-trans (>>=_iff (wrap (url_policy_regex p) (std.compile p)) _ false) (
        (λ (re, compiled, h). elim (Bool-cases (re value)) [
          | inl hit ↦ cc (rw hit at h)
          | inr miss ↦ ((re, wrap-ok _ _ compiled, miss), rw miss at h)
        ]),
        (λ h.
            let (re, compiled, miss) = h.0 in
            (re, ap (wrap (url_policy_regex p)) compiled, rw miss h.1)),
      )

  round_true_iff :
      (p : String) (patterns : List String) (value : String)
      → (match_any_regex std (p ∷ patterns) value ≡ ok true) ↔ (
          Answers p value true
          ⊎ (Answers p value false × (match_any_regex std patterns value ≡ ok true)))
  unfolding match_any_regex
  round_true_iff p patterns value =
      ↔-trans (>>=_iff (wrap (url_policy_regex p) (std.compile p)) _ true) (
        (λ (re, compiled, h). elim (Bool-cases (re value)) [
          | inl hit ↦ inl (re, wrap-ok _ _ compiled, hit)
          | inr miss ↦ inr ((re, wrap-ok _ _ compiled, miss), rw miss at h)
        ]),
        (λ h. elim h [
          | inl (re, compiled, hit) ↦ (re, ap (wrap (url_policy_regex p)) compiled, rw hit)
          | inr ((re, compiled, miss), rest) ↦
              (re, ap (wrap (url_policy_regex p)) compiled, rw miss rest)
        ]),
      )

  match_any_regex-false_iff :
      (patterns : List String) (value : String)
      → (match_any_regex std patterns value ≡ ok false) ↔ NoneMatches patterns value
  match_any_regex-false_iff [] value = ((λ h. tt), (λ h. unfold match_any_regex in refl))
  match_any_regex-false_iff (p ∷ patterns) value =
      let ih = match_any_regex-false_iff patterns value in
      ↔-trans (round_false_iff p patterns value) ((λ h. (h.0, ih.0 h.1)), (λ h. (h.0, ih.1 h.1)))

  match_any_regex-true_iff :
      (patterns : List String) (value : String)
      → (match_any_regex std patterns value ≡ ok true) ↔ SomeMatches patterns value
  match_any_regex-true_iff [] value = ((λ h. unfold match_any_regex in cc), (λ h. elim h [ ]))
  match_any_regex-true_iff (p ∷ patterns) value =
      let ih = match_any_regex-true_iff patterns value in
      ↔-trans (round_true_iff p patterns value) (
        (λ h. elim h [ inl hit ↦ inl hit | inr (miss, rest) ↦ inr (miss, ih.0 rest) ]),
        (λ h. elim h [ inl hit ↦ inl hit | inr (miss, rest) ↦ inr (miss, ih.1 rest) ]),
      )

  check_blocked_iff :
      (patterns : List String) (host : String)
      → (check_blocked std patterns host ≡ ok tt) ↔ NoneMatches patterns host
  unfolding check_blocked
  check_blocked_iff [] host = ((λ h. tt), (λ h. refl))
  check_blocked_iff (p ∷ patterns) host =
      ↔-trans (>>=_iff (match_any_regex std (p ∷ patterns) host) _ tt) (
        (λ (blocked, found, h).
            (match_any_regex-false_iff (p ∷ patterns) host).0
              (found ∙ ap ok ((reject_if_iff blocked _).0 h))),
        (λ h. (false, (match_any_regex-false_iff (p ∷ patterns) host).1 h, refl)),
      )

  check_allowed_iff :
      (patterns : List String) (host : String)
      → (check_allowed std patterns host ≡ ok tt)
        ↔ ((is_empty patterns ≡ true) ⊎ SomeMatches patterns host)
  unfolding check_allowed
  check_allowed_iff [] host = ((λ h. inl refl), (λ h. refl))
  check_allowed_iff (p ∷ patterns) host =
      ↔-trans (>>=_iff (match_any_regex std (p ∷ patterns) host) _ tt) (
        (λ (allowed, found, h). inr (
            (match_any_regex-true_iff (p ∷ patterns) host).0
              (found ∙ ap ok (let n = (reject_if_iff (not allowed) _).0 h in ground arith)))),
        (λ h. elim h [
          | inl e ↦ cc
          | inr some_match ↦
              (true, (match_any_regex-true_iff (p ∷ patterns) host).1 some_match, refl)
        ]),
      )

  abbrev pub ListsAllow : Option UrlPolicySpec → String → Type 0
  ListsAllow none host = Unit
  ListsAllow (some policy) host =
      NoneMatches policy.blocked_host_regex host
      × ((is_empty policy.allowed_host_regex ≡ true) ⊎ SomeMatches policy.allowed_host_regex host)

  check_lists_iff :
      (policy : Option UrlPolicySpec) (host : String)
      → (check_lists std policy host ≡ ok tt) ↔ ListsAllow policy host
  check_lists_iff none host = ((λ h. tt), (λ h. refl))
  check_lists_iff (some policy) host =
      >>_iff _ _ (check_blocked_iff policy.blocked_host_regex host)
        (check_allowed_iff policy.allowed_host_regex host)

  pub record IsAllowed (policy : Option UrlPolicySpec) (host : String) : Type 0 where
    pub named : host ≢ ""
    pub safe : (allows_unsafe std policy ≡ true) ⊎ (is_default_blocked_host std host ≡ false)
    pub lists : ListsAllow policy host

  check_host_iff :
      (policy : Option UrlPolicySpec) (host : String)
      → (check_host std policy host ≡ ok tt) ↔ IsAllowed policy host
  unfolding check_host
  check_host_iff policy host =
      let unsafe = allows_unsafe std policy in
      let blocked = is_default_blocked_host std host in
      ↔-trans
        (>>_iff _ _ (reject_if_iff (host == "") _)
          (>>_iff _ _ (reject_if_iff (not unsafe && blocked) _) (check_lists_iff policy host)))
        (
          (λ h. record {
            named = (ne_iff _ _).0 h.0;
            safe = (safe_iff unsafe blocked).0 h.1.0;
            lists = h.1.1;
          }),
          (λ h. ((ne_iff _ _).1 h.named, ((safe_iff unsafe blocked).1 h.safe, h.lists))),
        )

  -- A target passes exactly when its URL parses and its host, in lower case, is not empty, is not
  -- blocked by default unless the policy allows local targets, matches no blocked pattern, and
  -- matches an allowed pattern if there are any; a pattern that has to be tried must compile.
  pub validate_target_url_iff :
      (raw_url : String) (policy : Option UrlPolicySpec)
      → (validate_target_url std raw_url policy ≡ ok tt) ↔ (
          (u : Url) × (std.parse_url raw_url ≡ ok u)
          × IsAllowed policy (to_lower std.lower_rune u.hostname))
  unfolding validate_target_url
  validate_target_url_iff raw_url policy =
      ↔-trans (>>=_iff (wrap target_url_invalid (std.parse_url raw_url)) _ tt) (
        (λ (u, parsed, h). (u, wrap-ok _ _ parsed, (check_host_iff policy _).0 h)),
        (λ (u, parsed, h). (u, ap (wrap target_url_invalid) parsed, (check_host_iff policy _).1 h)),
      )
