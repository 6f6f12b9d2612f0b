-- ===== src/Http/Policy.antt =====
-- The URL safety policy: validateTargetURL, matchAnyRegex and isDefaultBlockedHost
-- (internal/engine/http_executor.go).
pub mod Allowed
pub mod Ranges
pub mod Valid
use Prim.Native.Nat.{bit_and}
use resource_action_operator.Prelude.{
  ℕ, String, Option, none, some, List, [], ◌∷◌, Bool, true, false, not, ◌&&◌, ◌||◌, ◌==◌, eqb,
  is_empty, any, Result, ok, err, Check, ◌>>=◌, ◌>>◌, reject_if, wrap, if◌then◌else◌, Error,
  target_url_invalid, target_host_empty, host_blocked_by_default, host_blocked, host_not_allowed,
  url_policy_regex,
}
use resource_action_operator.Prelude.Text.{to_lower}
use resource_action_operator.Api.{UrlPolicySpec}
use resource_action_operator.Std.{Std, Ip, v4, v6}

-- net.IP: IsLoopback, IsLinkLocalUnicast and IsPrivate, on four bytes or on sixteen.
abbrev pub same_bytes : List ℕ → List ℕ → Bool
same_bytes [] [] = true
same_bytes (a ∷ as') (b ∷ bs) = eqb a b && same_bytes as' bs
same_bytes _ _ = false

abbrev pub v6_loopback : List ℕ
v6_loopback = 0 ∷ 0 ∷ 0 ∷ 0 ∷ 0 ∷ 0 ∷ 0 ∷ 0 ∷ 0 ∷ 0 ∷ 0 ∷ 0 ∷ 0 ∷ 0 ∷ 0 ∷ 1 ∷ []

unfoldable pub is_loopback : Ip → Bool
is_loopback (v4 a b c d) = eqb a 127
is_loopback (v6 bytes) = same_bytes bytes v6_loopback

unfoldable pub is_link_local_unicast : Ip → Bool
is_link_local_unicast (v4 a b c d) = eqb a 169 && eqb b 254
is_link_local_unicast (v6 (a ∷ b ∷ bytes)) = eqb a 0xfe && eqb (bit_and b 0xc0) 0x80
is_link_local_unicast (v6 bytes) = false

unfoldable pub is_private : Ip → Bool
is_private (v4 a b c d) =
    eqb a 10 || (eqb a 172 && eqb (bit_and b 0xf0) 16) || (eqb a 192 && eqb b 168)
is_private (v6 (a ∷ bytes)) = eqb (bit_and a 0xfe) 0xfc
is_private (v6 []) = false

abbrev pub blocked_names : List String
blocked_names =
    "localhost" ∷ "0.0.0.0" ∷ "127.0.0.1" ∷ "::1" ∷ "169.254.169.254" ∷ "metadata.google.internal"
    ∷ "metadata" ∷ []

abbrev pub is_unsafe : Ip → Bool
is_unsafe ip = is_loopback ip || is_link_local_unicast ip || is_private ip

module _ (std : Std) where
  unfoldable pub is_default_blocked_host : String → Bool
  unfolding is_loopback is_link_local_unicast is_private
  is_default_blocked_host host =
      any (λ name. host == name) blocked_names
      || elim (std.parse_ip host) [ none ↦ false | some ip ↦ is_unsafe ip ]

  unfoldable pub match_any_regex : List String → String → Result Bool
  match_any_regex [] value = ok false
  match_any_regex (p ∷ patterns) value = do
    re ← wrap (url_policy_regex p) (std.compile p)
    let rest = match_any_regex patterns value
    if re value then ok true else rest

  abbrev pub allows_unsafe : Option UrlPolicySpec → Bool
  allows_unsafe none = false
  allows_unsafe (some policy) = policy.allow_unsafe_local_targets

  unfoldable pub check_blocked : List String → String → Check
  unfolding match_any_regex
  check_blocked patterns host =
      if is_empty patterns
      then ok tt
      else do blocked ← match_any_regex patterns host; reject_if blocked (host_blocked host)

  unfoldable pub check_allowed : List String → String → Check
  unfolding match_any_regex
  check_allowed patterns host = if is_empty patterns then ok tt else do
    allowed ← match_any_regex patterns host
    reject_if (not allowed) (host_not_allowed host)

  abbrev pub check_lists : Option UrlPolicySpec → String → Check
  check_lists none host = ok tt
  check_lists (some policy) host = do
    check_blocked policy.blocked_host_regex host
    check_allowed policy.allowed_host_regex host

  unfoldable pub check_host : Option UrlPolicySpec → String → Check
  unfolding is_default_blocked_host check_blocked check_allowed
  check_host policy host = do
    reject_if (host == "") target_host_empty
    reject_if (not (allows_unsafe policy) && is_default_blocked_host host)
        (host_blocked_by_default host)
    check_lists policy host

  unfoldable pub validate_target_url : String → Option UrlPolicySpec → Check
  unfolding check_host
  validate_target_url raw_url policy = do
    u ← wrap target_url_invalid (std.parse_url raw_url)
    check_host policy (to_lower std.lower_rune u.hostname)
