-- ===== src/Http/Policy/Ranges.antt =====
-- The hosts that are blocked by default, as names and ranges of addresses (isDefaultBlockedHost of
-- internal/engine/http_executor.go).
use Prim.Native.Nat.{bit_and}
use resource_action_operator.Prelude.{
  ℕ, zero, suc, ◌≤◌, ◌<◌, ◌≡◌, refl, sym, subst, ap, ◌∙◌, ◌↔◌, ↔-trans, ◌⊎◌, inl, inr, String,
  Option, none, some, List, [], ◌∷◌, All, arith, Bool, true, false, ◌&&◌, ◌||◌, ◌==◌, same, any,
  leb, eqb, Bool-cases, eq_iff,
}
use mathlib.Core.Option.{some-injective}
use mathlib.Core.List.{head-eq_of_cons-eq, tail-eq_of_cons-eq}
use resource_action_operator.Std.{Std, Ip, v4, v6}
use resource_action_operator.Http.Policy.{
  is_loopback, is_link_local_unicast, is_private, is_unsafe, blocked_names, v6_loopback, same_bytes,
  is_default_blocked_host,
}

abbrev pub Named : String → List String → Type 0
Named host [] = ⊥
Named host (name ∷ names) = (host ≡ name) ⊎ Named host names

-- A test of every number below a bound, for the masks of bytes.
abbrev holds_below : (ℕ → Bool) → ℕ → Bool
holds_below p zero = true
holds_below p (suc n) = p n && holds_below p n

holds_below_lem : (p : ℕ → Bool) (n k : ℕ) → holds_below p n ≡ true → k < n → p k ≡ true
holds_below_lem p zero k h less = absurd (omega arith)
holds_below_lem p (suc n) k h less = elim (Bool-cases (eqb k n)) [
  | inl last ↦ let same' : n ≡ k = ground arith in ap p (sym same') ∙ ground arith
  | inr before ↦ holds_below_lem p n k (ground arith) (ground arith)
]

mask_f0 : (b : ℕ) → b < 256 → same (eqb (bit_and b 0xf0) 16) (leb 16 b && leb b 31) ≡ true
mask_f0 b less =
    holds_below_lem (λ b. same (eqb (bit_and b 0xf0) 16) (leb 16 b && leb b 31)) 256 b refl less

mask_c0 : (b : ℕ) → b < 256 → same (eqb (bit_and b 0xc0) 0x80) (leb 128 b && leb b 191) ≡ true
mask_c0 b less =
    holds_below_lem (λ b. same (eqb (bit_and b 0xc0) 0x80) (leb 128 b && leb b 191)) 256 b refl less

mask_fe : (b : ℕ) → b < 256 → same (eqb (bit_and b 0xfe) 0xfc) (leb 252 b && leb b 253) ≡ true
mask_fe b less =
    holds_below_lem (λ b. same (eqb (bit_and b 0xfe) 0xfc) (leb 252 b && leb b 253)) 256 b refl less

same_eq : (a b : Bool) → same a b ≡ true → a ≡ b
same_eq true true h = refl
same_eq true false h = cc
same_eq false true h = cc
same_eq false false h = refl

-- Numbers in a range of a byte.
abbrev pub Within : ℕ → ℕ → ℕ → Type 0
Within low high n = (low ≤ n) × (n ≤ high)

-- fe80::/10 and fc00::/7.
abbrev pub IsLinkLocal : List ℕ → Type 0
IsLinkLocal (a ∷ b ∷ bytes) = (a ≡ 254) × Within 128 191 b
IsLinkLocal _ = ⊥

abbrev pub IsUniqueLocal : List ℕ → Type 0
IsUniqueLocal (a ∷ bytes) = Within 252 253 a
IsUniqueLocal [] = ⊥

-- 127.0.0.0/8, 169.254.0.0/16, 10.0.0.0/8, 172.16.0.0/12 and 192.168.0.0/16, or ::1, fe80::/10 and
-- fc00::/7.
abbrev pub IsLocal : Ip → Type 0
IsLocal (v4 a b c d) =
    (a ≡ 127)
    ⊎ ((a ≡ 169) × (b ≡ 254))
    ⊎ (a ≡ 10)
    ⊎ ((a ≡ 172) × Within 16 31 b)
    ⊎ ((a ≡ 192) × (b ≡ 168))
IsLocal (v6 bytes) = (bytes ≡ v6_loopback) ⊎ IsLinkLocal bytes ⊎ IsUniqueLocal bytes

abbrev pub IsBytes : Ip → Type 0
IsBytes (v4 a b c d) = b < 256
IsBytes (v6 bytes) = All (λ b. b < 256) bytes

v4_iff : (a b c d : ℕ) → b < 256 → (is_unsafe (v4 a b c d) ≡ true) ↔ IsLocal (v4 a b c d)
unfolding is_loopback is_link_local_unicast is_private
v4_iff a b c d less =
    let mask : eqb (bit_and b 0xf0) 16 ≡ (leb 16 b && leb b 31) = same_eq _ _ (mask_f0 b less) in
    rw mask ((λ h. ground arith), (λ h. ground arith))

same_bytes_iff : (xs ys : List ℕ) → (same_bytes xs ys ≡ true) ↔ (xs ≡ ys)
same_bytes_iff [] [] = ((λ h. refl), (λ h. refl))
same_bytes_iff [] (y ∷ ys) = ((λ h. cc), (λ h. cc))
same_bytes_iff (x ∷ xs) [] = ((λ h. cc), (λ h. cc))
same_bytes_iff (x ∷ xs) (y ∷ ys) =
    let ih = same_bytes_iff xs ys in
    (
      (λ h. let head : x ≡ y = ground arith in let tail : xs ≡ ys = ih.0 (ground arith) in cc),
      (λ h. rw (head-eq_of_cons-eq h, ih.1 (tail-eq_of_cons-eq h)) (self y)),
    )
  where
    self : (n : ℕ) → (eqb n n && true) ≡ true
    self n = ground arith

IsLinkLocal-iff :
    (bytes : List ℕ)
    → All (λ b. b < 256) bytes
    → (is_link_local_unicast (v6 bytes) ≡ true) ↔ IsLinkLocal bytes
unfolding is_link_local_unicast
IsLinkLocal-iff [] less = ((λ h. cc), (λ h. elim h [ ]))
IsLinkLocal-iff (a ∷ []) less = ((λ h. cc), (λ h. elim h [ ]))
IsLinkLocal-iff (a ∷ b ∷ bytes) less =
    let mask : eqb (bit_and b 0xc0) 0x80 ≡ (leb 128 b && leb b 191) =
      same_eq _ _ (mask_c0 b less.1.0) in
    rw mask ((λ h. ground arith), (λ h. ground arith))

private_iff :
    (bytes : List ℕ)
    → All (λ b. b < 256) bytes
    → (is_private (v6 bytes) ≡ true) ↔ IsUniqueLocal bytes
unfolding is_private
private_iff [] less = ((λ h. cc), (λ h. elim h [ ]))
private_iff (a ∷ bytes) less =
    let mask : eqb (bit_and a 0xfe) 0xfc ≡ (leb 252 a && leb a 253) =
      same_eq _ _ (mask_fe a less.0) in
    rw mask ((λ h. ground arith), (λ h. ground arith))

or_iff : {P Q : Type 0} (a b : Bool) → (a ≡ true) ↔ P → (b ≡ true) ↔ Q → ((a || b) ≡ true) ↔ (P ⊎ Q)
or_iff true b p q = ((λ h. inl (p.0 refl)), (λ h. refl))
or_iff false b p q = ((λ h. inr (q.0 h)), (λ h. elim h [ inl x ↦ cc (p.1 x) | inr y ↦ q.1 y ]))

nested_iff : (P Q R : Type 0) → ((P ⊎ Q) ⊎ R) ↔ (P ⊎ Q ⊎ R)
nested_iff P Q R = (
  (λ h. elim h [ inl (inl p) ↦ inl p | inl (inr q) ↦ inr (inl q) | inr r ↦ inr (inr r) ]),
  (λ h. elim h [ inl p ↦ inl (inl p) | inr (inl q) ↦ inl (inr q) | inr (inr r) ↦ inr r ]),
)

is_unsafe_iff : (ip : Ip) → IsBytes ip → (is_unsafe ip ≡ true) ↔ IsLocal ip
is_unsafe_iff (v4 a b c d) less = v4_iff a b c d less
is_unsafe_iff (v6 bytes) less =
    unfold is_loopback in
    ↔-trans
      (or_iff _ _ (or_iff _ _ (same_bytes_iff bytes v6_loopback) (IsLinkLocal-iff bytes less))
        (private_iff bytes less))
      (nested_iff _ _ _)

any_iff :
    (host : String) (names : List String)
    → (any (λ name. host == name) names ≡ true) ↔ Named host names
any_iff host [] = ((λ h. cc), (λ h. elim h [ ]))
any_iff host (name ∷ names) = or_iff _ _ (eq_iff host name) (any_iff host names)

module _ (std : Std) where
  parsed_iff :
      (o : Option Ip)
      → ((ip : Ip) → o ≡ some ip → IsBytes ip)
      → (elim o [ none ↦ false | some ip ↦ is_unsafe ip ] ≡ true)
        ↔ ((ip : Ip) × (o ≡ some ip) × IsLocal ip)
  parsed_iff none bytes = ((λ h. cc), (λ h. cc (h.1)))
  parsed_iff (some ip) bytes =
      let unsafe = is_unsafe_iff ip (bytes ip refl) in
      (
        (λ h. (ip, refl, unsafe.0 h)),
        (λ h.
            let (ip', e, local) = h in
            unsafe.1 (subst IsLocal (sym (some-injective ip ip' e)) local)),
      )

  -- If the bytes that net.ParseIP gives are bytes, a host is blocked by default exactly when it is
  -- one of the seven names, or an address in 127.0.0.0/8, 169.254.0.0/16, 10.0.0.0/8, 172.16.0.0/12,
  -- 192.168.0.0/16, fe80::/10 or fc00::/7, or ::1.
  pub is_default_blocked_host_iff :
      (host : String)
      → ((ip : Ip) → std.parse_ip host ≡ some ip → IsBytes ip)
      → (is_default_blocked_host std host ≡ true)
        ↔ (Named host blocked_names ⊎ ((ip : Ip) × (std.parse_ip host ≡ some ip) × IsLocal ip))
  unfolding is_default_blocked_host
  is_default_blocked_host_iff host bytes =
      or_iff _ _ (any_iff host blocked_names) (parsed_iff (std.parse_ip host) bytes)
