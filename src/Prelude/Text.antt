-- ===== src/Prelude/Text.antt =====
-- What the program uses of Go's package strings, over the code points of a text.
use Prim.Native.Char.{Char, code}
use mathlib.Core.Bool.{Bool, true, false, ◌&&◌, ◌||◌}
use mathlib.Core.Path.{◌≡◌, refl}
use mathlib.Core.Logic.{◌↔◌, ◌≢◌}
use native.Mathlib.Omega.{arith}
use text.Mathlib.TextEquality.{eq_iff}
use resource_action_operator.Prelude.Tests.{ltb, leb, eqb, if◌then◌else◌, Bool-cases}
use mathlib.Core.Logic.{inl, inr}
use Prim.Native.Nat.{ℕ, zero, suc, ◌+◌, ◌-◌, ◌/◌, ◌%◌, ◌<◌}
use Prim.Native.String.{String, char_at, ◌++◌}
use text.Mathlib.Text.{◌==◌}

-- unicode.IsSpace
unfoldable pub is_space : ℕ → Bool
is_space c =
    (leb 0x09 c && leb c 0x0d)
    || eqb c 0x20
    || eqb c 0x85
    || eqb c 0xa0
    || eqb c 0x1680
    || (leb 0x2000 c && leb c 0x200a)
    || eqb c 0x2028
    || eqb c 0x2029
    || eqb c 0x202f
    || eqb c 0x205f
    || eqb c 0x3000

trim_left : String → String
trim_left String.[] = String.[]
trim_left (String.◌∷◌ c s) =
    let rest = trim_left s in if is_space (code c) then rest else String.◌∷◌ c s

trim_right : String → String
trim_right String.[] = String.[]
trim_right (String.◌∷◌ c s) =
    let rest = trim_right s in if is_space (code c) && rest == "" then "" else String.◌∷◌ c rest

-- strings.TrimSpace
unfoldable pub trim_space : String → String
unfolding trim_left trim_right is_space
trim_space s = trim_right (trim_left s)

-- `trim_space s == ""`, the only use of the trimmed text.
abbrev pub is_blank : String → Bool
is_blank s = trim_space s == ""

-- Simple folding onto the ASCII letters: those that differ in case only, and the two characters of
-- Unicode that fold to an ASCII letter, U+017F (s) and U+212A (k).
unfoldable pub fold : ℕ → ℕ
fold c =
    if leb b'A' c && leb c b'Z'
    then c + 32
    else if eqb c 0x17f
    then b's'
    else if eqb c 0x212a
    then b'k'
    else c

-- strings.EqualFold, where one of the two texts is ASCII.
unfoldable pub equal_fold : String → String → Bool
unfolding fold
equal_fold String.[] String.[] = true
equal_fold (String.◌∷◌ c s) (String.◌∷◌ d t) = eqb (fold (code c)) (fold (code d)) && equal_fold s t
equal_fold _ _ = false

-- Does the text begin with, or hold, an ASCII word in any case?
unfoldable pub begins_fold : String → String → Bool
unfolding fold
begins_fold String.[] s = true
begins_fold (String.◌∷◌ d t) String.[] = false
begins_fold (String.◌∷◌ d t) (String.◌∷◌ c s) =
    eqb (fold (code c)) (fold (code d)) && begins_fold t s

unfoldable pub contains_fold : String → String → Bool
unfolding begins_fold
contains_fold word String.[] = begins_fold word String.[]
contains_fold word (String.◌∷◌ c s) = begins_fold word (String.◌∷◌ c s) || contains_fold word s

-- strings.ToLower; `lower_rune` is the Unicode table, for the characters that are not ASCII.
unfoldable pub lower_char : (Char → Char) → Char → Char
lower_char lower_rune c =
    if ltb 0x7f (code c)
    then lower_rune c
    else if leb b'A' (code c) && leb (code c) b'Z'
    then char_at "abcdefghijklmnopqrstuvwxyz" (code c - b'A')
    else c

unfoldable pub to_lower : (Char → Char) → String → String
unfolding lower_char
to_lower lower_rune String.[] = String.[]
to_lower lower_rune (String.◌∷◌ c s) = String.◌∷◌ (lower_char lower_rune c) (to_lower lower_rune s)

to_lower_example : to_lower (λ c. c) "CaféZ-1" ≡ "café" ++ "z-1"
unfolding to_lower
to_lower_example = refl

trim_space_example : trim_space " \t x y  " ≡ "x y"
unfolding trim_space
trim_space_example = refl

contains_fold_example : contains_fold "eof" "unexpected EOF" ≡ true
unfolding contains_fold
contains_fold_example = refl

equal_fold_example : equal_fold "cReate" "Create" ≡ true
unfolding equal_fold
equal_fold_example = refl

-- strconv.Itoa of a number that is not negative, with as many rounds as the number.
decimal : ℕ → ℕ → String → String
decimal zero n rest = rest
decimal (suc fuel) n rest =
    let digit = String.◌∷◌ (char_at "0123456789" (n % 10)) rest in
    let more = decimal fuel (n / 10) digit in if ltb n 10 then digit else more

unfoldable pub itoa : ℕ → String
unfolding decimal
itoa n = decimal (suc n) n ""

itoa_example : itoa 5030 ≡ "5030"
unfolding itoa
itoa_example = refl

-- Texts compared by `==`.
pub ne_iff : (s t : String) → ((s == t) ≡ false) ↔ (s ≢ t)
ne_iff s t = ((λ h e. ground (arith, eq_iff s t)), (λ h. ground (arith, eq_iff s t)))

-- A predicate of each code point of a text.
abbrev pub AllChars : (ℕ → Bool) → String → Type 0
AllChars p String.[] = Unit
AllChars p (String.◌∷◌ c s) = (p (code c) ≡ true) × AllChars p s

abbrev pub is_digit : ℕ → Bool
is_digit c = leb b'0' c && leb c b'9'

-- A range small enough to be checked value by value.
holds_below : ℕ → (ℕ → Bool) → Bool
holds_below zero p = true
holds_below (suc n) p = p n && holds_below n p

holds_below_sound : (n : ℕ) (p : ℕ → Bool) (k : ℕ) → holds_below n p ≡ true → k < n → p k ≡ true
unfolding holds_below
holds_below_sound zero p k h small = absurd (omega arith)
holds_below_sound (suc n) p k h small = ground (arith, holds_below_sound n p k)

digits_table : holds_below 10 (λ k. is_digit (code (char_at "0123456789" k))) ≡ true
unfolding holds_below
digits_table = refl

digit-is_digit : (k : ℕ) → k < 10 → is_digit (code (char_at "0123456789" k)) ≡ true
digit-is_digit k h = holds_below_sound 10 _ k digits_table h

decimal-AllChars :
    (fuel n : ℕ) (rest : String) → AllChars is_digit rest → AllChars is_digit (decimal fuel n rest)
unfolding decimal
decimal-AllChars zero n rest h = h
decimal-AllChars (suc fuel) n rest h =
    let digit = String.◌∷◌ (char_at "0123456789" (n % 10)) rest in
    let own : AllChars is_digit digit = (digit-is_digit (n % 10) (omega arith), h) in
    elim (Bool-cases (ltb n 10)) [
      | inl last ↦ rw last own
      | inr more ↦ rw more (decimal-AllChars fuel (n / 10) digit own)
    ]

pub itoa-AllChars : (n : ℕ) → AllChars is_digit (itoa n)
unfolding itoa
itoa-AllChars n = decimal-AllChars (suc n) n "" tt
