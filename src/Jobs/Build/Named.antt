-- ===== src/Jobs/Build/Named.antt =====
-- The name from which the API server makes the name of a Job (jobGenerateName of
-- internal/engine/job_executor.go).
use Prim.Native.Nat.{compare, Ordering}
use Prim.Native.Char.{Char, code, len_utf8}
use Prim.Native.String.{len, slice, fits, ◌++◌}
use Prim.Native.String.append
use Prim.Native.String.len as len_clauses
use Prim.Native.String.slice as slice_clauses
use text.Mathlib.TextEquality.{slice-prefix}
use text.Mathlib.TextPositions.{len-append}
use resource_action_operator.Prelude.{
  ℕ, ◌+◌, ◌-◌, ◌≤◌, ◌≡◌, ◌≢◌, refl, sym, ap, subst, ◌∙◌, inl, inr, String, Bool, true, false, ◌&&◌,
  ◌||◌, ◌==◌, arith, leb, ltb, eqb, eq_iff, Bool-cases, if◌then◌else◌,
}
use resource_action_operator.Prelude.Text.{
  lower_char, to_lower, itoa, AllChars, is_digit, itoa-AllChars,
}
use resource_action_operator.Std.{Std}
use resource_action_operator.Jobs.Build.{
  dashed, trim_dashes_left, trim_dashes_right, cut_name, job_generate_name,
}

-- A lower case letter, a digit or a dash of ASCII; the name of a resource may have dots too.
abbrev pub is_name_char : ℕ → Bool
is_name_char c = (leb b'a' c && leb c b'z') || is_digit c || eqb c b'-'

abbrev pub is_resource_char : ℕ → Bool
is_resource_char c = is_name_char c || eqb c b'.'

-- A text that does not begin with a dash.
abbrev pub NoDash : String → Type 0
NoDash String.[] = Unit
NoDash (String.◌∷◌ c s) = eqb (code c) b'-' ≡ false

AllChars-append : (p : ℕ → Bool) (s t : String) → AllChars p s → AllChars p t → AllChars p (s ++ t)
AllChars-append p String.[] t hs ht = subst (AllChars p) (sym (append.nil t)) ht
AllChars-append p (String.◌∷◌ c s) t hs ht =
    subst (AllChars p) (sym (append.cons c s t)) (hs.0, AllChars-append p s t hs.1 ht)

to_lower_same :
    (lower_rune : Char → Char) (s : String)
    → AllChars is_resource_char s
    → to_lower lower_rune s ≡ s
unfolding to_lower lower_char
to_lower_same lower_rune String.[] h = refl
to_lower_same lower_rune (String.◌∷◌ c s) h =
    ap (λ d. String.◌∷◌ d (to_lower lower_rune s)) one
    ∙ ap (λ r. String.◌∷◌ c r) (to_lower_same lower_rune s h.1)
  where
    one : lower_char lower_rune c ≡ c
    one = ground (arith, h.0)

dashed-AllChars : (s : String) → AllChars is_resource_char s → AllChars is_name_char (dashed s)
unfolding dashed
dashed-AllChars String.[] h = tt
dashed-AllChars (String.◌∷◌ c s) h =
    let ih = dashed-AllChars s h.1 in
    elim (Bool-cases (eqb (code c) b'_')) [
      | inl line ↦ rw line (AllChars-append is_name_char "-" (dashed s) (refl, tt) ih)
      | inr other ↦ elim (Bool-cases (eqb (code c) b'.')) [
        | inl dot ↦ rw (other, dot) (AllChars-append is_name_char "-" (dashed s) (refl, tt) ih)
        | inr char ↦ rw (other, char) (ground (arith, h.0), ih)
      ]
    ]

trim_dashes_left-AllChars :
    (p : ℕ → Bool) (s : String)
    → AllChars p s
    → AllChars p (trim_dashes_left s) × NoDash (trim_dashes_left s)
unfolding trim_dashes_left
trim_dashes_left-AllChars p String.[] h = (tt, tt)
trim_dashes_left-AllChars p (String.◌∷◌ c s) h = elim (Bool-cases (eqb (code c) b'-')) [
  | inl dash ↦ rw dash (trim_dashes_left-AllChars p s h.1)
  | inr other ↦ rw other (h, other)
]

trim_dashes_right-AllChars :
    (p : ℕ → Bool) (s : String) → AllChars p s → AllChars p (trim_dashes_right s)
unfolding trim_dashes_right
trim_dashes_right-AllChars p String.[] h = tt
trim_dashes_right-AllChars p (String.◌∷◌ c s) h =
    elim (Bool-cases (eqb (code c) b'-' && trim_dashes_right s == "")) [
      | inl end ↦ rw end tt
      | inr more ↦ rw more (h.0, trim_dashes_right-AllChars p s h.1)
    ]

trim_dashes_right-NoDash : (s : String) → NoDash s → NoDash (trim_dashes_right s)
unfolding trim_dashes_right
trim_dashes_right-NoDash String.[] h = tt
trim_dashes_right-NoDash (String.◌∷◌ c s) h = rw h h

prefix-AllChars : (p : ℕ → Bool) (r t : String) → AllChars p (r ++ t) → AllChars p r
prefix-AllChars p String.[] t h = tt
prefix-AllChars p (String.◌∷◌ c r) t h =
    let h' = subst (AllChars p) (append.cons c r t) h in (h'.0, prefix-AllChars p r t h'.1)

prefix-NoDash : (r t : String) → NoDash (r ++ t) → NoDash r
prefix-NoDash String.[] t h = tt
prefix-NoDash (String.◌∷◌ c r) t h = subst NoDash (append.cons c r t) h

len-fits-le :
    (o : Ordering) (c : Char) (r : String) (k : ℕ)
    → compare (len_utf8 c) k ≡ o
    → len r ≤ k - len_utf8 c
    → len (fits o c r) ≤ k
len-fits-le Ordering.lt c r k h small =
    let e : len (String.◌∷◌ c r) ≡ len_utf8 c + len r = len_clauses.cons c r in ground (arith, e)
len-fits-le Ordering.eq c r k h small =
    let e : len (String.◌∷◌ c r) ≡ len_utf8 c + len r = len_clauses.cons c r in ground (arith, e)
len-fits-le Ordering.gt c r k h small =
    let e : len String.[] ≡ 0 = len_clauses.nil in omega (arith, e)

len-slice-le : (s : String) (k : ℕ) → len (slice s 0 k) ≤ k
len-slice-le String.[] k =
    let e : len String.[] ≡ 0 = len_clauses.nil in
    subst (λ r. len r ≤ k) (sym (slice_clauses.nil 0 k)) (omega (arith, e))
len-slice-le (String.◌∷◌ c s) k =
    subst (λ r. len r ≤ k) (sym (slice_clauses.cons-zero c s k))
      (len-fits-le (compare (len_utf8 c) k) c (slice s 0 (k - len_utf8 c)) k refl
        (len-slice-le s (k - len_utf8 c)))

-- The parts of the name that is cut.
abbrev IsStem : String → Type 0
IsStem s = AllChars is_name_char s × NoDash s × (len s ≤ 36)

short-IsStem :
    (s : String)
    → AllChars is_name_char s
    → NoDash s
    → IsStem (if ltb 36 (len s) then slice s 0 36 else s)
short-IsStem s chars no_dash = elim (Bool-cases (ltb 36 (len s))) [
  | inr fits' ↦ rw fits' (chars, no_dash, ground arith)
  | inl long ↦
      let (rest, split) = slice-prefix s 36 in
      rw long (
        prefix-AllChars is_name_char (slice s 0 36) rest
            (subst (AllChars is_name_char) (sym split) chars),
        prefix-NoDash (slice s 0 36) rest (subst NoDash (sym split) no_dash),
        len-slice-le s 36,
      )
]

cut_name-IsStem :
    (s : String) → AllChars is_name_char s → NoDash s → IsStem (cut_name s) × (cut_name s ≢ "")
unfolding cut_name
cut_name-IsStem s chars no_dash =
    let short = if ltb 36 (len s) then slice s 0 36 else s in
    let stem : IsStem short = short-IsStem s chars no_dash in
    elim (Bool-cases (short == "")) [
      | inl none' ↦
          rw none'
            ((ground arith, ground arith, omega arith), ground (arith, eq_iff "resource-action" ""))
      | inr some' ↦ rw some' (stem, ground (arith, eq_iff short ""))
    ]

AllChars-imp :
    (p q : ℕ → Bool)
    → ((c : ℕ) → p c ≡ true → q c ≡ true)
    → (s : String) → AllChars p s
    → AllChars q s
AllChars-imp p q imp String.[] h = tt
AllChars-imp p q imp (String.◌∷◌ c s) h = (imp (code c) h.0, AllChars-imp p q imp s h.1)

NoDash-append : (s t : String) → s ≢ "" → NoDash s → NoDash (s ++ t)
NoDash-append String.[] t some' h = absurd (some' refl)
NoDash-append (String.◌∷◌ c s) t some' h = subst NoDash (sym (append.cons c s t)) h

abbrev pub assembled : String → String → ℕ → String
assembled stem suffix action_index =
    stem ++ ("-a" ++ (itoa action_index ++ ("-" ++ (suffix ++ "-"))))

abbrev pub IsName : String → ℕ → Type 0
IsName name longest = AllChars is_name_char name × NoDash name × (len name ≤ longest)

assembled-IsName :
    (stem suffix : String) (action_index : ℕ)
    → IsStem stem
    → stem ≢ ""
    → AllChars is_name_char suffix
    → len suffix ≡ 5
    → IsName (assembled stem suffix action_index) (45 + len (itoa action_index))
assembled-IsName stem suffix action_index (chars, no_dash, short) some' suffix_chars five =
    let tail2 = "-" ++ (suffix ++ "-") in
    let tail1 = itoa action_index ++ tail2 in
    let digits =
      AllChars-imp is_digit is_name_char (λ c h. ground arith) (itoa action_index)
        (itoa-AllChars action_index) in
    (
      AllChars-append is_name_char stem _ chars (
          AllChars-append is_name_char "-a" tail1 (refl, (refl, tt))
            (AllChars-append is_name_char (itoa action_index) tail2 digits (
              AllChars-append is_name_char "-" _ (refl, tt)
                (AllChars-append is_name_char suffix "-" suffix_chars (refl, tt))))),
      NoDash-append stem _ some' no_dash,
      omega (
        arith,
        len-append stem ("-a" ++ tail1),
        len-append "-a" tail1,
        len-append (itoa action_index) tail2,
        len-append "-" (suffix ++ "-"),
        len-append suffix "-",
      ),
    )

trimmed-IsStem :
    (name : String)
    → AllChars is_resource_char name
    → let stem = cut_name (trim_dashes_right (trim_dashes_left (dashed name))) in
      IsStem stem × (stem ≢ "")
trimmed-IsStem name chars =
    let left = trim_dashes_left-AllChars is_name_char (dashed name) (dashed-AllChars name chars) in
    cut_name-IsStem (trim_dashes_right (trim_dashes_left (dashed name)))
      (trim_dashes_right-AllChars is_name_char (trim_dashes_left (dashed name)) left.0)
      (trim_dashes_right-NoDash (trim_dashes_left (dashed name)) left.1)

built-IsName :
    (suffix name : String) (action_index : ℕ)
    → AllChars is_resource_char name
    → AllChars is_name_char suffix
    → len suffix ≡ 5
    → IsName
        (assembled
          (cut_name (trim_dashes_right (trim_dashes_left (dashed name))))
          suffix
          action_index)
        (45 + len (itoa action_index))
built-IsName suffix name action_index chars suffix_chars five =
    let (stem, some') = trimmed-IsStem name chars in
    assembled-IsName _ suffix action_index stem some' suffix_chars five

lowered-IsName :
    (lower_rune : Char → Char) (suffix name : String) (action_index : ℕ)
    → AllChars is_resource_char name
    → AllChars is_name_char suffix
    → len suffix ≡ 5
    → IsName
        (assembled
          (cut_name (trim_dashes_right (trim_dashes_left (dashed (to_lower lower_rune name)))))
          suffix
          action_index)
        (45 + len (itoa action_index))
lowered-IsName lower_rune suffix name action_index chars suffix_chars five =
    subst
      (λ n.
        IsName
          (assembled (cut_name (trim_dashes_right (trim_dashes_left (dashed n)))) suffix
            action_index)
          (45 + len (itoa action_index)))
      (sym (to_lower_same lower_rune name chars))
      (built-IsName suffix name action_index chars suffix_chars five)

-- For the name of a resource (lower case letters, digits, dashes and dots) and five such characters
-- without a dot from rand.String, the name of the Job has lower case letters, digits and dashes only,
-- does not begin with a dash, and has at most 45 bytes beside the digits of the index.
pub job_generate_name-IsName :
    (std : Std) (suffix name : String) (action_index : ℕ)
    → AllChars is_resource_char name
    → AllChars is_name_char suffix
    → len suffix ≡ 5
    → IsName (job_generate_name std suffix name action_index) (45 + len (itoa action_index))
unfolding job_generate_name
job_generate_name-IsName std suffix name action_index chars suffix_chars five =
    lowered-IsName std.lower_rune suffix name action_index chars suffix_chars five
