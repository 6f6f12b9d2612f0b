-- ===== src/Prelude/Results.antt =====
-- Go's `(T, error)` results and its errors as values.
mod Errors
pub use Errors.*
use mathlib.Core.Path.{◌≡◌, refl, ap, ◌∙◌}
use mathlib.Core.Logic.{◌⊎◌, ◌↔◌, inl, inr}
use mathlib.Core.Bool.{Bool, true, false}

pub data Result {ℓ} (A : Type ℓ) : Type ℓ where
  ok : A → Result A
  err : Error → Result A

-- The type of a function that returns only an `error`: `ok tt` is nil.
abbrev pub Check : Type 0
Check = Result (Unit {0})

infixl 5 ◌>>=◌ ◌>>◌
abbrev pub ◌>>=◌ {ℓ κ} : {A : Type ℓ} {B : Type κ} → Result A → (A → Result B) → Result B
ok a >>= f = f a
err e >>= f = err e

abbrev pub ◌>>◌ {ℓ} : {B : Type ℓ} → Check → Result B → Result B
m >> k = m >>= λ _. k

-- `if bad { return e }`
abbrev pub reject_if : Bool → Error → Check
reject_if true e = err e
reject_if false e = ok tt

-- `fmt.Errorf("...: %w", err)`
abbrev pub wrap {ℓ} : {A : Type ℓ} → (Error → Error) → Result A → Result A
wrap f (ok a) = ok a
wrap f (err e) = err (f e)

pub reject_if-ok : (b : Bool) (e : Error) → reject_if b e ≡ ok tt → b ≡ false
reject_if-ok true e h = cc
reject_if-ok false e h = refl

pub >>-ok {ℓ} :
    {B : Type ℓ} (m : Check) (k : Result B) {b : B} → (m >> k) ≡ ok b → (m ≡ ok tt) × (k ≡ ok b)
>>-ok (ok tt) k h = (refl, h)
>>-ok (err e) k h = cc

pub wrap-ok {ℓ} :
    {A : Type ℓ} (f : Error → Error) (m : Result A) {a : A} → wrap f m ≡ ok a → m ≡ ok a
wrap-ok f (ok a) h = h
wrap-ok f (err e) h = cc

pub Result-cases {ℓ} :
    {A : Type ℓ} (r : Result A) → ((a : A) × (r ≡ ok a)) ⊎ ((e : Error) × (r ≡ err e))
Result-cases (ok a) = inl (a, refl)
Result-cases (err e) = inr (e, refl)

-- What a chain of checks accepts: the conjunction of what its parts accept.
pub reject_if_iff : (b : Bool) (e : Error) → (reject_if b e ≡ ok tt) ↔ (b ≡ false)
reject_if_iff b e = (reject_if-ok b e, λ h. rw h)

pub wrap_iff : (f : Error → Error) (m : Check) → (wrap f m ≡ ok tt) ↔ (m ≡ ok tt)
wrap_iff f m = (wrap-ok f m, λ h. rw h)

pub >>_iff {ℓ κ} :
    {P : Type ℓ} {Q : Type κ} (m k : Check)
    → (m ≡ ok tt) ↔ P
    → (k ≡ ok tt) ↔ Q
    → ((m >> k) ≡ ok tt) ↔ (P × Q)
>>_iff m k p q = ((λ h. let (a, b) = >>-ok m k h in (p.0 a, q.0 b)), (λ h. rw (p.1 h.0) (q.1 h.1)))

-- An acceptance condition in an equivalent form.
pub ↔-trans {ℓ κ μ} : {A : Type ℓ} {B : Type κ} {C : Type μ} → A ↔ B → B ↔ C → A ↔ C
↔-trans f g = ((λ a. g.0 (f.0 a)), (λ c. f.1 (g.1 c)))

pub >>=_iff {ℓ κ} :
    {A : Type ℓ} {B : Type κ} (r : Result A) (f : A → Result B) (b : B)
    → ((r >>= f) ≡ ok b) ↔ ((a : A) × (r ≡ ok a) × (f a ≡ ok b))
>>=_iff (ok a) f b = ((λ h. (a, refl, h)), (λ h. ap (λ r. r >>= f) h.1 ∙ h.2))
>>=_iff (err e) f b = ((λ h. cc), (λ h. cc (h.1)))

pub ok-injective {ℓ} : {A : Type ℓ} {a b : A} → ok a ≡ ok b → a ≡ b
ok-injective {a} h = ap (λ r. elim r [ ok c ↦ c | err e ↦ a ]) h

err-injective {ℓ} : {B : Type ℓ} {x e : Error} → ◌≡◌ {A = Result B} (err x) (err e) → x ≡ e
err-injective {x} h = ap (λ r. elim r [ ok _ ↦ x | err y ↦ y ]) h

-- Where the error of a chain comes from.
pub >>=-err {ℓ κ} :
    {A : Type ℓ} {B : Type κ} (r : Result A) (f : A → Result B) {e : Error}
    → (r >>= f) ≡ err e
    → (r ≡ err e) ⊎ ((a : A) × (r ≡ ok a) × (f a ≡ err e))
>>=-err (ok a) f h = inr (a, refl, h)
>>=-err (err x) f h = inl (ap err (err-injective h))

pub >>-err {ℓ} :
    {B : Type ℓ} (m : Check) (k : Result B) {e : Error}
    → (m >> k) ≡ err e
    → (m ≡ err e) ⊎ (k ≡ err e)
>>-err (ok _) k h = inr h
>>-err (err x) k h = inl (ap err (err-injective h))
