-- ===== src/Validation/Each.antt =====
-- The loops of api/v1alpha1/validation.go: `for i, x := range xs` with a return on the first error.
use resource_action_operator.Prelude.{
  ℕ, suc, ◌≡◌, refl, ◌↔◌, String, List, [], ◌∷◌, All, Check, ok, ◌>>◌, >>-ok, false, reject_if,
  reject_if-ok, empty_string,
}
use resource_action_operator.Prelude.Text.{is_blank}

-- The index is that of the element, counted from `i`.
module _ {ℓ} {A : Type ℓ} where
  abbrev pub for_each : (ℕ → A → Check) → ℕ → List A → Check
  for_each check i [] = ok tt
  for_each check i (x ∷ xs) = check i x >> for_each check (suc i) xs

  -- Where a check has an equivalent that does not depend on the index, the loop passes exactly when
  -- it holds of all.
  pub for_each_iff :
      {P : A → Type 0} (check : ℕ → A → Check)
      → ((i : ℕ) (x : A) → (check i x ≡ ok tt) ↔ P x)
      → (i : ℕ) (xs : List A) → (for_each check i xs ≡ ok tt) ↔ All P xs
  for_each_iff check each i [] = (λ h. tt, λ h. refl)
  for_each_iff check each i (x ∷ xs) =
      let (sound, complete) = for_each_iff check each (suc i) xs in
      (
        (λ h. let (p, q) = >>-ok (check i x) _ h in ((each i x).0 p, sound q)),
        (λ h. rw ((each i x).1 h.0) (complete h.1)),
      )

-- validateNonEmptyStrings
unfoldable pub validate_non_empty_strings : ℕ → String → List String → Check
validate_non_empty_strings i field values =
    for_each (λ j value. reject_if (is_blank value) (empty_string i field j)) 0 values

pub validate_non_empty_strings_iff :
    (i : ℕ) (field : String) (values : List String)
    → (validate_non_empty_strings i field values ≡ ok tt)
      ↔ All (λ value. is_blank value ≡ false) values
unfolding validate_non_empty_strings
validate_non_empty_strings_iff i field values =
    for_each_iff _ (λ j value. (reject_if-ok _ _, λ h. rw h)) 0 values
