-- ===== src/Http/Execute/Headers.antt =====
-- The headers of a request (ExecuteWithMetrics of internal/engine/http_executor.go): http.Header.Set
-- for each header of the action, and for the type of the content.
use resource_action_operator.Prelude.{
  ◌≡◌, refl, sym, ap, ◌∙◌, inl, inr, String, Option, none, some, List, [], ◌∷◌, Bool, false, not,
  ◌&&◌, ◌==◌, eq_iff, arith, any, Bool-cases, if◌then◌else◌,
}
use resource_action_operator.Std.{Std}
use resource_action_operator.Matching.{lookup}
use resource_action_operator.Http.Execute.{replace_header, set_header, set_headers, request_headers}

-- The value of a key after the headers are set in their order; `old` is the one before.
abbrev pub value_after : Std → String → List (String × String) → Option String → Option String
value_after std key [] old = old
value_after std key ((k, v) ∷ headers) old =
    value_after std key headers (if std.canonical_header k == key then some v else old)

abbrev has_key : String → List (String × String) → Bool
has_key key headers = any (λ h. h.0 == key) headers

-- No key has two values.
abbrev pub DistinctHeaders : List (String × String) → Type 0
DistinctHeaders [] = Unit
DistinctHeaders ((k, v) ∷ headers) = (has_key k headers ≡ false) × DistinctHeaders headers

lookup-replace_header :
    (key k v : String) (headers : List (String × String))
    → lookup key (replace_header k v headers) ≡ (if k == key then some v else lookup key headers)
unfolding lookup
lookup-replace_header key k v [] = refl
lookup-replace_header key k v ((j, u) ∷ headers) =
    ground (arith, eq_iff k key, eq_iff j k, eq_iff j key, lookup-replace_header key k v headers)

has_key-replace_header :
    (key k v : String) (headers : List (String × String))
    → (k == key) ≡ false
    → has_key key headers ≡ false
    → has_key key (replace_header k v headers) ≡ false
has_key-replace_header key k v [] other h = rw other refl
has_key-replace_header key k v ((j, u) ∷ headers) other h =
    ground
      (arith, eq_iff j k, eq_iff k key, eq_iff j key, has_key-replace_header key k v headers other)

replace_header-DistinctHeaders :
    (k v : String) (headers : List (String × String))
    → DistinctHeaders headers
    → DistinctHeaders (replace_header k v headers)
replace_header-DistinctHeaders k v [] h = (refl, tt)
replace_header-DistinctHeaders k v ((j, u) ∷ headers) h = elim (Bool-cases (j == k)) [
  | inl same ↦ rw same (subst_key j k ((eq_iff j k).0 same) h.0, h.1)
  | inr other ↦ rw other (
    has_key-replace_header j k v headers (ground (arith, eq_iff j k, eq_iff k j)) h.0,
    replace_header-DistinctHeaders k v headers h.1,
  )
]
  where
    subst_key : (a b : String) → a ≡ b → has_key a headers ≡ false → has_key b headers ≡ false
    subst_key a b same fresh = rw (sym same) fresh

module _ (std : Std) where
  lookup-set_headers :
      (key : String) (headers own : List (String × String))
      → lookup key (set_headers std headers own) ≡ value_after std key headers (lookup key own)
  unfolding set_headers set_header
  lookup-set_headers key [] own = refl
  lookup-set_headers key ((k, v) ∷ headers) own =
      lookup-set_headers key headers _
      ∙ ap (value_after std key headers) (lookup-replace_header key (std.canonical_header k) v own)

  lookup-own_headers :
      (key : String) (headers : List (String × String))
      → lookup key (set_headers std headers []) ≡ value_after std key headers none
  unfolding lookup
  lookup-own_headers key headers = lookup-set_headers key headers []

  set_headers-DistinctHeaders :
      (headers own : List (String × String))
      → DistinctHeaders own
      → DistinctHeaders (set_headers std headers own)
  unfolding set_headers set_header
  set_headers-DistinctHeaders [] own h = h
  set_headers-DistinctHeaders ((k, v) ∷ headers) own h =
      set_headers-DistinctHeaders headers _
        (replace_header-DistinctHeaders (std.canonical_header k) v own h)

  -- Of a request with a body the type of the content is JSON, whatever the action says; every other
  -- header, and every header of a request without a body, has the value that the action gives its
  -- canonical key last, and none if it gives none. No key has two values.
  pub lookup-request_headers :
      (headers : List (String × String)) (body key : String)
      → (lookup key (request_headers std headers body) ≡ (
          if not (body == "") && std.canonical_header "Content-Type" == key
          then some "application/json"
          else value_after std key headers none))
        × DistinctHeaders (request_headers std headers body)
  unfolding request_headers set_header
  lookup-request_headers headers body key = elim (Bool-cases (body == "")) [
    | inl empty ↦
        rw empty (lookup-own_headers key headers, set_headers-DistinctHeaders headers [] tt)
    | inr full ↦ rw full (
      lookup-replace_header key (std.canonical_header "Content-Type") "application/json" _
          ∙ ap
              (λ o.
                if std.canonical_header "Content-Type" == key then some "application/json" else o)
              (lookup-own_headers key headers),
      replace_header-DistinctHeaders (std.canonical_header "Content-Type") "application/json" _
          (set_headers-DistinctHeaders headers [] tt),
    )
  ]
