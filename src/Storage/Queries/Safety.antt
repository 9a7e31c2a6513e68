-- ===== src/Storage/Queries/Safety.antt =====
-- security.go, `BuildSafeFilter`: what a filter that it builds cannot hold.
use chat_gateway.Prelude.{
  ◌≡◌, refl, inl, inr, Bool, true, false, not, ◌&&◌, ◌||◌, [], ◌∷◌, any, ◌==◌, Bool-cases, Result,
  ok, err, arith,
}
use chat_gateway.Prelude.Text.{Text}
use chat_gateway.Prelude.Dict.{Dict, insert}
use chat_gateway.Storage.Queries.{
  is_operator, sanitize_field_name, safe_string_value, FieldValue, text_value, other_value,
  safe_value, QueryError, field_not_allowed, safe_filters, build_safe_filter,
}

-- Neither `$` nor `.`.
abbrev pub clean_key : Text → Bool
clean_key key = not (any (λ b. (b == 0x24) || (b == 0x2e)) key)

-- None of NUL, `$`, `{` and `}`.
abbrev pub clean_text : Text → Bool
clean_text t = not (any (λ b. (b == 0) || (b == 0x24) || (b == 0x7b) || (b == 0x7d)) t)

sanitize_field_name-clean : (key : Text) → clean_key (sanitize_field_name key) ≡ true
unfolding sanitize_field_name
sanitize_field_name-clean [] = refl
sanitize_field_name-clean (b ∷ bs) = ground (arith, sanitize_field_name-clean bs)

safe_string_value-clean : (t : Text) → clean_text (safe_string_value t) ≡ true
unfolding safe_string_value
safe_string_value-clean [] = refl
safe_string_value-clean (b ∷ bs) = ground (arith, safe_string_value-clean bs)

module _ {V : Type 0} where
  abbrev pub clean_value : FieldValue V → Bool
  clean_value (text_value t) = clean_text t
  clean_value (other_value v) = true

  -- Every key and every text of a filter is clean.
  abbrev pub clean : Dict (FieldValue V) → Bool
  clean [] = true
  clean ((key, value) ∷ rest) = clean_key key && clean_value value && clean rest

  -- Some key starts with `$`.
  abbrev pub has_operator : Dict (FieldValue V) → Bool
  has_operator [] = false
  has_operator ((key, value) ∷ rest) = is_operator key || has_operator rest

  safe_value-clean : (v : FieldValue V) → clean_value (safe_value v) ≡ true
  safe_value-clean (text_value t) = safe_string_value-clean t
  safe_value-clean (other_value v) = refl

  clean-insert :
      (key : Text) (v : FieldValue V) (d : Dict (FieldValue V))
      → clean_key key ≡ true
      → clean_value v ≡ true
      → clean d ≡ true
      → clean (insert key v d) ≡ true
  unfolding insert
  clean-insert key v [] k h c = ground (arith, k, h)
  clean-insert key v ((j, w) ∷ d) k h c = ground (arith, k, h, clean-insert key v d)

  -- What comes of a loop from the entries collected so far.
  abbrev pub IsFiltered : Bool → Result QueryError (Dict (FieldValue V)) → Type 0
  IsFiltered bad (ok out) = (bad ≡ false) × (clean out ≡ true)
  IsFiltered bad (err e) = (bad ≡ true) × (e ≡ field_not_allowed)

  safe_filters-clean :
      (safe filters : Dict (FieldValue V))
      → clean safe ≡ true
      → IsFiltered (has_operator filters) (safe_filters safe filters)
  unfolding safe_filters
  safe_filters-clean safe [] c = (refl, c)
  safe_filters-clean safe ((key, v) ∷ filters) c = elim (Bool-cases (is_operator key)) [
    | inl e ↦ rw e (refl, refl)
    | inr e ↦ rw e (
        safe_filters-clean (insert (sanitize_field_name key) (safe_value v) safe) filters (
          clean-insert (sanitize_field_name key) (safe_value v) safe (sanitize_field_name-clean key)
            (safe_value-clean v) c))
  ]

  -- `BuildSafeFilter` refuses exactly the filters of which some key starts with `$`. In a filter that it
  -- builds no key holds `$` or `.`, and no text, at the top level, holds NUL, `$` or a brace.
  pub build_safe_filter-clean :
      (filters : Dict (FieldValue V))
      → IsFiltered (has_operator filters) (build_safe_filter filters)
  unfolding build_safe_filter
  build_safe_filter-clean filters = safe_filters-clean [] filters refl
