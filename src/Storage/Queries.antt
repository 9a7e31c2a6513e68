-- ===== src/Storage/Queries.antt =====
-- internal/storage/database/security.go: the checks of filters and updates before they go to MongoDB.
-- A map is the list of its entries in the order in which Go ranges over it. A value is a text or
-- something else, which no check looks into.
pub mod Safety
mod Examples
use chat_gateway.Prelude.{
  ℕ, Option, none, some, Bool, true, false, not, ◌&&◌, ◌||◌, List, [], ◌∷◌, any, all, keep, length,
  ltb, leb, ◌==◌, if◌then◌else◌, Result, ok, err,
}
use chat_gateway.Prelude.Text.{Text, bytes, text_eq, has_prefix}
use chat_gateway.Prelude.Dict.{Dict, insert}
use chat_gateway.Middleware.Validation.{is_hex}

pub data QueryError : Type 0 where
  bad_id operator_not_allowed field_not_allowed : QueryError

-- The expression `^[a-fA-F0-9]{24}$` matches 24 hexadecimal digits.
unfoldable pub validate_object_id : Text → Result QueryError (Unit {0})
validate_object_id id =
    if not (length id == 24)
    then err bad_id
    else if not ((length id == 24) && all is_hex id)
    then err bad_id
    else ok tt

-- `strings.ReplaceAll(t, c, "")` with one byte.
abbrev pub without : ℕ → Text → Text
without c t = keep (λ b. not (b == c)) t

unfoldable pub sanitize_field_name : Text → Text
sanitize_field_name name = without 0x2e (without 0x24 name)

unfoldable pub safe_string_value : Text → Text
safe_string_value value = without 0x7d (without 0x7b (without 0x24 (without 0 value)))

abbrev is_operator : Text → Bool
is_operator key = has_prefix (bytes "$") key

abbrev allowed_ops : List Text
allowed_ops =
    bytes "$eq"
    ∷ bytes "$ne"
    ∷ bytes "$gt"
    ∷ bytes "$gte"
    ∷ bytes "$lt"
    ∷ bytes "$lte"
    ∷ bytes "$in"
    ∷ bytes "$nin"
    ∷ bytes "$and"
    ∷ bytes "$or"
    ∷ []

unfoldable pub validate_operator : Text → Result QueryError (Unit {0})
validate_operator key =
    if not (is_operator key)
    then ok tt
    else if not (any (text_eq key) allowed_ops)
    then err operator_not_allowed
    else ok tt

-- A nested map or list is one of the other values: the checks of the source do not look into them.
pub data FieldValue (V : Type 0) : Type 0 where
  text_value : Text → FieldValue V
  other_value : V → FieldValue V

module _ {V : Type 0} where
  unfoldable pub validate_query_operators : Dict V → Result QueryError (Unit {0})
  unfolding validate_operator
  validate_query_operators [] = ok tt
  validate_query_operators ((key, value) ∷ query) =
      let rest = validate_query_operators query in
      elim (validate_operator key) [ ok d ↦ rest | err e ↦ err e ]

  abbrev pub safe_value : FieldValue V → FieldValue V
  safe_value (text_value t) = text_value (safe_string_value t)
  safe_value (other_value v) = other_value v

  -- The loop of `SafeUpdateQuery`; the result goes under `$set`.
  unfoldable pub safe_updates : Dict V → Dict V → Result QueryError (Dict V)
  unfolding sanitize_field_name
  safe_updates safe [] = ok safe
  safe_updates safe ((key, value) ∷ updates) =
      let rest = safe_updates (insert (sanitize_field_name key) value safe) updates in
      if is_operator key then err field_not_allowed else rest

  unfoldable pub safe_update_query : Dict V → Result QueryError (Dict V)
  unfolding safe_updates
  safe_update_query updates = safe_updates [] updates

  -- The loop of `BuildSafeFilter`.
  unfoldable pub safe_filters :
      Dict (FieldValue V) → Dict (FieldValue V) → Result QueryError (Dict (FieldValue V))
  safe_filters safe [] = ok safe
  safe_filters safe ((key, value) ∷ filters) =
      let rest = safe_filters (insert (sanitize_field_name key) (safe_value value) safe) filters in
      if is_operator key then err field_not_allowed else rest

  unfoldable pub build_safe_filter : Dict (FieldValue V) → Result QueryError (Dict (FieldValue V))
  build_safe_filter filters = safe_filters [] filters

unfoldable pub validate_limit : ℕ → ℕ
validate_limit limit = if leb limit 0 then 20 else if ltb 1000 limit then 1000 else limit

unfoldable pub validate_skip : ℕ → ℕ
validate_skip skip = if ltb 100000 skip then 100000 else skip
