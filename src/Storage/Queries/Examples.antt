-- ===== src/Storage/Queries/Examples.antt =====
-- A filter with two fields.
use chat_gateway.Prelude.{ℕ, [], ◌∷◌}
use chat_gateway.Prelude.Text.{bytes}
use chat_gateway.Prelude.Dict.{Dict}
use chat_gateway.Storage.Queries.{FieldValue, text_value, other_value, build_safe_filter}
use chat_gateway.Storage.Queries.Safety.{has_operator, IsFiltered, build_safe_filter-clean}

abbrev filters : Dict (FieldValue ℕ)
filters = (bytes "a.b", text_value (bytes "{$x}")) ∷ (bytes "ab", other_value 3) ∷ []

build_safe_filter-clean_example : IsFiltered (has_operator filters) (build_safe_filter filters)
build_safe_filter-clean_example = build_safe_filter-clean filters
