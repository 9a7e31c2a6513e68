-- ===== src/Http/Errors/Examples.antt =====
-- The theorems on errors at a text.
use chat_gateway.Prelude.{some, ◌≡◌, ◌≢◌, ◌⊎◌, ◌++◌}
use chat_gateway.Prelude.Text.{Text, bytes}
use chat_gateway.Storage.Collection.{In}
use chat_gateway.Http.Errors.{
  answer, traced, says, to_lower, dangerous_keywords, safe_error, server_failed,
}
use chat_gateway.Http.Errors.Hiding.{safe_error_lem}

safe_error_lem_example :
    (safe_error (λ r. r) (bytes "7") 500 (some (bytes "rpc error: GRPC")) server_failed
      ≡ answer 500 (traced (says server_failed) (bytes "7")))
    ⊎ ((safe_error (λ r. r) (bytes "7") 500 (some (bytes "rpc error: GRPC")) server_failed
          ≡ answer 500 (traced (says (bytes "rpc error: GRPC")) (bytes "7")))
        × ((keyword before after : Text)
            → In keyword dangerous_keywords
            → to_lower (λ r. r) (bytes "rpc error: GRPC") ≢ before ++ keyword ++ after))
safe_error_lem_example =
    safe_error_lem (λ r. r) (bytes "7") 500 (bytes "rpc error: GRPC") server_failed
