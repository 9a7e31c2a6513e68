-- ===== src/Http/Router/Headers.antt =====
-- platform/server/http.go, `corsMiddleware`: which origins may read an answer.
use chat_gateway.Prelude.Text.{Text, bytes}
use chat_gateway.Prelude.Dict.{Dict}

abbrev pub allow_origin : Text
allow_origin = bytes "Access-Control-Allow-Origin"
