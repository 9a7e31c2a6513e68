-- ===== src/Start/MongoUrl/Examples.antt =====
-- The theorem on masked URLs at one of a user with a password.
use chat_gateway.Prelude.{◌≡◌, refl, true, []}
use chat_gateway.Prelude.Text.{bytes}
use chat_gateway.Start.MongoUrl.{mask_mongo_url, mask_mongo_url_lem}

-- The user is "bob", the password "p" of the two that make "p@s", and the host "h".
mask_mongo_url_lem_example :
    mask_mongo_url (bytes "mongodb+srv://bob:p@s@h") ≡ bytes "mongodb+srv://bob:***@s@h"
mask_mongo_url_lem_example =
    mask_mongo_url_lem true 98 (bytes "ob") 112 [] 115 (bytes "@h") refl refl
