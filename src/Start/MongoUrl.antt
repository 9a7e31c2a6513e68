-- ===== src/Start/MongoUrl.antt =====
-- config.go, `maskMongoURL`, and driver/mongo.go, `maskPassword`: the password of a URL is masked
-- before the URL is logged. The regular expression is matched by hand; a URL holds no line break.
mod Examples
use chat_gateway.Prelude.{
  ℕ, ◌≡◌, ◌≢◌, ◌∙◌, refl, ap, Option, none, some, Bool, true, false, not, ◌&&◌, ◌||◌, List, [], ◌∷◌,
  ◌++◌, append_assoc, any, drop, ◌==◌, if◌then◌else◌, Bool-cases, arith,
}
use chat_gateway.Prelude.Text.{Text, bytes, text_eq, has_prefix}

-- The text before the first `c`, and the text after it.
unfoldable pub split_at : ℕ → Text → Option (Text × Text)
split_at c [] = none
split_at c (d ∷ t) =
    if d == c
    then some ([], t)
    else elim (split_at c t) [ none ↦ none | some (before, after) ↦ some (d ∷ before, after) ]

abbrev is_empty : Text → Bool
is_empty text = text_eq text []

-- `([^@]+)(@.+)`
abbrev mask_password_part : Text → Option (Text × Text) → Option Text
mask_password_part front none = none
mask_password_part front (some (password, host)) =
    if is_empty password || is_empty host then none else some (front ++ (bytes "***@" ++ host))

-- `[^:]+:` after the scheme.
abbrev mask_user_part : Text → Option (Text × Text) → Option Text
mask_user_part scheme none = none
mask_user_part scheme (some (user, rest)) =
    if is_empty user
    then none
    else mask_password_part (scheme ++ (user ++ bytes ":")) (split_at 64 rest)

abbrev pub srv_scheme : Text
srv_scheme = bytes "mongodb+srv://"

abbrev pub plain_scheme : Text
plain_scheme = bytes "mongodb://"

-- A match at the start of a text.
unfoldable pub masked_here : Text → Option Text
masked_here t =
    if has_prefix srv_scheme t
    then mask_user_part srv_scheme (split_at 58 (drop 14 t))
    else if has_prefix plain_scheme t
    then mask_user_part plain_scheme (split_at 58 (drop 10 t))
    else none

-- `ReplaceAllString`: a match reaches to the end.
unfoldable pub masked : Text → Text
masked [] = []
masked (c ∷ t) =
    let later = c ∷ masked t in elim (masked_here (c ∷ t)) [ none ↦ later | some found ↦ found ]

unfoldable pub mask_mongo_url : Text → Text
mask_mongo_url url = if is_empty url then bytes "(空)" else masked url

unfoldable pub mask_password : Text → Text
mask_password url = if is_empty url then bytes "(空)" else masked url

split_at-append :
    (c : ℕ) (before after : Text)
    → any (λ d. d == c) before ≡ false
    → split_at c (before ++ c ∷ after) ≡ some (before, after)
unfolding split_at
split_at-append c [] after h = ground arith
split_at-append c (d ∷ before) after h = ground (arith, split_at-append c before after)

-- The two schemes that the expression reads.
abbrev pub scheme : Bool → Text
scheme true = srv_scheme
scheme false = plain_scheme

masked_here_lem :
    (srv : Bool) (rest : Text)
    → masked_here (scheme srv ++ rest) ≡ mask_user_part (scheme srv) (split_at 58 rest)
unfolding masked_here has_prefix
masked_here_lem true rest = refl
masked_here_lem false rest = refl

found_here :
    (front : Text) (u : ℕ) (user : Text) (q : ℕ) (password : Text) (h : ℕ) (host : Text)
    → any (λ d. d == 58) (u ∷ user) ≡ false
    → any (λ d. d == 64) (q ∷ password) ≡ false
    → mask_user_part front (split_at 58 ((u ∷ user) ++ 58 ∷ ((q ∷ password) ++ 64 ∷ h ∷ host)))
      ≡ some ((front ++ ((u ∷ user) ++ bytes ":")) ++ (bytes "***@" ++ h ∷ host))
unfolding text_eq
found_here front u user q password h host no_colon no_at =
    ap (mask_user_part front)
      (split_at-append 58 (u ∷ user) ((q ∷ password) ++ 64 ∷ h ∷ host) no_colon)
    ∙ ap (mask_password_part (front ++ ((u ∷ user) ++ bytes ":")))
        (split_at-append 64 (q ∷ password) (h ∷ host) no_at)

masked_found : (c : ℕ) (t found : Text) → masked_here (c ∷ t) ≡ some found → masked (c ∷ t) ≡ found
unfolding masked
masked_found c t found e = rw (e, masked) refl

no_colon : (t : Text) → any (λ d. d == 58 || d == 64) t ≡ false → any (λ d. d == 58) t ≡ false
no_colon [] h = refl
no_colon (d ∷ t) h = ground (arith, no_colon t)

masked_lem :
    (srv : Bool) (rest found : Text)
    → masked_here (scheme srv ++ rest) ≡ some found
    → mask_mongo_url (scheme srv ++ rest) ≡ found
unfolding mask_mongo_url text_eq
masked_lem true rest found e = masked_found _ _ found e
masked_lem false rest found e = masked_found _ _ found e

-- In a URL of either scheme, with a user without a colon or an at sign and something before and after
-- an at sign that follows, what stands between the user's colon and that first at sign is masked, and
-- all that stands after it is shown: the host, and the rest of the password if the password has an at
-- sign of its own.
pub mask_mongo_url_lem :
    (srv : Bool) (u : ℕ) (user : Text) (q : ℕ) (password : Text) (h : ℕ) (host : Text)
    → any (λ d. d == 58 || d == 64) (u ∷ user) ≡ false
    → any (λ d. d == 64) (q ∷ password) ≡ false
    → mask_mongo_url (scheme srv ++ ((u ∷ user) ++ 58 ∷ ((q ∷ password) ++ 64 ∷ h ∷ host)))
      ≡ scheme srv ++ ((u ∷ user) ++ (bytes ":***@" ++ h ∷ host))
mask_mongo_url_lem srv u user q password h host no_sign no_at =
    masked_lem srv _ _ (
      masked_here_lem srv ((u ∷ user) ++ 58 ∷ ((q ∷ password) ++ 64 ∷ h ∷ host))
      ∙ found_here (scheme srv) u user q password h host (no_colon (u ∷ user) no_sign) no_at)
    ∙ append_assoc (scheme srv) ((u ∷ user) ++ bytes ":") (bytes "***@" ++ h ∷ host)
    ∙ ap (λ (t : Text). scheme srv ++ t)
        (append_assoc (u ∷ user) (bytes ":") (bytes "***@" ++ h ∷ host))
