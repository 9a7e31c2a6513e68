-- ===== src/Middleware/Authentication.antt =====
-- middleware/auth.go and middleware.go: the checks of a token, none of which is in use by the router.
-- gin's reading of the header and gRPC's of the metadata are parameters.
use chat_gateway.Prelude.{
  ◌≡◌, ◌↔◌, refl, Option, none, some, Bool, true, false, not, ◌||◌, List, [], ◌∷◌, ◌++◌, ◌==◌,
  if◌then◌else◌, Bool-cases, arith, inl, inr, ap, ◌∙◌,
}
use chat_gateway.Prelude.Text.{Text, bytes, text_eq, text_eq_iff}

pub data Admission : Type 0 where
  admitted no_token bad_format no_metadata : Admission

-- The parts of `strings.SplitN(header, " ", 2)`: the text up to the first space, and whether there is
-- one.
unfoldable pub before_space : Text → Text × Bool
before_space [] = ([], false)
before_space (c ∷ cs) =
    let (rest, found) = before_space cs in if c == 32 then ([], true) else (c ∷ rest, found)

-- `GinMiddleware`; a missing header is empty.
unfoldable pub gin_middleware : Bool → Text → Admission
unfolding before_space
gin_middleware enabled header =
    if not enabled
    then admitted
    else if text_eq header []
    then no_token
    else let (first, split) = before_space header in
      if not split || not (text_eq first (bytes "Bearer")) then bad_format else admitted

abbrev first_value : List Text → Admission
first_value [] = no_token
first_value (token ∷ tokens) = admitted

-- `GRPCUnaryInterceptor` and `GRPCStreamInterceptor`: the values of the metadata's `authorization`.
unfoldable pub grpc_interceptor : Bool → Option (List Text) → Admission
grpc_interceptor false metadata = admitted
grpc_interceptor true none = no_metadata
grpc_interceptor true (some values) = first_value values

-- `AuthMiddleware.ValidateToken`, `RequireAuth` and `CheckRoomMembership` let everything pass.
unfoldable pub validate_token : Bool → Admission
validate_token enabled = admitted

unfoldable pub require_auth : Admission
require_auth = admitted

unfoldable pub check_room_membership : Admission
check_room_membership = admitted

split_at : (s : Text) → (before_space s).1 ≡ true → (t : Text) × (s ≡ (before_space s).0 ++ 32 ∷ t)
unfolding before_space
split_at [] h = cc
split_at (c ∷ cs) h = elim (Bool-cases (c == 32)) [
  | inl e ↦ (cs, rw e (ground (arith, e)))
  | inr e ↦ let (t, same) = split_at cs (rw e at h) in (t, rw e (ap (λ (x : Text). c ∷ x) same))
]

passed_header :
    (header : Text)
    → gin_middleware true header ≡ admitted
    → (token : Text) × (header ≡ bytes "Bearer" ++ 32 ∷ token)
unfolding gin_middleware
passed_header header h = elim (Bool-cases (text_eq header [])) [
  | inl e ↦ absurd (let h' = rw e at h in cc)
  | inr e ↦ elim (Bool-cases (before_space header).1) [
    | inr no_space ↦ absurd (let h' = rw (e, no_space) at h in cc)
    | inl split ↦ elim (Bool-cases (text_eq (before_space header).0 (bytes "Bearer"))) [
      | inr other ↦ absurd (let h' = rw (e, split, other) at h in cc)
      | inl same ↦
          let (token, parts) = split_at header split in
          (
            token,
            parts
                ∙ ap (λ (x : Text). x ++ 32 ∷ token)
                    ((text_eq_iff (before_space header).0 (bytes "Bearer")).0 same),
          )
    ]
  ]
]

-- With the check on, a request passes exactly when its header is `Bearer`, a space and any text at
-- all: nothing looks at the token.
pub gin_middleware-admitted :
    (header : Text)
    → (gin_middleware true header ≡ admitted)
      ↔ ((token : Text) × (header ≡ bytes "Bearer" ++ 32 ∷ token))
unfolding gin_middleware text_eq before_space
gin_middleware-admitted header = (passed_header header, λ bearer. rw (bearer.1) refl)
