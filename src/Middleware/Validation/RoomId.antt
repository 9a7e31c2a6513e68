-- ===== src/Middleware/Validation/RoomId.antt =====
-- middleware/validation.go, `ValidateRoomID`, and database/security.go, `ValidateObjectID`: the two
-- checks of an object id.
use chat_gateway.Prelude.{
  ℕ, ◌+◌, ◌-◌, ◌*◌, ◌⊎◌, ◌≤◌, ◌≡◌, refl, inl, inr, Bool, true, false, not, ◌&&◌, [], ◌∷◌, all,
  length, ltb, ◌==◌, if◌then◌else◌, Bool-cases, Result, ok, err, arith,
}
use chat_gateway.Prelude.Text.{Text}
use chat_gateway.Prelude.Utf8.{between, next, least, greatest, size, value, runes, runes_from}
use chat_gateway.Middleware.Validation.{
  ValidationError, is_space, is_blank, is_hex, is_empty, bad_format, validate_room_id,
}
use chat_gateway.Storage.Queries.{QueryError, bad_id, validate_object_id}

abbrev pub accepts : {E : Type 0} → Result E (Unit {0}) → Bool
accepts (ok a) = true
accepts (err e) = false

space_not_hex : (r : ℕ) → is_space r ≡ true → is_hex r ≡ false
space_not_hex r h = ground (arith, h)

-- A digit is a code point of one byte, and no other code point is a digit.
size-hex : (a : ℕ) (bs : Text) → is_hex a ≡ true → size (a ∷ bs) ≡ 1
size-hex a [] h = ground (arith, h)
size-hex a (b ∷ []) h = ground (arith, h)
size-hex a (b ∷ c ∷ []) h = ground (arith, h)
size-hex a (b ∷ c ∷ d ∷ bs) h = ground (arith, h)

wide_not_hex : (r : ℕ) → 0x80 ≤ r → is_hex r ≡ false
wide_not_hex r h = ground (arith, h)

wide_two :
    (a b : ℕ)
    → (between 0xc2 a 0xdf && next b) ≡ true
    → is_hex ((a - 0xc0) * 64 + (b - 0x80)) ≡ false
wide_two a b h =
    let low : 0xc2 ≤ a = ground (arith, h) in
    wide_not_hex ((a - 0xc0) * 64 + (b - 0x80)) (omega (arith, low))

wide_three :
    (a b c : ℕ)
    → (between 0xe0 a 0xef && between (least a) b (greatest a) && next c) ≡ true
    → is_hex ((a - 0xe0) * 4096 + (b - 0x80) * 64 + (c - 0x80)) ≡ false
wide_three a b c h =
    let low : 0xe0 ≤ a = ground (arith, h) in
    let above : least a ≤ b = ground (arith, h) in
    let wide : (0xe1 ≤ a) ⊎ (0xa0 ≤ b) = ground (arith, low, above) in
    wide_not_hex ((a - 0xe0) * 4096 + (b - 0x80) * 64 + (c - 0x80))
      (elim wide [ inl l ↦ omega (arith, l) | inr l ↦ omega (arith, l) ])

wide_four :
    (a b c d : ℕ)
    → (between 0xf0 a 0xf4 && between (least a) b (greatest a) && next c && next d) ≡ true
    → is_hex ((a - 0xf0) * 262144 + (b - 0x80) * 4096 + (c - 0x80) * 64 + (d - 0x80)) ≡ false
wide_four a b c d h =
    let low : 0xf0 ≤ a = ground (arith, h) in
    let above : least a ≤ b = ground (arith, h) in
    let wide : (0xf1 ≤ a) ⊎ (0x90 ≤ b) = ground (arith, low, above) in
    wide_not_hex ((a - 0xf0) * 262144 + (b - 0x80) * 4096 + (c - 0x80) * 64 + (d - 0x80))
      (elim wide [ inl l ↦ omega (arith, l) | inr l ↦ omega (arith, l) ])

-- A first byte that is no digit starts no digit.
value_not_hex : (a : ℕ) (bs : Text) → is_hex a ≡ false → is_hex (value (size (a ∷ bs)) a bs) ≡ false
value_not_hex a [] h = elim (Bool-cases (ltb a 0x80)) [ inl e ↦ rw e h | inr e ↦ rw e refl ]
value_not_hex a (b ∷ []) h = elim (Bool-cases (ltb a 0x80)) [
  | inl e ↦ rw e h
  | inr e ↦ rw e (elim (Bool-cases (between 0xc2 a 0xdf && next b)) [
    | inl t ↦ rw t (wide_two a b t)
    | inr t ↦ rw t refl
  ])
]
value_not_hex a (b ∷ c ∷ []) h = elim (Bool-cases (ltb a 0x80)) [
  | inl e ↦ rw e h
  | inr e ↦ rw e (elim (Bool-cases (between 0xc2 a 0xdf && next b)) [
    | inl t ↦ rw t (wide_two a b t)
    | inr t ↦
        rw t
          (elim (Bool-cases (between 0xe0 a 0xef && between (least a) b (greatest a) && next c)) [
            | inl u ↦ rw u (wide_three a b c u)
            | inr u ↦ rw u refl
          ])
  ])
]
value_not_hex a (b ∷ c ∷ d ∷ bs) h = elim (Bool-cases (ltb a 0x80)) [
  | inl e ↦ rw e h
  | inr e ↦ rw e (elim (Bool-cases (between 0xc2 a 0xdf && next b)) [
    | inl t ↦ rw t (wide_two a b t)
    | inr t ↦
        rw t
          (elim (Bool-cases (between 0xe0 a 0xef && between (least a) b (greatest a) && next c)) [
            | inl u ↦ rw u (wide_three a b c u)
            | inr u ↦
                rw u
                  (elim (Bool-cases
                    (between 0xf0 a 0xf4 && between (least a) b (greatest a) && next c && next d)) [
                      | inl v ↦ rw v (wide_four a b c d v)
                      | inr v ↦ rw v refl
                    ])
          ])
  ])
]

all_hex-runes_from : (t : Text) → all is_hex (runes_from 0 t) ≡ all is_hex t
unfolding runes_from
all_hex-runes_from [] = refl
all_hex-runes_from (a ∷ bs) = elim (Bool-cases (is_hex a)) [
  | inl e ↦ rw (size-hex a bs e, e) (all_hex-runes_from bs)
  | inr e ↦ rw (value_not_hex a bs e, e) refl
]

-- A text that is blank but not empty has no digit first.
blank_not_hex : (t : Text) → is_blank t ≡ true → length t ≡ 24 → all is_hex (runes t) ≡ false
unfolding runes runes_from
blank_not_hex [] b h = absurd ground (arith, h)
blank_not_hex (a ∷ bs) b h = ground (arith, b, space_not_hex (value (size (a ∷ bs)) a bs))

-- The order of the checks does not matter.
same_answer :
    (blank sized digits ascii : Bool)
    → digits ≡ ascii
    → (blank ≡ true → sized ≡ true → digits ≡ false)
    → accepts {E = ValidationError} (
        if blank
        then err is_empty
        else if not sized
        then err bad_format
        else if not digits
        then err bad_format
        else ok tt)
      ≡ accepts {E = QueryError}
          (if not sized then err bad_id else if not (sized && ascii) then err bad_id else ok tt)
same_answer true true digits ascii same h = rw (← same, h refl refl) refl
same_answer true false digits ascii same h = refl
same_answer false true digits true same h = rw same refl
same_answer false true digits false same h = rw same refl
same_answer false false digits ascii same h = refl

-- `ValidateRoomID`, a loop over code points, and `ValidateObjectID`, a regular expression, accept the
-- same texts.
pub validate_room_id-validate_object_id :
    (id : Text) → accepts (validate_room_id id) ≡ accepts (validate_object_id id)
unfolding validate_room_id validate_object_id runes
validate_room_id-validate_object_id id =
    same_answer (is_blank id) (length id == 24) (all is_hex (runes id)) (all is_hex id)
      (all_hex-runes_from id) (λ b n. blank_not_hex id b (ground (arith, n)))
