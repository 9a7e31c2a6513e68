-- ===== src/Security/Signal.antt =====
-- internal/security/encryption/signal_protocol.go: key agreement, sessions and messages. X25519, HKDF,
-- SHA-512 and AES-GCM are not part of the program: they are the fields of a record, with what is
-- documented of them as laws. HKDF gives every length that the code asks for, and AES-GCM takes every
-- key of 32 bytes, so neither has an error here. No code sets a chain's message key, and it has none.
pub mod Header
pub mod Conversation
pub mod Weakness
pub mod Agreement
mod Examples
use chat_gateway.Prelude.{
  ◌≤◌, ℕ, suc, zero, ◌+◌, ◌*◌, ◌/◌, ◌%◌, ◌^◌, ◌≡◌, Option, none, some, Bool, true, false, List, [],
  ◌∷◌, ◌++◌, length, take, drop, ltb, leb, if◌then◌else◌, Result, ok, err, map,
}
use chat_gateway.Prelude.Text.{Text, bytes}
use chat_gateway.Prelude.Maybe.{◌>>=◌}
use chat_gateway.Prelude.Dict.{Dict, lookup, insert}

pub record Primitives : Type 0 where
  pub basepoint : Text
  pub x25519 : Text → Text → Option Text
  -- HKDF over SHA-256: secret, info, how many bytes.
  pub derive : Text → Text → ℕ → Text
  pub length_derive :
      (secret info : Text) (n : ℕ) → n ≤ 255 * 32 → length (derive secret info n) ≡ n
  pub sha512 : Text → Text
  pub length_sha512 : (t : Text) → length (sha512 t) ≡ 64
  pub gcm_seal : Text → Text → Text → Text
  pub gcm_open : Text → Text → Text → Option Text
  pub open_seal :
      (key nonce t : Text)
      → length key ≡ 32
      → length nonce ≡ 12
      → gcm_open key nonce (gcm_seal key nonce t) ≡ some t

pub record KeyPair : Type 0 where
  pub private_key : Text
  pub public_key : Text

pub record ChainKey : Type 0 where
  pub key : Text
  pub index : ℕ

pub record MessageKey : Type 0 where
  pub cipher_key : Text
  pub mac_key : Text
  pub iv : Text

pub record SessionState : Type 0 where
  pub root_key : Text
  pub send_chain_key : ChainKey
  pub receive_chain_key : ChainKey
  pub send_message_number : ℕ
  pub receive_message_number : ℕ
  pub previous_chain_keys : List ChainKey

pub record SignalProtocol : Type 0 where
  pub identity_key_pair : KeyPair
  pub signed_pre_key_pair : KeyPair
  pub one_time_pre_key_pairs : List KeyPair
  pub sessions : Dict SessionState

pub record MessageHeader : Type 0 where
  pub message_number : ℕ
  pub mac : Text
  pub iv : Text

pub record PublicKeyBundle : Type 0 where
  pub identity_key : Text
  pub signed_pre_key : Text
  pub one_time_pre_keys : List Text

pub data SignalError : Type 0 where
  session_not_found message_too_short duplicate_message decryption_failed : SignalError

-- `binary.BigEndian`
unfoldable pub put_uint32 : ℕ → Text
put_uint32 n = n / 2 ^ 24 % 256 ∷ n / 2 ^ 16 % 256 ∷ n / 2 ^ 8 % 256 ∷ n % 256 ∷ []

unfoldable pub uint32 : Text → ℕ
uint32 (a ∷ b ∷ c ∷ d ∷ rest) = a * 2 ^ 24 + b * 2 ^ 16 + c * 2 ^ 8 + d
uint32 _ = 0

abbrev increment : ℕ → ℕ
increment n = (n + 1) % 2 ^ 32

-- A message shorter than a header is refused; the rest is the ciphertext.
unfoldable pub parse_message_header : Text → Result SignalError (MessageHeader × Text)
parse_message_header t =
    if ltb (length t) 48
    then err message_too_short
    else ok (
      record {
        message_number = uint32 (take 4 t);
        mac = take 32 (drop 4 t);
        iv = take 12 (drop 36 t);
      },
      drop 48 t,
    )

module _ (crypto : Primitives) where
  unfoldable pub generate_key_pair : Option Text → Option KeyPair
  generate_key_pair none = none
  generate_key_pair (some private_key) = elim (crypto.x25519 private_key crypto.basepoint) [
    | none ↦ none
    | some public_key ↦ some (record { private_key = private_key; public_key = public_key })
  ]

  -- `n` key pairs from the readings `i`, `i + 1`, … of the random source.
  unfoldable pub generate_key_pairs : (ℕ → Option Text) → ℕ → ℕ → Option (List KeyPair)
  generate_key_pairs entropy i zero = some []
  generate_key_pairs entropy i (suc n) = elim (generate_key_pair (entropy i)) [
    | none ↦ none
    | some pair ↦ elim (generate_key_pairs entropy (i + 1) n) [
      | none ↦ none
      | some pairs ↦ some (pair ∷ pairs)
    ]
  ]

  unfoldable pub new_signal_protocol : (ℕ → Option Text) → Option SignalProtocol
  new_signal_protocol entropy = elim (generate_key_pair (entropy 0)) [
    | none ↦ none
    | some identity ↦ elim (generate_key_pair (entropy 1)) [
      | none ↦ none
      | some signed ↦ elim (generate_key_pairs entropy 2 100) [
        | none ↦ none
        | some one_time ↦ some (record {
          identity_key_pair = identity;
          signed_pre_key_pair = signed;
          one_time_pre_key_pairs = one_time;
          sessions = [];
        })
      ]
    ]
  ]

  -- `RotateKeys`: the keys change when all of them are generated.
  unfoldable pub rotate_keys : (ℕ → Option Text) → SignalProtocol → SignalProtocol × Bool
  rotate_keys entropy sp = elim (generate_key_pair (entropy 0)) [
    | none ↦ (sp, false)
    | some signed ↦ elim (generate_key_pairs entropy 1 100) [
      | none ↦ (sp, false)
      | some one_time ↦
          (record sp { signed_pre_key_pair = signed; one_time_pre_key_pairs = one_time }, true)
    ]
  ]

  -- DH4, where both sides have a one-time key: the result, or no result needed, or an error.
  unfoldable pub one_time_agreement : Option Text → Option KeyPair → Option Text
  one_time_agreement (some theirs) (some mine) = crypto.x25519 mine.private_key theirs
  one_time_agreement _ _ = some []

  unfoldable pub x3dh_key_agreement :
      Text → Text → Option Text → Option KeyPair → SignalProtocol → Option Text
  unfolding one_time_agreement
  x3dh_key_agreement their_identity their_signed their_one_time my_one_time sp = do
    dh1 ← crypto.x25519 sp.identity_key_pair.private_key their_signed
    dh2 ← crypto.x25519 sp.signed_pre_key_pair.private_key their_identity
    dh3 ← crypto.x25519 sp.signed_pre_key_pair.private_key their_signed
    dh4 ← one_time_agreement their_one_time my_one_time
    some (crypto.derive (dh1 ++ dh2 ++ dh3 ++ dh4) (bytes "SignalProtocol") 32)

  unfoldable pub derive_message_key : ChainKey → MessageKey
  derive_message_key chain =
      let t = crypto.derive chain.key (bytes "MessageKey") 76 in
      record { cipher_key = take 32 t; mac_key = take 32 (drop 32 t); iv = take 12 (drop 64 t) }

  unfoldable pub compute_mac : Text → Text → ℕ → Text
  compute_mac key session_id n = take 32 (crypto.sha512 (key ++ session_id ++ put_uint32 n))

  unfoldable pub create_message_header : Text → ℕ → MessageKey → Text
  unfolding compute_mac
  create_message_header session_id n k = put_uint32 n ++ compute_mac k.mac_key session_id n ++ k.iv

  unfoldable pub encrypt_message :
      Text → Text → SignalProtocol → Result SignalError Text × SignalProtocol
  unfolding create_message_header
  encrypt_message session_id plaintext sp = elim (lookup session_id sp.sessions) [
    | none ↦ (err session_not_found, sp)
    | some s ↦
        let k = derive_message_key s.send_chain_key in
        let n = increment s.send_message_number in
        (
          ok (create_message_header session_id n k ++ crypto.gcm_seal k.cipher_key k.iv plaintext),
          record sp {
            sessions =
                insert session_id
                  (record s {
                    send_chain_key = record s.send_chain_key {
                      index = increment s.send_chain_key.index;
                    };
                    send_message_number = n;
                  })
                  sp.sessions;
          },
        )
  ]

  -- The end of `DecryptMessage`, on the header and the ciphertext of the message.
  unfoldable pub decrypt_parsed :
      Text
      → SessionState
      → MessageHeader
      → Text
      → SignalProtocol
      → Result SignalError Text × SignalProtocol
  decrypt_parsed session_id s header ciphertext sp =
      let k = derive_message_key s.receive_chain_key in
      if leb header.message_number s.receive_message_number
      then (err duplicate_message, sp)
      else elim (crypto.gcm_open k.cipher_key k.iv ciphertext) [
        | none ↦ (err decryption_failed, sp)
        | some plaintext ↦ (
          ok plaintext,
          record sp {
            sessions =
                insert session_id
                  (record s {
                    receive_chain_key = record s.receive_chain_key {
                      index = increment s.receive_chain_key.index;
                    };
                    receive_message_number = header.message_number;
                  })
                  sp.sessions;
          },
        )
      ]

  unfoldable pub decrypt_message :
      Text → Text → SignalProtocol → Result SignalError Text × SignalProtocol
  unfolding decrypt_parsed
  decrypt_message session_id t sp = elim (lookup session_id sp.sessions) [
    | none ↦ (err session_not_found, sp)
    | some s ↦ elim (parse_message_header t) [
      | err e ↦ (err e, sp)
      | ok (header, ciphertext) ↦ decrypt_parsed session_id s header ciphertext sp
    ]
  ]

-- Both chains begin with the root key.
unfoldable pub double_ratchet : Text → Text → SignalProtocol → SignalProtocol
double_ratchet session_id root_key sp = record sp {
  sessions =
      insert session_id
        (record {
          root_key = root_key;
          send_chain_key = record { key = root_key; index = 0 };
          receive_chain_key = record { key = root_key; index = 0 };
          send_message_number = 0;
          receive_message_number = 0;
          previous_chain_keys = [];
        })
        sp.sessions;
}

unfoldable pub get_public_keys : SignalProtocol → PublicKeyBundle
get_public_keys sp = record {
  identity_key = sp.identity_key_pair.public_key;
  signed_pre_key = sp.signed_pre_key_pair.public_key;
  one_time_pre_keys = map (λ p. p.public_key) sp.one_time_pre_key_pairs;
}
