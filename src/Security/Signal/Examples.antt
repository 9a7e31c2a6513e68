-- ===== src/Security/Signal/Examples.antt =====
-- The theorems on the protocol at toy primitives that satisfy the laws.
use chat_gateway.Prelude.{
  ℕ, ◌*◌, ◌%◌, ◌≡◌, refl, some, [], ◌∷◌, ◌++◌, drop, replicate, length-replicate, ok, arith,
}
use chat_gateway.Prelude.Text.{Text, bytes, text_eq}
use chat_gateway.Prelude.Dict.{lookup, insert}
use chat_gateway.Security.Signal.{
  uint32, Primitives, SignalProtocol, SessionState, KeyPair, double_ratchet, put_uint32,
  parse_message_header, decrypt_message,
}
use chat_gateway.Security.Signal.Conversation.{deliver, deliver-double_ratchet}
use chat_gateway.Security.Signal.Weakness.{replay_accepted}
use chat_gateway.Security.Fixtures.{hello, secret}

abbrev product : Text → Text → Text
product (a ∷ s) (b ∷ t) = a * b % 251 ∷ []
product _ _ = []

abbrev crypto : Primitives
crypto = record {
  basepoint = 1 ∷ [];
  x25519 = λ k p. some (product k p);
  derive = λ s i n. replicate n 5;
  length_derive = λ s i n h. length-replicate n 5;
  sha512 = λ t. replicate 64 9;
  length_sha512 = λ t. refl;
  gcm_seal = λ k n t. t;
  gcm_open = λ k n t. some t;
  open_seal = λ k n t h h'. refl;
}

abbrev pair : ℕ → KeyPair
pair n = record { private_key = n ∷ []; public_key = n ∷ [] }

abbrev alice : SignalProtocol
alice = record {
  identity_key_pair = pair 2;
  signed_pre_key_pair = pair 3;
  one_time_pre_key_pairs = [];
  sessions = [];
}

abbrev bob : SignalProtocol
bob = record alice { identity_key_pair = pair 5; signed_pre_key_pair = pair 7 }

abbrev id : Text
id = bytes "s"

deliver-double_ratchet_example :
    deliver crypto id
      (hello ∷ id ∷ [])
      (double_ratchet id secret alice)
      (double_ratchet id secret bob)
    ≡ ok hello ∷ ok id ∷ []
deliver-double_ratchet_example =
    deliver-double_ratchet crypto id secret (hello ∷ id ∷ []) alice bob (omega arith)

abbrev session : SessionState
session = record {
  root_key = secret;
  send_chain_key = record { key = secret; index = 0 };
  receive_chain_key = record { key = secret; index = 0 };
  send_message_number = 0;
  receive_message_number = 0;
  previous_chain_keys = [];
}

abbrev message : Text
message = 0 ∷ 0 ∷ 0 ∷ 1 ∷ replicate 44 0 ++ hello

replay_accepted_example :
    (decrypt_message crypto id
      (put_uint32 2 ++ drop 4 message)
      (decrypt_message crypto id message (double_ratchet id secret bob)).1).0
    ≡ ok hello
unfolding decrypt_message double_ratchet lookup insert text_eq parse_message_header uint32
replay_accepted_example =
    replay_accepted crypto id message hello 2 (double_ratchet id secret bob) refl (omega arith)
      (omega arith)
