-- ===== src/Security/Signal/Weakness.antt =====
-- signal_protocol.go: what the messages of one session share, and what decryption does not check.
use chat_gateway.Prelude.{
  length-drop, sym, none, Option-cases, inr, inl, Bool-cases, ◌≢◌, true, ltb, drop_exact, ℕ, ◌+◌,
  ◌<◌, ◌^◌, ◌%◌, ◌≡◌, ◌∙◌, refl, ap, arith, some, [], ◌∷◌, ◌++◌, length, take, drop, Result, ok,
  ◌>>=◌, false, leb,
}
use chat_gateway.Prelude.Text.{Text}
use chat_gateway.Prelude.Dict.{lookup, lookup-insert_self}
use chat_gateway.Security.Signal.{
  MessageKey, MessageHeader, Primitives, SignalProtocol, SessionState, SignalError,
  derive_message_key, uint32, put_uint32, encrypt_message, decrypt_message, decrypt_parsed,
  parse_message_header,
}
use chat_gateway.Security.Signal.Header.{length-create_message_header, uint32-put_uint32}
use chat_gateway.Security.Signal.Conversation.{lengths_of_key}

drop_forged : (t : Text) → drop 44 (drop 4 t) ≡ drop 48 t
drop_forged [] = refl
drop_forged (a ∷ []) = refl
drop_forged (a ∷ b ∷ []) = refl
drop_forged (a ∷ b ∷ c ∷ []) = refl
drop_forged (a ∷ b ∷ c ∷ d ∷ t) = refl

-- What stands behind the header.
abbrev pub ciphertext_of : Result SignalError Text → Result SignalError Text
ciphertext_of r = r >>= (λ t. ok (drop 48 t))

module _ (crypto : Primitives) (id : Text) where
  first_ciphertext :
      (m : Text) (s : SessionState) (a : SignalProtocol)
      → lookup id a.sessions ≡ some s
      → let k = derive_message_key crypto s.send_chain_key in
        ciphertext_of (encrypt_message crypto id m a).0 ≡ ok (crypto.gcm_seal k.cipher_key k.iv m)
  unfolding encrypt_message
  first_ciphertext m s a e =
      rw (e, encrypt_message)
        (ap ok (
          drop_exact 48 _ _ (
            length-create_message_header crypto id _ (derive_message_key crypto s.send_chain_key)
              (lengths_of_key crypto id s.send_chain_key).1)))

  session_after :
      (m : Text) (s : SessionState) (a : SignalProtocol)
      → lookup id a.sessions ≡ some s
      → (t : SessionState) × (lookup id (encrypt_message crypto id m a).1.sessions ≡ some t)
        × (t.send_chain_key.key ≡ s.send_chain_key.key)
  unfolding encrypt_message
  session_after m s a e = rw (e, encrypt_message) (_, lookup-insert_self id _ a.sessions, refl)

  -- Two messages in a row are sealed under one key with one nonce: the message key does not depend
  -- on the index of the chain.
  pub nonce_reused :
      (m m' : Text) (s : SessionState) (a : SignalProtocol)
      → lookup id a.sessions ≡ some s
      → let k = derive_message_key crypto s.send_chain_key in
        (ciphertext_of (encrypt_message crypto id m a).0 ≡ ok (crypto.gcm_seal k.cipher_key k.iv m))
        × (ciphertext_of (encrypt_message crypto id m' (encrypt_message crypto id m a).1).0
            ≡ ok (crypto.gcm_seal k.cipher_key k.iv m'))
  unfolding derive_message_key
  nonce_reused m m' s a e =
      let (t, found, same) = session_after m s a e in
      (
        first_ciphertext m s a e,
        first_ciphertext m' t (encrypt_message crypto id m a).1 found ∙ rw same refl,
      )

  accepts :
      (t p : Text) (s : SessionState) (b : SignalProtocol)
      → lookup id b.sessions ≡ some s
      → ltb (length t) 48 ≡ false
      → leb (uint32 (take 4 t)) s.receive_message_number ≡ false
      → let k = derive_message_key crypto s.receive_chain_key in
        crypto.gcm_open k.cipher_key k.iv (drop 48 t) ≡ some p
        → (decrypt_message crypto id t b).0 ≡ ok p
  unfolding decrypt_message decrypt_parsed parse_message_header
  accepts t p s b e long later opened =
      rw (e, decrypt_message) (rw (long, parse_message_header) (rw (later, opened) refl))

  -- What an accepted message and the session after it are like.
  record IsAccepted (t p : Text) (b : SignalProtocol) : Type 0 where
    session : SessionState
    found : lookup id b.sessions ≡ some session
    long : ltb (length t) 48 ≡ false
    opened :
        let k = derive_message_key crypto session.receive_chain_key in
        crypto.gcm_open k.cipher_key k.iv (drop 48 t) ≡ some p
    after : SessionState
    found_after : lookup id (decrypt_message crypto id t b).1.sessions ≡ some after
    same_chain : after.receive_chain_key.key ≡ session.receive_chain_key.key
    number : after.receive_message_number ≡ uint32 (take 4 t)

  abbrev header : Text → MessageHeader
  header t = record {
    message_number = uint32 (take 4 t);
    mac = take 32 (drop 4 t);
    iv = take 12 (drop 36 t);
  }

  parsed :
      (t : Text) (s : SessionState) (b : SignalProtocol)
      → lookup id b.sessions ≡ some s
      → ltb (length t) 48 ≡ false
      → decrypt_message crypto id t b ≡ decrypt_parsed crypto id s (header t) (drop 48 t) b
  unfolding decrypt_message parse_message_header
  parsed t s b e long = rw (e, decrypt_message) (rw (long, parse_message_header) refl)

  too_short :
      (t p : Text) (s : SessionState) (b : SignalProtocol)
      → lookup id b.sessions ≡ some s
      → ltb (length t) 48 ≡ true
      → (decrypt_message crypto id t b).0 ≢ ok p
  unfolding decrypt_message parse_message_header
  too_short t p s b e short h =
      let h' = rw (e, decrypt_message) at h in
      let h'' = rw (short, parse_message_header) at h' in cc

  opened_parsed :
      (t p : Text) (s : SessionState) (b : SignalProtocol)
      → (decrypt_parsed crypto id s (header t) (drop 48 t) b).0 ≡ ok p
      → let k = derive_message_key crypto s.receive_chain_key in
        (leb (uint32 (take 4 t)) s.receive_message_number ≡ false)
        × (crypto.gcm_open k.cipher_key k.iv (drop 48 t) ≡ some p)
  unfolding decrypt_parsed
  opened_parsed t p s b h =
      let k : MessageKey = derive_message_key crypto s.receive_chain_key in
      elim (Bool-cases (leb (uint32 (take 4 t)) s.receive_message_number)) [
        | inl old ↦ ground (arith, old)
        | inr new ↦ elim (Option-cases (crypto.gcm_open k.cipher_key k.iv (drop 48 t))) [
          | inl bad ↦ let h' = rw (new, bad) at h in absurd ground arith
          | inr (q, good) ↦ let h' = rw (new, good) at h in (new, good ∙ ground arith)
        ]
      ]

  -- The session after a message with the number `n`.
  abbrev advanced : ℕ → SessionState → SessionState
  advanced n s = record s {
    receive_chain_key = record s.receive_chain_key {
      index = (s.receive_chain_key.index + 1) % 2 ^ 32;
    };
    receive_message_number = n;
  }

  no_session :
      (t p : Text) (b : SignalProtocol)
      → lookup id b.sessions ≡ none
      → (decrypt_message crypto id t b).0 ≢ ok p
  unfolding decrypt_message
  no_session t p b e h = let h' = rw (e, decrypt_message) at h in cc

  accepted :
      (t p : Text) (b : SignalProtocol)
      → (decrypt_message crypto id t b).0 ≡ ok p
      → IsAccepted t p b
  unfolding decrypt_parsed
  accepted t p b h = elim (Option-cases (lookup id b.sessions)) [
    | inl e ↦ absurd (no_session t p b e h)
    | inr (s, e) ↦ elim (Bool-cases (ltb (length t) 48)) [
      | inl short ↦ absurd (too_short t p s b e short h)
      | inr long ↦
          let (new, good) = opened_parsed t p s b (ap (λ x. x.0) (sym (parsed t s b e long)) ∙ h) in
          record {
            session = s;
            found = e;
            long = long;
            opened = good;
            after = advanced (uint32 (take 4 t)) s;
            found_after =
                rw (parsed t s b e long) (rw (new, good) (lookup-insert_self id _ b.sessions));
            same_chain = refl;
            number = refl;
          }
    ]
  ]

  -- The number, the code and the nonce of a header are not authenticated: a message that was
  -- decrypted is decrypted again after its number is replaced by a larger one below 2 ^ 32.
  pub replay_accepted :
      (t p : Text) (n : ℕ) (b : SignalProtocol)
      → (decrypt_message crypto id t b).0 ≡ ok p
      → uint32 (take 4 t) < n
      → n < 2 ^ 32
      → (decrypt_message crypto id (put_uint32 n ++ drop 4 t) (decrypt_message crypto id t b).1).0
        ≡ ok p
  unfolding put_uint32 derive_message_key
  replay_accepted t p n b h later small =
      let v : IsAccepted t p b = accepted t p b h in
      let forged : Text = put_uint32 n ++ drop 4 t in
      let number : uint32 (take 4 forged) ≡ n = uint32-put_uint32 n small in
      let new : leb (uint32 (take 4 forged)) v.after.receive_message_number ≡ false =
        rw (number, v.number) (ground (arith, later)) in
      accepts forged p v.after (decrypt_message crypto id t b).1 v.found_after
        (ground (arith, v.long, length-drop 4 t)) new (rw (v.same_chain, drop_forged t) v.opened)
