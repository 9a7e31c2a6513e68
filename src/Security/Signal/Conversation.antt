-- ===== src/Security/Signal/Conversation.antt =====
-- signal_protocol.go, `EncryptMessage` and `DecryptMessage`: messages from one side to the other.
use chat_gateway.Prelude.{
  length-drop, length-take, ℕ, ◌%◌, ◌+◌, ◌<◌, ◌^◌, ◌≡◌, ◌∙◌, refl, ap, arith, some, List, [], ◌∷◌,
  ◌++◌, map, length, drop, Result, ok, err, false, leb,
}
use chat_gateway.Prelude.Text.{bytes, Text}
use chat_gateway.Prelude.Dict.{lookup, insert, lookup-insert_self}
use chat_gateway.Security.Signal.{
  Primitives, SignalProtocol, SessionState, ChainKey, MessageKey, SignalError, derive_message_key,
  create_message_header, encrypt_message, decrypt_message, decrypt_parsed, double_ratchet,
}
use chat_gateway.Security.Signal.Header.{parse_message_header-create_message_header}

module _ (crypto : Primitives) (id : Text) where
  -- What the other side makes of a message, if there is one.
  unfoldable pub receive :
      Result SignalError Text → SignalProtocol → Result SignalError Text × SignalProtocol
  receive (err e) b = (err e, b)
  receive (ok t) b = decrypt_message crypto id t b

  -- One side encrypts the messages, the other decrypts each as it comes.
  unfoldable pub deliver :
      List Text → SignalProtocol → SignalProtocol → List (Result SignalError Text)
  deliver [] a b = []
  deliver (m ∷ ms) a b =
      let sent = encrypt_message crypto id m a in
      let received = receive sent.0 b in received.0 ∷ deliver ms sent.1 received.1

  -- The sessions of both sides fit: one key, and as many messages sent as received.
  pub record IsLinked (n : ℕ) (a b : SignalProtocol) : Type 0 where
    pub sender : SessionState
    pub receiver : SessionState
    pub sends : lookup id a.sessions ≡ some sender
    pub receives : lookup id b.sessions ≡ some receiver
    pub same_key : sender.send_chain_key.key ≡ receiver.receive_chain_key.key
    pub sent : sender.send_message_number ≡ n
    pub received : receiver.receive_message_number ≡ n

  pub lengths_of_key :
      (c : ChainKey)
      → (length (derive_message_key crypto c).cipher_key ≡ 32)
        × (length (derive_message_key crypto c).iv ≡ 12)
  unfolding derive_message_key
  lengths_of_key c =
      let t : Text = crypto.derive c.key (bytes "MessageKey") 76 in
      let all : length t ≡ 76 = crypto.length_derive c.key (bytes "MessageKey") 76 (omega arith) in
      (
        length-take 32 t ∙ omega (arith, all),
        length-take 12 (drop 64 t) ∙ omega (arith, all, length-drop 64 t),
      )

  same_message_key :
      (c d : ChainKey) → c.key ≡ d.key → derive_message_key crypto c ≡ derive_message_key crypto d
  unfolding derive_message_key
  same_message_key c d h = rw h refl

  abbrev body : Text → ℕ → SessionState → Text
  body m n s =
      let k = derive_message_key crypto s.send_chain_key in
      create_message_header crypto id n k ++ crypto.gcm_seal k.cipher_key k.iv m

  receive_body :
      (m : Text) (n : ℕ) (s r : SessionState) (b : SignalProtocol)
      → lookup id b.sessions ≡ some r
      → s.send_chain_key.key ≡ r.receive_chain_key.key
      → r.receive_message_number < n
      → n < 2 ^ 32
      → decrypt_message crypto id (body m n s) b ≡ (
        ok m,
        record b {
          sessions =
              insert id
                (record r {
                  receive_chain_key = record r.receive_chain_key {
                    index = (r.receive_chain_key.index + 1) % 2 ^ 32;
                  };
                  receive_message_number = n;
                })
                b.sessions;
        },
      )
  unfolding decrypt_message decrypt_parsed
  receive_body m n s r b e same later small =
      let k : MessageKey = derive_message_key crypto s.send_chain_key in
      let (key_long, iv_long) = lengths_of_key s.send_chain_key in
      let fresh : leb n r.receive_message_number ≡ false = ground (arith, later) in
      rw (e, decrypt_message)
        (rw
          (parse_message_header-create_message_header crypto id
            (crypto.gcm_seal k.cipher_key k.iv m) n k small iv_long)
          (rw
            (
              ← same_message_key s.send_chain_key r.receive_chain_key same,
              fresh,
              crypto.open_seal k.cipher_key k.iv m key_long iv_long,
            )
            refl))

  encrypt_session :
      (m : Text) (s : SessionState) (a : SignalProtocol)
      → lookup id a.sessions ≡ some s
      → s.send_message_number + 1 < 2 ^ 32
      → encrypt_message crypto id m a ≡ (
        ok (body m (s.send_message_number + 1) s),
        record a {
          sessions =
              insert id
                (record s {
                  send_chain_key = record s.send_chain_key {
                    index = (s.send_chain_key.index + 1) % 2 ^ 32;
                  };
                  send_message_number = s.send_message_number + 1;
                })
                a.sessions;
        },
      )
  unfolding encrypt_message
  encrypt_session m s a e small =
      let no_wrap : (s.send_message_number + 1) % 2 ^ 32 ≡ s.send_message_number + 1 =
        omega (arith, small) in
      rw (e, encrypt_message) (rw no_wrap refl)

  -- Sides whose sessions fit stay in step: every message is decrypted to itself, as long as the
  -- message numbers stay below 2 ^ 32.
  pub deliver-map :
      (ms : List Text) (n : ℕ) (a b : SignalProtocol)
      → IsLinked n a b
      → n + length ms < 2 ^ 32
      → deliver ms a b ≡ map ok ms
  unfolding deliver receive
  deliver-map [] n a b v small = refl
  deliver-map (m ∷ ms) n a b v small =
      let s : SessionState = v.sender in
      let r : SessionState = v.receiver in
      rw
        (
          encrypt_session m s a v.sends (omega (arith, v.sent, small)),
          receive_body m (s.send_message_number + 1) s r b v.receives v.same_key
              (omega (arith, v.sent, v.received)) (omega (arith, v.sent, small)),
        )
        (ap (◌∷◌ (ok m)) (
          deliver-map ms (s.send_message_number + 1) _ _
            (record {
              sender = _;
              receiver = _;
              sends = lookup-insert_self id _ a.sessions;
              receives = lookup-insert_self id _ b.sessions;
              same_key = v.same_key;
              sent = refl;
              received = refl;
            })
            (omega (arith, v.sent, small))))

  -- Two sides that begin a session with the same root key: whatever sessions they had before, fewer
  -- than 2 ^ 32 messages from one to the other are all decrypted to themselves, in order.
  pub deliver-double_ratchet :
      (root : Text) (ms : List Text) (a b : SignalProtocol)
      → length ms < 2 ^ 32
      → deliver ms (double_ratchet id root a) (double_ratchet id root b) ≡ map ok ms
  unfolding double_ratchet
  deliver-double_ratchet root ms a b small =
      deliver-map ms 0 _ _
        (record {
          sender = _;
          receiver = _;
          sends = lookup-insert_self id _ a.sessions;
          receives = lookup-insert_self id _ b.sessions;
          same_key = refl;
          sent = refl;
          received = refl;
        })
        (omega (arith, small))
