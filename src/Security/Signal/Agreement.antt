-- ===== src/Security/Signal/Agreement.antt =====
-- signal_protocol.go, `X3DHKeyAgreement` and `RotateKeys`: the keys of both sides.
use chat_gateway.Prelude.{
  zero, suc, ◌∷◌, List, ◌+◌, subst, ap, inr, true, All, arith, inl, ◌⊎◌, length, false,
  Option-cases, ℕ, Option, ◌≡◌, refl, none, some, [], ◌++◌,
}
use chat_gateway.Prelude.Text.{Text, bytes}
use chat_gateway.Security.Signal.{
  rotate_keys, generate_key_pairs, generate_key_pair, KeyPair, Primitives, SignalProtocol,
  x3dh_key_agreement, one_time_agreement,
}

module _ (crypto : Primitives) where
  -- The function is the same for both sides, so each puts the agreement of its own identity key
  -- first. Two sides that call it with each other's public keys, without one-time keys, derive their
  -- root keys from the same three agreements in different orders. X25519 is assumed to give both
  -- sides of an agreement the same.
  pub x3dh_swapped :
      (a b : SignalProtocol) (dh1 dh2 dh3 : Text)
      → let pa = a.identity_key_pair in
        let pb = b.identity_key_pair in
        let sa = a.signed_pre_key_pair in
        let sb = b.signed_pre_key_pair in
        crypto.x25519 pa.private_key sb.public_key ≡ some dh1
        → crypto.x25519 sa.private_key pb.public_key ≡ some dh2
        → crypto.x25519 sa.private_key sb.public_key ≡ some dh3
        → crypto.x25519 pa.private_key sb.public_key ≡ crypto.x25519 sb.private_key pa.public_key
        → crypto.x25519 sa.private_key pb.public_key ≡ crypto.x25519 pb.private_key sa.public_key
        → crypto.x25519 sa.private_key sb.public_key ≡ crypto.x25519 sb.private_key sa.public_key
        → (x3dh_key_agreement crypto pb.public_key sb.public_key none none a
            ≡ some (crypto.derive (dh1 ++ dh2 ++ dh3 ++ []) (bytes "SignalProtocol") 32))
          × (x3dh_key_agreement crypto pa.public_key sa.public_key none none b
              ≡ some (crypto.derive (dh2 ++ dh1 ++ dh3 ++ []) (bytes "SignalProtocol") 32))
  unfolding x3dh_key_agreement one_time_agreement
  x3dh_swapped a b dh1 dh2 dh3 e1 e2 e3 s1 s2 s3 =
      (rw (e1, e2, e3) refl, rw (← s1, ← s2, ← s3, e1, e2, e3) refl)

  abbrev pub IsPair : KeyPair → Type 0
  IsPair p = crypto.x25519 p.private_key crypto.basepoint ≡ some p.public_key

  generate_key_pair-IsPair :
      (entropy : Option Text) (p : KeyPair) → generate_key_pair crypto entropy ≡ some p → IsPair p
  unfolding generate_key_pair
  generate_key_pair-IsPair none p h = cc
  generate_key_pair-IsPair (some k) p h = elim (Option-cases (crypto.x25519 k crypto.basepoint)) [
    | inl e ↦ let h' = rw (e, generate_key_pair) at h in absurd ground arith
    | inr (q, e) ↦
        let h' = rw (e, generate_key_pair) at h in
        let same : record { private_key = k; public_key = q } ≡ p = ground (arith, h') in
        subst IsPair same e
  ]

  generate_key_pairs-IsPair :
      (entropy : ℕ → Option Text) (i n : ℕ) (ps : List KeyPair)
      → generate_key_pairs crypto entropy i n ≡ some ps
      → (length ps ≡ n) × All IsPair ps
  unfolding generate_key_pairs
  generate_key_pairs-IsPair entropy i zero ps h =
      let same : [] ≡ ps = ground (arith, h) in
      subst (λ (xs : List KeyPair). (length xs ≡ 0) × All IsPair xs) same (refl, tt)
  generate_key_pairs-IsPair entropy i (suc n) ps h =
      elim (Option-cases (generate_key_pair crypto (entropy i))) [
        | inl e ↦ let h' = rw (e, generate_key_pairs) at h in absurd ground arith
        | inr (p, e) ↦ elim (Option-cases (generate_key_pairs crypto entropy (i + 1) n)) [
          | inl e' ↦
              let h' = rw (e, generate_key_pairs) at h in
              let h'' = rw (e', generate_key_pairs) at h' in absurd ground arith
          | inr (rest, e') ↦
              let h' = rw (e, generate_key_pairs) at h in
              let h'' = rw (e', generate_key_pairs) at h' in
              let same : p ∷ rest ≡ ps = ground (arith, h'') in
              let (all, pairs) = generate_key_pairs-IsPair entropy (i + 1) n rest e' in
              subst (λ (xs : List KeyPair). (length xs ≡ suc n) × All IsPair xs) same
                (ap suc all, (generate_key_pair-IsPair (entropy i) p e, pairs))
        ]
      ]

  -- A rotation that finds the random source or X25519 failing changes nothing. Any other replaces the
  -- signed key and leaves exactly 100 one-time keys, each with its own public key, and keeps the
  -- identity and all sessions.
  pub rotate_keys_lem :
      (entropy : ℕ → Option Text) (sp : SignalProtocol)
      → (rotate_keys crypto entropy sp ≡ (sp, false))
        ⊎ (((rotate_keys crypto entropy sp).1 ≡ true)
            × (length (rotate_keys crypto entropy sp).0.one_time_pre_key_pairs ≡ 100)
            × All IsPair (rotate_keys crypto entropy sp).0.one_time_pre_key_pairs
            × IsPair (rotate_keys crypto entropy sp).0.signed_pre_key_pair
            × ((rotate_keys crypto entropy sp).0.identity_key_pair ≡ sp.identity_key_pair)
            × ((rotate_keys crypto entropy sp).0.sessions ≡ sp.sessions))
  unfolding rotate_keys
  rotate_keys_lem entropy sp = elim (Option-cases (generate_key_pair crypto (entropy 0))) [
    | inl e ↦ inl (rw (e, rotate_keys) refl)
    | inr (p, e) ↦ elim (Option-cases (generate_key_pairs crypto entropy 1 100)) [
      | inl e' ↦ inl (rw (e, rotate_keys) (rw (e', rotate_keys) refl))
      | inr (ps, e') ↦
          let (all, pairs) = generate_key_pairs-IsPair entropy 1 100 ps e' in
          inr (
            rw (e, rotate_keys)
              (rw (e', rotate_keys)
                (refl, all, pairs, generate_key_pair-IsPair (entropy 0) p e, refl, refl)))
    ]
  ]
