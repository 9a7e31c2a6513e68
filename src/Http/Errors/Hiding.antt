-- ===== src/Http/Errors/Hiding.antt =====
-- error_handler.go, `SafeError`: what an error's text may tell a client.
use chat_gateway.Prelude.{
  ℕ, ◌≡◌, ◌≢◌, ◌⊎◌, inl, inr, refl, sym, some, Bool, true, List, [], ◌∷◌, ◌++◌, any, Bool-cases,
  arith,
}
use chat_gateway.Prelude.Text.{Text, has_prefix, has_prefix-append}
use chat_gateway.Storage.Collection.{In}
use chat_gateway.Http.Errors.{
  answer, traced, says, contains, to_lower, dangerous_keywords, should_show_error, safe_error,
}

contains-append : (part before after : Text) → contains part (before ++ part ++ after) ≡ true
unfolding contains has_prefix
contains-append part (c ∷ before) after = ground (arith, contains-append part before after)
contains-append [] [] [] = refl
contains-append [] [] (c ∷ after) = refl
contains-append (c ∷ part) [] after = rw (has_prefix-append (c ∷ part) after) refl

any-In : {A : Type 0} (p : A → Bool) (x : A) (xs : List A) → In x xs → p x ≡ true → any p xs ≡ true
any-In p x [] there h = absurd there
any-In p x (y ∷ ys) (inl same) h = rw (sym same, h) refl
any-In p x (y ∷ ys) (inr there) h = ground (arith, any-In p x ys there h)

-- Whatever the error, its status and the message for users: the answer of `SafeError` shows that message, or the
-- error's own text, and that only if its lower-case form has none of the keywords anywhere in it.
pub safe_error_lem :
    (wide : ℕ → ℕ) (id : Text) (status : ℕ) (error : Text) (message : Text)
    → (safe_error wide id status (some error) message ≡ answer status (traced (says message) id))
      ⊎ ((safe_error wide id status (some error) message ≡ answer status (traced (says error) id))
          × ((keyword before after : Text)
              → In keyword dangerous_keywords
              → to_lower wide error ≢ before ++ keyword ++ after))
unfolding safe_error should_show_error
safe_error_lem wide id status error message =
    elim (Bool-cases (should_show_error wide (some error))) [
      | inl e ↦ inr (
        rw e refl,
        λ keyword before after there same.
            let found : contains keyword (to_lower wide error) ≡ true =
              rw same (contains-append keyword before after) in
            let all =
              any-In (λ k. contains k (to_lower wide error)) keyword dangerous_keywords there
                found in
            ground (arith, e, all),
      )
      | inr e ↦ inl (rw e refl)
    ]
