-- ===== src/Storage/Paging/Order.antt =====
-- Lists from old to new: what is kept, and what stands among the first.
use chat_gateway.Prelude.{
  drop, ◌&&◌, length, ap, sym, refl, Option-cases, subst, ℕ, zero, suc, ◌+◌, ◌≤◌, ◌<◌, ◌≡◌, ◌∙◌,
  inl, inr, none, some, Bool, true, List, [], ◌∷◌, take, keep, get_last?, All, Bool-cases, arith,
}
use chat_gateway.Storage.Collection.{In}
use chat_gateway.Storage.Paging.{IsSorted}

module _ {D : Type 0} where
  pub All-In : (P : D → Type 0) (x : D) (ms : List D) → All P ms → In x ms → P x
  All-In P x [] h m = absurd m
  All-In P x (y ∷ ys) h (inl e) = subst P (sym e) h.0
  All-In P x (y ∷ ys) h (inr m) = All-In P x ys h.1 m

  pub All-of : {P : D → Type 0} (ms : List D) → ((m : D) → In m ms → P m) → All P ms
  All-of [] h = tt
  All-of (m ∷ ms) h = (h m (inl refl), All-of ms (λ k i. h k (inr i)))

  pub get_last_none : (ms : List D) → get_last? ms ≡ none → ms ≡ []
  get_last_none [] h = refl
  get_last_none (m ∷ []) h = cc
  get_last_none (m ∷ k ∷ ms) h = let h' = get_last_none (k ∷ ms) h in cc

  pub get_last_cons :
      (y last : D) (ms : List D) → get_last? ms ≡ some last → get_last? (y ∷ ms) ≡ some last
  get_last_cons y last [] h = cc
  get_last_cons y last (m ∷ ms) h = h

  -- In a list from old to new, whatever is older than the last of the first `n` is among them.
  pub In-take :
      (key : D → ℕ) (n : ℕ) (x last : D) (ms : List D)
      → IsSorted key ms
      → In x ms
      → get_last? (take n ms) ≡ some last
      → key x < key last
      → In x (take n ms)
  In-take key zero x last ms s m e h = cc
  In-take key (suc n) x last [] s m l h = absurd m
  In-take key (suc n) x last (y ∷ ys) s (inl e) l h = inl e
  In-take key (suc n) x last (y ∷ ys) s (inr m) l h = elim (Option-cases (get_last? (take n ys))) [
    | inl e ↦
        let none_left : take n ys ≡ [] = get_last_none (take n ys) e in
        let same : y ≡ last = ground (arith, rw none_left at l) in
        let newer : key y ≤ key x = All-In (λ k. key y ≤ key k) x ys s.0 m in
        let older : key x < key y = rw same h in absurd (omega (arith, newer, older))
    | inr (k, e) ↦
        let same : k ≡ last = ground (arith, get_last_cons y k (take n ys) e, l) in
        inr (In-take key n x last ys s.1 m (e ∙ ap some same) h)
  ]

  pub All-keep : (P : D → Type 0) (f : D → Bool) (ms : List D) → All P ms → All P (keep f ms)
  All-keep P f [] h = tt
  All-keep P f (m ∷ ms) h = elim (Bool-cases (f m)) [
    | inl e ↦ rw e (h.0, All-keep P f ms h.1)
    | inr e ↦ rw e (All-keep P f ms h.1)
  ]

  pub keep-IsSorted :
      (key : D → ℕ) (f : D → Bool) (ms : List D) → IsSorted key ms → IsSorted key (keep f ms)
  keep-IsSorted key f [] s = tt
  keep-IsSorted key f (m ∷ ms) s = elim (Bool-cases (f m)) [
    | inl e ↦ rw e (All-keep (λ k. key m ≤ key k) f ms s.0, keep-IsSorted key f ms s.1)
    | inr e ↦ rw e (keep-IsSorted key f ms s.1)
  ]

  pub In-keep :
      (f g : D → Bool) (x : D) (ms : List D)
      → (g x ≡ true → f x ≡ true)
      → In x (keep g ms)
      → (g x ≡ true) × In x (keep f ms)
  In-keep f g x [] h m = absurd m
  In-keep f g x (y ∷ ys) h m = elim (Bool-cases (g y)) [
    | inl e ↦
        let m' : In x (y ∷ keep g ys) = rw e at m in
        elim m' [
          | inl same ↦
              let t : g x ≡ true = ap g same ∙ e in (t, rw (sym (ap f same) ∙ h t) (inl same))
          | inr k ↦ step (In-keep f g x ys h k)
        ]
    | inr e ↦ step (In-keep f g x ys h (rw e at m))
  ]
    where
      step : (g x ≡ true) × In x (keep f ys) → (g x ≡ true) × In x (keep f (y ∷ ys))
      step (t, i) = (t, elim (Bool-cases (f y)) [ inl k ↦ rw k (inr i) | inr k ↦ rw k i ])

  pub In-In-take : (n : ℕ) (x : D) (ms : List D) → In x (take n ms) → In x ms
  In-In-take zero x ms m = absurd m
  In-In-take (suc n) x [] m = absurd m
  In-In-take (suc n) x (y ∷ ys) (inl e) = inl e
  In-In-take (suc n) x (y ∷ ys) (inr m) = inr (In-In-take n x ys m)

  pub take-take : (n : ℕ) (ms : List D) → take n (take (n + 1) ms) ≡ take n ms
  take-take zero ms = refl
  take-take (suc n) [] = ground arith
  take-take (suc n) (m ∷ ms) = ground (arith, take-take n ms)

  pub In-get_last : (ms : List D) (l : D) → get_last? ms ≡ some l → In l ms
  In-get_last [] l h = cc
  In-get_last (m ∷ []) l h = inl (ground (arith, h))
  In-get_last (m ∷ k ∷ ms) l h = inr (In-get_last (k ∷ ms) l h)

  pub take_all : (n : ℕ) (ms : List D) → length ms ≤ n → take n ms ≡ ms
  take_all zero [] h = refl
  take_all zero (m ∷ ms) h = absurd (omega (arith, h))
  take_all (suc n) [] h = refl
  take_all (suc n) (m ∷ ms) h = ap (◌∷◌ m) (take_all n ms (omega (arith, h)))

  pub keep_ext : (f g : D → Bool) (ms : List D) → ((m : D) → f m ≡ g m) → keep f ms ≡ keep g ms
  keep_ext f g [] h = refl
  keep_ext f g (m ∷ ms) h = ground (arith, h m, keep_ext f g ms h)

  pub keep_both :
      (f g k : D → Bool) (ms : List D)
      → ((m : D) → k m ≡ (f m && g m))
      → keep k ms ≡ keep g (keep f ms)
  keep_both f g k [] h = refl
  keep_both f g k (m ∷ ms) h = ground (arith, h m, keep_both f g k ms h)

  pub All-drop : (P : D → Type 0) (n : ℕ) (ms : List D) → All P ms → All P (drop n ms)
  All-drop P zero ms h = h
  All-drop P (suc n) [] h = tt
  All-drop P (suc n) (m ∷ ms) h = All-drop P n ms h.1
