-- ===== src/Prelude/Dict.antt =====
-- Go maps with string keys: association lists, in the order of insertion.
use mathlib.Core.Path.{◌≡◌, refl}
use mathlib.Core.Bool.{Bool, true, not, ◌&&◌}
use mathlib.Core.List.{List, [], ◌∷◌}
use mathlib.Core.Option.{Option, none, some}
use native.Mathlib.Omega.{arith}
use chat_gateway.Prelude.Tests.{if◌then◌else◌, Bool-cases}
use mathlib.Core.Logic.{inl, inr}
use chat_gateway.Prelude.Text.{Text, text_eq, text_eq_iff, text_eq_refl}

abbrev pub Dict {ℓ} : Type ℓ → Type ℓ
Dict V = List (Text × V)

module _ {ℓ} {V : Type ℓ} where
  unfoldable pub lookup : Text → Dict V → Option V
  lookup k [] = none
  lookup k ((j, v) ∷ d) = if text_eq j k then some v else lookup k d

  -- `d[k] = v`
  unfoldable pub insert : Text → V → Dict V → Dict V
  insert k v [] = (k, v) ∷ []
  insert k v ((j, w) ∷ d) = if text_eq j k then (k, v) ∷ d else (j, w) ∷ insert k v d

  -- `delete(d, k)`
  unfoldable pub delete : Text → Dict V → Dict V
  delete k [] = []
  delete k ((j, w) ∷ d) = if text_eq j k then delete k d else (j, w) ∷ delete k d

  -- A loop over `d` that deletes the entries whose value does not pass `p`.
  unfoldable pub retain : (Text → V → Bool) → Dict V → Dict V
  retain p [] = []
  retain p ((j, w) ∷ d) = if p j w then (j, w) ∷ retain p d else retain p d

  pub lookup-insert :
      (k j : Text) (v : V) (d : Dict V)
      → lookup j (insert k v d) ≡ (if text_eq k j then some v else lookup j d)
  unfolding lookup insert
  lookup-insert k j v [] = refl
  lookup-insert k j v ((i, w) ∷ d) =
      ground (arith, text_eq_iff k j, text_eq_iff i k, text_eq_iff i j, lookup-insert k j v d)

  pub lookup-insert_self : (k : Text) (v : V) (d : Dict V) → lookup k (insert k v d) ≡ some v
  lookup-insert_self k v d = rw (lookup-insert k k v d, text_eq_refl k)

  pub lookup-delete :
      (k j : Text) (d : Dict V) → lookup j (delete k d) ≡ (if text_eq k j then none else lookup j d)
  unfolding lookup delete
  lookup-delete k j [] = ground arith
  lookup-delete k j ((i, w) ∷ d) =
      ground (arith, text_eq_iff k j, text_eq_iff i k, text_eq_iff i j, lookup-delete k j d)

-- Every key stands once, as in a Go map.
unfoldable pub fresh {ℓ} : {V : Type ℓ} → Text → Dict V → Bool
fresh k [] = true
fresh k ((j, v) ∷ d) = not (text_eq j k) && fresh k d

unfoldable pub distinct {ℓ} : {V : Type ℓ} → Dict V → Bool
distinct [] = true
distinct ((j, v) ∷ d) = fresh j d && distinct d

module _ {ℓ} {V : Type ℓ} where
  pub lookup-fresh : (k : Text) (d : Dict V) → fresh k d ≡ true → lookup k d ≡ none
  unfolding fresh lookup
  lookup-fresh k [] h = refl
  lookup-fresh k ((j, v) ∷ d) h = ground (arith, lookup-fresh k d)

  fresh-insert :
      (k j : Text) (v : V) (d : Dict V) → fresh j (insert k v d) ≡ not (text_eq k j) && fresh j d
  unfolding fresh insert
  fresh-insert k j v [] = refl
  fresh-insert k j v ((i, w) ∷ d) =
      ground (arith, text_eq_iff i k, text_eq_iff i j, text_eq_iff k j, fresh-insert k j v d)

  pub distinct-insert :
      (k : Text) (v : V) (d : Dict V) → distinct d ≡ true → distinct (insert k v d) ≡ true
  unfolding fresh distinct insert
  distinct-insert k v [] h = refl
  distinct-insert k v ((i, w) ∷ d) h =
      ground (arith, text_eq_iff i k, text_eq_iff k i, fresh-insert k i v d, distinct-insert k v d)

  fresh-delete : (k j : Text) (d : Dict V) → fresh j d ≡ true → fresh j (delete k d) ≡ true
  unfolding fresh delete
  fresh-delete k j [] h = refl
  fresh-delete k j ((i, w) ∷ d) h = ground (arith, fresh-delete k j d)

  pub distinct-delete : (k : Text) (d : Dict V) → distinct d ≡ true → distinct (delete k d) ≡ true
  unfolding distinct delete
  distinct-delete k [] h = refl
  distinct-delete k ((i, w) ∷ d) h = ground (arith, fresh-delete k i d, distinct-delete k d)

  fresh-retain :
      (p : Text → V → Bool) (k : Text) (d : Dict V) → fresh k d ≡ true → fresh k (retain p d) ≡ true
  unfolding fresh retain
  fresh-retain p k [] h = refl
  fresh-retain p k ((i, w) ∷ d) h = ground (arith, fresh-retain p k d)

  pub distinct-retain :
      (p : Text → V → Bool) (d : Dict V) → distinct d ≡ true → distinct (retain p d) ≡ true
  unfolding distinct retain
  distinct-retain p [] h = refl
  distinct-retain p ((i, w) ∷ d) h = ground (arith, fresh-retain p i d, distinct-retain p d)

  -- The entry that a filtering loop leaves at a key.
  abbrev pub passed : (Text → V → Bool) → Text → Option V → Option V
  passed p k none = none
  passed p k (some v) = if p k v then some v else none

  pub lookup-retain :
      (p : Text → V → Bool) (k : Text) (d : Dict V)
      → distinct d ≡ true
      → lookup k (retain p d) ≡ passed p k (lookup k d)
  unfolding distinct retain lookup
  lookup-retain p k [] h = refl
  lookup-retain p k ((i, w) ∷ d) h = elim (Bool-cases (text_eq i k)) [
    | inl e ↦
        let same : i ≡ k = (text_eq_iff i k).0 e in
        ground (arith, same, fresh-retain p i d, lookup-fresh k (retain p d), lookup-retain p k d)
    | inr e ↦ ground (arith, e, lookup-retain p k d)
  ]
