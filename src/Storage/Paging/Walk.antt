-- ===== src/Storage/Paging/Walk.antt =====
-- A client that asks for page after page, each with the cursor of the one before.
use mathlib.Core.List.{reverse}
use chat_gateway.Prelude.{
  ℕ, zero, suc, ◌*◌, ◌/◌, ◌+◌, ◌<◌, ◌≡◌, ◌∙◌, sym, ap, subst, refl, inl, inr, Option, none, some,
  Bool, true, false, ◌&&◌, List, [], ◌∷◌, ◌++◌, length, take, drop, keep, get_last?, All, ltb,
  if◌then◌else◌, Bool-cases, Option-cases, take-append-drop, length-drop, length-take, arith,
}
use chat_gateway.Prelude.Text.{Text}
use chat_gateway.Storage.Paging.{
  Rfc3339, View, Page, second, before, process_pagination_result, page_of,
}
use chat_gateway.Storage.Collection.{In}
use chat_gateway.Storage.Paging.Order.{
  In-keep, All-In, In-get_last, get_last_none, get_last_cons, take_all, take-take, keep_ext,
  keep_both, In-In-take,
}

-- All pages from a cursor on, put together; `none` where a query fails or the fuel runs out.
unfoldable pub walk : {D : Type 0} → (Text → Option (Page D)) → ℕ → Text → Option (List D)
walk fetch zero cursor = none
walk fetch (suc fuel) cursor = elim (fetch cursor) [
  | none ↦ none
  | some page ↦
      if page.has_more
      then elim (walk fetch fuel page.next_cursor) [
        | none ↦ none
        | some rest ↦ some (page.messages ++ rest)
      ]
      else some page.messages
]

walk_more :
    {D : Type 0} (fetch : Text → Option (Page D)) (fuel : ℕ) (cursor : Text) (page : Page D)
    (rest : List D)
    → fetch cursor ≡ some page
    → page.has_more ≡ true
    → walk fetch fuel page.next_cursor ≡ some rest
    → walk fetch (suc fuel) cursor ≡ some (page.messages ++ rest)
unfolding walk
walk_more fetch fuel cursor page rest e more h = rw (e, walk) (rw (more, h, walk) refl)

walk_end :
    {D : Type 0} (fetch : Text → Option (Page D)) (fuel : ℕ) (cursor : Text) (page : Page D)
    → fetch cursor ≡ some page
    → page.has_more ≡ false
    → walk fetch (suc fuel) cursor ≡ some page.messages
unfolding walk
walk_end fetch fuel cursor page e done = rw (e, walk) (rw (done, walk) refl)

abbrev pub text_at : Rfc3339 → Option ℕ → Text
text_at time none = []
text_at time (some t) = time.format t

-- What the cursor of a time leaves of a filter.
abbrev pub after : {D : Type 0} → (D → ℕ) → (D → Bool) → Option ℕ → D → Bool
after key f none m = f m
after key f (some t) m = f m && before key (t / second * second) m

module _ {D : Type 0} (key : D → ℕ) where
  -- Newest first, and no two within one second.
  abbrev pub IsApart : List D → Type 0
  IsApart [] = Unit
  IsApart (m ∷ ms) = All (λ k. key k / second < key m / second) ms × IsApart ms

  IsApart-drop : (n : ℕ) (ms : List D) → IsApart ms → IsApart (drop n ms)
  IsApart-drop zero ms s = s
  IsApart-drop (suc n) [] s = tt
  IsApart-drop (suc n) (m ∷ ms) s = IsApart-drop n ms s.1

  -- The time that the cursor of a document keeps.
  abbrev cut : D → ℕ
  cut m = key m / second * second

  keep-earlier :
      (m : D) (ms : List D)
      → All (λ k. key k / second < key m / second) ms
      → keep (before key (cut m)) ms ≡ ms
  keep-earlier m [] h = refl
  keep-earlier m (k ∷ ms) h = ground (arith, h.0, keep-earlier m ms h.1)

  -- The documents before the second of the last one of a page are those that follow the page.
  keep-before :
      (n : ℕ) (last : D) (ms : List D)
      → IsApart ms
      → get_last? (take n ms) ≡ some last
      → keep (before key (cut last)) ms ≡ drop n ms
  keep-before zero last ms s h = cc
  keep-before (suc n) last [] s h = cc
  keep-before (suc n) last (y ∷ ys) s h = elim (Option-cases (get_last? (take n ys))) [
    | inl e ↦
        let none_left : take n ys ≡ [] = get_last_none (take n ys) e in
        let same : y ≡ last = ground (arith, rw none_left at h) in
        let rest : ys ≡ drop n ys =
          sym (take-append-drop n ys) ∙ ap (λ (p : List D). p ++ drop n ys) none_left in
        let all : keep (before key (cut y)) ys ≡ ys = keep-earlier y ys s.0 in
        let dropped : keep (before key (cut y)) (y ∷ ys) ≡ drop n ys = ground (arith, all ∙ rest) in
        subst (λ (z : D). keep (before key (cut z)) (y ∷ ys) ≡ drop n ys) same dropped
    | inr (k, e) ↦
        let same : k ≡ last = ground (arith, get_last_cons y k (take n ys) e, h) in
        let older : key last / second < key y / second =
          All-In (λ k. key k / second < key y / second) last ys s.0
            (In-In-take n last ys (In-get_last (take n ys) last (e ∙ ap some same))) in
        ground (arith, older, keep-before n last ys s.1 (e ∙ ap some same))
  ]

  more_pages :
      (time : Rfc3339) (n : ℕ) (ms : List D) (last : D)
      → ltb n (length ms) ≡ true
      → get_last? (take n ms) ≡ some last
      → process_pagination_result key time (take (n + 1) ms) n
        ≡ record { messages = take n ms; next_cursor = time.format (key last); has_more = true }
  unfolding process_pagination_result
  more_pages time n ms last h l =
      let long : ltb n (length (take (n + 1) ms)) ≡ true =
        ground (arith, h, length-take (n + 1) ms) in
      rw (long, take-take n ms, l) refl

  last_page :
      (time : Rfc3339) (n : ℕ) (ms : List D)
      → ltb n (length ms) ≡ false
      → process_pagination_result key time (take (n + 1) ms) n
        ≡ record { messages = ms; next_cursor = []; has_more = false }
  unfolding process_pagination_result
  last_page time n ms h = rw (take_all (n + 1) ms (ground (arith, h)), h) refl

  last_exists :
      (n : ℕ) (ms : List D)
      → ltb (suc n) (length ms) ≡ true
      → (last : D) × (get_last? (take (suc n) ms) ≡ some last)
  last_exists n [] h = absurd (ground arith)
  last_exists n (m ∷ ms) h = elim (Option-cases (get_last? (take (suc n) (m ∷ ms)))) [
    | inl e ↦ let e' = get_last_none (take (suc n) (m ∷ ms)) e in cc
    | inr found ↦ found
  ]

  module _ (time : Rfc3339) (c : View D key) (filter : Text → D → Bool) (f : D → Bool) (n : ℕ) where
    abbrev fetch : Text → Option (Page D)
    fetch cursor = page_of key time (suc n) (c.find_down (filter cursor) (suc n + 1))

    next_after :
        (cursor : Option ℕ) (last m : D)
        → after key f cursor last ≡ true
        → after key f (some (key last)) m ≡ (after key f cursor m && before key (cut last) m)
    next_after none last m h = refl
    next_after (some t) last m h = ground (arith, h)

    selected :
        (cursor : Option ℕ) (last : D) (ms : List D)
        → keep (after key f cursor) (reverse c.documents) ≡ ms
        → In last ms
        → after key f cursor last ≡ true
    selected cursor last ms e i =
        (In-keep (after key f cursor) (after key f cursor) last (reverse c.documents) (λ h. h)
          (subst (λ (xs : List D). In last xs) (sym e) i)).0

    module _ (answers : (g : D → Bool) (k : ℕ) → (ms : List D) × (c.find_down g k ≡ some ms))
        (filters : (cursor : Option ℕ) (m : D)
          → filter (text_at time cursor) m ≡ after key f cursor m) where
      fetched :
          (cursor : Option ℕ) (ms : List D)
          → keep (after key f cursor) (reverse c.documents) ≡ ms
          → fetch (text_at time cursor)
            ≡ some (process_pagination_result key time (take (suc n + 1) ms) (suc n))
      fetched cursor ms e =
          let (found, answer) = answers (filter (text_at time cursor)) (suc n + 1) in
          let same : found ≡ take (suc n + 1) ms =
            c.found_down _ _ found answer
            ∙ ap (take (suc n + 1)) (keep_ext _ _ (reverse c.documents) (filters cursor) ∙ e) in
          rw (answer, same) refl

      walk_from :
          (fuel : ℕ) (cursor : Option ℕ) (ms : List D)
          → keep (after key f cursor) (reverse c.documents) ≡ ms
          → IsApart ms
          → length ms < fuel
          → walk fetch fuel (text_at time cursor) ≡ some ms
      unfolding walk
      walk_from zero cursor ms e s h = absurd (omega (arith, h))
      walk_from (suc fuel) cursor ms e s h = elim (Bool-cases (ltb (suc n) (length ms))) [
        | inl more ↦
            let (last, l) = last_exists n ms more in
            let rest : List D = drop (suc n) ms in
            let next : keep (after key f (some (key last))) (reverse c.documents) ≡ rest =
              keep_both (after key f cursor) (before key (cut last)) (after key f (some (key last)))
                (reverse c.documents)
                (λ m.
                  next_after cursor last m
                    (selected cursor last ms e (In-In-take (suc n) last ms (In-get_last _ last l))))
              ∙ ap (keep (before key (cut last))) e
              ∙ keep-before (suc n) last ms s l in
            walk_more fetch fuel (text_at time cursor)
              (record {
                messages = take (suc n) ms;
                next_cursor = time.format (key last);
                has_more = true;
              })
              rest (fetched cursor ms e ∙ ap some (more_pages time (suc n) ms last more l)) refl
              (walk_from fuel (some (key last)) rest next (IsApart-drop (suc n) ms s)
                (ground (arith, length-drop (suc n) ms, h, more)))
            ∙ ap some (take-append-drop (suc n) ms)
        | inr done ↦
            walk_end fetch fuel (text_at time cursor)
              (record { messages = ms; next_cursor = []; has_more = false })
              (fetched cursor ms e ∙ ap some (last_page time (suc n) ms done)) refl
      ]

      -- Page after page, each with the cursor of the one before, gives every document that the filter
      -- selects, newest first and each once, as long as the server answers and no two of them have
      -- times within one second. One step more than there are documents is enough.
      pub walk_complete :
          (fuel : ℕ)
          → IsApart (keep f (reverse c.documents))
          → length (keep f (reverse c.documents)) < fuel
          → walk fetch fuel [] ≡ some (keep f (reverse c.documents))
      walk_complete fuel s h = walk_from fuel none (keep f (reverse c.documents)) refl s h
