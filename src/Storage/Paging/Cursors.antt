-- ===== src/Storage/Paging/Cursors.antt =====
-- One page: its documents and its cursor.
use chat_gateway.Prelude.{
  ℕ, ◌*◌, ◌/◌, ◌≡◌, refl, inl, inr, some, true, List, [], length, take, get_last?, ltb, Bool-cases,
}
use chat_gateway.Prelude.Text.{text_eq_of_ne}
use chat_gateway.Storage.Collection.{In}
use chat_gateway.Storage.Paging.{Rfc3339, second, process_pagination_result, cursor_time}
use chat_gateway.Storage.Paging.Order.{In-In-take}

pub cursor_time-format :
    (time : Rfc3339) (t : ℕ) → cursor_time time (time.format t) ≡ some (t / second * second)
unfolding cursor_time
cursor_time-format time t =
    rw (text_eq_of_ne (time.format t) [] (time.format_ne t)) (time.parse_format t)

module _ {D : Type 0} (key : D → ℕ) (time : Rfc3339) where
  pub page_In :
      (n : ℕ) (x : D) (ms : List D)
      → In x (process_pagination_result key time ms n).messages
      → In x ms
  unfolding process_pagination_result
  page_In n x ms m = elim (Bool-cases (ltb n (length ms))) [
    | inl e ↦ In-In-take n x ms (rw e at m)
    | inr e ↦ rw e at m
  ]

  pub full_page :
      (n : ℕ) (ms : List D)
      → (process_pagination_result key time ms n).has_more ≡ true
      → ((process_pagination_result key time ms n).messages ≡ take n ms)
        × ((last : D)
            → get_last? (take n ms) ≡ some last
            → (process_pagination_result key time ms n).next_cursor ≡ time.format (key last))
  unfolding process_pagination_result
  full_page n ms h = elim (Bool-cases (ltb n (length ms))) [
    | inl e ↦ rw e (refl, λ last k. rw k refl)
    | inr e ↦ let h' = rw e at h in cc
  ]
