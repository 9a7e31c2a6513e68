-- ===== src/Storage/Paging.antt =====
-- Pages of documents, as the repositories of internal/storage/database/chatroom make them: the query
-- asks for one document more than the limit, and the cursor is a time as an RFC 3339 text, which keeps
-- whole seconds. What the server holds and the order of its answers are a record with their documented
-- laws; `key` is the time that a query sorts by.
pub mod Order
pub mod Cursors
pub mod Walk
use mathlib.Core.List.{reverse}
use chat_gateway.Prelude.{
  ℕ, ◌*◌, ◌/◌, ◌+◌, ◌≤◌, ◌≡◌, ◌≢◌, Option, none, some, Bool, true, false, List, [], ◌∷◌, length,
  take, keep, get_last?, All, ltb, if◌then◌else◌,
}
use chat_gateway.Prelude.Text.{Text, text_eq}

abbrev pub second : ℕ
second = 1000000000

-- `time.Parse` and `Format` with `time.RFC3339`.
pub record Rfc3339 : Type 0 where
  pub format : ℕ → Text
  pub parse : Text → Option ℕ
  pub parse_format : (t : ℕ) → parse (format t) ≡ some (t / second * second)
  pub format_ne : (t : ℕ) → format t ≢ []

-- Oldest first.
abbrev pub IsSorted : {D : Type 0} → (D → ℕ) → List D → Type 0
IsSorted key [] = Unit
IsSorted key (m ∷ ms) = All (λ k. key m ≤ key k) ms × IsSorted key ms

-- What a collection holds at some moment, and `Find` with a limit, sorted by `key`, up or down.
pub record View (D : Type 0) (key : D → ℕ) : Type 0 where
  pub documents : List D
  pub sorted : IsSorted key documents
  pub find_up : (D → Bool) → ℕ → Option (List D)
  pub find_down : (D → Bool) → ℕ → Option (List D)
  pub found_up :
      (f : D → Bool) (n : ℕ) (ms : List D) → find_up f n ≡ some ms → ms ≡ take n (keep f documents)
  pub found_down :
      (f : D → Bool) (n : ℕ) (ms : List D)
      → find_down f n ≡ some ms
      → ms ≡ take n (keep f (reverse documents))

-- The time of a cursor, if it has one.
unfoldable pub cursor_time : Rfc3339 → Text → Option ℕ
cursor_time time cursor = if text_eq cursor [] then none else time.parse cursor

pub record Page (D : Type 0) : Type 0 where
  pub messages : List D
  pub next_cursor : Text
  pub has_more : Bool

module _ {D : Type 0} (key : D → ℕ) where
  abbrev pub before : ℕ → D → Bool
  before t m = ltb (key m) t

  abbrev cursor_of : Rfc3339 → Option D → Text
  cursor_of time none = []
  cursor_of time (some m) = time.format (key m)

  -- One document more than the limit was asked for.
  unfoldable pub process_pagination_result : Rfc3339 → List D → ℕ → Page D
  process_pagination_result time messages limit =
      if ltb limit (length messages)
      then record {
        messages = take limit messages;
        next_cursor = cursor_of time (get_last? (take limit messages));
        has_more = true;
      }
      else record { messages = messages; next_cursor = []; has_more = false }

  abbrev pub page_of : Rfc3339 → ℕ → Option (List D) → Option (Page D)
  page_of time limit none = none
  page_of time limit (some ms) = some (process_pagination_result time ms limit)
