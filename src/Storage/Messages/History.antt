-- ===== src/Storage/Messages/History.antt =====
-- message.go, `GetHistoryMessages`: the page that follows a page.
use chat_gateway.Prelude.{
  ℕ, ◌+◌, ◌<◌, ◌≡◌, ◌∙◌, sym, ap, subst, inl, inr, Option, some, true, List, [], take, keep,
  get_last?, All, Option-cases, arith,
}
use chat_gateway.Prelude.Text.{text_eq, Text}
use chat_gateway.Storage.Collection.{In}
use chat_gateway.Storage.Paging.{Rfc3339, Page, page_of, process_pagination_result, cursor_time}
use chat_gateway.Storage.Paging.Order.{
  All-of, In-take, keep-IsSorted, In-keep, In-In-take, take-take,
}
use chat_gateway.Storage.Paging.Cursors.{cursor_time-format, page_In, full_page}
use chat_gateway.Storage.Messages.{
  Message, MessageView, Limits, created, history_filter, get_history_messages, history_limit,
}

module _ (time : Rfc3339) (cfg : Option Limits) (c : MessageView) (room : Text) where
  -- The cursor of a page selects messages of the room that are older than its last one.
  cursor_filter :
      (t : ℕ) (x : Message)
      → history_filter time cfg c room (time.format t) x ≡ true
      → (history_filter time cfg c room [] x ≡ true) × (x.created_at < t)
  unfolding history_filter cursor_time text_eq
  cursor_filter t x h =
      let h' = rw (cursor_time-format time t, history_filter) at h in
      (ground (arith, h'), ground (arith, h'))

  queried :
      (n : ℕ) (cursor : Text) (page : Page Message)
      → page_of created time n (c.find_up (history_filter time cfg c room cursor) (n + 1))
        ≡ some page
      → page
        ≡ process_pagination_result created time
            (take (n + 1) (keep (history_filter time cfg c room cursor) c.documents))
            n
  queried n cursor page h =
      elim (Option-cases (c.find_up (history_filter time cfg c room cursor) (n + 1))) [
        | inl e ↦ let h' = rw e at h in absurd ground arith
        | inr (ms, e) ↦
            let h' = rw e at h in
            let same : process_pagination_result created time ms n ≡ page = ground (arith, h') in
            sym same
            ∙ ap (λ (xs : List Message). process_pagination_result created time xs n)
                (c.found_up _ _ ms e)
      ]

  -- A history is sorted from old to new, but its cursor asks for older messages. So if a first page
  -- has a next one, that page, where the query for it answers, holds no message that was not on the
  -- first page.
  pub get_history_messages-again :
      (limit : ℕ) (page next : Page Message) (last : Message)
      → get_history_messages time cfg c room limit [] ≡ some page
      → page.has_more ≡ true
      → get_last? page.messages ≡ some last
      → get_history_messages time cfg c room limit page.next_cursor ≡ some next
      → All (λ m. In m page.messages) next.messages
  unfolding get_history_messages
  get_history_messages-again limit page next last h more l h' =
      let n : ℕ = history_limit cfg limit in
      let first : List Message = keep (history_filter time cfg c room []) c.documents in
      let e = queried n [] page h in
      let (cut, cursor) =
        full_page created time n (take (n + 1) first)
          (sym (ap (λ (p : Page Message). p.has_more) e) ∙ more) in
      let shown : page.messages ≡ take n first =
        ap (λ (p : Page Message). p.messages) e ∙ cut ∙ take-take n first in
      let last_one : get_last? (take n first) ≡ some last = sym (ap get_last? shown) ∙ l in
      let next_cursor : page.next_cursor ≡ time.format last.created_at =
        ap (λ (p : Page Message). p.next_cursor) e
        ∙ cursor last (ap get_last? (take-take n first) ∙ last_one) in
      let e' = queried n (time.format last.created_at) next (rw next_cursor at h') in
      All-of next.messages (λ x m.
        let m' : In x
            (process_pagination_result created time
              (take (n + 1)
                (keep (history_filter time cfg c room (time.format last.created_at)) c.documents))
              n).messages =
          subst (λ (p : Page Message). In x p.messages) e' m in
        let stands = In-In-take (n + 1) x _ (page_In created time n x _ m') in
        let (selected, old) =
          In-keep (history_filter time cfg c room [])
            (history_filter time cfg c room (time.format last.created_at)) x c.documents
            (λ t. (cursor_filter last.created_at x t).0) stands in
        subst (λ (ms : List Message). In x ms) (sym shown)
          (In-take created n x last first (keep-IsSorted created _ c.documents c.sorted) old
            last_one (cursor_filter last.created_at x selected).1))
