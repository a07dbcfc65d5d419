-- ===== src/Mailbox/Messages.antt =====
-- The message lists of internal/mailbox/service.go, over a repository.
pub mod Paging
use mailwisp.Common.{
  ℕ, zero, suc, ◌+◌, ◌≡◌, refl, Bool, true, false, not, ◌&&◌, ◌||◌, Option, none, some, List, [],
  ◌∷◌, Bytes, codes, ℤ, pos, negsuc, Error, text, Result, ok, err, length, take, ltb, ◌==◌,
  if◌then◌else◌,
}

pub record MessageSummary : Type 0 where
  pub id : Bytes
  pub envelope_sender : Bytes
  pub subject : Bytes
  pub preview : Bytes
  pub received_at : ℕ
  pub parse_status : Bytes
  pub size_bytes : ℤ
  pub has_attachments : Bool
  pub seen : Bool

pub record MessageCursor : Type 0 where
  pub received_at : ℕ
  pub id : Bytes

pub record CursorPage : Type 0 where
  pub limit : ℤ
  pub before : Option MessageCursor

pub record CursorMessagePage : Type 0 where
  pub items : List MessageSummary
  pub next : Option MessageCursor

pub record Page : Type 0 where
  pub limit : ℕ
  pub offset : ℕ
  pub before : Option MessageCursor

pub record MessagePage : Type 0 where
  pub items : List MessageSummary
  pub total : ℕ
  pub unread : ℕ

-- The limit of ListMessages: 50 by default, at most 100.
unfoldable pub page_limit : ℤ → ℕ
page_limit (negsuc n) = 50
page_limit (pos n) = if n == 0 then 50 else if ltb 100 n then 100 else n

unfoldable pub valid_cursor : Option MessageCursor → Bool
valid_cursor none = true
valid_cursor (some c) = not (length c.id == 0 || c.received_at == 0)

-- The cursor of the last item
unfoldable pub last_cursor : List MessageSummary → Option MessageCursor
last_cursor [] = none
last_cursor (m ∷ []) = some (record { received_at = m.received_at; id = m.id })
last_cursor (m ∷ m' ∷ ms) = last_cursor (m' ∷ ms)

-- ListMessages with what the repository returned for one item more than the limit.
unfoldable pub cut_page : ℕ → List MessageSummary → CursorMessagePage
unfolding last_cursor
cut_page limit items =
    if ltb limit (length items)
    then record { items = take limit items; next = last_cursor (take limit items) }
    else record { items = items; next = none }

abbrev pub invalid_cursor : Error
invalid_cursor = text (codes "message cursor is invalid")

module _ {W : Type 0} (list : W → Bytes → Page → W × Result MessagePage) where
  unfoldable pub cut_listed : ℕ → W × Result MessagePage → W × Result CursorMessagePage
  unfolding cut_page
  cut_listed limit (w, err e) = (w, err e)
  cut_listed limit (w, ok page) = (w, ok (cut_page limit page.items))

  -- ListMessages
  unfoldable pub list_messages : W → Bytes → CursorPage → W × Result CursorMessagePage
  unfolding page_limit valid_cursor cut_listed
  list_messages w inbox_id request =
      if not (valid_cursor request.before)
      then (w, err invalid_cursor)
      else cut_listed (page_limit request.limit) (
          list w inbox_id
            (record { limit = page_limit request.limit + 1; offset = 0; before = request.before }))

  -- ListMessagePage
  unfoldable pub list_message_page : W → Bytes → ℤ → ℤ → W × Result MessagePage
  list_message_page w inbox_id (negsuc n) offset = (w, err (text (codes "message page is invalid")))
  list_message_page w inbox_id (pos n) (negsuc m) =
      (w, err (text (codes "message page is invalid")))
  list_message_page w inbox_id (pos n) (pos m) =
      if n == 0 || ltb 200 n
      then (w, err (text (codes "message page is invalid")))
      else list w inbox_id (record { limit = n; offset = m; before = none })
