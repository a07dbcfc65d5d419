-- ===== src/Tests/Mailbox.antt =====
-- Examples for message lists.
use mailwisp.Common.{
  ℕ, ◌≤◌, ◌≡◌, refl, false, none, some, List, [], ◌∷◌, Bytes, codes, pos, Result, ok, take, arith,
}
use mailwisp.Mailbox.Messages.{MessageSummary, Page, MessagePage, page_limit, list_messages}
use mailwisp.Mailbox.Messages.Paging.{IsPage, list_messages-IsPage}

abbrev summary : ℕ → MessageSummary
summary t = record {
  id = t ∷ [];
  envelope_sender = [];
  subject = [];
  preview = [];
  received_at = t;
  parse_status = codes "parsed";
  size_bytes = pos 9;
  has_attachments = false;
  seen = false;
}

-- Three messages, listed from the newest whatever the cursor.
abbrev three : List MessageSummary
three = summary 9 ∷ summary 8 ∷ summary 7 ∷ []

abbrev listed : List MessageSummary → Bytes → Page → List MessageSummary × Result MessagePage
listed ms id page = (ms, ok (record { items = take page.limit ms; total = 3; unread = 3 }))

items_of :
    (ms : List MessageSummary) (found : MessagePage)
    → ok (record { items = ms; total = 3; unread = 3 }) ≡ ok found
    → found.items ≡ ms
items_of ms found e = ground arith

list_messages-IsPage_example :
    IsPage 2 three (record {
      items = summary 9 ∷ summary 8 ∷ [];
      next = some (record { received_at = 8; id = 8 ∷ [] });
    })
    × (1 ≤ 2)
    × (2 ≤ 100)
unfolding page_limit list_messages
list_messages-IsPage_example =
    list_messages-IsPage listed (λ ms id before. ms) three []
      (record { limit = pos 2; before = none })
      (record {
        items = summary 9 ∷ summary 8 ∷ [];
        next = some (record { received_at = 8; id = 8 ∷ [] });
      })
      (λ ms id page found at e. items_of (take page.limit ms) found e) refl
