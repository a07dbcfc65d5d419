-- ===== src/Mailbox/Messages/Paging.antt =====
-- The pages of ListMessages.
use mailwisp.Common.{
  ℕ, zero, suc, ◌+◌, ◌≤◌, ◌≡◌, refl, sym, ◌∙◌, ap, subst, inl, inr, true, false, Option, none, List,
  [], ◌∷◌, Bytes, ℤ, pos, negsuc, Result, ok, err, length, length-take, take, ltb, if◌then◌else◌,
  Bool-cases, arith,
}
use mailwisp.Mailbox.Messages.{
  MessageSummary, MessageCursor, CursorPage, CursorMessagePage, Page, MessagePage, page_limit,
  valid_cursor, last_cursor, cut_page, cut_listed, list_messages,
}

page_limit-le : (n : ℤ) → (1 ≤ page_limit n) × (page_limit n ≤ 100)
unfolding page_limit
page_limit-le (negsuc n) = omega arith
page_limit-le (pos n) = ground arith

-- A page of `limit` items at most of a list, with a cursor if and only if the list goes on behind it.
pub record IsPage (limit : ℕ) (all : List MessageSummary) (page : CursorMessagePage) : Type 0 where
  pub first_items : page.items ≡ take limit all
  pub next_if_more :
      page.next ≡ (if ltb limit (length all) then last_cursor (take limit all) else none)

take-take : (n : ℕ) (xs : List MessageSummary) → take n (take (suc n) xs) ≡ take n xs
take-take zero xs = refl
take-take (suc n) [] = refl
take-take (suc n) (x ∷ xs) = ap (λ ys. x ∷ ys) (take-take n xs)

take_all : (n : ℕ) (xs : List MessageSummary) → length xs ≤ n → take n xs ≡ xs
take_all zero [] h = refl
take_all zero (x ∷ xs) h = absurd (omega arith)
take_all (suc n) [] h = refl
take_all (suc n) (x ∷ xs) h = ap (λ ys. x ∷ ys) (take_all n xs (omega arith))

cut_page-IsPage :
    (limit : ℕ) (all : List MessageSummary)
    → IsPage limit all (cut_page limit (take (suc limit) all))
unfolding cut_page
cut_page-IsPage limit all = elim (Bool-cases (ltb limit (length (take (suc limit) all)))) [
  | inl more ↦ rw more (record {
    first_items = take-take limit all;
    next_if_more = rw (long_of more, take-take limit all) refl;
  })
  | inr over ↦
      let short : length all ≤ limit = ground (arith, length-take (suc limit) all) in
      rw over (record {
        first_items = take_all (suc limit) all (omega arith) ∙ sym (take_all limit all short);
        next_if_more = rw (short_of short) refl;
      })
]
  where
    long_of : ltb limit (length (take (suc limit) all)) ≡ true → ltb limit (length all) ≡ true
    long_of more = ground (arith, length-take (suc limit) all)

    short_of : length all ≤ limit → ltb limit (length all) ≡ false
    short_of short = ground arith

module _ {W : Type 0} (list : W → Bytes → Page → W × Result MessagePage)
    (behind : W → Bytes → Option MessageCursor → List MessageSummary) where
  -- The repository returns the first messages of those behind the cursor.
  abbrev pub ListsFirst : Type 0
  ListsFirst =
      (w : W) (inbox_id : Bytes) (page : Page) (found : MessagePage)
      → page.offset ≡ 0
      → (list w inbox_id page).1 ≡ ok found
      → found.items ≡ take page.limit (behind w inbox_id page.before)

  cut_listed-IsPage :
      (limit : ℕ) (all : List MessageSummary) (p : W × Result MessagePage)
      (result : CursorMessagePage)
      → ((found : MessagePage) → p.1 ≡ ok found → found.items ≡ take (limit + 1) all)
      → (cut_listed list limit p).1 ≡ ok result
      → IsPage limit all result
  unfolding cut_listed
  cut_listed-IsPage limit all (w, err e) result first h = absurd (ground arith)
  cut_listed-IsPage limit all (w, ok found) result first h =
      let one_more : limit + 1 ≡ suc limit = omega arith in
      let items = first found refl ∙ ap (λ n. take n all) one_more in
      let same : cut_page limit found.items ≡ result = ground arith in
      subst (IsPage limit all) (ap (cut_page limit) (sym items) ∙ same) (cut_page-IsPage limit all)

  -- ListMessages over a repository that returns the first messages behind a cursor: a page has the first messages
  -- behind the request's cursor, between one and a hundred at most as the request says, and a cursor at its last
  -- item if and only if there are more.
  pub list_messages-IsPage :
      (w : W) (inbox_id : Bytes) (request : CursorPage) (result : CursorMessagePage)
      → ListsFirst
      → (list_messages list w inbox_id request).1 ≡ ok result
      → IsPage (page_limit request.limit) (behind w inbox_id request.before) result
        × (1 ≤ page_limit request.limit)
        × (page_limit request.limit ≤ 100)
  unfolding list_messages
  list_messages-IsPage w inbox_id request result first h =
      elim (Bool-cases (valid_cursor request.before)) [
        | inr bad ↦ absurd (ground arith)
        | inl good ↦ (
          cut_listed-IsPage (page_limit request.limit) (behind w inbox_id request.before) _ result
              (λ found. first w inbox_id _ found refl) (rw good at h),
          (page_limit-le request.limit).0,
          (page_limit-le request.limit).1,
        )
      ]
