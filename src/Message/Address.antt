-- ===== src/Message/Address.antt =====
-- internal/message/address.go
pub mod Ingress
use mailwisp.Common.{
  ℕ, ◌≡◌, refl, Bool, true, false, not, ◌&&◌, ◌||◌, [], ◌∷◌, Bytes, codes, is_digit, has_double_dot,
  length, ltb, leb, ◌==◌,
}

-- One of `.`, `_` and `-`.
unfoldable pub is_separator : ℕ → Bool
is_separator c = c == b'.' || c == b'_' || c == b'-'

unfoldable pub is_local_char : ℕ → Bool
unfolding is_digit is_separator
is_local_char c = (leb b'a' c && leb c b'z') || is_digit c || is_separator c

-- The first loop of ValidInboxLocalPart; `first` is index == 0.
unfoldable pub local_chars : Bool → Bytes → Bool
unfolding is_local_char is_separator
local_chars first [] = true
local_chars first (c ∷ s) =
    is_local_char c && not ((first || length s == 0) && is_separator c) && local_chars false s

unfoldable pub valid_inbox_local_part : Bytes → Bool
unfolding local_chars has_double_dot
valid_inbox_local_part s =
    not (ltb (length s) 1 || ltb 64 (length s)) && local_chars true s && not (has_double_dot s)

dotted : valid_inbox_local_part (codes "valid.name_1-test") ≡ true
unfolding valid_inbox_local_part
dotted = refl

trailing : valid_inbox_local_part (codes "trailing-") ≡ false
unfolding valid_inbox_local_part
trailing = refl
