-- ===== src/Mailbox/Create/Generated.antt =====
-- The local parts that Create generates.
use mailwisp.Common.{
  ℕ, zero, suc, ◌+◌, ◌*◌, ◌/◌, ◌%◌, ◌<◌, ◌≡◌, refl, ◌∙◌, ap, Bool, true, false, not, ◌&&◌, ◌||◌, [],
  ◌∷◌, ◌++◌, Bytes, is_digit, has_double_dot, length, take, All, all, leb, ◌==◌, arith,
}
use mailwisp.Encoding.Hex.{IsByte}
use mailwisp.Encoding.Base32.{base32_digit, base32_block, base32_lower}
use mailwisp.Message.Address.{is_separator, is_local_char, local_chars, valid_inbox_local_part}

-- A small letter or a digit
abbrev is_plain : ℕ → Bool
is_plain c = (leb 97 c && leb c 122) || (leb 48 c && leb c 57)

few : 0 < 256
few = omega arith

plain_digit : (v : ℕ) → v < 32 → is_plain (base32_digit v) ≡ true
unfolding base32_digit
plain_digit v h = ground arith

plain_local :
    (c : ℕ)
    → is_plain c ≡ true
    → (is_local_char c ≡ true) × (is_separator c ≡ false) × ((c == b'.') ≡ false)
unfolding is_local_char is_digit is_separator
plain_local c h = (ground arith, ground arith, ground arith)

plain_block :
    (a b c d e : ℕ)
    → a < 256
    → b < 256
    → c < 256
    → d < 256
    → e < 256
    → all is_plain (base32_block a b c d e) ≡ true
unfolding base32_block
plain_block a b c d e ha hb hc hd he =
    rw
      (
        plain_digit (a / 8) (omega arith),
        plain_digit (a % 8 * 4 + b / 64) (omega arith),
        plain_digit (b / 2 % 32) (omega arith),
        plain_digit (b % 2 * 16 + c / 16) (omega arith),
        plain_digit (c % 16 * 2 + d / 128) (omega arith),
        plain_digit (d / 4 % 32) (omega arith),
        plain_digit (d % 4 * 8 + e / 32) (omega arith),
        plain_digit (e % 32) (omega arith),
      )
      refl

passes : (b : Bool) → (not (b && false) && true) ≡ true
passes true = refl
passes false = refl

local_chars-plain : (first : Bool) (s : Bytes) → all is_plain s ≡ true → local_chars first s ≡ true
unfolding local_chars
local_chars-plain first [] h = refl
local_chars-plain first (c ∷ s) h =
    let plain : is_plain c ≡ true = ground arith in
    let (local, no_separator, _) = plain_local c plain in
    rw (local, no_separator, local_chars-plain false s (ground arith))
      (passes (first || length s == 0))

has_double_dot-plain : (s : Bytes) → all is_plain s ≡ true → has_double_dot s ≡ false
unfolding has_double_dot
has_double_dot-plain [] h = refl
has_double_dot-plain (c ∷ []) h = refl
has_double_dot-plain (c ∷ d ∷ s) h =
    let plain : is_plain c ≡ true = ground arith in
    let (_, _, no_dot) = plain_local c plain in
    rw (no_dot, has_double_dot-plain (d ∷ s) (ground arith)) refl

all-append : (p : ℕ → Bool) (s t : Bytes) → all p s ≡ true → all p t ≡ true → all p (s ++ t) ≡ true
all-append p [] t h k = k
all-append p (c ∷ s) t h k =
    let first : p c ≡ true = ground arith in rw (first, all-append p s t (ground arith) k) refl

all-take : (p : ℕ → Bool) (n : ℕ) (s : Bytes) → all p s ≡ true → all p (take n s) ≡ true
all-take p zero s h = refl
all-take p (suc n) [] h = refl
all-take p (suc n) (c ∷ s) h =
    let first : p c ≡ true = ground arith in rw (first, all-take p n s (ground arith)) refl

base32_lower-plain : (s : Bytes) → All IsByte s → all is_plain (base32_lower s) ≡ true
unfolding base32_lower
base32_lower-plain [] h = refl
base32_lower-plain (a ∷ []) h =
    all-take is_plain 2 (base32_block a 0 0 0 0) (plain_block a 0 0 0 0 h.0 few few few few)
base32_lower-plain (a ∷ b ∷ []) h =
    all-take is_plain 4 (base32_block a b 0 0 0) (plain_block a b 0 0 0 h.0 h.1.0 few few few)
base32_lower-plain (a ∷ b ∷ c ∷ []) h =
    all-take is_plain 5 (base32_block a b c 0 0) (plain_block a b c 0 0 h.0 h.1.0 h.1.1.0 few few)
base32_lower-plain (a ∷ b ∷ c ∷ d ∷ []) h =
    all-take is_plain 7 (base32_block a b c d 0)
      (plain_block a b c d 0 h.0 h.1.0 h.1.1.0 h.1.1.1.0 few)
base32_lower-plain (a ∷ b ∷ c ∷ d ∷ e ∷ s) h =
    all-append is_plain (base32_block a b c d e) (base32_lower s)
      (plain_block a b c d e h.0 h.1.0 h.1.1.0 h.1.1.1.0 h.1.1.1.1.0)
      (base32_lower-plain s h.1.1.1.1.1)

length-base32_lower : (s : Bytes) → length (base32_lower s) ≡ (8 * length s + 4) / 5
unfolding base32_lower base32_block
length-base32_lower [] = refl
length-base32_lower (a ∷ []) = refl
length-base32_lower (a ∷ b ∷ []) = refl
length-base32_lower (a ∷ b ∷ c ∷ []) = refl
length-base32_lower (a ∷ b ∷ c ∷ d ∷ []) = refl
length-base32_lower (a ∷ b ∷ c ∷ d ∷ e ∷ s) = omega (arith, length-base32_lower s)

-- Whatever 12 bytes are drawn, what Create makes of them is a valid local part, of 20 characters.
pub base32_lower-valid :
    (s : Bytes)
    → length s ≡ 12
    → All IsByte s
    → (valid_inbox_local_part (base32_lower s) ≡ true) × (length (base32_lower s) ≡ 20)
unfolding valid_inbox_local_part
base32_lower-valid s l h =
    let twenty = length-base32_lower s ∙ ap (λ n. (8 * n + 4) / 5) l in
    (
      rw
          (
            twenty,
            local_chars-plain true (base32_lower s) (base32_lower-plain s h),
            has_double_dot-plain (base32_lower s) (base32_lower-plain s h),
          )
          refl,
      twenty,
    )
