-- ===== src/Message/Address/Ingress.antt =====
-- ValidInboxLocalPart against the LMTP ingress: what can be created can be received.
use mailwisp.Common.{
  ℕ, ◌+◌, ◌≤◌, ◌≡◌, refl, ◌≢◌, Bool, true, false, [], ◌∷◌, ◌++◌, Bytes, codes, lower, has_prefix,
  cut, to_lower, has_double_dot, ok, length, length-append, All, arith,
}
use mailwisp.Lmtp.Command.{
  is_address_char, all_address_chars, count_byte, ends_with_dot, canonical_address,
}
use mailwisp.Message.Address.{is_local_char, local_chars, valid_inbox_local_part}

-- A character that canonicalAddress takes and keeps, other than `@`.
abbrev pub IsPlain : ℕ → Type 0
IsPlain c = (is_address_char c ≡ true) × (lower c ≡ c) × (c ≢ b'@')

is_local_char-IsPlain : (c : ℕ) → is_local_char c ≡ true → IsPlain c
unfolding is_local_char is_address_char lower
is_local_char-IsPlain c h = ground arith

local_chars-IsPlain : (first : Bool) (s : Bytes) → local_chars first s ≡ true → All IsPlain s
unfolding local_chars
local_chars-IsPlain first [] h = tt
local_chars-IsPlain first (c ∷ s) h =
    (is_local_char-IsPlain c (ground arith), local_chars-IsPlain false s (ground arith))

local_chars-start : (s : Bytes) → local_chars true s ≡ true → has_prefix (codes ".") s ≡ false
unfolding local_chars has_prefix
local_chars-start [] h = refl
local_chars-start (c ∷ s) h = ground arith

local_chars-end : (first : Bool) (s : Bytes) → local_chars first s ≡ true → ends_with_dot s ≡ false
unfolding local_chars ends_with_dot
local_chars-end first [] h = refl
local_chars-end first (c ∷ []) h = ground arith
local_chars-end first (c ∷ d ∷ s) h = local_chars-end false (d ∷ s) (ground arith)

module _ (domain : Bytes) (plain_domain : All IsPlain domain) where
  count-domain : (s : Bytes) → All IsPlain s → count_byte b'@' s ≡ 0
  unfolding count_byte
  count-domain [] h = refl
  count-domain (c ∷ s) h = ground (arith, count-domain s h.1)

  count-at : (s : Bytes) → All IsPlain s → count_byte b'@' (s ++ b'@' ∷ domain) ≡ 1
  unfolding count_byte
  count-at [] h = ground (arith, count-domain domain plain_domain)
  count-at (c ∷ s) h = ground (arith, count-at s h.1)

  cut-at : (s : Bytes) → All IsPlain s → cut b'@' (s ++ b'@' ∷ domain) ≡ (s, domain, true)
  unfolding cut
  cut-at [] h = refl
  cut-at (c ∷ s) h = ground (arith, cut-at s h.1)

  chars-plain : (s : Bytes) → All IsPlain s → all_address_chars s ≡ true
  unfolding all_address_chars
  chars-plain [] h = refl
  chars-plain (c ∷ s) h = ground (arith, chars-plain s h.1)

  chars-at : (s : Bytes) → All IsPlain s → all_address_chars (s ++ b'@' ∷ domain) ≡ true
  unfolding all_address_chars is_address_char
  chars-at [] h = chars-plain domain plain_domain
  chars-at (c ∷ s) h = ground (arith, chars-at s h.1)

  lower-plain : (s : Bytes) → All IsPlain s → to_lower s ≡ s
  unfolding to_lower
  lower-plain [] h = refl
  lower-plain (c ∷ s) h = ground (arith, lower-plain s h.1)

  lower-at : (s : Bytes) → All IsPlain s → to_lower (s ++ b'@' ∷ domain) ≡ s ++ b'@' ∷ domain
  unfolding to_lower lower
  lower-at [] h = ground (arith, lower-plain domain plain_domain)
  lower-at (c ∷ s) h = ground (arith, lower-at s h.1)

-- A local part that MailWisp lets a client choose, at a domain in lower case, makes an address that the
-- LMTP ingress takes as a recipient exactly as it is written, with no normalisation.
pub canonical_address-valid :
    (local domain : Bytes) (allow_empty : Bool)
    → valid_inbox_local_part local ≡ true
    → All IsPlain domain
    → 1 ≤ length domain
    → length local + length domain ≤ 319
    → canonical_address (local ++ b'@' ∷ domain) allow_empty ≡ ok (local ++ b'@' ∷ domain)
unfolding canonical_address valid_inbox_local_part
canonical_address-valid [] domain allow_empty v plain some_domain short = absurd (ground arith)
canonical_address-valid (c ∷ s) domain allow_empty v plain some_domain short =
    let local = c ∷ s in
    let chars : All IsPlain local = local_chars-IsPlain true local (ground arith) in
    let fits : local_chars true local ≡ true = ground arith in
    let undotted : has_double_dot local ≡ false = ground arith in
    rw
      (
        count-at domain plain local chars,
        cut-at domain plain local chars,
        local_chars-start local fits,
        local_chars-end true local fits,
        chars-at domain plain local chars,
        lower-at domain plain local chars,
      )
      (ground (arith, length-append s (b'@' ∷ domain), undotted))
