-- ===== src/Common/Text.antt =====
-- Go strings as lists of bytes, with what the program uses of the packages strings and unicode.
use Prim.Native.Char.{code}
use Prim.Native.Nat.{ℕ, zero, suc, ◌+◌, ◌-◌}
use Prim.Native.String.{String}
use mathlib.Core.Path.{◌≡◌, refl}
use mathlib.Core.Logic.{◌↔◌, ◌≢◌}
use mathlib.Core.Bool.{Bool, true, false, ◌&&◌, ◌||◌}
use mathlib.Core.List.{List, [], ◌∷◌, reverse}
use mathlib.Core.Option.{Option, none, some}
use native.Mathlib.Omega.{arith}
use mailwisp.Common.Tests.{leb, ◌==◌, if◌then◌else◌}
use mailwisp.Common.Lists.{length, drop}

abbrev pub Bytes : Type 0
Bytes = List ℕ

-- The bytes of an ASCII literal.
abbrev pub codes : String → Bytes
codes String.[] = []
codes (String.◌∷◌ c s) = code c ∷ codes s

abbrev pub bytes_eq : Bytes → Bytes → Bool
bytes_eq [] [] = true
bytes_eq [] (y ∷ ys) = false
bytes_eq (x ∷ xs) [] = false
bytes_eq (x ∷ xs) (y ∷ ys) = x == y && bytes_eq xs ys

pub bytes_eq_iff : (xs ys : Bytes) → (bytes_eq xs ys ≡ true) ↔ (xs ≡ ys)
bytes_eq_iff [] [] = (λ _. refl, λ _. refl)
bytes_eq_iff [] (y ∷ ys) = (λ h. cc, λ h. cc)
bytes_eq_iff (x ∷ xs) [] = (λ h. cc, λ h. cc)
bytes_eq_iff (x ∷ xs) (y ∷ ys) =
    (λ h. ground (arith, bytes_eq_iff xs ys), λ h. ground (arith, bytes_eq_iff xs ys))

pub bytes_eq-ne : (xs ys : Bytes) → xs ≢ ys → bytes_eq xs ys ≡ false
bytes_eq-ne xs ys h = ground (arith, bytes_eq_iff xs ys)

pub bytes_eq_refl : (xs : Bytes) → bytes_eq xs xs ≡ true
bytes_eq_refl xs = (bytes_eq_iff xs xs).1 refl

unfoldable pub is_digit : ℕ → Bool
is_digit c = leb b'0' c && leb c b'9'

unfoldable pub lower : ℕ → ℕ
lower c = if leb b'A' c && leb c b'Z' then c + 32 else c

unfoldable pub upper : ℕ → ℕ
upper c = if leb b'a' c && leb c b'z' then c - 32 else c

-- strings.HasPrefix
unfoldable pub has_prefix : Bytes → Bytes → Bool
has_prefix [] s = true
has_prefix (p ∷ ps) [] = false
has_prefix (p ∷ ps) (c ∷ s) = p == c && has_prefix ps s

-- strings.IndexByte, `none` for -1
unfoldable pub index_byte : ℕ → Bytes → Option ℕ
index_byte b [] = none
index_byte b (c ∷ s) =
    let rest = index_byte b s in
    if c == b then some 0 else elim rest [ none ↦ none | some i ↦ some (suc i) ]

-- strings.Cut at a single byte
unfoldable pub cut : ℕ → Bytes → Bytes × Bytes × Bool
cut b [] = ([], [], false)
cut b (c ∷ s) =
    let (before, after, found) = cut b s in
    if c == b then ([], s, true) else (c ∷ before, after, found)

-- The width in bytes of the white space (unicode.IsSpace) that a UTF-8 text begins with, or 0.
space_width : Bytes → ℕ
space_width [] = 0
space_width (a ∷ []) = if a == 0x20 || (leb 9 a && leb a 13) then 1 else 0
space_width (a ∷ b ∷ []) =
    if a == 0x20 || (leb 9 a && leb a 13)
    then 1
    else if a == 0xC2 && (b == 0x85 || b == 0xA0)
    then 2
    else 0
space_width (a ∷ b ∷ c ∷ s) =
    if a == 0x20 || (leb 9 a && leb a 13)
    then 1
    else if a == 0xC2 && (b == 0x85 || b == 0xA0)
    then 2
    else if a == 0xE1 && b == 0x9A && c == 0x80
        || a == 0xE2
          && b == 0x80
          && (leb 0x80 c && leb c 0x8A || c == 0xA8 || c == 0xA9 || c == 0xAF)
        || a == 0xE2 && b == 0x81 && c == 0x9F
        || a == 0xE3 && b == 0x80 && c == 0x80
    then 3
    else 0

-- The same for the white space that a text ends with, over the reversed text.
space_width_back : Bytes → ℕ
unfolding space_width
space_width_back [] = 0
space_width_back (a ∷ []) = space_width (a ∷ [])
space_width_back (b ∷ a ∷ []) =
    if space_width (b ∷ []) == 1 then 1 else if space_width (a ∷ b ∷ []) == 2 then 2 else 0
space_width_back (c ∷ b ∷ a ∷ s) =
    if space_width (c ∷ []) == 1
    then 1
    else if space_width (b ∷ c ∷ []) == 2
    then 2
    else if space_width (a ∷ b ∷ c ∷ []) == 3
    then 3
    else 0

-- Drops white space while the measure finds some; the fuel is the length of the text.
strip : (Bytes → ℕ) → ℕ → Bytes → Bytes
strip width zero s = s
strip width (suc f) s =
    let n = width s in let rest = strip width f (drop n s) in if n == 0 then s else rest

-- strings.TrimSpace
unfoldable pub trim_space : Bytes → Bytes
unfolding strip space_width space_width_back
trim_space s =
    let t = reverse (strip space_width (length s) s) in
    reverse (strip space_width_back (length t) t)

-- The words of a text, `word` being the one begun, reversed; the fuel is the length of the text.
split : ℕ → Bytes → Bytes → List Bytes
split zero word s = if length word == 0 then [] else reverse word ∷ []
split (suc f) word [] = if length word == 0 then [] else reverse word ∷ []
split (suc f) word (c ∷ s) =
    let n = space_width (c ∷ s) in
    let inside = split f (c ∷ word) s in
    let behind = split f [] (drop n (c ∷ s)) in
    if n == 0 then inside else if length word == 0 then behind else reverse word ∷ behind

-- strings.Fields
unfoldable pub fields : Bytes → List Bytes
unfolding split space_width
fields s = split (suc (length s)) [] s

-- encoding/hex: the digits in lower case
unfoldable pub is_lower_hex : ℕ → Bool
unfolding is_digit
is_lower_hex c = is_digit c || (leb b'a' c && leb c b'f')

-- strings.ToLower of an ASCII text
unfoldable pub to_lower : Bytes → Bytes
unfolding lower
to_lower [] = []
to_lower (c ∷ s) = lower c ∷ to_lower s

-- strings.ToUpper, as far as the result is ASCII: of all other code points only U+0131 and U+017F
-- go to ASCII letters. Other bytes above 127 stay, so the result is not ASCII where Go's is not.
unfoldable pub to_upper : Bytes → Bytes
unfolding upper
to_upper [] = []
to_upper (c ∷ []) = upper c ∷ []
to_upper (c ∷ d ∷ s) =
    let two = to_upper s in
    let one = to_upper (d ∷ s) in
    if c == 0xC4 && d == 0xB1
    then b'I' ∷ two
    else if c == 0xC5 && d == 0xBF
    then b'S' ∷ two
    else upper c ∷ one

-- strings.Contains(s, "..")
unfoldable pub has_double_dot : Bytes → Bool
has_double_dot [] = false
has_double_dot (c ∷ []) = false
has_double_dot (c ∷ d ∷ s) = (c == b'.' && d == b'.') || has_double_dot (d ∷ s)
