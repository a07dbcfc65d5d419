-- ===== src/Lmtp/Command.antt =====
-- The commands of internal/lmtp/session.go: splitCommand, parseMailFrom, parseRecipient, parsePath
-- and canonicalAddress.
use mailwisp.Common.{
  ℕ, suc, ◌+◌, ◌-◌, ◌*◌, ◌^◌, ◌≡◌, refl, Bool, true, false, not, ◌&&◌, ◌||◌, Option, none, some,
  List, [], ◌∷◌, ◌++◌, Bytes, codes, bytes_eq, is_digit, has_prefix, index_byte, cut, trim_space,
  fields, has_double_dot, ℤ, pos, negsuc, to_lower, to_upper, Error, text, Result, ok, err, ◌>>=◌,
  ◌>>◌, guard, length, take, drop, ltb, leb, ◌==◌, if◌then◌else◌,
}

-- splitCommand: the verb in upper case, and its argument.
unfoldable pub split_command : Bytes → Bytes × Bytes
unfolding trim_space to_upper cut
split_command line =
    let trimmed = trim_space line in
    let (verb, argument, found) = cut b' ' trimmed in
    if length trimmed == 0
    then ([], [])
    else if found
    then (to_upper verb, trim_space argument)
    else (to_upper verb, [])

-- The digits of a decimal number behind `n`.
unfoldable pub scan_digits : Bytes → ℕ → Option ℕ
unfolding is_digit
scan_digits [] n = some n
scan_digits (c ∷ s) n =
    let rest = scan_digits s (n * 10 + (c - b'0')) in if is_digit c then rest else none

abbrev unsigned : Bytes → Option ℕ
unsigned s = if length s == 0 then none else scan_digits s 0

abbrev pub max_int64 : ℕ
max_int64 = 2 ^ 63 - 1

in_range : Bool → Option ℕ → Option ℤ
in_range minus none = none
in_range true (some n) =
    if n == 0 then some (pos 0) else if leb n (2 ^ 63) then some (negsuc (n - 1)) else none
in_range false (some n) = if leb n max_int64 then some (pos n) else none

-- strconv.ParseInt(value, 10, 64), `none` for an error
unfoldable pub parse_int : Bytes → Option ℤ
unfolding scan_digits in_range
parse_int [] = none
parse_int (c ∷ s) =
    if c == b'-'
    then in_range true (unsigned s)
    else if c == b'+'
    then in_range false (unsigned s)
    else in_range false (unsigned (c ∷ s))

-- Every character is printable ASCII and no angle bracket.
unfoldable pub is_address_char : ℕ → Bool
is_address_char c = not (leb c 32 || leb 127 c || c == b'<' || c == b'>')

unfoldable pub all_address_chars : Bytes → Bool
unfolding is_address_char
all_address_chars [] = true
all_address_chars (c ∷ s) = is_address_char c && all_address_chars s

unfoldable pub count_byte : ℕ → Bytes → ℕ
count_byte b [] = 0
count_byte b (c ∷ s) = let n = count_byte b s in if c == b then suc n else n

unfoldable pub ends_with_dot : Bytes → Bool
ends_with_dot [] = false
ends_with_dot (c ∷ []) = c == b'.'
ends_with_dot (c ∷ d ∷ s) = ends_with_dot (d ∷ s)

abbrev pub invalid_address : Error
invalid_address = text (codes "invalid envelope address")

abbrev pub unsupported_characters : Error
unsupported_characters = text (codes "SMTPUTF8 and control characters are not supported")

unfoldable pub canonical_address : Bytes → Bool → Result Bytes
unfolding count_byte cut has_prefix has_double_dot ends_with_dot all_address_chars to_lower
canonical_address address allow_empty =
    let (local, domain, found) = cut b'@' address in
    if length address == 0 && allow_empty then ok [] else (do
      guard
          (not (
            ltb (length address) 3
            || ltb 320 (length address)
            || not (count_byte b'@' address == 1)))
          invalid_address
      guard
          (not (
            length local == 0
            || length domain == 0
            || has_prefix (codes ".") local
            || ends_with_dot local
            || has_double_dot local))
          invalid_address
      guard (all_address_chars address) unsupported_characters
      ok (to_lower address))

-- strings.EqualFold against an ASCII text in upper case; the lengths are the same where it is called.
unfoldable pub equal_fold : Bytes → Bytes → Bool
unfolding to_upper
equal_fold s upper_text = bytes_eq (to_upper s) upper_text

-- The address and the parameters of a path.
unfoldable pub parse_path : Bytes → Bytes → Bool → Result (Bytes × List Bytes)
unfolding equal_fold trim_space has_prefix index_byte canonical_address fields
parse_path argument prefix allow_empty = do
  guard
      (not (ltb (length argument) (length prefix))
        && equal_fold (take (length prefix) argument) prefix)
      (text (codes "expected " ++ (prefix ++ codes "<address>")))
  let remainder = trim_space (drop (length prefix) argument)
  guard (has_prefix (codes "<") remainder) (text (codes "path must start with <"))
  closing ← elim (index_byte b'>' remainder) [
    | none ↦ err (text (codes "path must end with >"))
    | some i ↦ ok i
  ]
  address ← canonical_address (drop 1 (take closing remainder)) allow_empty
  ok (address, fields (trim_space (drop (closing + 1) remainder)))

-- What parseMailFrom has seen of the parameters.
pub record MailParameters : Type 0 where
  pub declared_size : ℕ
  pub has_size : Bool
  pub has_body : Bool

parse_size : Option ℤ → Result ℕ
parse_size (some (pos n)) = ok n
parse_size (some (negsuc n)) = err (text (codes "SIZE must be a non-negative integer"))
parse_size none = err (text (codes "SIZE must be a non-negative integer"))

-- One round of the loop over the parameters.
unfoldable pub parse_parameter : Bytes → MailParameters → Result MailParameters
unfolding cut to_upper parse_int parse_size
parse_parameter parameter p =
    let (name, value, has_value) = cut b'=' parameter in
    if bytes_eq (to_upper name) (codes "SIZE")
    then (do
      guard (not p.has_size) (text (codes "SIZE must not be repeated"))
      guard has_value (text (codes "SIZE requires a value"))
      n ← parse_size (parse_int value)
      ok (record p { declared_size = n; has_size = true }))
    else if bytes_eq (to_upper name) (codes "BODY")
    then (do
      guard (not p.has_body) (text (codes "BODY must not be repeated"))
      guard
          (has_value
            && (bytes_eq (to_upper value) (codes "7BIT")
                || bytes_eq (to_upper value) (codes "8BITMIME")))
          (text (codes "unsupported BODY parameter"))
      ok (record p { has_body = true }))
    else err (text (codes "unsupported MAIL parameter"))

unfoldable pub parse_parameters : List Bytes → MailParameters → Result MailParameters
unfolding parse_parameter
parse_parameters [] p = ok p
parse_parameters (q ∷ qs) p = parse_parameter q p >>= parse_parameters qs

unfoldable pub parse_mail_from : Bytes → Result (Bytes × ℕ)
unfolding parse_path parse_parameters
parse_mail_from argument = do
  (address, parameters) ← parse_path argument (codes "FROM:") true
  p ← parse_parameters parameters (record { declared_size = 0; has_size = false; has_body = false })
  ok (address, p.declared_size)

unfoldable pub parse_recipient : Bytes → Result Bytes
unfolding parse_path
parse_recipient argument = do
  (address, parameters) ← parse_path argument (codes "TO:") false
  guard (length parameters == 0) (text (codes "unsupported RCPT parameter"))
  ok address

mail_from : parse_mail_from (codes "FROM:<a@B.c> size=12 body=7bit") ≡ ok (codes "a@b.c", 12)
unfolding parse_mail_from
mail_from = refl

rcpt_to : parse_recipient (codes "to: <Box@Wisp.test>") ≡ ok (codes "box@wisp.test")
unfolding parse_recipient
rcpt_to = refl

verb : split_command (codes "  rcpt   TO:<x> ") ≡ (codes "RCPT", codes "TO:<x>")
unfolding split_command
verb = refl
