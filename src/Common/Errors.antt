-- ===== src/Common/Errors.antt =====
-- The errors of the program. A value of Go's `error` is the sentinel that `errors.Is` finds in it:
-- `fmt.Errorf("...: %w", err)` keeps it, so a wrapped error is the sentinel that it wraps.
use Prim.Native.Nat.{ℕ}
use mailwisp.Common.Text.{Bytes}
use mathlib.Core.Path.{◌≡◌, refl, subst}
use mathlib.Core.Logic.{◌⊎◌, inl, inr}
use mathlib.Core.Bool.{Bool, true, false}
use mathlib.Core.Option.{Option, none, some}
use native.Mathlib.Omega.{arith}

pub data Error : Type 0 where
  -- io and net
  eof net_closed unexpected_eof : Error
  -- lmtp
  data_too_large data_line_too_long command_line_too_long : Error
  -- message
  invalid_delivery inbox_not_found content_too_large : Error
  inbox_message_quota_exceeded inbox_storage_quota_exceeded insufficient_storage : Error
  -- postgres
  content_metadata_conflict : Error
  -- auth
  invalid_token unauthenticated forbidden capability_not_found capability_kid_conflict : Error
  capability_subject_unavailable capability_lifetime capability_already_rotated : Error
  browser_session_disabled csrf : Error
  -- abuse
  daily_create_quota_exceeded invalid_client_address : Error
  -- contentstore
  invalid_key content_corrupt : Error
  -- mailbox
  mailbox_inbox_not_found message_not_found address_conflict : Error
  invalid_domain invalid_lifetime invalid_local_part : Error
  -- jobs and mail
  stale_parse_claim : Error
  mail_too_large header_too_large too_many_headers too_many_parts : Error
  nesting_too_deep part_too_large decoded_content_too_large : Error
  -- errors.New and fmt.Errorf without `%w`
  text : Bytes → Error
  -- an error of a library or of the operating system that wraps no sentinel of the program
  other : ℕ → Error

pub data Result {ℓ} (A : Type ℓ) : Type ℓ where
  ok : A → Result A
  err : Error → Result A

infixl 5 ◌>>=◌ ◌>>◌
-- An error is passed on; `if err != nil { return err }`.
abbrev pub ◌>>=◌ {ℓ κ} :
    {Value : Type ℓ} {Next : Type κ} → Result Value → (Value → Result Next) → Result Next
err stopped >>= go_on = err stopped
ok value >>= go_on = go_on value

abbrev pub ◌>>◌ {ℓ} : {Next : Type ℓ} → Result (Unit {0}) → Result Next → Result Next
err stopped >> go_on = err stopped
ok _ >> go_on = go_on

-- `if !test { return e }`
abbrev pub guard : Bool → Error → Result (Unit {0})
guard true e = ok tt
guard false e = err e

abbrev pub or_fail {ℓ} : {A : Type ℓ} → Option A → Error → Result A
or_fail none e = err e
or_fail (some a) e = ok a

-- `err != nil`
abbrev pub IsOk {ℓ} : {A : Type ℓ} → Result A → Type 0
IsOk (ok a) = Unit
IsOk (err e) = ⊥

-- To split on a computed result and keep the equation.
pub Result-cases {ℓ} :
    {A : Type ℓ} (r : Result A) → ((a : A) × (r ≡ ok a)) ⊎ ((e : Error) × (r ≡ err e))
Result-cases (ok a) = inl (a, refl)
Result-cases (err e) = inr (e, refl)

-- What a sequence has done that succeeded.
pub bind_ok :
    {A B : Type 0} (m : Result A) (k : A → Result B) (b : B)
    → m >>= k ≡ ok b
    → (a : A) × (m ≡ ok a) × (k a ≡ ok b)
bind_ok (err e) k b h = absurd (ground arith)
bind_ok (ok a) k b h = (a, refl, h)

pub then_ok :
    {B : Type 0} (m : Result (Unit {0})) (k : Result B) {b : B}
    → m >> k ≡ ok b
    → (m ≡ ok tt) × (k ≡ ok b)
then_ok (err e) k h = absurd (ground arith)
then_ok (ok tt) k h = (refl, h)

pub ok-injective : {A : Type 0} {a b : A} → ok a ≡ ok b → a ≡ b
ok-injective {A} {a} {b} e = subst (λ r. at_ok a r) e refl
  where
    at_ok : A → Result A → Type 0
    at_ok x (ok y) = x ≡ y
    at_ok x (err _) = ⊥

pub err-ne-ok : {A : Type 0} {e : Error} {a : A} → err e ≡ ok a → ⊥
err-ne-ok h = ground arith

pub guard-ok : (b : Bool) (e : Error) → guard b e ≡ ok tt → b ≡ true
guard-ok true e h = refl
guard-ok false e h = absurd (err-ne-ok h)
