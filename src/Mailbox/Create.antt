-- ===== src/Mailbox/Create.antt =====
-- NewService and Create of internal/mailbox/service.go, over the repository of the inboxes, the issuer of capabilities, a
-- clock and a source of random bytes. The domains of the options are ASCII; a time.Duration is an integer.
pub mod Checks
pub mod Generated
pub mod Promise
use mailwisp.Common.{
  ℕ, zero, suc, ◌+◌, ◌≡◌, refl, Bool, true, false, not, ◌&&◌, ◌||◌, Option, none, some, List, [],
  ◌∷◌, ◌++◌, Bytes, codes, bytes_eq, lower, trim_space, ℤ, pos, negsuc, Error, text,
  address_conflict, invalid_domain, invalid_lifetime, invalid_local_part, Result, ok, err, ◌>>=◌,
  ◌>>◌, guard, or_fail, length, take, ltb, ◌==◌, if◌then◌else◌,
}
use mailwisp.Encoding.Base32.{base32_lower}
use mailwisp.Message.Address.{valid_inbox_local_part}
use mailwisp.Auth.Scope.{
  inbox_read, inbox_delete, message_read, message_update, message_delete, new_scope_set,
}
use mailwisp.Auth.Capability.{IssuedCapability}

pub record Options : Type 0 where
  pub public_domains : List Bytes
  pub default_ttl : ℤ
  pub max_ttl : ℤ

pub record CreateRequest : Type 0 where
  pub domain : Bytes
  pub local_part : Bytes
  pub lifetime : ℤ

pub record Inbox : Type 0 where
  pub id : Bytes
  pub address : Bytes
  pub expires_at : ℕ
  pub created_at : ℕ

pub record NewInbox : Type 0 where
  pub address : Bytes
  pub expires_at : ℕ
  pub created_at : ℕ

pub record CreatedInbox : Type 0 where
  pub inbox : Inbox
  pub capability : IssuedCapability

-- The domains in the order of the options, and the lifetimes, which are positive.
pub record Service : Type 0 where
  pub domains : List Bytes
  pub default_ttl : ℕ
  pub max_ttl : ℕ

-- What the service calls: `random` draws bytes, or fails.
pub record Calls (W : Type 0) : Type 0 where
  pub create_inbox : W → NewInbox → W × Result Inbox
  pub delete_inbox : W → Bytes → W × Option Error
  pub issue : W → Bytes → ℕ → ℕ → W × Result IssuedCapability
  pub now : W → ℕ
  pub random : W → ℕ → W × Result Bytes

-- strings.ToLower, as far as the result is ASCII: of all other code points only U+0130 and U+212A go to ASCII
-- letters. Other bytes above 127 stay, so the result is not ASCII where Go's is not.
unfoldable pub to_lower_ascii : Bytes → Bytes
unfolding lower
to_lower_ascii [] = []
to_lower_ascii (c ∷ []) = lower c ∷ []
to_lower_ascii (c ∷ d ∷ []) = if c == 0xC4 && d == 0xB0 then b'i' ∷ [] else lower c ∷ lower d ∷ []
to_lower_ascii (c ∷ d ∷ e ∷ s) =
    let three = to_lower_ascii s in
    let two = to_lower_ascii (e ∷ s) in
    let one = to_lower_ascii (d ∷ e ∷ s) in
    if c == 0xC4 && d == 0xB0
    then b'i' ∷ two
    else if c == 0xE2 && d == 0x84 && e == 0xAA
    then b'k' ∷ three
    else lower c ∷ one

unfoldable pub normalize : Bytes → Bytes
unfolding to_lower_ascii trim_space
normalize s = to_lower_ascii (trim_space s)

abbrev pub is_allowed : Bytes → List Bytes → Bool
is_allowed domain [] = false
is_allowed domain (d ∷ ds) = bytes_eq d domain || is_allowed domain ds

-- The loop of NewService; `seen` are the domains before.
unfoldable pub collect_domains : List Bytes → List Bytes → Result (List Bytes)
unfolding normalize
collect_domains seen [] = ok []
collect_domains seen (d ∷ ds) = do
  let domain = normalize d
  guard (not (length domain == 0)) (text (codes "public Inbox domain is empty"))
  guard (not (is_allowed domain seen)) (text (codes "duplicate public Inbox domain"))
  rest ← collect_domains (domain ∷ seen) ds
  ok (domain ∷ rest)

abbrev pub invalid_ttl : Error
invalid_ttl = text (codes "Inbox TTL range is invalid")

-- The positive durations
abbrev pub positive : ℤ → Option ℕ
positive (pos zero) = none
positive (pos (suc n)) = some (suc n)
positive (negsuc n) = none

unfoldable pub new_service : Options → Result Service
unfolding collect_domains
new_service options = do
  guard (not (length options.public_domains == 0))
      (text (codes "at least one public Inbox domain is required"))
  default_ttl ← or_fail (positive options.default_ttl) invalid_ttl
  max_ttl ← or_fail (positive options.max_ttl) invalid_ttl
  guard (not (ltb max_ttl default_ttl)) invalid_ttl
  domains ← collect_domains [] options.public_domains
  ok (record { domains = domains; default_ttl = default_ttl; max_ttl = max_ttl })

-- s.domains[0], since NewService sees to one
abbrev pub first_domain : List Bytes → Bytes
first_domain [] = []
first_domain (d ∷ ds) = d

abbrev pub choose_domain : Service → Bytes → Result Bytes
choose_domain s asked =
    let domain = if length asked == 0 then first_domain s.domains else asked in
    guard (is_allowed domain s.domains) invalid_domain >> ok domain

unfoldable pub choose_lifetime : Service → ℤ → Result ℕ
choose_lifetime s (negsuc n) = err invalid_lifetime
choose_lifetime s (pos n) =
    let lifetime = if n == 0 then s.default_ttl else n in
    guard (not (lifetime == 0 || ltb s.max_ttl lifetime)) invalid_lifetime >> ok lifetime

unfoldable pub choose_local_part : Bytes → Result Bytes
unfolding valid_inbox_local_part
choose_local_part asked =
    guard (length asked == 0 || valid_inbox_local_part asked) invalid_local_part >> ok asked

abbrev pub entropy_bytes : ℕ
entropy_bytes = 12

abbrev pub max_address_generation_attempts : ℕ
max_address_generation_attempts = 5

-- The tests of Create before the loop: the domain, the lifetime, and the local part, empty for a generated one.
pub record Checked : Type 0 where
  pub domain : Bytes
  pub lifetime : ℕ
  pub local_part : Bytes

unfoldable pub check_create : Service → CreateRequest → Result Checked
unfolding choose_lifetime choose_local_part normalize
check_create s request = do
  domain ← choose_domain s (normalize request.domain)
  lifetime ← choose_lifetime s request.lifetime
  local_part ← choose_local_part (normalize request.local_part)
  ok (record { domain = domain; lifetime = lifetime; local_part = local_part })

module _ {W : Type 0} (calls : Calls W) where
  unfoldable pub encode_entropy : W × Result Bytes → W × Result Bytes
  unfolding base32_lower
  encode_entropy (w, err e) = (w, err e)
  encode_entropy (w, ok entropy) = (w, ok (base32_lower entropy))

  unfoldable pub generate_local_part : W → W × Result Bytes
  unfolding encode_entropy
  generate_local_part w = encode_entropy (calls.random w entropy_bytes)

  -- The candidate of an attempt
  abbrev pub candidate_of : Bytes → W → W × Result Bytes
  candidate_of local_part w =
      if length local_part == 0 then generate_local_part w else (w, ok local_part)

  abbrev pub new_inbox : Bytes → Bytes → ℕ → ℕ → NewInbox
  new_inbox candidate domain now lifetime = record {
    address = candidate ++ b'@' ∷ domain;
    expires_at = now + lifetime;
    created_at = now;
  }

  -- What the loop does with the result of CreateInbox, `again` being its next attempts.
  unfoldable pub after_create_inbox : (W → W × Result Inbox) → W × Result Inbox → W × Result Inbox
  after_create_inbox again (w, ok inbox) =
      if length inbox.id == 0 then (w, err address_conflict) else (w, ok inbox)
  after_create_inbox again (w, err address_conflict) = again w
  after_create_inbox again (w, err e) = (w, err e)

  unfoldable pub with_candidate :
      (W → W × Result Inbox) → Checked → ℕ → W × Result Bytes → W × Result Inbox
  unfolding after_create_inbox
  with_candidate again c now (w, err e) = (w, err e)
  with_candidate again c now (w, ok candidate) =
      after_create_inbox again (calls.create_inbox w (new_inbox candidate c.domain now c.lifetime))

  -- The loop of Create, with the test behind it
  unfoldable pub attempt_loop : ℕ → Checked → ℕ → W → W × Result Inbox
  unfolding with_candidate generate_local_part
  attempt_loop zero c now w = (w, err address_conflict)
  attempt_loop (suc left) c now w =
      with_candidate (λ w'. attempt_loop left c now w') c now (candidate_of c.local_part w)

  abbrev pub attempts_for : Checked → ℕ
  attempts_for c = if length c.local_part == 0 then max_address_generation_attempts else 1

  abbrev pub owner_scopes : Result ℕ
  owner_scopes =
      new_scope_set
        (inbox_read ∷ inbox_delete ∷ message_read ∷ message_update ∷ message_delete ∷ [])

  -- Create after Issue: the inbox is deleted again where it failed.
  unfoldable pub after_issue : Inbox → W × Result IssuedCapability → W × Result CreatedInbox
  after_issue inbox (w, ok capability) = (w, ok (record { inbox = inbox; capability = capability }))
  after_issue inbox (w, err e) = ((calls.delete_inbox w inbox.id).0, err e)

  unfoldable pub with_scopes : Inbox → ℕ → W → Result ℕ → W × Result CreatedInbox
  unfolding after_issue
  with_scopes inbox expires_at w (err e) = (w, err e)
  with_scopes inbox expires_at w (ok scopes) =
      after_issue inbox (calls.issue w inbox.id scopes expires_at)

  unfoldable pub with_inbox : ℕ → W × Result Inbox → W × Result CreatedInbox
  unfolding with_scopes new_scope_set
  with_inbox expires_at (w, err e) = (w, err e)
  with_inbox expires_at (w, ok inbox) = with_scopes inbox expires_at w owner_scopes

  unfoldable pub create_checked : W → Result Checked → W × Result CreatedInbox
  unfolding with_inbox attempt_loop
  create_checked w (err e) = (w, err e)
  create_checked w (ok c) =
      let now = calls.now w in with_inbox (now + c.lifetime) (attempt_loop (attempts_for c) c now w)

  unfoldable pub create : Service → W → CreateRequest → W × Result CreatedInbox
  unfolding create_checked check_create
  create s w request = create_checked w (check_create s request)
