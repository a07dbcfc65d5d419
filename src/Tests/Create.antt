-- ===== src/Tests/Create.antt =====
-- Examples for the creation of inboxes.
use mailwisp.Common.{
  lower, trim_space, ℕ, zero, suc, ◌/◌, ◌*◌, some, true, ◌≡◌, refl, ap, none, [], ◌∷◌, Bytes, codes,
  pos, ok, length, All, arith,
}
use mailwisp.Encoding.Hex.{IsByte}
use mailwisp.Encoding.Base32.{base32_lower}
use mailwisp.Message.Address.{valid_inbox_local_part}
use mailwisp.Mailbox.Create.{
  Service, Calls, CreateRequest, create, check_create, normalize, to_lower_ascii, choose_lifetime,
  choose_local_part, create_checked, with_inbox, attempt_loop, with_candidate, after_create_inbox,
  generate_local_part, encode_entropy, with_scopes, after_issue,
}
use mailwisp.Mailbox.Create.Generated.{base32_lower-valid}
use mailwisp.Postgres.Mailbox.{Mailboxes, MailboxBackend, create_inbox, insert_inbox}
use mailwisp.Postgres.Mailbox.Promised.{mailbox_calls}

abbrev zeros : ℕ → Bytes
zeros zero = []
zeros (suc n) = 0 ∷ zeros n

-- A backend whose times are cut to even numbers, and whose statements succeed
abbrev backend : MailboxBackend
backend = record {
  clock = λ t. 7;
  stored_time = λ t. t / 2 * 2;
  parse_uuid = λ s. some s;
  new_id = λ t. codes "id";
  insert_fails = λ t. none;
  begin_fails = λ t. none;
  lock_fails = λ t. none;
  contents_fail = λ t. none;
  delete_fails = λ t. none;
  orphan_fails = λ t key. none;
  enqueue_fails = λ t key. none;
  commit_fails = λ t. none;
}

abbrev calls : Calls Mailboxes
calls =
    mailbox_calls backend
      (λ db id scopes end_. ok (record {
        id = id;
        inbox_id = id;
        kid = [];
        plaintext = [];
        scopes = scopes;
        expires_at = end_;
      }))
      (λ db. 7) (λ t n. ok (zeros n))

zeros-bytes : (n : ℕ) → (length (zeros n) ≡ n) × All IsByte (zeros n)
zeros-bytes zero = (refl, tt)
zeros-bytes (suc n) = let (counted, bytes) = zeros-bytes n in (ap suc counted, (omega arith, bytes))

-- The tables, with an inbox of someone else
abbrev tables : Mailboxes
tables = record {
  entries =
      record {
        inbox = record {
          id = codes "other";
          address = codes "other@mail.example";
          expires_at = 90;
          created_at = 4;
        };
        active = true;
      }
      ∷ [];
  contents = [];
  messages = [];
  deletions = [];
  tick = 0;
}

abbrev one_domain : Service
one_domain = record { domains = codes "mail.example" ∷ []; default_ttl = 60; max_ttl = 3600 }

abbrev generated : CreateRequest
generated = record { domain = codes " Mail.Example "; local_part = []; lifetime = pos 0 }

-- The request has its inbox, in front of the other one.
created : length (create calls one_domain tables generated).0.entries ≡ 2
unfolding create check_create normalize to_lower_ascii lower trim_space choose_lifetime
    choose_local_part create_checked with_inbox attempt_loop with_candidate after_create_inbox
    generate_local_part encode_entropy create_inbox insert_inbox with_scopes after_issue
created = refl

base32_lower-valid_example :
    (valid_inbox_local_part (base32_lower (zeros 12)) ≡ true)
    × (length (base32_lower (zeros 12)) ≡ 20)
base32_lower-valid_example = base32_lower-valid (zeros 12) refl (zeros-bytes 12).1
