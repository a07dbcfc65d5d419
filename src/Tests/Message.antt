-- ===== src/Tests/Message.antt =====
-- Examples for the delivery of messages.
use mailwisp.Common.{
  ℕ, suc, ◌-◌, ◌≡◌, refl, Bool, false, none, some, [], ◌∷◌, ◌++◌, Bytes, codes, bytes_eq, pos, eof,
  ok, lower, arith,
}
use mailwisp.Lmtp.DataReader.{new_data_reader, read}
use mailwisp.Lmtp.Command.{is_address_char, canonical_address}
use mailwisp.Message.Address.{valid_inbox_local_part}
use mailwisp.Message.Address.Ingress.{canonical_address-valid}
use mailwisp.Message.Delivery.{ContentRef}
use mailwisp.Message.Receiver.{Stores, ReceiveRequest, Receipt, receive}
use mailwisp.Message.Receiver.Durable.{Backed, receive-Backed}

canonical_address-valid_example :
    canonical_address (codes "a.b-1" ++ b'@' ∷ codes "mail.test") false
    ≡ ok (codes "a.b-1" ++ b'@' ∷ codes "mail.test")
unfolding valid_inbox_local_part is_address_char lower
canonical_address-valid_example =
    canonical_address-valid (codes "a.b-1") (codes "mail.test") false refl (ground arith)
      (omega arith) (omega arith)

-- A content store that reads 64 bytes, and a repository that takes every delivery; the state is the number
-- of leases that are held. One identifier is a UUID.
abbrev pub inbox : Bytes
inbox = codes "0190a6f0-0000-7000-8000-000000000001"

abbrev pub only_inbox : Bytes → Bool
only_inbox s = bytes_eq s inbox

abbrev pub content : ContentRef
content = record {
  key = codes "sha256/0123456789abcdef0123456789abcdef0123456789abcdef0123456789abcdef";
  size_bytes = pos 9;
}

abbrev pub demo : Stores ℕ
demo = record {
  check_capacity = λ w. (w, none);
  put_leased = λ w r. (suc w, (read 64 r).0, ok content);
  release = λ w. w - 1;
  commit_delivery = λ w d. (w, ok (record { id = codes "m"; inbox_id = inbox } ∷ []));
  now = λ w. 5;
}

abbrev request : ReceiveRequest
request = record {
  envelope_sender = codes "a@b";
  recipients = inbox ∷ [];
  raw = some (new_data_reader (codes "hello") eof 100 100);
}

abbrev receipt : Receipt
receipt = record { content = content; messages = record { id = codes "m"; inbox_id = inbox } ∷ [] }

receive-Backed_example :
    Backed only_inbox demo 0 request (receive only_inbox demo 0 request).0 receipt
unfolding receive
receive-Backed_example = receive-Backed only_inbox demo 0 request receipt refl
