-- ===== src/Tests/Postgres.antt =====
-- Examples for the delivery repository.
use mailwisp.Common.{◌≡◌, refl, true, none, some, [], ◌∷◌, codes, pos, ok, arith}
use mailwisp.Message.Delivery.{Delivery}
use mailwisp.Postgres.Delivery.{
  Database, DeliveryLimits, inserted, Engine, resolve_inbox_for_delivery, commit_delivery,
}
use mailwisp.Postgres.Delivery.Quota.{WithinQuota, commit_delivery-WithinQuota}
use mailwisp.Tests.Message.{inbox, content}

-- PostgreSQL when nothing fails, at the time 5; the only UUIDs are texts in their canonical form.
abbrev engine : Engine
engine = record {
  now = 5;
  parse_uuid = λ s. some s;
  begin_fails = none;
  query_fails = none;
  quotas_fail = none;
  content_fails = none;
  existing_fails = none;
  insert_message = λ ms r. inserted (codes "m2");
  commit_fails = none;
}

abbrev limits : DeliveryLimits
limits = record { enforce_limits = true; max_inbox_messages = 2; max_inbox_storage_bytes = 100 }

abbrev database : Database
database = record {
  inboxes = record { id = inbox; address = codes "a@b"; active = true; expires_at = 9 } ∷ [];
  contents = (codes "k", 7) ∷ [];
  messages =
      record {
        id = codes "m1";
        inbox_id = inbox;
        content_key = codes "k";
        envelope_sender = [];
        received_at = 1;
      }
      ∷ [];
}

abbrev delivery : Delivery
delivery = record {
  content = content;
  envelope_sender = codes "c@d";
  recipients = inbox ∷ [];
  received_at = 5;
}

resolved : resolve_inbox_for_delivery limits engine database (codes "a@b") (pos 93) ≡ ok inbox
unfolding resolve_inbox_for_delivery
resolved = refl

committed :
    (commit_delivery limits engine database delivery).1
    ≡ ok (record { id = codes "m2"; inbox_id = inbox } ∷ [])
unfolding commit_delivery
committed = refl

database-WithinQuota : WithinQuota limits database
database-WithinQuota = record { capped = λ id. ground arith; linked = (refl, tt) }

commit_delivery-WithinQuota_example :
    WithinQuota limits (commit_delivery limits engine database delivery).0
commit_delivery-WithinQuota_example =
    commit_delivery-WithinQuota limits engine database delivery refl (refl, tt) database-WithinQuota
