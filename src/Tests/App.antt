-- ===== src/Tests/App.antt =====
-- Examples for the receiver over the store and the tables.
use mailwisp.Common.{
  ◌≡◌, ◌++◌, refl, Bool, true, false, none, some, [], ◌∷◌, Bytes, codes, eof, length,
}
use mailwisp.Encoding.Hex.{hex_encode}
use mailwisp.Lmtp.Line.{cr, lf, read_limited_line, read_line}
use mailwisp.Lmtp.DataReader.{new_data_reader, read}
use mailwisp.Lmtp.DataReader.RoundTrip.{sent}
use mailwisp.Message.Receiver.{Stores, ReceiveRequest, receive}
use mailwisp.Message.Receiver.Leases.{held-receive}
use mailwisp.Postgres.Delivery.{DeliveryLimits, Engine, inserted, commit_delivery}
use mailwisp.Contentstore.Store.{put}
use mailwisp.Contentstore.Store.Copy.{copy_limited, on_end}
use mailwisp.Contentstore.Store.Raw.{calm}
use mailwisp.Tests.Contentstore.{sum}
use mailwisp.App.{System, stores_of}
use mailwisp.App.Filing.{Filed, receive-Filed}
use mailwisp.Lmtp.Session.State.{Options, Services, Session}
use mailwisp.Lmtp.Session.Run.{run}
use mailwisp.Lmtp.Session.Invariant.{left}
use mailwisp.App.Session.{server_services}
use mailwisp.App.Leases.{stores_of-Counts}

abbrev no_limits : DeliveryLimits
no_limits = record { enforce_limits = false; max_inbox_messages = 0; max_inbox_storage_bytes = 0 }

abbrev any_uuid : Bytes → Bool
any_uuid s = true

abbrev engine : Engine
engine = record {
  now = 5;
  parse_uuid = λ s. some s;
  begin_fails = none;
  query_fails = none;
  quotas_fail = none;
  content_fails = none;
  existing_fails = none;
  insert_message = λ rows id. inserted (codes "m");
  commit_fails = none;
}

abbrev fresh : System
fresh = record {
  store = record {
    capacity = record { max_bytes = 10; min_free_bytes = 5; reserved_bytes = 0 };
    objects = [];
    staging = [];
  };
  leases = 3;
  database = record {
    inboxes =
        record { id = codes "i"; address = codes "a@b.c"; active = true; expires_at = 20 } ∷ [];
    contents = [];
    messages = [];
  };
}

abbrev mail : Bytes → ReceiveRequest
mail text = record {
  envelope_sender = codes "x@y";
  recipients = codes "i" ∷ [];
  raw = some (new_data_reader (sent (text ∷ []) []) eof 10 10);
}

abbrev stores : Stores System
stores = stores_of sum (calm 100) no_limits engine

-- The system with one message in it
abbrev first : System
first = (receive any_uuid stores fresh (mail (codes "hi"))).0

abbrev second : System
second = (receive any_uuid stores first (mail (codes "you"))).0

first-Filed : Filed sum first
first-Filed = receive-Filed sum (calm 100) no_limits engine any_uuid fresh (mail (codes "hi")) tt

receive-Filed_example : Filed sum second
receive-Filed_example =
    receive-Filed sum (calm 100) no_limits engine any_uuid first (mail (codes "you")) first-Filed

held-receive_example : second.leases ≡ 3
unfolding receive put copy_limited read new_data_reader read_limited_line read_line on_end
    hex_encode commit_delivery
held-receive_example =
    held-receive any_uuid stores (λ w. w.leases) (stores_of-Counts sum (calm 100) no_limits engine)
      first (mail (codes "you"))

-- Both messages are in the database, and both objects in the store.
both_filed : (length second.database.messages ≡ 2) × (length second.store.objects ≡ 2)
unfolding receive put copy_limited read new_data_reader read_limited_line read_line on_end
    hex_encode commit_delivery
both_filed = (refl, refl)

-- A session in which a peer sends a message, over the system with one message in it
abbrev lmtp : Options
lmtp = record {
  hostname = codes "mx";
  max_message_bytes = 10;
  max_command_bytes = 100;
  max_data_line_bytes = 10;
  max_recipients = 2;
}

abbrev dialogue : Bytes
dialogue =
    line_of (codes "LHLO c")
    ++ line_of (codes "MAIL FROM:<x@y.z>")
    ++ line_of (codes "RCPT TO:<a@b.c>")
    ++ line_of (codes "DATA")
    ++ line_of (codes "you")
    ++ line_of (codes ".")
    ++ line_of (codes "QUIT")
  where
    line_of : Bytes → Bytes
    line_of t = t ++ cr ∷ lf ∷ []

abbrev session : Session System
session = record {
  input = dialogue;
  ending = eof;
  cancelled = false;
  flushes = 9;
  deadlines = 9;
  output = [];
  observed = [];
  greeted = false;
  mail_set = false;
  sender = [];
  declared_size = 0;
  recipients = [];
  recipient_set = [];
  world = first;
}

abbrev services : Services System
unfolding server_services
services = server_services sum (calm 100) no_limits engine any_uuid false

abbrev afterwards : System
unfolding services
afterwards = (left lmtp services (run lmtp services session)).world
