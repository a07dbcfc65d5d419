-- ===== src/App/Session.antt =====
-- A session of the LMTP server over the receiver, the content store and the delivery repository, as
-- internal/app/app.go hands them to lmtp.NewServer.
use mailwisp.Common.{ℕ, Bool, Bytes, pos, Result}
use mailwisp.Lmtp.Session.State.{Services, Session}
use mailwisp.Lmtp.Delivery.{services_of}
use mailwisp.Postgres.Delivery.{DeliveryLimits, Engine, resolve_inbox_for_delivery}
use mailwisp.Contentstore.Store.{Os}
use mailwisp.App.{System, stores_of}

module _ (sha256 : Bytes → Bytes) (os : Os) (limits : DeliveryLimits) (engine : Engine)
    (is_uuid : Bytes → Bool) (has_metrics : Bool) where
  abbrev pub resolve_by : System → Bytes → ℕ → System × Result Bytes
  resolve_by w address size =
      (w, resolve_inbox_for_delivery limits engine w.database address (pos size))

  unfoldable pub server_services : Services System
  unfolding services_of
  server_services = services_of is_uuid (stores_of sha256 os limits engine) resolve_by has_metrics
