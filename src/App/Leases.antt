-- ===== src/App/Leases.antt =====
-- The leases of the content store over a call of Receive.
use mailwisp.Common.{◌+◌, ◌≡◌, refl, Bytes, Result, ok, err, arith}
use mailwisp.Lmtp.DataReader.{DataReader}
use mailwisp.Message.Delivery.{ContentRef}
use mailwisp.Message.Receiver.Leases.{leased, Counts}
use mailwisp.Postgres.Delivery.{DeliveryLimits, Engine}
use mailwisp.Contentstore.Store.{Store, Os, put}
use mailwisp.App.{System, r_lock, after_leased_put, stores_of}

after_leased_put-leased :
    (w : System) (p : Store × DataReader × Result ContentRef)
    → (after_leased_put (r_lock w) p).0.leases ≡ w.leases + leased (after_leased_put (r_lock w) p).2
after_leased_put-leased w (s, r, err e) = omega arith
after_leased_put-leased w (s, r, ok ref) = omega arith

-- PutLeased takes one lease if it succeeds and none if it fails, the function that it returns gives that
-- lease back, and CommitDelivery leaves the leases alone.
pub stores_of-Counts :
    (sha256 : Bytes → Bytes) (os : Os) (limits : DeliveryLimits) (engine : Engine)
    → Counts System (stores_of sha256 os limits engine) (λ w. w.leases)
stores_of-Counts sha256 os limits engine = record {
  put_leased_counts = λ w r. after_leased_put-leased w (put sha256 os w.store r);
  release_counts = λ w h. omega arith;
  commit_counts = λ w d. refl;
}
