-- ===== src/App.antt =====
-- The receiver of internal/message over the content store and the delivery repository, as internal/app/app.go puts
-- them together. `leases` is the number of read locks on lifecycleMu that are held. The function that
-- PutLeased returns calls RUnlock once, however often it is called (once.Do); Receive calls it once.
pub mod Filing
pub mod Leases
pub mod Session
use mailwisp.Common.{ℕ, ◌+◌, ◌-◌, List, Option, none, some, Bytes, Error, Result, ok, err}
use mailwisp.Lmtp.DataReader.{DataReader}
use mailwisp.Message.Delivery.{ContentRef, Delivery, StoredMessage}
use mailwisp.Message.Receiver.{Stores}
use mailwisp.Postgres.Delivery.{DeliveryLimits, Engine, Database, commit_delivery}
use mailwisp.Contentstore.Capacity.{check_capacity}
use mailwisp.Contentstore.Store.{Store, Os, put}

pub record System : Type 0 where
  pub store : Store
  pub leases : ℕ
  pub database : Database

abbrev pub error_of_check : Result (Unit {0}) → Option Error
error_of_check (ok _) = none
error_of_check (err e) = some e

-- lifecycleMu.RLock and RUnlock
abbrev pub r_lock : System → System
r_lock w = record w { leases = w.leases + 1 }

abbrev pub r_unlock : System → System
r_unlock w = record w { leases = w.leases - 1 }

-- PutLeased after put: the lease is given back if put failed.
abbrev pub after_leased_put :
    System → Store × DataReader × Result ContentRef → System × DataReader × Result ContentRef
after_leased_put w (store, r, err e) = (r_unlock (record w { store = store }), r, err e)
after_leased_put w (store, r, ok ref) = (record w { store = store }, r, ok ref)

abbrev pub put_leased :
    (Bytes → Bytes) → Os → System → DataReader → System × DataReader × Result ContentRef
put_leased sha256 os w r = after_leased_put (r_lock w) (put sha256 os w.store r)

abbrev pub with_database :
    System → Database × Result (List StoredMessage) → System × Result (List StoredMessage)
with_database w (database, result) = (record w { database = database }, result)

-- store and repository, as message.NewReceiver takes them
abbrev pub stores_of : (Bytes → Bytes) → Os → DeliveryLimits → Engine → Stores System
stores_of sha256 os limits engine = record {
  check_capacity =
      λ w. (w, error_of_check (check_capacity w.store.capacity os.available os.cancelled));
  put_leased = put_leased sha256 os;
  release = r_unlock;
  commit_delivery = λ w d. with_database w (commit_delivery limits engine w.database d);
  now = λ w. engine.now;
}
