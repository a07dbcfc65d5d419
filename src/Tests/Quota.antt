-- ===== src/Tests/Quota.antt =====
-- Examples for the daily quota.
use mailwisp.Common.{
  ℕ, ◌+◌, ◌≤◌, ◌<◌, ◌≡◌, refl, ◌⊎◌, false, Bool, Option, none, some, [], ◌∷◌, Bytes, codes,
  daily_create_quota_exceeded, arith,
}
use mailwisp.Abuse.{Service, identity_digest, consume, consume_parsed}
use mailwisp.Postgres.CreateQuota.{
  QuotaRow, cleanup_stale, upsert, after_upsert, consume_in, consume_inbox_create,
}
use mailwisp.Postgres.CreateQuota.Daily.{
  World, creates_of, admits, refuses, Reaches, here, next, creates-at_most,
}
use mailwisp.Postgres.CreateQuota.Decision.{calm, outcome, used_today, consume-decides}

-- Every address is its own bytes, and the digest is the key and the message.
abbrev parse : Bytes → Option Bytes
parse s = some s

abbrev mac : Bytes → Bytes → Bytes
mac key s = s

abbrev once_a_day : Service
once_a_day = record { key = codes "k"; daily_limit = 1 }

abbrev nobody_locks : QuotaRow → Bool
nobody_locks r = false

abbrev noon : ℕ
noon = 907200000000000

abbrev start : World
start = record { table = []; latest = 0; creates = [] }

abbrev client : Bytes
client = codes "c"

abbrev identity : Bytes
identity = identity_digest mac once_a_day client

abbrev row : QuotaRow
row = record { identity_digest = identity; bucket_date = 10; used = 1 }

-- A first create is admitted, a second on the same day is not.
abbrev after_two : World
after_two = record { table = row ∷ []; latest = 10; creates = (identity, 10) ∷ [] }

twice : Reaches parse mac once_a_day start after_two
unfolding consume consume_parsed consume_inbox_create consume_in after_upsert upsert cleanup_stale
twice =
    next (next here (admits start (calm nobody_locks) noon client client (omega arith) refl refl))
      (refuses after_two (calm nobody_locks) none noon client daily_create_quota_exceeded refl)

creates-at_most_example : creates_of identity 10 after_two.creates ≤ 1
creates-at_most_example =
    creates-at_most parse mac once_a_day start after_two identity 10 refl refl twice

consume-decides_example :
    ((used_today parse mac nobody_locks once_a_day (row ∷ []) noon client < 1)
      × ((outcome parse mac nobody_locks once_a_day (row ∷ []) noon client client).2 ≡ none)
      × ((outcome parse mac nobody_locks once_a_day (row ∷ []) noon client client).1.remaining
            + used_today parse mac nobody_locks once_a_day (row ∷ []) noon client
            + 1
          ≡ 1))
    ⊎ ((1 ≤ used_today parse mac nobody_locks once_a_day (row ∷ []) noon client)
        × ((outcome parse mac nobody_locks once_a_day (row ∷ []) noon client client).2
            ≡ some daily_create_quota_exceeded)
        × ((outcome parse mac nobody_locks once_a_day (row ∷ []) noon client client).1.remaining
            ≡ 0)
        × ((outcome parse mac nobody_locks once_a_day (row ∷ []) noon client client).0 ≡ row ∷ []))
consume-decides_example =
    consume-decides parse mac nobody_locks once_a_day (row ∷ []) noon client client (omega arith)
      refl
