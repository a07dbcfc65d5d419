-- ===== src/Postgres/CreateQuota.antt =====
-- internal/postgres/create_quota_repository.go: the table is a list of rows with distinct keys, in any order, and a
-- date is the number of days since the zero time. A failure rolls the transaction back.
pub mod Limit
pub mod Daily
pub mod Decision
use mailwisp.Common.{
  ℕ, ◌+◌, ◌-◌, ◌/◌, ◌%◌, Bool, true, false, not, ◌&&◌, ◌||◌, Option, none, some, List, [], ◌∷◌,
  Bytes, codes, bytes_eq, Error, text, daily_create_quota_exceeded, ltb, ◌==◌, if◌then◌else◌,
}
use mailwisp.Abuse.{Time, Repository, nanoseconds_per_day}

pub record QuotaRow : Type 0 where
  pub identity_digest : Bytes
  pub bucket_date : ℕ
  pub used : ℕ

-- What PostgreSQL answers beyond the table: which rows another transaction has locked, and failures.
pub record Engine : Type 0 where
  pub locked : QuotaRow → Bool
  pub begin_fails : Option Error
  pub cleanup_fails : Option Error
  pub query_fails : Option Error
  pub commit_fails : Option Error

abbrev pub stale_create_quota_cleanup_batch : ℕ
stale_create_quota_cleanup_batch = 100

-- The order of bytea
abbrev pub bytes_ltb : Bytes → Bytes → Bool
bytes_ltb s [] = false
bytes_ltb [] (d ∷ t) = true
bytes_ltb (c ∷ s) (d ∷ t) = ltb c d || c == d && bytes_ltb s t

-- ORDER BY bucket_date, identity_digest
abbrev pub precedes : QuotaRow → QuotaRow → Bool
precedes r q =
    ltb r.bucket_date q.bucket_date
    || r.bucket_date == q.bucket_date && bytes_ltb r.identity_digest q.identity_digest

-- The rows that the subquery `stale` selects before LIMIT
abbrev pub is_stale : Engine → ℕ → QuotaRow → Bool
is_stale engine today r = ltb (r.bucket_date + 2) today && not (engine.locked r)

abbrev pub count_before : Engine → ℕ → QuotaRow → List QuotaRow → ℕ
count_before engine today r [] = 0
count_before engine today r (q ∷ qs) =
    (if is_stale engine today q && precedes q r then 1 else 0) + count_before engine today r qs

-- DELETE of the first stale rows; `table` is what the subquery sees.
unfoldable pub cleanup_stale : Engine → ℕ → List QuotaRow → List QuotaRow → List QuotaRow
cleanup_stale engine today table [] = []
cleanup_stale engine today table (r ∷ rs) =
    let rest = cleanup_stale engine today table rs in
    if is_stale engine today r
      && ltb (count_before engine today r table) stale_create_quota_cleanup_batch
    then rest
    else r ∷ rest

abbrev pub is_bucket : Bytes → ℕ → QuotaRow → Bool
is_bucket digest day r = r.bucket_date == day && bytes_eq r.identity_digest digest

-- The row of the key among those behind another row
abbrev pub behind : QuotaRow → Option (List QuotaRow × ℕ) → Option (List QuotaRow × ℕ)
behind r none = none
behind r (some (rows, used)) = some (r ∷ rows, used)

-- INSERT … ON CONFLICT DO UPDATE … RETURNING used, `none` for no row
unfoldable pub upsert : Bytes → ℕ → ℕ → List QuotaRow → Option (List QuotaRow × ℕ)
upsert digest day limit [] =
    some (record { identity_digest = digest; bucket_date = day; used = 1 } ∷ [], 1)
upsert digest day limit (r ∷ rs) =
    let rest = upsert digest day limit rs in
    if is_bucket digest day r
    then if ltb r.used limit then some (record r { used = r.used + 1 } ∷ rs, r.used + 1) else none
    else behind r rest

abbrev pub invalid_request : Error
invalid_request = text (codes "create quota request is invalid")

-- From the upsert on; `table` is what a rollback leaves.
unfoldable pub after_upsert :
    List QuotaRow → ℕ → Option (List QuotaRow × ℕ) → Option Error → List QuotaRow × ℕ × Option Error
after_upsert table limit none fails = (table, limit, some daily_create_quota_exceeded)
after_upsert table limit (some _) (some e) = (table, 0, some e)
after_upsert table limit (some (rows, used)) none = (rows, used, none)

abbrev pub unless_failing :
    Option Error
    → List QuotaRow
    → List QuotaRow × ℕ × Option Error
    → List QuotaRow × ℕ × Option Error
unless_failing (some e) table go_on = (table, 0, some e)
unless_failing none table go_on = go_on

unfoldable pub consume_in :
    Engine → List QuotaRow → Bytes → ℕ → ℕ → List QuotaRow × ℕ × Option Error
unfolding cleanup_stale upsert after_upsert
consume_in engine table digest day limit = unless_failing engine.begin_fails table (
    unless_failing engine.cleanup_fails table (
      unless_failing engine.query_fails table (
        after_upsert table limit (upsert digest day limit (cleanup_stale engine day table table))
          engine.commit_fails)))

-- ConsumeInboxCreate: the table after it, the count, and the error
unfoldable pub consume_inbox_create :
    Engine → List QuotaRow → Bytes → Time → ℕ → List QuotaRow × ℕ × Option Error
unfolding consume_in
consume_inbox_create engine table digest bucket limit =
    if not bucket.utc || not (bucket.instant % nanoseconds_per_day == 0) || limit == 0
    then (table, 0, some invalid_request)
    else consume_in engine table digest (bucket.instant / nanoseconds_per_day) limit

abbrev pub repository_of : Engine → Repository (List QuotaRow)
repository_of engine = record { consume_inbox_create = consume_inbox_create engine }
