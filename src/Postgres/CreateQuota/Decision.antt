-- ===== src/Postgres/CreateQuota/Decision.antt =====
-- What Consume decides when nothing fails.
use mailwisp.Common.{
  ℕ, ◌+◌, ◌-◌, ◌/◌, ◌%◌, ◌≤◌, ◌<◌, ◌≡◌, refl, ◌⊎◌, inl, inr, Bool, true, false, Option, none, some,
  List, [], ◌∷◌, Bytes, Error, daily_create_quota_exceeded, Bool-cases, ltb, ◌==◌, arith,
}
use mailwisp.Abuse.{
  Service, Decision, nanoseconds_per_day, bucket_of, identity_digest, consume, consume_parsed,
}
use mailwisp.Postgres.CreateQuota.{
  QuotaRow, Engine, cleanup_stale, is_bucket, upsert, after_upsert, consume_in,
  consume_inbox_create, repository_of,
}
use mailwisp.Postgres.CreateQuota.Daily.{day_of}
use mailwisp.Postgres.CreateQuota.Limit.{used_in, used_in-cleanup}

-- A database on which nothing fails, with these rows locked.
abbrev pub calm : (QuotaRow → Bool) → Engine
calm locked = record {
  locked = locked;
  begin_fails = none;
  cleanup_fails = none;
  query_fails = none;
  commit_fails = none;
}

upsert-below :
    (digest : Bytes) (day limit : ℕ) (rows : List QuotaRow)
    → used_in digest day rows < limit
    → (rows' : List QuotaRow) × (upsert digest day limit rows
        ≡ some (rows', used_in digest day rows + 1))
unfolding upsert
upsert-below digest day limit [] below = (_, refl)
upsert-below digest day limit (r ∷ rs) below = elim (Bool-cases (is_bucket digest day r)) [
  | inl this ↦
      let below_limit : ltb r.used limit ≡ true = ground (arith, this, below) in
      (record r { used = r.used + 1 } ∷ rs, rw (this, below_limit) refl)
  | inr other ↦
      let (rs', e) = upsert-below digest day limit rs (rw other at below) in
      (r ∷ rs', rw (other, e) refl)
]

upsert-full :
    (digest : Bytes) (day limit : ℕ) (rows : List QuotaRow)
    → 1 ≤ limit
    → limit ≤ used_in digest day rows
    → upsert digest day limit rows ≡ none
unfolding upsert
upsert-full digest day limit [] positive full = absurd (omega arith)
upsert-full digest day limit (r ∷ rs) positive full = elim (Bool-cases (is_bucket digest day r)) [
  | inl this ↦
      let no_room : ltb r.used limit ≡ false = ground (arith, this, full) in rw (this, no_room) refl
  | inr other ↦ rw (other, upsert-full digest day limit rs positive (rw other at full)) refl
]

module _ (parse_ip : Bytes → Option Bytes) (hmac : Bytes → Bytes → Bytes) (locked : QuotaRow → Bool)
    (service : Service) (table : List QuotaRow) (now : ℕ) (ip : Bytes) where
  -- The creates of the client on this day
  abbrev pub used_today : ℕ
  used_today = used_in (identity_digest hmac service ip) (day_of now) table

  -- What Consume returns to the client
  abbrev pub outcome : Bytes → List QuotaRow × Decision × Option Error
  outcome address =
      consume parse_ip hmac (repository_of (calm locked)) service table none now address

  consume_in-eq :
      1 ≤ service.daily_limit
      → consume_inbox_create
          (calm locked)
          table
          (identity_digest hmac service ip)
          (bucket_of now)
          service.daily_limit
        ≡ consume_in
            (calm locked)
            table
            (identity_digest hmac service ip)
            ((bucket_of now).instant / nanoseconds_per_day)
            service.daily_limit
  unfolding consume_inbox_create
  consume_in-eq positive = rw (aligned, some_limit service.daily_limit positive) refl
    where
      aligned : ((now - now % nanoseconds_per_day) % nanoseconds_per_day == 0) ≡ true
      aligned =
          let on_midnight : (now - now % nanoseconds_per_day) % nanoseconds_per_day ≡ 0 =
            omega arith in
          rw on_midnight refl

      some_limit : (n : ℕ) → 1 ≤ n → (n == 0) ≡ false
      some_limit n h = ground arith

  -- What is counted after the cleanup is what was counted before it.
  after_cleanup :
      used_in
        (identity_digest hmac service ip)
        (day_of now)
        (cleanup_stale (calm locked) (day_of now) table table)
      ≡ used_today
  after_cleanup =
      used_in-cleanup (calm locked) (day_of now) table (identity_digest hmac service ip)
        (day_of now) table (omega arith)

  -- When nothing fails, the limit is positive and the address is an IP address, a client with fewer creates on the
  -- UTC day than the limit is admitted, and told how many remain; any other is refused with ErrDailyCreateQuotaExceeded, none remaining, and the table is left as it is.
  pub consume-decides :
      (address : Bytes)
      → 1 ≤ service.daily_limit
      → parse_ip address ≡ some ip
      → ((used_today < service.daily_limit)
          × ((outcome address).2 ≡ none)
          × ((outcome address).1.remaining + used_today + 1 ≡ service.daily_limit))
        ⊎ ((service.daily_limit ≤ used_today)
            × ((outcome address).2 ≡ some daily_create_quota_exceeded)
            × ((outcome address).1.remaining ≡ 0)
            × ((outcome address).0 ≡ table))
  unfolding consume consume_parsed consume_in after_upsert
  consume-decides address positive parsed = elim (Bool-cases (ltb used_today service.daily_limit)) [
    | inl below ↦
        let (rows, e) =
          upsert-below (identity_digest hmac service ip) (day_of now) service.daily_limit
            (cleanup_stale (calm locked) (day_of now) table table)
            (rw after_cleanup (ground (arith, below))) in
        inl (
          ground (arith, below),
          rw (parsed, consume_in-eq positive, e) refl,
          rw (parsed, consume_in-eq positive, e, after_cleanup) (ground (arith, below)),
        )
    | inr full ↦
        let e =
          upsert-full (identity_digest hmac service ip) (day_of now) service.daily_limit
            (cleanup_stale (calm locked) (day_of now) table table) positive
            (rw after_cleanup (ground (arith, full))) in
        inr (
          ground (arith, full),
          rw (parsed, consume_in-eq positive, e) refl,
          rw (parsed, consume_in-eq positive, e) (omega arith),
          rw (parsed, consume_in-eq positive, e) refl,
        )
  ]
