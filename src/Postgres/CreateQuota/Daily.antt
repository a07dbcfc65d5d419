-- ===== src/Postgres/CreateQuota/Daily.antt =====
-- The quota over days: the service of internal/abuse/create_quota.go on the repository of
-- internal/postgres/create_quota_repository.go.
use mailwisp.Common.{
  ℕ, ◌+◌, ◌/◌, ◌≤◌, ◌≡◌, refl, sym, ◌∙◌, ap, subst, inl, inr, ◌&&◌, Option, none, some, List, [],
  ◌∷◌, Bytes, bytes_eq, Error, Bool-cases, ltb, ◌==◌, if◌then◌else◌, arith,
}
use mailwisp.Abuse.{
  Service, nanoseconds_per_day, bucket_of, identity_digest, consume, consume_parsed,
}
use mailwisp.Postgres.CreateQuota.{QuotaRow, Engine, cleanup_stale, repository_of}
use mailwisp.Postgres.CreateQuota.Limit.{
  used_in, used_in-cleanup, hit, Counted, Settled, admitted, refused, is_bucket-key,
  consume_inbox_create-Settled,
}

-- The table, the last day that a create was admitted on, and the creates that were admitted, each with its
-- identity and its day.
pub record World : Type 0 where
  pub table : List QuotaRow
  pub latest : ℕ
  pub creates : List (Bytes × ℕ)

-- The creates of an identity on a day
abbrev pub creates_of : Bytes → ℕ → List (Bytes × ℕ) → ℕ
creates_of d t [] = 0
creates_of d t (c ∷ cs) = hit c.0 c.1 d t + creates_of d t cs

abbrev pub later_day : ℕ → ℕ → ℕ
later_day a b = if ltb a b then b else a

abbrev pub day_of : ℕ → ℕ
day_of now = (bucket_of now).instant / nanoseconds_per_day

module _ (parse_ip : Bytes → Option Bytes) (hmac : Bytes → Bytes → Bytes) (service : Service) where
  -- A call of Consume, by any of the processes of the program. Their clocks differ by at most two days.
  pub data Step : World → World → Type 0 where
    admits :
        (w : World) (engine : Engine) (now : ℕ) (address ip : Bytes)
        → w.latest ≤ day_of now + 2
        → parse_ip address ≡ some ip
        → (consume parse_ip hmac (repository_of engine) service w.table none now address).2 ≡ none
        → Step w (record {
          table = (consume parse_ip hmac (repository_of engine) service w.table none now address).0;
          latest = later_day w.latest (day_of now);
          creates = (identity_digest hmac service ip, day_of now) ∷ w.creates;
        })
    refuses :
        (w : World) (engine : Engine) (cancelled : Option Error) (now : ℕ) (address : Bytes)
        (e : Error)
        → (consume parse_ip hmac (repository_of engine) service w.table cancelled now address).2
          ≡ some e
        → Step w (record w {
          table =
              (consume parse_ip hmac
                (repository_of engine)
                service
                w.table
                cancelled
                now
                address).0;
        })

  pub data Reaches (start : World) : World → Type 0 where
    here : Reaches start start
    next : {v w : World} → Reaches start v → Step v w → Reaches start w

  -- No identity has more than the limit on any day, and the table has the counts of the days that still matter.
  record Limited (w : World) : Type 0 where
    at_most : (d : Bytes) (t : ℕ) → creates_of d t w.creates ≤ service.daily_limit
    recorded :
        (d : Bytes) (t : ℕ) → w.latest ≤ t + 2 → used_in d t w.table ≡ creates_of d t w.creates

  admit-Limited :
      (w : World) (engine : Engine) (day : ℕ) (digest : Bytes) (rows : List QuotaRow) (used : ℕ)
      → w.latest ≤ day + 2
      → Counted digest day service.daily_limit (cleanup_stale engine day w.table w.table) rows used
      → Limited w
      → Limited record {
        table = rows;
        latest = later_day w.latest day;
        creates = (digest, day) ∷ w.creates;
      }
  admit-Limited w engine day digest rows used recent counted limited =
      let kept = λ (d : Bytes) (t : ℕ) (near : day ≤ t + 2).
        used_in-cleanup engine day w.table d t w.table near in
      record {
        at_most = λ d t. elim (Bool-cases (day == t && bytes_eq digest d)) [
          | inl hits ↦
              let (same_day, same_digest) =
                is_bucket-key d t (record { identity_digest = digest; bucket_date = day; used = 0 })
                  hits in
              let left = cleanup_stale engine day w.table w.table in
              rw hits (
                omega (
                  arith,
                  counted.within,
                  counted.one_more,
                  ap (λ x. used_in x day left) same_digest,
                  ap (λ x. used_in d x left) same_day,
                  kept d t (omega (arith, same_day)),
                  limited.recorded d t (omega (arith, same_day, recent)),
                ))
          | inr misses ↦ rw misses (omega (arith, limited.at_most d t))
        ];
        recorded = λ d t near.
            counted.counts d t
            ∙ ap (λ n. hit digest day d t + n)
                (kept d t (ground (arith, near)) ∙ limited.recorded d t (ground (arith, near)));
      }

  admits-Limited :
      (w : World) (engine : Engine) (now : ℕ) (ip : Bytes) (p : List QuotaRow × ℕ × Option Error)
      → w.latest ≤ day_of now + 2
      → Settled engine w.table (identity_digest hmac service ip) (day_of now) service.daily_limit p
      → p.2 ≡ none
      → Limited w
      → Limited record {
        table = p.0;
        latest = later_day w.latest (day_of now);
        creates = (identity_digest hmac service ip, day_of now) ∷ w.creates;
      }
  admits-Limited w engine now ip p recent (admitted _ counted) done limited =
      admit-Limited w engine (day_of now) (identity_digest hmac service ip) p.0 p.1 recent counted
        limited
  admits-Limited w engine now ip p recent (refused e at _) done limited =
      absurd (none-ne-some (sym done ∙ at))
    where
      none-ne-some : none ≡ some e → ⊥
      none-ne-some h = ground arith

  refuses-same :
      (table : List QuotaRow) (engine : Engine) (digest : Bytes) (day : ℕ)
      (p : List QuotaRow × ℕ × Option Error) (e : Error)
      → Settled engine table digest day service.daily_limit p
      → p.2 ≡ some e
      → p.0 ≡ table
  refuses-same table engine digest day p e (admitted done _) at =
      absurd (none-ne-some (sym done ∙ at))
    where
      none-ne-some : none ≡ some e → ⊥
      none-ne-some h = ground arith
  refuses-same table engine digest day p e (refused _ _ same_table) at = same_table

  parsed-same :
      (table : List QuotaRow) (engine : Engine) (now : ℕ) (ip : Option Bytes) (e : Error)
      → (consume_parsed parse_ip hmac (repository_of engine) service table now ip).2 ≡ some e
      → (consume_parsed parse_ip hmac (repository_of engine) service table now ip).0 ≡ table
  unfolding consume_parsed
  parsed-same table engine now none e at = refl
  parsed-same table engine now (some ip) e at =
      refuses-same table engine _ _ _ e
        (consume_inbox_create-Settled engine table (identity_digest hmac service ip) (bucket_of now)
          service.daily_limit)
        at

  step-Limited : (v w : World) → Limited v → Step v w → Limited w
  unfolding consume consume_parsed
  step-Limited v w limited (admits _ engine now address ip recent parsed done) = rw parsed (
      admits-Limited v engine now ip _ recent
        (consume_inbox_create-Settled engine v.table (identity_digest hmac service ip)
          (bucket_of now) service.daily_limit)
        (rw parsed at done) limited)
  step-Limited v w limited (refuses _ engine (some c) now address e done) = limited
  step-Limited v w limited (refuses _ engine none now address e done) =
      subst (λ table. Limited record { table = table; latest = v.latest; creates = v.creates })
        (sym (parsed-same v.table engine now (parse_ip address) e done)) limited

  run-Limited : (v w : World) → v.table ≡ [] → v.creates ≡ [] → Reaches v w → Limited w
  run-Limited v w no_rows no_creates here = record {
    at_most = λ d t. rw no_creates (omega arith);
    recorded = λ d t _. rw (no_rows, no_creates) refl;
  }
  run-Limited v w no_rows no_creates (next {v = m} run step) =
      step-Limited m w (run-Limited v m no_rows no_creates run) step

  -- From an empty table on, through any calls of Consume by processes whose clocks differ by at most two days, and whatever
  -- the database refuses, locks or cleans up: no identity has been admitted more often on a UTC day than the limit.
  pub creates-at_most :
      (v w : World) (digest : Bytes) (day : ℕ)
      → v.table ≡ []
      → v.creates ≡ []
      → Reaches v w
      → creates_of digest day w.creates ≤ service.daily_limit
  creates-at_most v w digest day no_rows no_creates run =
      (run-Limited v w no_rows no_creates run).at_most digest day
