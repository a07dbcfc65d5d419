-- ===== src/Postgres/CreateQuota/Limit.antt =====
-- What the quota promises.
use mailwisp.Common.{
  ℕ, ◌+◌, ◌/◌, ◌%◌, ◌≤◌, ◌≡◌, refl, sym, ◌∙◌, subst, inl, inr, true, false, not, ◌&&◌, ◌||◌, Option,
  none, some, List, [], ◌∷◌, Bytes, bytes_eq, bytes_eq_iff, bytes_eq_refl, ==_refl, Error,
  daily_create_quota_exceeded, if_cases, Bool-cases, ltb, ◌==◌, if◌then◌else◌, arith,
}
use mailwisp.Abuse.{Time, nanoseconds_per_day}
use mailwisp.Postgres.CreateQuota.{
  QuotaRow, Engine, is_stale, count_before, cleanup_stale, is_bucket, upsert, behind, after_upsert,
  unless_failing, consume_in, consume_inbox_create, stale_create_quota_cleanup_batch,
}

-- The count of a bucket in the table, 0 where it has no row
abbrev pub used_in : Bytes → ℕ → List QuotaRow → ℕ
used_in digest day [] = 0
used_in digest day (r ∷ rs) = if is_bucket digest day r then r.used else used_in digest day rs

-- Stale rows go, the count of a day within two days of today stays.
pub used_in-cleanup :
    (engine : Engine) (today : ℕ) (table : List QuotaRow) (digest : Bytes) (day : ℕ)
    (rows : List QuotaRow)
    → today ≤ day + 2
    → used_in digest day (cleanup_stale engine today table rows) ≡ used_in digest day rows
unfolding cleanup_stale
used_in-cleanup engine today table digest day [] recent = refl
used_in-cleanup engine today table digest day (r ∷ rs) recent =
    let kept = used_in-cleanup engine today table digest day rs recent in
    if_cases (λ l. used_in digest day l ≡ used_in digest day (r ∷ rs))
      (is_stale engine today r
        && ltb (count_before engine today r table) stale_create_quota_cleanup_batch)
      (λ stale. let other : is_bucket digest day r ≡ false = ground arith in kept ∙ rw other refl)
      (λ _. elim (Bool-cases (is_bucket digest day r)) [
        | inl this ↦ rw this refl
        | inr other ↦ rw other kept
      ])

-- 1 for the bucket of a digest and a day, 0 for all others
abbrev pub hit : Bytes → ℕ → Bytes → ℕ → ℕ
hit digest day d t = if day == t && bytes_eq digest d then 1 else 0

-- What an upsert that returns a row has done: it has counted one more in its bucket, within the limit.
pub record Counted (digest : Bytes) (day limit : ℕ) (rows rows' : List QuotaRow) (used : ℕ)
    : Type 0 where
  pub one_more : used ≡ used_in digest day rows + 1
  pub within : used ≤ limit
  pub counts : (d : Bytes) (t : ℕ) → used_in d t rows' ≡ hit digest day d t + used_in d t rows

some-injective : {A : Type 0} {a b : A} → some a ≡ some b → a ≡ b
some-injective {A} {a} {b} e = subst (λ o. at_some a o) e refl
  where
    at_some : A → Option A → Type 0
    at_some x (some y) = x ≡ y
    at_some x none = ⊥

pub is_bucket-key :
    (digest : Bytes) (day : ℕ) (r : QuotaRow)
    → is_bucket digest day r ≡ true
    → (r.bucket_date ≡ day) × (r.identity_digest ≡ digest)
is_bucket-key digest day r h =
    let same_digest : bytes_eq r.identity_digest digest ≡ true = ground arith in
    (ground arith, (bytes_eq_iff r.identity_digest digest).0 same_digest)

bucket_of_key :
    (digest : Bytes) (day : ℕ) (r : QuotaRow)
    → r.bucket_date ≡ day
    → r.identity_digest ≡ digest
    → is_bucket digest day r ≡ true
bucket_of_key digest day r on_day of_digest =
    rw (on_day, of_digest, ==_refl day, bytes_eq_refl digest) refl

behind-Counted :
    (digest : Bytes) (day limit : ℕ) (r : QuotaRow) (rs rs' : List QuotaRow) (used : ℕ)
    → is_bucket digest day r ≡ false
    → Counted digest day limit rs rs' used
    → Counted digest day limit (r ∷ rs) (r ∷ rs') used
behind-Counted digest day limit r rs rs' used other counted = record {
  one_more = counted.one_more ∙ rw other refl;
  within = counted.within;
  counts = λ d t. elim (Bool-cases (is_bucket d t r)) [
    | inl this ↦ rw this (zero_hit d t this)
    | inr another ↦ rw another (counted.counts d t)
  ];
}
  where
    zero_hit : (d : Bytes) (t : ℕ) → is_bucket d t r ≡ true → r.used ≡ hit digest day d t + r.used
    zero_hit d t this = elim (Bool-cases (day == t && bytes_eq digest d)) [
      | inl hits ↦ absurd (
          let (on_day, of_digest) = is_bucket-key d t r this in
          let (same_day, same_digest) =
            is_bucket-key d t (record { identity_digest = digest; bucket_date = day; used = 0 })
              hits in
          let is_it =
            bucket_of_key digest day r (on_day ∙ sym same_day) (of_digest ∙ sym same_digest) in
          ground (arith, is_it, other))
      | inr misses ↦ rw misses (omega arith)
    ]

upsert-Counted :
    (digest : Bytes) (day limit : ℕ) (rows rows' : List QuotaRow) (used : ℕ)
    → 1 ≤ limit
    → upsert digest day limit rows ≡ some (rows', used)
    → Counted digest day limit rows rows' used
unfolding upsert
upsert-Counted digest day limit [] rows' used positive h =
    let same_result = some-injective h in
    subst (λ p. Counted digest day limit [] p.0 p.1) same_result
      (record { one_more = refl; within = positive; counts = λ d t. omega arith })
upsert-Counted digest day limit (r ∷ rs) rows' used positive h =
    elim (Bool-cases (is_bucket digest day r)) [
      | inl this ↦ elim (Bool-cases (ltb r.used limit)) [
        | inl below ↦
            subst (λ p. Counted digest day limit (r ∷ rs) p.0 p.1)
              (some-injective (rw (this, below) at h))
              (record {
                one_more = rw this refl;
                within = ground arith;
                counts = λ d t. hit_first d t this;
              })
        | inr full ↦ absurd (none-ne-some (rw (this, full) at h))
      ]
      | inr other ↦
          later (upsert digest day limit rs)
            (λ rs' u e. upsert-Counted digest day limit rs rs' u positive e) other (rw other at h)
    ]
  where
    none-ne-some : {p : List QuotaRow × ℕ} → none ≡ some p → ⊥
    none-ne-some e = ground arith

    hit_first :
        (d : Bytes) (t : ℕ)
        → is_bucket digest day r ≡ true
        → used_in d t (record r { used = r.used + 1 } ∷ rs)
          ≡ hit digest day d t + used_in d t (r ∷ rs)
    hit_first d t this =
        let (on_day, of_digest) = is_bucket-key digest day r this in
        rw (on_day, of_digest)
          (elim (Bool-cases (day == t && bytes_eq digest d)) [
            | inl hits ↦ rw hits (omega arith)
            | inr misses ↦ rw misses (omega arith)
          ])

    later :
        (rest : Option (List QuotaRow × ℕ))
        → ((rs' : List QuotaRow) (u : ℕ) → rest ≡ some (rs', u) → Counted digest day limit rs rs' u)
        → is_bucket digest day r ≡ false
        → behind r rest ≡ some (rows', used)
        → Counted digest day limit (r ∷ rs) rows' used
    later none counted other at = absurd (none-ne-some at)
    later (some (rs', u)) counted other at =
        subst (λ p. Counted digest day limit (r ∷ rs) p.0 p.1) (some-injective at)
          (behind-Counted digest day limit r rs rs' u other (counted rs' u refl))

-- How ConsumeInboxCreate ends: it has counted one more, and no error; or it has left the table, and an error.
pub data Settled (engine : Engine) (table : List QuotaRow) (digest : Bytes) (day limit : ℕ)
    (p : List QuotaRow × ℕ × Option Error) : Type 0 where
  admitted :
      p.2 ≡ none
      → Counted digest day limit (cleanup_stale engine day table table) p.0 p.1
      → Settled engine table digest day limit p
  refused : (e : Error) → p.2 ≡ some e → p.0 ≡ table → Settled engine table digest day limit p

module _ (engine : Engine) (table : List QuotaRow) (digest : Bytes) (day limit : ℕ) where
  unless_failing-Settled :
      (x : Option Error) (p : List QuotaRow × ℕ × Option Error)
      → Settled engine table digest day limit p
      → Settled engine table digest day limit (unless_failing x table p)
  unless_failing-Settled none p settled = settled
  unless_failing-Settled (some e) p settled = refused e refl refl

  after_upsert-Settled :
      (r : Option (List QuotaRow × ℕ)) (fails : Option Error)
      → 1 ≤ limit
      → upsert digest day limit (cleanup_stale engine day table table) ≡ r
      → Settled engine table digest day limit (after_upsert table limit r fails)
  unfolding after_upsert
  after_upsert-Settled none fails positive e = refused daily_create_quota_exceeded refl refl
  after_upsert-Settled (some (rows, used)) (some stop) positive e = refused stop refl refl
  after_upsert-Settled (some (rows, used)) none positive e =
      admitted refl (upsert-Counted digest day limit _ rows used positive e)

  consume_in-Settled :
      1 ≤ limit → Settled engine table digest day limit (consume_in engine table digest day limit)
  unfolding consume_in
  consume_in-Settled positive = unless_failing-Settled engine.begin_fails _ (
      unless_failing-Settled engine.cleanup_fails _ (
        unless_failing-Settled engine.query_fails _
          (after_upsert-Settled _ engine.commit_fails positive refl)))

pub consume_inbox_create-Settled :
    (engine : Engine) (table : List QuotaRow) (digest : Bytes) (bucket : Time) (limit : ℕ)
    → Settled engine table digest
        (bucket.instant / nanoseconds_per_day)
        limit
        (consume_inbox_create engine table digest bucket limit)
unfolding consume_inbox_create
consume_inbox_create-Settled engine table digest bucket limit =
    if_cases (Settled engine table digest (bucket.instant / nanoseconds_per_day) limit)
      (not bucket.utc || not (bucket.instant % nanoseconds_per_day == 0) || limit == 0)
      (λ _. refused _ refl refl)
      (λ valid. consume_in-Settled engine table digest _ limit (ground (arith, valid)))
