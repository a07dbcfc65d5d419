-- ===== src/Postgres/Delivery/Recipients.antt =====
-- The recipients of a valid delivery: none stands there twice.
use mailwisp.Common.{
  then_ok, ℕ, ◌+◌, ◌≤◌, ◌≡◌, refl, sym, ◌∙◌, ap, inl, inr, Bool, true, false, not, some, List, [],
  ◌∷◌, Bytes, bytes_eq, bytes_eq_iff, bytes_eq_refl, invalid_delivery, guard, ◌==◌, ok, length, All,
  ltb, if◌then◌else◌, Bool-cases, arith,
}
use mailwisp.Message.Delivery.{
  Delivery, seen_before, validate_recipients, validate_envelope, validate_ref, validate,
}
use mailwisp.Postgres.Delivery.{Engine, parse_recipients, is_uuid}

-- How often an inbox stands among the recipients.
abbrev pub occurrences : Bytes → List Bytes → ℕ
occurrences id [] = 0
occurrences id (r ∷ rs) = (if bytes_eq r id then 1 else 0) + occurrences id rs

-- Recipients as an ingress resolves them: canonical texts of UUIDs.
abbrev pub Canonical : Engine → List Bytes → Type 0
Canonical engine = All (λ r. engine.parse_uuid r ≡ some r)

-- What validateEnvelope has tested of the first recipient.
pub first_valid :
    (is_id : Bytes → Bool) (seen : List Bytes) (r : Bytes) (rs : List Bytes)
    → validate_recipients is_id seen (r ∷ rs) ≡ ok tt
    → (seen_before r seen ≡ false) × (validate_recipients is_id (r ∷ seen) rs ≡ ok tt)
unfolding validate_recipients
first_valid is_id seen r rs h = ground arith

pub absent :
    (is_id : Bytes → Bool) (id : Bytes) (seen rs : List Bytes)
    → validate_recipients is_id seen rs ≡ ok tt
    → seen_before id seen ≡ true
    → occurrences id rs ≡ 0
unfolding validate_recipients
absent is_id id seen [] h s = refl
absent is_id id seen (r ∷ rs) h s =
    let (fresh, rest) = first_valid is_id seen r rs h in
    elim (Bool-cases (bytes_eq r id)) [
      | inl same ↦ absurd (
          true-false
            (sym s ∙ (ap (λ x. seen_before x seen) (sym ((bytes_eq_iff r id).0 same)) ∙ fresh)))
      | inr other ↦ rw other (
          ap (λ n. 0 + n) (absent is_id id (r ∷ seen) rs rest (rw (seen_before, s) (ground arith))))
    ]
  where
    true-false : true ≡ false → ⊥
    true-false e = ground arith

pub once :
    (is_id : Bytes → Bool) (id : Bytes) (seen rs : List Bytes)
    → validate_recipients is_id seen rs ≡ ok tt
    → occurrences id rs ≤ 1
unfolding validate_recipients
once is_id id seen [] h = omega arith
once is_id id seen (r ∷ rs) h =
    let (fresh, rest) = first_valid is_id seen r rs h in
    elim (Bool-cases (bytes_eq r id)) [
      | inl same ↦
          let again : seen_before id (r ∷ seen) ≡ true =
            rw (seen_before, (bytes_eq_iff r id).0 same, bytes_eq_refl id) refl in
          rw same (omega (arith, absent is_id id (r ∷ seen) rs rest again))
      | inr other ↦ rw other (omega (arith, once is_id id (r ∷ seen) rs rest))
    ]

pub parse_recipients-Canonical :
    (engine : Engine) (rs : List Bytes)
    → Canonical engine rs
    → parse_recipients engine.parse_uuid rs ≡ ok rs
unfolding parse_recipients
parse_recipients-Canonical engine [] h = refl
parse_recipients-Canonical engine (r ∷ rs) h =
    rw (h.0, parse_recipients-Canonical engine rs h.1) refl

pub once_valid :
    (engine : Engine) (d : Delivery) (id : Bytes)
    → validate (is_uuid engine) d ≡ ok tt
    → occurrences id d.recipients ≤ 1
unfolding validate validate_envelope
once_valid engine d id h =
    let (_, h₁) = then_ok (validate_ref d.content) _ h in
    let (_, h₂) = then_ok (guard (not (d.received_at == 0)) invalid_delivery) _ h₁ in
    let (_, h₃) =
      then_ok (guard (not (ltb 320 (length d.envelope_sender))) invalid_delivery) _ h₂ in
    let (_, h₄) = then_ok (guard (not (length d.recipients == 0)) invalid_delivery) _ h₃ in
    once (is_uuid engine) id [] d.recipients h₄
