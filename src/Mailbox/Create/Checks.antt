-- ===== src/Mailbox/Create/Checks.antt =====
-- What Create has tested before it takes an address.
use mailwisp.Common.{
  ℕ, ◌≤◌, ◌≡◌, subst, Bool, true, false, not, ◌||◌, ℤ, pos, negsuc, invalid_domain,
  invalid_lifetime, invalid_local_part, ok, guard, then_ok, bind_ok, ok-injective, err-ne-ok,
  guard-ok, length, ltb, ◌==◌, if◌then◌else◌, arith,
}
use mailwisp.Message.Address.{valid_inbox_local_part}
use mailwisp.Mailbox.Create.{
  Service, CreateRequest, Checked, normalize, is_allowed, choose_domain, choose_lifetime,
  choose_local_part, check_create,
}

-- What check_create lets through
pub record Fits (service : Service) (c : Checked) : Type 0 where
  pub allowed : is_allowed c.domain service.domains ≡ true
  pub some_time : 1 ≤ c.lifetime
  pub at_most : c.lifetime ≤ service.max_ttl
  pub valid : (length c.local_part == 0) ≡ false → valid_inbox_local_part c.local_part ≡ true

choose_lifetime-bounds :
    (service : Service) (asked : ℤ) (lifetime : ℕ)
    → choose_lifetime service asked ≡ ok lifetime
    → (1 ≤ lifetime) × (lifetime ≤ service.max_ttl)
unfolding choose_lifetime
choose_lifetime-bounds service (negsuc n) lifetime h = absurd (err-ne-ok h)
choose_lifetime-bounds service (pos n) lifetime h =
    let chosen = if n == 0 then service.default_ttl else n in
    let (tested, same_lifetime) =
      then_ok (guard (not (chosen == 0 || ltb service.max_ttl chosen)) invalid_lifetime) _ h in
    subst (λ l. (1 ≤ l) × (l ≤ service.max_ttl)) (ok-injective same_lifetime)
      (within chosen service.max_ttl (guard-ok _ _ tested))
  where
    within : (l m : ℕ) → not (l == 0 || ltb m l) ≡ true → (1 ≤ l) × (l ≤ m)
    within l m ok_bounds = (ground arith, ground arith)

pub check_create-Fits :
    (service : Service) (request : CreateRequest) (c : Checked)
    → check_create service request ≡ ok c
    → Fits service c
unfolding check_create choose_local_part
check_create-Fits service request c h =
    let (domain, chosen, more) = bind_ok (choose_domain service (normalize request.domain)) _ c h in
    let (lifetime, ttl, more₁) = bind_ok (choose_lifetime service request.lifetime) _ c more in
    let (local_part, local, built) =
      bind_ok (choose_local_part (normalize request.local_part)) _ c more₁ in
    let (tested, same_domain) = then_ok (guard _ invalid_domain) _ chosen in
    let (checked, same_local) = then_ok (guard _ invalid_local_part) _ local in
    let (some_time, at_most) = choose_lifetime-bounds service request.lifetime lifetime ttl in
    subst (Fits service) (ok-injective built) (record {
      allowed =
          subst (λ d. is_allowed d service.domains ≡ true) (ok-injective same_domain)
            (guard-ok _ _ tested);
      some_time = some_time;
      at_most = at_most;
      valid =
          subst (λ l. (length l == 0) ≡ false → valid_inbox_local_part l ≡ true)
            (ok-injective same_local) (λ given. given_valid _ _ given (guard-ok _ _ checked));
    })
  where
    given_valid : (b v : Bool) → b ≡ false → (b || v) ≡ true → v ≡ true
    given_valid b v h k = ground arith
