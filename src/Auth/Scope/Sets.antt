-- ===== src/Auth/Scope/Sets.antt =====
-- A ScopeSet is the set of the scopes that it was made of.
use Prim.Native.Nat.{bit_and, bit_or, digits, bit_and-bitwise}
use mailwisp.Common.{
  ℕ, zero, suc, ◌/◌, ◌≤◌, ◌<◌, ◌≡◌, refl, ◌∙◌, inl, inr, min, Bool, true, false, not, ◌&&◌, ◌||◌,
  List, [], ◌∷◌, Result, ok, err, guard, ◌>>=◌, ◌>>◌, Bool-cases, ltb, ◌==◌, if◌then◌else◌, arith,
  ==_iff,
}
use mailwisp.Auth.Scope.{is_scope, add_scopes, new_scope_set, scope_set_from_mask, has, no_scopes}

-- A conjunction of bits is at most either number.
and_le : (n a b : ℕ) → digits (λ x. zero) min n a b ≤ b
and_le zero zero b = omega arith
and_le zero (suc a) b = omega arith
and_le (suc n) zero b = omega arith
and_le (suc n) (suc a) b = omega (arith, and_le n (suc a / 2) (b / 2))

bit_and-le : (a b : ℕ) → bit_and a b ≤ b
bit_and-le a b = rw (bit_and-bitwise a b) (and_le a a b)

holds_below : ℕ → (ℕ → Bool) → Bool
holds_below zero test = true
holds_below (suc bound) test = test bound && holds_below bound test

look_up :
    (bound : ℕ) (test : ℕ → Bool) (x : ℕ)
    → holds_below bound test ≡ true
    → x < bound
    → test x ≡ true
unfolding holds_below
look_up zero test x h below = absurd (omega arith)
look_up (suc bound) test x h below = ground (arith, look_up bound test x)

-- Adding a scope to a mask of five bits adds it, and no other, to what the mask holds.
adds : ℕ → ℕ → ℕ → Bool
adds set scope t =
    if is_scope scope
    then (if is_scope t
        then (if scope == t || bit_and set t == t
            then bit_and (bit_or set scope) t == t
            else not (bit_and (bit_or set scope) t == t))
        else true)
    else true

adds_table :
    holds_below 32 (λ set. holds_below 32 (λ scope. holds_below 32 (adds set scope))) ≡ true
unfolding holds_below adds is_scope
adds_table = refl

within : ℕ → ℕ → Bool
within set scope =
    if is_scope scope then ltb (bit_or set scope) 32 && not (bit_or set scope == 0) else true

within_table : holds_below 32 (λ set. holds_below 32 (within set)) ≡ true
unfolding holds_below within is_scope
within_table = refl

mask_table : holds_below 32 (λ set. bit_and set 31 == set && bit_and 0 set == 0) ≡ true
unfolding holds_below
mask_table = refl

is_scope-lt : (scope : ℕ) → is_scope scope ≡ true → scope < 32
unfolding is_scope
is_scope-lt scope h = ground (arith, bit_and-le scope 31)

adds_all :
    (set scope t : ℕ)
    → set < 32
    → is_scope scope ≡ true
    → is_scope t ≡ true
    → (bit_and (bit_or set scope) t == t) ≡ (scope == t || bit_and set t == t)
unfolding adds
adds_all set scope t lt hs ht =
    let row = look_up 32 _ set adds_table lt in
    let cell = look_up 32 _ scope row (is_scope-lt scope hs) in
    let fact : adds set scope t ≡ true = look_up 32 _ t cell (is_scope-lt t ht) in ground arith

within_all :
    (set scope : ℕ)
    → set < 32
    → is_scope scope ≡ true
    → (bit_or set scope < 32) × (bit_or set scope ≡ 0 → ⊥)
unfolding within
within_all set scope lt hs =
    let row = look_up 32 _ set within_table lt in
    let fact : within set scope ≡ true = look_up 32 _ scope row (is_scope-lt scope hs) in
    (ground arith, λ e. ground arith)

-- Whether a scope stands in a list.
abbrev pub listed : ℕ → List ℕ → Bool
listed t [] = false
listed t (s ∷ ss) = s == t || listed t ss

add_scopes-holds :
    (set m t : ℕ) (ss : List ℕ)
    → set < 32
    → is_scope t ≡ true
    → add_scopes set ss ≡ ok m
    → (bit_and m t == t) ≡ (listed t ss || bit_and set t == t)
unfolding add_scopes
add_scopes-holds set m t [] lt ht e = ground arith
add_scopes-holds set m t (s ∷ ss) lt ht e = elim (Bool-cases (is_scope s)) [
  | inl hs ↦
      add_scopes-holds (bit_or set s) m t ss (within_all set s lt hs).0 ht
        (rw (hs, add_scopes) at e)
      ∙ rw (adds_all set s t lt hs ht) (shuffle (listed t ss) (s == t) (bit_and set t == t))
  | inr no_scope ↦ absurd (ground arith)
]
  where
    shuffle : (p q r : Bool) → (p || (q || r)) ≡ (q || p || r)
    shuffle true true r = refl
    shuffle true false r = refl
    shuffle false true r = refl
    shuffle false false r = refl

add_scopes-lt : (set m : ℕ) (ss : List ℕ) → set < 32 → add_scopes set ss ≡ ok m → m < 32
unfolding add_scopes
add_scopes-lt set m [] lt e = ground arith
add_scopes-lt set m (s ∷ ss) lt e = elim (Bool-cases (is_scope s)) [
  | inl hs ↦ add_scopes-lt (bit_or set s) m ss (within_all set s lt hs).0 (rw (hs, add_scopes) at e)
  | inr no_scope ↦ absurd (ground arith)
]

new_scope_set-add :
    (ss : List ℕ) (m : ℕ) → new_scope_set ss ≡ ok m → (add_scopes 0 ss ≡ ok m) × (m ≡ 0 → ⊥)
unfolding new_scope_set
new_scope_set-add ss m e = go (add_scopes 0 ss) e
  where
    go :
        (r : Result ℕ)
        → (r >>= λ set. guard (not (set == 0)) no_scopes >> ok set) ≡ ok m
        → (r ≡ ok m) × (m ≡ 0 → ⊥)
    go (err why) h = cc
    go (ok set) h = (ground arith, λ z. ground arith)

zero-bit_and : (t : ℕ) → t < 32 → bit_and 0 t ≡ 0
zero-bit_and t lt =
    let fact = look_up 32 _ t mask_table lt in (==_iff (bit_and 0 t) 0).0 (ground arith)

new_scope_set-holds :
    (ss : List ℕ) (m t : ℕ)
    → new_scope_set ss ≡ ok m
    → is_scope t ≡ true
    → (bit_and m t == t) ≡ listed t ss
unfolding is_scope
new_scope_set-holds ss m t e ht =
    add_scopes-holds 0 m t ss (omega arith) ht (new_scope_set-add ss m e).0
    ∙ ground (arith, zero-bit_and t (is_scope-lt t ht))

-- The scopes of a list that are required and listed.
abbrev pub all_listed : List ℕ → List ℕ → Bool
all_listed ss [] = true
all_listed ss (t ∷ required) = is_scope t && listed t ss && all_listed ss required

-- A set made of scopes grants exactly them: Has answers yes to a list of requirements if and only if each
-- of them is a scope, and one of those that NewScopeSet was given.
pub has-new_scope_set :
    (ss required : List ℕ) (m : ℕ)
    → new_scope_set ss ≡ ok m
    → has m required ≡ all_listed ss required
unfolding has
has-new_scope_set ss [] m e = refl
has-new_scope_set ss (t ∷ required) m e = elim (Bool-cases (is_scope t)) [
  | inl ht ↦
      rw (ht, new_scope_set-holds ss m t e ht, has-new_scope_set ss required m e) (ground arith)
  | inr no_scope ↦ rw no_scope refl
]

-- A set made of scopes is read back from its mask.
pub scope_set_from_mask-new_scope_set :
    (ss : List ℕ) (m : ℕ) → new_scope_set ss ≡ ok m → scope_set_from_mask m ≡ ok m
unfolding scope_set_from_mask
scope_set_from_mask-new_scope_set ss m e =
    let (added, pos) = new_scope_set-add ss m e in
    let fact = look_up 32 _ m mask_table (add_scopes-lt 0 m ss (omega arith) added) in
    ground (arith, pos)
