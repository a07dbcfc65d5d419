-- ===== src/Auth/Scope.antt =====
-- internal/auth/scope.go: sets of scopes as bit masks.
pub mod Sets
use Prim.Native.Nat.{bit_and, bit_or}
use mailwisp.Common.{
  ℕ, ◌-◌, ◌≡◌, refl, Bool, true, false, not, ◌&&◌, ◌||◌, List, [], ◌∷◌, codes, Error, text, Result,
  ok, err, ◌>>=◌, ◌>>◌, guard, ◌==◌, if◌then◌else◌,
}

abbrev pub inbox_read : ℕ
inbox_read = 1

abbrev pub inbox_delete : ℕ
inbox_delete = 2

abbrev pub message_read : ℕ
message_read = 4

abbrev pub message_update : ℕ
message_update = 8

abbrev pub message_delete : ℕ
message_delete = 16

abbrev pub all_capability_scopes : ℕ
all_capability_scopes = 31

-- One scope of those above: neither 0, nor another bit, nor several.
unfoldable pub is_scope : ℕ → Bool
is_scope scope = not (
    scope == 0
    || not (bit_and scope all_capability_scopes == scope)
    || not (bit_and scope (scope - 1) == 0))

abbrev pub invalid_scope : Error
invalid_scope = text (codes "invalid capability scope")

abbrev pub no_scopes : Error
no_scopes = text (codes "at least one capability scope is required")

-- The loop of NewScopeSet.
unfoldable pub add_scopes : ℕ → List ℕ → Result ℕ
unfolding is_scope
add_scopes set [] = ok set
add_scopes set (scope ∷ scopes) = do
  guard (is_scope scope) invalid_scope
  add_scopes (bit_or set scope) scopes

unfoldable pub new_scope_set : List ℕ → Result ℕ
unfolding add_scopes
new_scope_set scopes = do set ← add_scopes 0 scopes; guard (not (set == 0)) no_scopes; ok set

unfoldable pub scope_set_from_mask : ℕ → Result ℕ
scope_set_from_mask mask = do
  guard (not (mask == 0 || not (bit_and mask all_capability_scopes == mask)))
      (text (codes "invalid capability scope mask"))
  ok mask

-- ScopeSet.Has
unfoldable pub has : ℕ → List ℕ → Bool
unfolding is_scope
has set [] = true
has set (scope ∷ required) =
    let rest = has set required in
    if not (is_scope scope) || not (bit_and set scope == scope) then false else rest

owner : new_scope_set (1 ∷ 2 ∷ 4 ∷ 8 ∷ 16 ∷ []) ≡ ok 31
unfolding new_scope_set
owner = refl
