-- ===== src/Contentstore/Capacity.antt =====
-- The free-space reservations of internal/contentstore/store.go. Sizes are not negative, since Open and
-- put see to that, so they are natural numbers.
pub mod Floor
use mailwisp.Common.{
  ℕ, zero, suc, ◌+◌, ◌-◌, ◌*◌, ◌≤◌, ◌≡◌, refl, Bool, true, false, ◌||◌, Option, none, some, List,
  [], ◌∷◌, ◌++◌, Bytes, codes, ℤ, pos, negsuc, Error, text, insufficient_storage, Result, ok, err,
  ◌>>=◌, ◌>>◌, guard, not, length, trim_space, ltb, ◌==◌, if◌then◌else◌,
}
use mailwisp.Postgres.Delivery.{failing}

pub record Capacity : Type 0 where
  pub max_bytes : ℕ
  pub min_free_bytes : ℕ
  pub reserved_bytes : ℕ

abbrev pub max_int64 : ℕ
max_int64 = 9223372036854775807

-- The checks of Open, with the capacity of a store that was opened.
unfoldable pub open_capacity : Bytes → ℤ → ℤ → Result Capacity
unfolding trim_space
open_capacity root (negsuc m) min_free = err (
    if length (trim_space root) == 0
    then text (codes "content store root is required")
    else text (codes "content store max bytes must be positive"))
open_capacity root (pos m) (negsuc f) = err (
    if length (trim_space root) == 0
    then text (codes "content store root is required")
    else if m == 0
    then text (codes "content store max bytes must be positive")
    else text (codes "content store minimum free bytes must not be negative"))
open_capacity root (pos m) (pos f) = do
  guard (not (length (trim_space root) == 0)) (text (codes "content store root is required"))
  guard (not (m == 0)) (text (codes "content store max bytes must be positive"))
  ok (record { max_bytes = m; min_free_bytes = f; reserved_bytes = 0 })

-- available as an int64
abbrev pub clamp_int64 : ℕ → ℕ
clamp_int64 n = if ltb max_int64 n then max_int64 else n

-- The test of checkCapacityLocked; the differences are not cut off at 0, as the tests before them show.
abbrev pub lacks_space : Capacity → ℕ → ℕ → Bool
lacks_space c requested available =
    ltb available c.min_free_bytes
    || ltb (available - c.min_free_bytes) c.reserved_bytes
    || ltb (available - c.min_free_bytes - c.reserved_bytes) requested

-- checkCapacityLocked, with what the file system and the context answer
unfoldable pub check_capacity_locked : Capacity → Result ℕ → Option Error → ℕ → Result (Unit {0})
check_capacity_locked c available cancelled requested = do
  free ← available
  failing cancelled
  guard (not (lacks_space c requested (clamp_int64 free))) insufficient_storage

-- CheckCapacity
unfoldable pub check_capacity : Capacity → Result ℕ → Option Error → Result (Unit {0})
unfolding check_capacity_locked
check_capacity c available cancelled = do
  failing cancelled
  check_capacity_locked c available cancelled c.max_bytes

-- reserve, with the capacity after it
unfoldable pub reserve : Capacity → Result ℕ → Option Error → Result Capacity
unfolding check_capacity_locked
reserve c available cancelled = do
  failing cancelled
  check_capacity_locked c available cancelled c.max_bytes
  ok (record c { reserved_bytes = c.reserved_bytes + c.max_bytes })

-- The function that reserve returns
unfoldable pub release : Capacity → Capacity
release c = record c { reserved_bytes = c.reserved_bytes - c.max_bytes }

-- A disk, with the puts that run: how much each of them has written to its staging file. `lost` is what no
-- reservation of this store accounts for: what others have taken of the disk, and what an ended put with a file over
-- max_bytes has left behind over that limit.
pub record Disk : Type 0 where
  pub capacity : Capacity
  pub free : ℕ
  pub written : List ℕ
  pub lost : ℕ

-- The steps of the puts of a store and of the others that use its disk, in any order. A put reserves and begins; it
-- writes, through the LimitReader of one byte more than max_bytes; and it ends: its file stays on the disk, as an
-- object or because the deferred os.Remove failed (its error is ignored), or it is removed and its bytes come
-- back. Others take free space, or give it back.
pub data Step : Disk → Disk → Type 0 where
  reserves :
      (d : Disk) (c : Capacity)
      → reserve d.capacity (ok d.free) none ≡ ok c
      → Step d (record d { capacity = c; written = 0 ∷ d.written })
  writes :
      (d : Disk) (before : List ℕ) (n : ℕ) (after : List ℕ) (k : ℕ)
      → d.written ≡ before ++ n ∷ after
      → n + k ≤ d.capacity.max_bytes + 1
      → k ≤ d.free
      → Step d (record d { free = d.free - k; written = before ++ (n + k) ∷ after })
  stays :
      (d : Disk) (before : List ℕ) (n : ℕ) (after : List ℕ)
      → d.written ≡ before ++ n ∷ after
      → Step d (record d {
        capacity = release d.capacity;
        written = before ++ after;
        lost = d.lost + (n - d.capacity.max_bytes);
      })
  discards :
      (d : Disk) (before : List ℕ) (n : ℕ) (after : List ℕ)
      → d.written ≡ before ++ n ∷ after
      → Step d
          (record d { capacity = release d.capacity; free = d.free + n; written = before ++ after })
  fills :
      (d : Disk) (k : ℕ) → k ≤ d.free → Step d (record d { free = d.free - k; lost = d.lost + k })
  frees : (d : Disk) (n : ℕ) → Step d (record d { free = d.free + n })

pub data Reaches (start : Disk) : Disk → Type 0 where
  here : Reaches start start
  next : {d e : Disk} → Reaches start d → Step d e → Reaches start e
