-- ===== src/Tests/Contentstore.antt =====
-- Examples for the content store.
use mailwisp.Common.{
  ℕ, List, ◌≡◌, refl, ◌++◌, inl, true, none, some, [], ◌∷◌, Bytes, codes, eof, ok, length, arith,
  ap,
}
use mailwisp.Encoding.Hex.{hex_encode}
use mailwisp.Lmtp.Line.{cr, lf}
use mailwisp.Lmtp.DataReader.{DataReader, new_data_reader}
use mailwisp.Lmtp.DataReader.RoundTrip.{sent}
use mailwisp.Message.Delivery.{ContentRef}
use mailwisp.Contentstore.Capacity.{
  Capacity, reserve, check_capacity, check_capacity_locked, Disk, reserves, writes, stays, fills,
  release, Reaches, here, next,
}
use mailwisp.Contentstore.Capacity.Floor.{Reserved, Reaches-Reserved}
use mailwisp.Contentstore.Store.{Store, find_object, object_path, put, delete_unreferenced}
use mailwisp.Contentstore.Store.Outcome.{Outcome, put-Outcome}
use mailwisp.Contentstore.Store.Raw.{calm, reference, put-sent}
use mailwisp.Contentstore.Store.References.{
  World, puts, commits, collects, recheck, Backed, Reaches-Backed,
}
use mailwisp.Contentstore.Store.References

-- Two puts at once, of at most 10 bytes, on a disk with a floor of 5 bytes: the first is too large, and its file cannot
-- be removed; then someone else takes a byte.
abbrev small_capacity : Capacity
small_capacity = record { max_bytes = 10; min_free_bytes = 5; reserved_bytes = 0 }

abbrev disk : ℕ → ℕ → List ℕ → ℕ → Disk
disk reserved_bytes free written lost = record {
  capacity = record { max_bytes = 10; min_free_bytes = 5; reserved_bytes = reserved_bytes };
  free = free;
  written = written;
  lost = lost;
}

two_puts : Reaches (disk 0 40 [] 0) (disk 10 24 (4 ∷ []) 2)
unfolding reserve check_capacity_locked release
two_puts =
    let one = next here (reserves (disk 0 40 [] 0) (disk 10 40 [] 0).capacity refl) in
    let two =
      next one (writes (disk 10 40 (0 ∷ []) 0) [] 0 [] 11 refl (omega arith) (omega arith)) in
    let three = next two (reserves (disk 10 29 (11 ∷ []) 0) (disk 20 0 [] 0).capacity refl) in
    let four =
      next three
        (writes (disk 20 29 (0 ∷ 11 ∷ []) 0) [] 0 (11 ∷ []) 4 refl (omega arith) (omega arith)) in
    let five = next four (stays (disk 20 25 (4 ∷ 11 ∷ []) 0) (4 ∷ []) 11 [] refl) in
    next five (fills (disk 10 25 (4 ∷ []) 1) 1 (omega arith))

Reaches-Reserved_example : Reserved (disk 10 24 (4 ∷ []) 2)
Reaches-Reserved_example =
    Reaches-Reserved (disk 0 40 [] 0) (disk 10 24 (4 ∷ []) 2) refl refl two_puts

-- A digest of 32 bytes in the place of SHA-256
abbrev pub sum : Bytes → Bytes
sum s =
    length s
    ∷ 0
    ∷ 0
    ∷ 0
    ∷ 0
    ∷ 0
    ∷ 0
    ∷ 0
    ∷ 0
    ∷ 0
    ∷ 0
    ∷ 0
    ∷ 0
    ∷ 0
    ∷ 0
    ∷ 0
    ∷ 0
    ∷ 0
    ∷ 0
    ∷ 0
    ∷ 0
    ∷ 0
    ∷ 0
    ∷ 0
    ∷ 0
    ∷ 0
    ∷ 0
    ∷ 0
    ∷ 0
    ∷ 0
    ∷ 0
    ∷ 0
    ∷ []

abbrev empty_store : Store
empty_store = record { capacity = small_capacity; objects = []; staging = [] }

abbrev hello : DataReader
hello = new_data_reader (sent (codes "hi" ∷ []) []) eof 10 10

put-Outcome_example :
    Outcome sum 10 []
      ((put sum (calm 100) empty_store hello).0, (put sum (calm 100) empty_store hello).2)
put-Outcome_example = put-Outcome sum (calm 100) empty_store hello

-- Two lines, the second of them with a dot to stuff, are stored, and NOOP is left.
put-sent_example :
    (s : Store) × (r : DataReader) × (put sum
        (calm 100)
        empty_store
        (new_data_reader (sent (codes "a" ∷ codes ".b" ∷ []) (codes "NOOP")) eof 10 10)
      ≡ (s, r, ok (reference sum 100 (codes "a" ++ cr ∷ lf ∷ codes ".b" ++ cr ∷ lf ∷ []))))
    × (find_object
          (object_path (hex_encode (sum (codes "a" ++ cr ∷ lf ∷ codes ".b" ++ cr ∷ lf ∷ []))))
          s.objects
        ≡ some (codes "a" ++ cr ∷ lf ∷ codes ".b" ++ cr ∷ lf ∷ []))
    × (r.input ≡ codes "NOOP")
    × (r.ended ≡ true)
unfolding check_capacity check_capacity_locked hex_encode
put-sent_example =
    put-sent sum 100 empty_store (codes "a" ∷ codes ".b" ∷ []) (codes "NOOP") eof 10 10
      (omega arith) (omega arith) (omega arith) (omega arith) refl refl (omega arith) (inl refl)

-- A message is stored, committed and released, and the collector then looks at its object.
abbrev hi : Bytes
hi = codes "hi" ++ cr ∷ lf ∷ []

abbrev hi_ref : ContentRef
hi_ref = reference sum 100 hi

hi-stored : (put sum (calm 100) empty_store hello).2 ≡ ok hi_ref
unfolding check_capacity check_capacity_locked hex_encode
hi-stored =
    let (_, _, e, _, _, _) =
      put-sent sum 100 empty_store (codes "hi" ∷ []) [] eof 10 10 (omega arith) (omega arith)
        (omega arith) (omega arith) refl refl (omega arith) (inl refl) in
    ap (λ p. p.2) e

abbrev fresh_world : World
fresh_world = record { store = empty_store; references = []; leases = [] }

abbrev stored : Store
stored = (put sum (calm 100) empty_store hello).0

abbrev collected : World
collected = record {
  store =
      (delete_unreferenced (calm 100) stored hi_ref (recheck none hi_ref.key (hi_ref.key ∷ []))).0;
  references = hi_ref.key ∷ [];
  leases = [];
}

life : References.Reaches sum fresh_world collected
life =
    References.next
      (References.next
        (References.next
          (References.next References.here (puts fresh_world (calm 100) hello hi_ref hi-stored))
          (commits (record { store = stored; references = []; leases = hi_ref.key ∷ [] }) []
            hi_ref.key [] refl))
        (References.releases
          (record { store = stored; references = hi_ref.key ∷ []; leases = hi_ref.key ∷ [] }) []
          hi_ref.key [] refl))
      (collects (record { store = stored; references = hi_ref.key ∷ []; leases = [] }) (calm 100)
        hi_ref none refl)

Reaches-Backed_example : Backed sum collected
Reaches-Backed_example = Reaches-Backed sum fresh_world collected refl refl life
