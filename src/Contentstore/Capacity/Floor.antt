-- ===== src/Contentstore/Capacity/Floor.antt =====
-- The floor of free space that the reservations keep.
use mailwisp.Common.{
  ℕ, suc, ◌+◌, ◌-◌, ◌*◌, ◌≤◌, ◌≡◌, ◌⊎◌, inl, inr, refl, sym, ◌∙◌, ap, subst, false, none, List, [],
  ◌∷◌, ◌++◌, ok, length, Bool-cases, ok-injective, err-ne-ok, arith,
}
use mailwisp.Contentstore.Capacity.{
  Capacity, Disk, Step, reserves, writes, stays, discards, fills, frees, Reaches, here, next,
  reserve, release, check_capacity_locked, clamp_int64, max_int64, lacks_space,
}

-- What the running puts may still write, and one byte more for each of them.
abbrev pub outstanding : ℕ → List ℕ → ℕ
outstanding max_bytes [] = 0
outstanding max_bytes (n ∷ ns) = (max_bytes + 1 - n) + outstanding max_bytes ns

outstanding-append :
    (m : ℕ) (xs ys : List ℕ) → outstanding m (xs ++ ys) ≡ outstanding m xs + outstanding m ys
outstanding-append m [] ys = omega arith
outstanding-append m (x ∷ xs) ys = omega (arith, outstanding-append m xs ys)

outstanding-le : (m : ℕ) (xs : List ℕ) → outstanding m xs ≤ length xs * m + length xs
outstanding-le m [] = omega arith
outstanding-le m (x ∷ xs) = omega (arith, outstanding-le m xs)

-- The reservations are those of the running puts, and their sum fits an int64; and while a put runs, what is free
-- covers the floor and all that the running puts may still write, but for one byte for each of them and for
-- what is lost to others.
pub record Reserved (d : Disk) : Type 0 where
  pub accounted : d.capacity.reserved_bytes ≡ length d.written * d.capacity.max_bytes
  pub fits : d.capacity.reserved_bytes ≤ max_int64
  pub covered :
      (length d.written ≡ 0)
      ⊎ (d.capacity.min_free_bytes + outstanding d.capacity.max_bytes d.written
          ≤ d.free + length d.written + d.lost)

clamp-le : (n : ℕ) → clamp_int64 n ≤ n
clamp-le n = ground arith

clamp-fits : (n : ℕ) → clamp_int64 n ≤ max_int64
clamp-fits n = ground arith

lacks_space-false :
    (c : Capacity) (r a : ℕ)
    → lacks_space c r a ≡ false
    → c.min_free_bytes + c.reserved_bytes + r ≤ a
lacks_space-false c r a enough = ground arith

reserve-ok :
    (c : Capacity) (free : ℕ) (after : Capacity)
    → reserve c (ok free) none ≡ ok after
    → (after ≡ record c { reserved_bytes = c.reserved_bytes + c.max_bytes })
      × (c.min_free_bytes + c.reserved_bytes + c.max_bytes ≤ clamp_int64 free)
unfolding reserve check_capacity_locked
reserve-ok c free after done = elim (Bool-cases (lacks_space c c.max_bytes (clamp_int64 free))) [
  | inl lacks ↦ absurd (err-ne-ok (rw lacks at done))
  | inr enough ↦ (
    sym (ok-injective (rw enough at done)),
    lacks_space-false c c.max_bytes (clamp_int64 free) enough,
  )
]

-- One put among those that run
outstanding-at :
    (m n : ℕ) (before after : List ℕ)
    → (length (before ++ n ∷ after) ≡ suc (length (before ++ after)))
      × (outstanding m (before ++ n ∷ after) ≡ (m + 1 - n) + outstanding m (before ++ after))
outstanding-at m n [] after = (refl, refl)
outstanding-at m n (x ∷ xs) after =
    let (counted, summed) = outstanding-at m n xs after in
    (omega (arith, counted), omega (arith, summed))

-- A disk where put n is one of those that run: the floor holds with what put n may still write.
record Among (d : Disk) (n : ℕ) (others : List ℕ) : Type 0 where
  counted : length d.written ≡ suc (length others)
  floor :
      d.capacity.min_free_bytes
        + ((d.capacity.max_bytes + 1 - n) + outstanding d.capacity.max_bytes others)
      ≤ d.free + suc (length others) + d.lost

among :
    (d : Disk) (before : List ℕ) (n : ℕ) (after : List ℕ)
    → d.written ≡ before ++ n ∷ after
    → Reserved d
    → Among d n (before ++ after)
among d before n after at kept =
    let (more, summed) = outstanding-at d.capacity.max_bytes n before after in
    let counted = ap length at ∙ more in
    let out = ap (outstanding d.capacity.max_bytes) at ∙ summed in
    record {
      counted = counted;
      floor = elim kept.covered [
        | inl none_runs ↦ omega (arith, none_runs, counted)
        | inr covered ↦ omega (arith, covered, counted, out)
      ];
    }

-- A put has ended, and what is free and what is lost account for its file, but for max_bytes of it.
ended-Reserved :
    (d : Disk) (before : List ℕ) (n : ℕ) (after : List ℕ) (free lost : ℕ)
    → d.written ≡ before ++ n ∷ after
    → d.free + d.lost + (n - d.capacity.max_bytes) ≤ free + lost
    → Reserved d
    → Reserved record {
      capacity = release d.capacity;
      free = free;
      written = before ++ after;
      lost = lost;
    }
unfolding release
ended-Reserved d before n after free lost at back kept =
    let split = among d before n after at kept in
    let fits = kept.fits in
    record {
      accounted =
          less (length (before ++ after)) d.capacity.max_bytes
            (kept.accounted ∙ ap (λ l. l * d.capacity.max_bytes) split.counted);
      fits = omega (arith, fits);
      covered = inr (omega (arith, back, split.floor));
    }
  where
    less : {r : ℕ} (l m : ℕ) → r ≡ suc l * m → r - m ≡ l * m
    less l m e = omega (arith, e)

step-Reserved : (d e : Disk) → Reserved d → Step d e → Reserved e
step-Reserved d e kept (reserves _ c done) =
    let (is_after, room) = reserve-ok d.capacity d.free c done in
    let accounted = kept.accounted in
    let below = clamp-le d.free in
    let fits = clamp-fits d.free in
    let le = outstanding-le d.capacity.max_bytes d.written in
    subst
      (λ x. Reserved record { capacity = x; free = d.free; written = 0 ∷ d.written; lost = d.lost })
      (sym is_after)
      (record { accounted = omega arith; fits = omega arith; covered = inr (omega arith) })
step-Reserved d e kept (writes _ before n after k at small room) =
    let split = among d before n after at kept in
    let (counted, summed) = outstanding-at d.capacity.max_bytes (n + k) before after in
    record {
      accounted = kept.accounted ∙ ap (λ l. l * d.capacity.max_bytes) (split.counted ∙ sym counted);
      fits = kept.fits;
      covered = inr (omega (arith, split.floor, summed, counted, small, room));
    }
step-Reserved d e kept (stays _ before n after at) =
    ended-Reserved d before n after d.free (d.lost + (n - d.capacity.max_bytes)) at (omega arith)
      kept
step-Reserved d e kept (discards _ before n after at) =
    ended-Reserved d before n after (d.free + n) d.lost at (omega arith) kept
step-Reserved d e kept (fills _ k room) = record {
  accounted = kept.accounted;
  fits = kept.fits;
  covered = elim kept.covered [
    | inl none_runs ↦ inl none_runs
    | inr covered ↦ inr (omega (arith, covered, room))
  ];
}
step-Reserved d e kept (frees _ n) = record {
  accounted = kept.accounted;
  fits = kept.fits;
  covered = elim kept.covered [
    | inl none_runs ↦ inl none_runs
    | inr covered ↦ inr (omega (arith, covered))
  ];
}

-- On a store that starts with no put running, in whatever order its puts run, and whatever others do with the disk:
-- the reservations are those of the running puts and fit an int64, and while a put runs, what is free covers the
-- floor and all that the running puts may still write, but for one byte for each of them, for what others have taken,
-- and for one byte for each ended put whose file was over max_bytes and could not be removed.
pub Reaches-Reserved :
    (d e : Disk) → d.written ≡ [] → d.capacity.reserved_bytes ≡ 0 → Reaches d e → Reserved e
Reaches-Reserved d _ idle unreserved here = record {
  accounted = rw idle (omega (arith, unreserved));
  fits = omega (arith, unreserved);
  covered = inl (ap length idle);
}
Reaches-Reserved d e idle unreserved (next {d = m} run step) =
    step-Reserved m e (Reaches-Reserved d m idle unreserved run) step
