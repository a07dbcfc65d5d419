-- ===== src/Lmtp/Line/Progress.antt =====
-- readLimitedLine ends on every input, keeps its limit, and takes something off the input.
use mailwisp.Common.{
  ℕ, zero, suc, ◌+◌, ◌≤◌, ◌<◌, ◌≡◌, refl, Bool, true, false, ◌||◌, [], ◌∷◌, ◌++◌, Bytes, Error,
  Result, ok, err, length, ltb, ◌==◌, if◌then◌else◌, arith, Result-cases, subst, length-append, inl,
  inr,
}
use mailwisp.Lmtp.Line.{
  lf, SliceEnd, found, full, ended, read_slice, read_line, line_of_slice, Line, line, too_long,
  failed, stuck, line_loop, read_line_sized, read_limited_line, reader_size,
}

-- What a slice leaves of `n` bytes, when it had room for `size`.
abbrev Slices : ℕ → ℕ → SliceEnd × Bytes × Bytes → Type 0
Slices size n (found, slice, left) = length left < n
Slices size n (full, slice, left) = length left + size ≡ n
Slices size n (ended, slice, left) = length left + length slice ≡ n

Slices-cons :
    (size n c : ℕ) (input : Bytes) (r : SliceEnd × Bytes × Bytes)
    → n ≡ length input
    → Slices size n r
    → Slices (suc size) (suc n) (if c == lf then (found, c ∷ [], input) else (r.0, c ∷ r.1, r.2))
Slices-cons size n c input (found, slice, left) e h = ground arith
Slices-cons size n c input (full, slice, left) e h = ground arith
Slices-cons size n c input (ended, slice, left) e h = ground arith

read_slice-Slices : (size : ℕ) (input : Bytes) → Slices size (length input) (read_slice size input)
unfolding read_slice
read_slice-Slices zero input = omega arith
read_slice-Slices (suc size) [] = omega arith
read_slice-Slices (suc size) (c ∷ input) =
    Slices-cons size (length input) c input (read_slice size input) refl
      (read_slice-Slices size input)

-- ReadLine fails with the reader's error alone, and takes something off the input otherwise.
abbrev Shrinks : Error → ℕ → Result (Bytes × Bool × Bytes) → Type 0
Shrinks ending n (ok (fragment, continued, left)) = length left < n
Shrinks ending n (err e) = e ≡ ending

line_of_slice-Shrinks :
    (size n : ℕ) (ending : Error) (r : SliceEnd × Bytes × Bytes)
    → 2 ≤ size
    → Slices size n r
    → Shrinks ending n (line_of_slice ending r)
unfolding line_of_slice
line_of_slice-Shrinks size n ending (found, slice, left) two h = h
line_of_slice-Shrinks size n ending (full, slice, left) two h = ground arith
line_of_slice-Shrinks size n ending (ended, [], left) two h = refl
line_of_slice-Shrinks size n ending (ended, c ∷ slice, left) two h = omega arith

read_line-Shrinks :
    (size : ℕ) (ending : Error) (input : Bytes)
    → 2 ≤ size
    → Shrinks ending (length input) (read_line size ending input)
unfolding read_line
read_line-Shrinks size ending input two =
    line_of_slice-Shrinks size (length input) ending (read_slice size input) two
      (read_slice-Slices size input)

-- A read line keeps the limit, and input is used up; an error is the reader's own.
abbrev pub Progress : ℕ → Error → ℕ → Line → Type 0
Progress limit ending n (line text rest) = (length text ≤ limit) × (length rest < n)
Progress limit ending n (too_long rest) = length rest < n
Progress limit ending n (failed e) = e ≡ ending
Progress limit ending n stuck = ⊥

Progress-mono :
    (limit : ℕ) (ending : Error) (m n : ℕ) (l : Line)
    → m ≤ n
    → Progress limit ending m l
    → Progress limit ending n l
Progress-mono limit ending m n (line text rest) le h = omega arith
Progress-mono limit ending m n (too_long rest) le h = omega arith
Progress-mono limit ending m n (failed e) le h = h
Progress-mono limit ending m n stuck le h = h

-- What a round keeps of the line fits the limit.
kept-le-limit :
    (limit : ℕ) (buffer fragment : Bytes) (over : Bool)
    → length buffer ≤ limit
    → length
        (if over || ltb limit (length buffer + length fragment) then buffer else buffer ++ fragment)
      ≤ limit
kept-le-limit limit buffer fragment over h = ground (arith, length-append buffer fragment)

-- The end of a round, `next` being what the rounds after it return.
round-Progress :
    (limit n : ℕ) (ending : Error) (buffer left : Bytes) (over continued : Bool) (next : Line)
    → length buffer ≤ limit
    → length left < n
    → Progress limit ending (length left) next
    → Progress limit ending n
        (if continued then next else if over then too_long left else line buffer left)
round-Progress limit n ending buffer left over true next le lt h =
    Progress-mono limit ending (length left) n next (omega arith) h
round-Progress limit n ending buffer left true false next le lt h = lt
round-Progress limit n ending buffer left false false next le lt h = (le, lt)

line_loop-Progress :
    (fuel size limit : ℕ) (ending : Error) (input buffer : Bytes) (over : Bool)
    → 2 ≤ size
    → length input < fuel
    → length buffer ≤ limit
    → Progress limit ending (length input) (line_loop size limit fuel ending input buffer over)
unfolding line_loop
line_loop-Progress zero size limit ending input buffer over two lt le = absurd (omega arith)
line_loop-Progress (suc fuel) size limit ending input buffer over two lt le =
    elim (Result-cases (read_line size ending input)) [
      | inl ((fragment, continued, left), e) ↦
          let shrunk =
            subst (Shrinks ending (length input)) e (read_line-Shrinks size ending input two) in
          let kept = kept-le-limit limit buffer fragment over le in
          rw (e, line_loop)
            (round-Progress limit (length input) ending _ left _ continued _ kept shrunk
              (line_loop-Progress fuel size limit ending left _ _ two (omega arith) kept))
      | inr (why, e) ↦
          rw (e, line_loop)
            (subst (Shrinks ending (length input)) e (read_line-Shrinks size ending input two))
    ]

-- readLimitedLine returns on every input, whatever the peer sends: a line of at most `limit` bytes or
-- a refusal, each with less input left than before, or the error of the reader itself.
pub read_line_sized-Progress :
    (size limit : ℕ) (ending : Error) (input : Bytes)
    → 2 ≤ size
    → Progress limit ending (length input) (read_line_sized size limit ending input)
unfolding read_line_sized
read_line_sized-Progress size limit ending input two =
    line_loop-Progress (suc (length input)) size limit ending input [] false two (omega arith)
      (omega arith)

-- The same at the session's buffer.
pub read_limited_line-Progress :
    (limit : ℕ) (ending : Error) (input : Bytes)
    → Progress limit ending (length input) (read_limited_line limit ending input)
unfolding read_limited_line
read_limited_line-Progress limit ending input =
    read_line_sized-Progress reader_size limit ending input (omega arith)
