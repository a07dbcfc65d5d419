-- ===== src/Lmtp/Line.antt =====
-- readLimitedLine of internal/lmtp/data_reader.go over a bufio.Reader. The reader is the bytes that
-- the peer still sends, with the error that stands behind them; how the network cuts the bytes
-- makes no difference to ReadLine.
pub mod Limit
pub mod Progress
use mailwisp.Common.{
  ℕ, zero, suc, ◌+◌, ◌≡◌, refl, Bool, true, false, ◌||◌, [], ◌∷◌, ◌++◌, Bytes, codes, Error, eof,
  Result, ok, err, length, ltb, ◌==◌, if◌then◌else◌,
}

abbrev pub cr : ℕ
cr = 13

abbrev pub lf : ℕ
lf = 10

-- How bufio.Reader.ReadSlice ends: at the delimiter, with the buffer full, or at the reader's error.
pub data SliceEnd : Type 0 where
  found full ended : SliceEnd

-- bufio.Reader.ReadSlice('\n') with room for `n` bytes: the end, the slice and what is left.
unfoldable pub read_slice : ℕ → Bytes → SliceEnd × Bytes × Bytes
read_slice zero input = (full, [], input)
read_slice (suc n) [] = (ended, [], [])
read_slice (suc n) (c ∷ input) =
    let (how, slice, left) = read_slice n input in
    if c == lf then (found, c ∷ [], input) else (how, c ∷ slice, left)

-- The slice without a last byte `\r`, and whether there was one.
unfoldable pub drop_cr : Bytes → Bytes × Bool
drop_cr [] = ([], false)
drop_cr (c ∷ []) = if c == cr then ([], true) else (c ∷ [], false)
drop_cr (c ∷ d ∷ s) = let (t, dropped) = drop_cr (d ∷ s) in (c ∷ t, dropped)

-- The slice without its last byte.
unfoldable pub drop_last : Bytes → Bytes
drop_last [] = []
drop_last (c ∷ []) = []
drop_last (c ∷ d ∷ s) = c ∷ drop_last (d ∷ s)

-- What ReadLine makes of a slice: a fragment of the line, whether the line goes on, and what is left.
-- A `\r` at the end of a full buffer is put back, since `\n` may follow it.
line_of_slice : Error → SliceEnd × Bytes × Bytes → Result (Bytes × Bool × Bytes)
unfolding drop_cr drop_last
line_of_slice ending (found, slice, left) = ok ((drop_cr (drop_last slice)).0, false, left)
line_of_slice ending (full, slice, left) =
    let (kept, dropped) = drop_cr slice in
    if dropped then ok (kept, true, cr ∷ left) else ok (slice, true, left)
line_of_slice ending (ended, [], left) = err ending
line_of_slice ending (ended, c ∷ slice, left) = ok (c ∷ slice, false, left)

-- bufio.Reader.ReadLine with a buffer of `size` bytes; `ending` is the error behind the bytes.
unfoldable pub read_line : ℕ → Error → Bytes → Result (Bytes × Bool × Bytes)
unfolding line_of_slice read_slice
read_line size ending input = line_of_slice ending (read_slice size input)

-- What readLimitedLine returns, with the bytes left. `stuck` is the model's: the fuel ran out.
pub data Line : Type 0 where
  line : Bytes → Bytes → Line
  too_long : Bytes → Line
  failed : Error → Line
  stuck : Line

-- The loop of readLimitedLine: `buffer` holds the line so far, `over` is overLimit. Each round takes
-- a byte at least from a buffer of two or more, so the length of the input is fuel enough.
unfoldable pub line_loop : ℕ → ℕ → ℕ → Error → Bytes → Bytes → Bool → Line
line_loop size limit zero ending input buffer over = stuck
line_loop size limit (suc fuel) ending input buffer over = elim (read_line size ending input) [
  | err e ↦ failed e
  | ok (fragment, continued, left) ↦
      let over' = over || ltb limit (length buffer + length fragment) in
      let buffer' = if over' then buffer else buffer ++ fragment in
      let next = line_loop size limit fuel ending left buffer' over' in
      if continued then next else if over' then too_long left else line buffer' left
]

-- readLimitedLine with a buffer of `size` bytes
unfoldable pub read_line_sized : ℕ → ℕ → Error → Bytes → Line
unfolding line_loop
read_line_sized size limit ending input =
    line_loop size limit (suc (length input)) ending input [] false

-- The session's bufio.NewReaderSize(connection, 32<<10).
abbrev pub reader_size : ℕ
reader_size = 32768

unfoldable pub read_limited_line : ℕ → Error → Bytes → Line
unfolding read_line_sized
read_limited_line limit ending input = read_line_sized reader_size limit ending input

crlf_line :
    read_limited_line 5 eof (codes "ab" ++ cr ∷ lf ∷ codes "c") ≡ line (codes "ab") (codes "c")
unfolding read_limited_line read_line drop_cr drop_last
crlf_line = refl

long_line : read_limited_line 1 eof (codes "ab" ++ lf ∷ codes "c") ≡ too_long (codes "c")
unfolding read_limited_line read_line drop_cr drop_last
long_line = refl

tiny_buffer : read_line_sized 2 9 eof (codes "abcde" ++ cr ∷ lf ∷ []) ≡ line (codes "abcde") []
unfolding read_line_sized read_line drop_cr drop_last
tiny_buffer = refl
