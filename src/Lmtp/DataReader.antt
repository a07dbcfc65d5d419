-- ===== src/Lmtp/DataReader.antt =====
-- dataReader of internal/lmtp/data_reader.go: DATA as an io.Reader. The bufio.Reader that it shares
-- with the session is the field `input`, which the session takes back when DATA is over.
pub mod Framing
pub mod Progress
pub mod RoundTrip
use mailwisp.Common.{
  ℕ, zero, suc, ◌+◌, ◌-◌, ◌≡◌, refl, Bool, true, false, ◌&&◌, Option, none, some, [], ◌∷◌, ◌++◌,
  Bytes, codes, bytes_eq, Error, eof, other, data_too_large, data_line_too_long, length, take, drop,
  ltb, ◌==◌, if◌then◌else◌,
}
use mailwisp.Lmtp.Line.{
  Line, cr, lf, line, too_long, failed, stuck, read_limited_line, read_line, drop_cr, drop_last,
}

pub record DataReader : Type 0 where
  pub input : Bytes
  pub ending : Error  -- the error behind the bytes that the peer still sends
  pub max_bytes : ℕ
  pub max_line_bytes : ℕ
  pub written : ℕ
  pub pending : Bytes
  pub ended : Bool
  pub terminal_err : Option Error

unfoldable pub new_data_reader : Bytes → Error → ℕ → ℕ → DataReader
new_data_reader input ending max_bytes max_line_bytes = record {
  input = input;
  ending = ending;
  max_bytes = max_bytes;
  max_line_bytes = max_line_bytes;
  written = 0;
  pending = [];
  ended = false;
  terminal_err = none;
}

abbrev pub dot : Bytes
dot = b'.' ∷ []

abbrev pub crlf : Bytes
crlf = cr ∷ lf ∷ []

-- A line that begins with two dots loses the first.
unfoldable pub unstuff : Bytes → Bytes
unstuff [] = []
unstuff (c ∷ []) = c ∷ []
unstuff (c ∷ d ∷ s) = if c == b'.' && d == b'.' then d ∷ s else c ∷ d ∷ s

-- Puts an error down for good.
abbrev fail : DataReader → Error → DataReader × Option Error
fail r e = (record r { terminal_err = some e }, some e)

-- What Read does with a line: end at a lone dot, refuse what is over the limit, or make it pending.
-- `written` never passes `max_bytes`, so the difference is not cut off at 0.
unfoldable pub accept : DataReader → Bytes → DataReader × Option Error
unfolding unstuff
accept r text =
    let body = unstuff text in
    let decoded = length body + 2 in
    if bytes_eq text dot
    then (record r { ended = true }, some eof)
    else if ltb (r.max_bytes - r.written) decoded
    then fail r data_too_large
    else (record r { written = r.written + decoded; pending = body ++ crlf }, none)

-- What Read does with the result of readLimitedLine.
unfoldable pub on_load : DataReader → Line → DataReader × Option Error
unfolding accept
on_load r (line text rest) = accept (record r { input = rest }) text
on_load r (too_long rest) = fail (record r { input = rest }) data_line_too_long
on_load r (failed e) = fail (record r { input = [] }) e
on_load r stuck = fail r (other 0)

-- The part of Read from readLimitedLine to the pending bytes.
unfoldable pub load : DataReader → DataReader × Option Error
unfolding on_load
load r = on_load r (read_limited_line r.max_line_bytes r.ending r.input)

-- copy(buffer, r.pending) with a buffer of `n` bytes
abbrev pub copy_out : ℕ → DataReader → DataReader × Bytes × Option Error
copy_out n r = (record r { pending = drop n r.pending }, take n r.pending, none)

abbrev pub read_loaded : ℕ → DataReader × Option Error → DataReader × Bytes × Option Error
read_loaded n (r, none) = copy_out n r
read_loaded n (r, some e) = (r, [], some e)

-- Read when nothing is pending.
read_next : ℕ → DataReader → Option Error → DataReader × Bytes × Option Error
unfolding load
read_next n r (some e) = (r, [], some e)
read_next n r none = if r.ended then (r, [], some eof) else read_loaded n (load r)

-- Read into a buffer of `n` bytes: the reader after it, the bytes copied, and the error.
unfoldable pub read : ℕ → DataReader → DataReader × Bytes × Option Error
unfolding read_next
read n r =
    if n == 0
    then (r, [], none)
    else if ltb 0 (length r.pending)
    then copy_out n r
    else read_next n r r.terminal_err

-- How drain ends: it returns an error or none, or (in the model alone) it is still running when its
-- fuel is spent.
pub data Drain : Type 0 where
  drained : DataReader → Option Error → Drain
  still_draining : DataReader → Drain

-- A round of drain, `go_on` being the rounds after it.
abbrev pub on_drain : (DataReader → Drain) → DataReader → Line → Drain
on_drain go_on r (line text rest) =
    if bytes_eq text dot
    then drained (record r { input = rest; ended = true }) none
    else go_on (record r { input = rest })
on_drain go_on r (too_long rest) = go_on (record r { input = rest })
on_drain go_on r (failed e) = drained (record r { input = [] }) (some e)
on_drain go_on r stuck = still_draining r

-- The loop of drain; each round takes something off the input, so its length is fuel enough.
unfoldable pub drain_loop : ℕ → DataReader → Drain
drain_loop zero r = still_draining r
drain_loop (suc fuel) r =
    on_drain (drain_loop fuel) r (read_limited_line r.max_line_bytes r.ending r.input)

unfoldable pub drain : DataReader → Drain
unfolding drain_loop
drain r = if r.ended then drained r none else drain_loop (suc (length r.input)) r

two_lines : DataReader
unfolding new_data_reader
two_lines = new_data_reader (codes "..a" ++ lf ∷ codes "b" ++ lf ∷ dot ++ lf ∷ codes "NOOP") eof 9 9

first_line : (read 2 two_lines).1 ≡ codes ".a"
unfolding read two_lines read_limited_line read_line drop_cr drop_last
first_line = refl

drain-two_lines : (r : DataReader) × (drain two_lines ≡ drained r none) × (r.input ≡ codes "NOOP")
unfolding drain two_lines read_limited_line read_line drop_cr drop_last
drain-two_lines = (_, refl, refl)
