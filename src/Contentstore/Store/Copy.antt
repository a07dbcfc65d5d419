-- ===== src/Contentstore/Store/Copy.antt =====
-- io.CopyBuffer from the io.LimitReader over contextReader, as put calls it.
use mailwisp.Common.{
  ℕ, zero, suc, ◌-◌, Option, none, some, [], ◌++◌, Bytes, Error, eof, other, length, min, ltb, ◌==◌,
  if◌then◌else◌,
}
use mailwisp.Lmtp.DataReader.{DataReader, read}

-- What happens on the way, given the bytes copied so far: whether the context is cancelled, and whether the
-- write to the staging file fails that would end with them.
pub record Source : Type 0 where
  pub cancelled : Bytes → Option Error
  pub write_fails : Bytes → Option Error

abbrev pub copy_buffer_bytes : ℕ
copy_buffer_bytes = 32768

abbrev pub Copied : Type 0
Copied = DataReader × Bytes × Option Error

-- io.CopyBuffer takes io.EOF as the end.
unfoldable pub on_end : Error → Option Error
on_end eof = none
on_end e = some e

-- What CopyBuffer does with the result of a Read, once the write has been answered, `go_on` being its next rounds.
abbrev pub on_write :
    (DataReader → Bytes → Copied)
    → Bytes
    → DataReader × Bytes × Option Error
    → Option Error
    → Copied
on_write go_on copied (r, out, e) (some stopped) = (r, copied, some stopped)
on_write go_on copied (r, out, none) none = go_on r (copied ++ out)
on_write go_on copied (r, out, some e) none = (r, copied ++ out, on_end e)

abbrev pub on_read :
    Source → (DataReader → Bytes → Copied) → Bytes → DataReader × Bytes × Option Error → Copied
on_read source go_on copied (r, out, e) =
    on_write go_on copied (r, out, e)
      (if ltb 0 (length out) then source.write_fails (copied ++ out) else none)

abbrev pub on_cancel :
    Source → (DataReader → Bytes → Copied) → ℕ → DataReader → Bytes → Option Error → Copied
on_cancel source go_on limit r copied (some e) = (r, copied, some e)
on_cancel source go_on limit r copied none =
    on_read source go_on copied (read (min copy_buffer_bytes limit) r)

-- A round with `limit` bytes left to the LimitReader
abbrev pub copy_round : Source → (DataReader → Bytes → Copied) → ℕ → DataReader → Bytes → Copied
copy_round source go_on limit r copied =
    if limit == 0
    then (r, copied, none)
    else on_cancel source go_on limit r copied (source.cancelled copied)

-- Each round copies a byte or is the last, so one round more than the limit is enough.
unfoldable pub copy_loop : ℕ → Source → ℕ → DataReader → Bytes → Copied
copy_loop zero source limit r copied = (r, copied, some (other 0))
copy_loop (suc fuel) source limit r copied =
    copy_round source
      (λ r' copied'. copy_loop fuel source (limit - (length copied' - length copied)) r' copied')
      limit r copied

-- The reader as it is left, the bytes in the staging file, and the error.
unfoldable pub copy_limited : Source → ℕ → DataReader → Copied
unfolding copy_loop
copy_limited source limit r = copy_loop (suc limit) source limit r []
