-- ===== src/Lmtp/DataReader/Progress.antt =====
-- Read and drain only take bytes off the input, and drain always returns.
use mailwisp.Common.{
  ℕ, zero, suc, ◌≤◌, ◌<◌, ◌≡◌, refl, ap, ◌⊎◌, inl, inr, Option, none, some, Bytes, bytes_eq, Error,
  length, ltb, ◌==◌, if_cases, arith,
}
use mailwisp.Lmtp.Line.{Line, line, too_long, failed, stuck}
use mailwisp.Lmtp.Line.Progress.{Progress, read_limited_line-Progress}
use mailwisp.Lmtp.DataReader.{
  DataReader, dot, accept, load, on_load, read_loaded, read, read_next, Drain, drained,
  still_draining, drain, drain_loop, on_drain,
}

abbrev pub Within : ℕ → DataReader → Type 0
Within n r = length r.input ≤ n

accept-Within : (n : ℕ) (r : DataReader) (s : Bytes) → Within n r → Within n (accept r s).0
unfolding accept
accept-Within n r s h = ground arith

on_load-Within :
    (r : DataReader) (l : Line)
    → Progress r.max_line_bytes r.ending (length r.input) l
    → Within (length r.input) (on_load r l).0
unfolding on_load
on_load-Within r (line text rest) p = accept-Within _ (record r { input = rest }) text (omega arith)
on_load-Within r (too_long rest) p = omega arith
on_load-Within r (failed e) p = omega arith
on_load-Within r stuck p = absurd p

load-Within : (r : DataReader) → Within (length r.input) (load r).0
unfolding load
load-Within r = on_load-Within r _ (read_limited_line-Progress r.max_line_bytes r.ending r.input)

read_loaded-Within :
    (n m : ℕ) (p : DataReader × Option Error) → Within n p.0 → Within n (read_loaded m p).0
read_loaded-Within n m (r, none) h = h
read_loaded-Within n m (r, some e) h = h

read_next-Within :
    (m : ℕ) (r : DataReader) (o : Option Error) → Within (length r.input) (read_next m r o).0
unfolding read_next
read_next-Within m r (some e) = omega arith
read_next-Within m r none =
    if_cases {A = DataReader × Bytes × Option Error} (λ p. Within (length r.input) p.0) r.ended
      (λ _. omega arith) (λ _. read_loaded-Within _ m (load r) (load-Within r))

-- A Read never gives bytes back to the input.
pub length-read : (m : ℕ) (r : DataReader) → length (read m r).0.input ≤ length r.input
unfolding read
length-read m r =
    if_cases {A = DataReader × Bytes × Option Error} (λ p. Within (length r.input) p.0) (m == 0)
      (λ _. omega arith)
      (λ _.
        if_cases {A = DataReader × Bytes × Option Error} (λ p. Within (length r.input) p.0)
          (ltb 0 (length r.pending)) (λ _. omega arith) (λ _. read_next-Within m r r.terminal_err))

-- drain returns, with no error or with the reader's own, and takes bytes off the input.
abbrev pub Drained : ℕ → Error → Drain → Type 0
Drained n ending (drained r why) = Within n r × ((why ≡ none) ⊎ (why ≡ some ending))
Drained n ending (still_draining r) = ⊥

Drained-mono :
    (m n : ℕ) (ending : Error) (p : Drain) → m ≤ n → Drained m ending p → Drained n ending p
Drained-mono m n ending (drained r why) le (h, w) = (omega arith, w)
Drained-mono m n ending (still_draining r) le h = h

on_drain-Drained :
    (fuel : ℕ) (r : DataReader) (l : Line)
    → ((t : DataReader)
        → length t.input < fuel
        → Drained (length t.input) t.ending (drain_loop fuel t))
    → length r.input ≤ fuel
    → Progress r.max_line_bytes r.ending (length r.input) l
    → Drained (length r.input) r.ending (on_drain (drain_loop fuel) r l)
on_drain-Drained fuel r (line text rest) ih lt p =
    if_cases (Drained (length r.input) r.ending) (bytes_eq text dot) (λ _. (omega arith, inl refl))
      (λ _.
        Drained-mono (length rest) (length r.input) r.ending
          (drain_loop fuel (record r { input = rest })) (omega arith)
          (ih (record r { input = rest }) (omega arith)))
on_drain-Drained fuel r (too_long rest) ih lt p =
    Drained-mono (length rest) (length r.input) r.ending
      (drain_loop fuel (record r { input = rest })) (omega arith)
      (ih (record r { input = rest }) (omega arith))
on_drain-Drained fuel r (failed e) ih lt p = (omega arith, inr (ap some p))
on_drain-Drained fuel r stuck ih lt p = absurd p

drain_loop-Drained :
    (fuel : ℕ) (r : DataReader)
    → length r.input < fuel
    → Drained (length r.input) r.ending (drain_loop fuel r)
unfolding drain_loop
drain_loop-Drained zero r lt = absurd (omega arith)
drain_loop-Drained (suc fuel) r lt =
    on_drain-Drained fuel r _ (drain_loop-Drained fuel) (omega arith)
      (read_limited_line-Progress r.max_line_bytes r.ending r.input)

-- drain returns on every input, with no error or with the error of the connection itself,
-- and takes bytes off the input only.
pub drain-Drained : (r : DataReader) → Drained (length r.input) r.ending (drain r)
unfolding drain
drain-Drained r =
    if_cases (Drained (length r.input) r.ending) r.ended (λ _. (omega arith, inl refl))
      (λ _. drain_loop-Drained (suc (length r.input)) r (omega arith))
