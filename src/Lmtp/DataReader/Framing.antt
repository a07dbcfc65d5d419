-- ===== src/Lmtp/DataReader/Framing.antt =====
-- Where DATA ends in the input: at the lone dot, however much of it was read before.
use mailwisp.Common.{
  ℕ, zero, suc, ◌≤◌, ◌<◌, ◌≡◌, refl, ◌≢◌, ◌⊎◌, inl, inr, true, false, Option, none, some, List, [],
  ◌∷◌, ◌++◌, Bytes, bytes_eq_iff, Error, length, length-append, leb, All, ltb, ◌==◌, arith,
  Bool-cases, le→leb, bytes_eq-ne, ap,
}
use mailwisp.Lmtp.Line.{lf}
use mailwisp.Lmtp.Line.Limit.{LacksLf, content, read_limited_line-line}
use mailwisp.Lmtp.DataReader.{
  DataReader, dot, accept, load, read, read_next, drained, drain, drain_loop, copy_out, read_loaded,
}

-- A line of DATA as it is sent, without its `\n`: it is not the lone dot.
abbrev pub IsBodyLine : Bytes → Type 0
IsBodyLine b = LacksLf b × (content b ≢ dot)

-- The lone dot as it is sent, with or without `\r`.
abbrev pub IsStop : Bytes → Type 0
IsStop b = LacksLf b × (content b ≡ dot)

-- Lines as they are sent, before `rest`.
abbrev pub wire : List Bytes → Bytes → Bytes
wire [] rest = rest
wire (b ∷ bs) rest = b ++ lf ∷ wire bs rest

-- The lines of DATA that are left, their stop, and what the peer sends behind it.
abbrev pub Inside : Bytes → Bytes → DataReader → Type 0
Inside stop rest r =
    (bs : List Bytes) × All IsBodyLine bs
    × (r.input ≡ wire bs (stop ++ lf ∷ rest))
    × (r.ended ≡ false)
    × (1 ≤ r.max_line_bytes)

abbrev pub Behind : Bytes → DataReader → Type 0
Behind rest r = (r.input ≡ rest) × (r.ended ≡ true)

-- A reader within DATA: before the stop, or directly behind it.
abbrev pub Framed : Bytes → Bytes → DataReader → Type 0
Framed stop rest r = Inside stop rest r ⊎ Behind rest r

module _ (stop rest : Bytes) (is_stop : IsStop stop) where
  accept_stop : (r : DataReader) → r.input ≡ rest → Behind rest (accept r dot).0
  unfolding accept
  accept_stop r h = (h, refl)

  accept_body :
      (r : DataReader) (text : Bytes)
      → text ≢ dot
      → Inside stop rest r
      → Inside stop rest (accept r text).0
  unfolding accept
  accept_body r text ne (bs, ok, e, open_, lim) = (
    bs,
    ok,
    ground (arith, bytes_eq_iff text dot),
    ground (arith, bytes_eq_iff text dot),
    ground (arith, bytes_eq_iff text dot),
  )

  load-Framed : (r : DataReader) → Inside stop rest r → Framed stop rest (load r).0
  unfolding load
  load-Framed r ([], _, e, open_, lim) =
      rw
        (
          e,
          read_limited_line-line r.max_line_bytes r.ending stop rest is_stop.0,
          is_stop.1,
          le→leb 1 r.max_line_bytes lim,
          load,
        )
        (inr (accept_stop (record r { input = rest }) refl))
  load-Framed r (b ∷ bs, ok, e, open_, lim) =
      elim (Bool-cases (leb (length (content b)) r.max_line_bytes)) [
        | inl fits ↦
            rw
              (
                e,
                read_limited_line-line r.max_line_bytes r.ending b (wire bs (stop ++ lf ∷ rest))
                    ok.0.0,
                fits,
                load,
              )
              (inl (accept_body _ (content b) ok.0.1 (bs, ok.1, refl, open_, lim)))
        | inr long ↦
            rw
              (
                e,
                read_limited_line-line r.max_line_bytes r.ending b (wire bs (stop ++ lf ∷ rest))
                    ok.0.0,
                long,
                load,
              )
              (inl (bs, ok.1, refl, open_, lim))
      ]

  copied-Framed : (n : ℕ) (r : DataReader) → Framed stop rest r → Framed stop rest (copy_out n r).0
  copied-Framed n r (inl h) = inl h
  copied-Framed n r (inr h) = inr h

  read_loaded-Framed :
      (n : ℕ) (p : DataReader × Option Error)
      → Framed stop rest p.0
      → Framed stop rest (read_loaded n p).0
  read_loaded-Framed n (r, none) h = copied-Framed n r h
  read_loaded-Framed n (r, some e) h = h

  read_next-Framed :
      (n : ℕ) (r : DataReader) (o : Option Error)
      → Framed stop rest r
      → Framed stop rest (read_next n r o).0
  unfolding read_next
  read_next-Framed n r (some e) h = h
  read_next-Framed n r none (inl h) = simp h.3 (read_loaded-Framed n (load r) (load-Framed r h))
  read_next-Framed n r none (inr h) = simp h.1 (inr (h.0, refl))

  -- A Read of any size leaves the reader within its DATA.
  pub read-Framed : (n : ℕ) (r : DataReader) → Framed stop rest r → Framed stop rest (read n r).0
  unfolding read
  read-Framed n r h = elim (Bool-cases (n == 0)) [
    | inl e ↦ rw (e, read) h
    | inr e ↦ elim (Bool-cases (ltb 0 (length r.pending))) [
      | inl f ↦ rw (e, f, read) (copied-Framed n r h)
      | inr f ↦ rw (e, f, read) (read_next-Framed n r r.terminal_err h)
    ]
  ]

  drain_loop-Behind :
      (fuel : ℕ) (r : DataReader) (bs : List Bytes)
      → All IsBodyLine bs
      → r.input ≡ wire bs (stop ++ lf ∷ rest)
      → 1 ≤ r.max_line_bytes
      → length bs < fuel
      → (t : DataReader) × (drain_loop fuel r ≡ drained t none) × Behind rest t
  unfolding drain_loop
  drain_loop-Behind zero r bs ok e lim lt = absurd (omega arith)
  drain_loop-Behind (suc fuel) r [] ok e lim lt =
      rw
        (
          e,
          read_limited_line-line r.max_line_bytes r.ending stop rest is_stop.0,
          is_stop.1,
          le→leb 1 r.max_line_bytes lim,
          drain_loop,
        )
        (_, refl, (refl, refl))
  drain_loop-Behind (suc fuel) r (b ∷ bs) ok e lim lt =
      let ih =
        drain_loop-Behind fuel (record r { input = wire bs (stop ++ lf ∷ rest) }) bs ok.1 refl lim
          (omega arith) in
      elim (Bool-cases (leb (length (content b)) r.max_line_bytes)) [
        | inl fits ↦
            rw
              (
                e,
                read_limited_line-line r.max_line_bytes r.ending b (wire bs (stop ++ lf ∷ rest))
                    ok.0.0,
                fits,
                bytes_eq-ne (content b) dot ok.0.1,
                drain_loop,
              )
              ih
        | inr long ↦
            rw
              (
                e,
                read_limited_line-line r.max_line_bytes r.ending b (wire bs (stop ++ lf ∷ rest))
                    ok.0.0,
                long,
                drain_loop,
              )
              ih
      ]

  length-wire : (bs : List Bytes) (s : Bytes) → length bs ≤ length (wire bs s)
  length-wire [] s = omega arith
  length-wire (b ∷ bs) s = omega (arith, length-wire bs s, length-append b (lf ∷ wire bs s))

  -- Draining a reader that is within its DATA succeeds, and leaves the input directly behind the lone
  -- dot: lines over the limit are skipped, and nothing of what follows is read.
  pub drain-Behind :
      (r : DataReader)
      → Framed stop rest r
      → (t : DataReader) × (drain r ≡ drained t none) × Behind rest t
  unfolding drain
  drain-Behind r (inr h) = simp h.1 (r, refl, h)
  drain-Behind r (inl (bs, ok, e, open_, lim)) = simp open_ (
      drain_loop-Behind (suc (length r.input)) r bs ok e lim
        (omega (arith, length-wire bs (stop ++ lf ∷ rest), ap length e)))
