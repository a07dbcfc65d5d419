-- ===== src/Lmtp/Line/Limit.antt =====
-- What readLimitedLine promises: the line up to `\n`, without `\r\n`, if it fits the limit.
use mailwisp.Common.{
  ℕ, zero, suc, ◌+◌, ◌≤◌, ◌<◌, ◌≡◌, refl, ◌≢◌, Bool, true, false, ◌||◌, [], ◌∷◌, ◌++◌, Bytes, Error,
  ok, length, take, drop, All, ltb, leb, ltb→lt, append-nil, if◌then◌else◌, arith, Bool-cases,
  length-append, append_assoc, take-append-drop, length-drop, ap, ◌∙◌, sym, inl, inr, ◌⊎◌,
}
use mailwisp.Lmtp.Line.{
  cr, lf, found, full, read_slice, drop_cr, drop_last, read_line, Line, line, too_long, line_loop,
  read_line_sized, read_limited_line, reader_size,
}

abbrev pub LacksLf : Bytes → Type 0
LacksLf = All (λ c. c ≢ lf)

-- The bytes of a line before `\n`, without a `\r` at their end.
abbrev pub content : Bytes → Bytes
content body = (drop_cr body).0

read_slice_short :
    (n : ℕ) (body rest : Bytes)
    → LacksLf body
    → length body < n
    → read_slice n (body ++ lf ∷ rest) ≡ (found, body ++ lf ∷ [], rest)
unfolding read_slice
read_slice_short zero body rest h lt = absurd (omega arith)
read_slice_short (suc n) [] rest h lt = refl
read_slice_short (suc n) (c ∷ body) rest h lt =
    ground (arith, read_slice_short n body rest h.1 (omega arith))

read_slice_long :
    (n : ℕ) (body rest : Bytes)
    → LacksLf body
    → n ≤ length body
    → read_slice n (body ++ lf ∷ rest) ≡ (full, take n body, drop n body ++ lf ∷ rest)
unfolding read_slice
read_slice_long zero body rest h le = refl
read_slice_long (suc n) [] rest h le = absurd (omega arith)
read_slice_long (suc n) (c ∷ body) rest h le =
    ground (arith, read_slice_long n body rest h.1 (omega arith))

drop_last_end : (body : Bytes) (c : ℕ) → drop_last (body ++ c ∷ []) ≡ body
unfolding drop_last
drop_last_end [] c = refl
drop_last_end (a ∷ []) c = refl
drop_last_end (a ∷ b ∷ body) c = ap (λ s. a ∷ s) (drop_last_end (b ∷ body) c)

-- Either the text ends with `\r`, which `drop_cr` takes off, or it stays whole.
abbrev CrSplit : Bytes → Type 0
CrSplit s =
    ((drop_cr s ≡ (content s, true)) × (s ≡ content s ++ cr ∷ [])) ⊎ (drop_cr s ≡ (s, false))

drop_cr-split : (s : Bytes) → CrSplit s
unfolding drop_cr
drop_cr-split [] = inr refl
drop_cr-split (c ∷ []) = ground arith
drop_cr-split (c ∷ d ∷ s) = elim (drop_cr-split (d ∷ s)) [
  | inl (e, f) ↦ inl (rw e refl, ap (λ t. c ∷ t) f)
  | inr e ↦ inr (rw e refl)
]

pub content-append : (s : Bytes) (c : ℕ) (t : Bytes) → content (s ++ c ∷ t) ≡ s ++ content (c ∷ t)
unfolding drop_cr
content-append [] c t = refl
content-append (a ∷ []) c t = refl
content-append (a ∷ b ∷ s) c t = ap (λ u. a ∷ u) (content-append (b ∷ s) c t)

LacksLf-drop : (n : ℕ) (s : Bytes) → LacksLf s → LacksLf (drop n s)
LacksLf-drop zero s h = h
LacksLf-drop (suc n) [] h = tt
LacksLf-drop (suc n) (c ∷ s) h = LacksLf-drop n s h.1

-- One ReadLine either ends the line or takes a fragment off it.
abbrev Reads : ℕ → Error → Bytes → Bytes → Type 0
Reads size ending body rest =
    (read_line size ending (body ++ lf ∷ rest) ≡ ok (content body, false, rest))
    ⊎ ((fragment more : Bytes) × (read_line size ending (body ++ lf ∷ rest)
          ≡ ok (fragment, true, more ++ lf ∷ rest))
        × (content body ≡ fragment ++ content more)
        × LacksLf more
        × (length more < length body))

content-split : (s t : Bytes) → drop_cr s ≡ (s, false) → content (s ++ t) ≡ s ++ content t
unfolding drop_cr
content-split s [] e = rw (append-nil s) (ap (λ p. p.0) e)
content-split s (c ∷ t) e = content-append s c t

fragment_Reads :
    (size : ℕ) (ending : Error) (body rest : Bytes)
    → 2 ≤ size
    → LacksLf body
    → size ≤ length body
    → Reads size ending body rest
unfolding read_line
fragment_Reads size ending body rest two h le = elim (drop_cr-split (take size body)) [
  | inl (e, f) ↦ inr (
    content (take size body),
    cr ∷ drop size body,
    rw (read_slice_long size body rest h le, e) refl,
    ap content (
          sym (take-append-drop size body)
          ∙ ap (λ s. s ++ drop size body) f
          ∙ append_assoc (content (take size body)) (cr ∷ []) (drop size body))
        ∙ content-append _ cr (drop size body),
    (λ e. omega arith, LacksLf-drop size body h),
    omega (arith, length-drop {0} size body),
  )
  | inr e ↦ inr (
    take size body,
    drop size body,
    rw (read_slice_long size body rest h le, e) refl,
    ap content (sym (take-append-drop size body)) ∙ content-split _ _ e,
    LacksLf-drop size body h,
    omega (arith, length-drop {0} size body),
  )
]

read_line-Reads :
    (size : ℕ) (ending : Error) (body rest : Bytes)
    → 2 ≤ size
    → LacksLf body
    → Reads size ending body rest
unfolding read_line
read_line-Reads size ending body rest two h = elim (Bool-cases (ltb (length body) size)) [
  | inl short ↦
      inl (
        rw (read_slice_short size body rest h (ltb→lt _ _ short)) (rw (drop_last_end body lf) refl))
  | inr long ↦ fragment_Reads size ending body rest two h (ground arith)
]

-- The line as the limit lets it through, behind what is read of it already.
abbrev outcome : ℕ → Bytes → Bool → Bytes → Bytes → Line
outcome limit buffer over text rest =
    if over || ltb limit (length buffer + length text)
    then too_long rest
    else line (buffer ++ text) rest

outcome-fragment :
    (limit : ℕ) (buffer fragment text rest : Bytes) (over : Bool)
    → let over' = over || ltb limit (length buffer + length fragment) in
      outcome limit (if over' then buffer else buffer ++ fragment) over' text rest
      ≡ outcome limit buffer over (fragment ++ text) rest
outcome-fragment limit buffer fragment text rest true = refl
outcome-fragment limit buffer fragment text rest false = ground (
  arith,
  length-append fragment text,
  length-append buffer fragment,
  append_assoc buffer fragment text,
)

line_loop-outcome :
    (fuel size limit : ℕ) (ending : Error) (body rest buffer : Bytes) (over : Bool)
    → 2 ≤ size
    → LacksLf body
    → length body < fuel
    → line_loop size limit fuel ending (body ++ lf ∷ rest) buffer over
      ≡ outcome limit buffer over (content body) rest
unfolding line_loop
line_loop-outcome zero size limit ending body rest buffer over two h lt = absurd (omega arith)
line_loop-outcome (suc fuel) size limit ending body rest buffer over two h lt =
    elim (read_line-Reads size ending body rest two h) [
      | inl e ↦ rw (e, line_loop) (ground arith)
      | inr (fragment, more, e, split, h', lt') ↦
          rw (e, split, line_loop)
            (line_loop-outcome fuel size limit ending more rest _ _ two h' (omega arith)
              ∙ outcome-fragment limit buffer fragment (content more) rest over)
    ]

-- A line that ends with `\n` is returned without its `\n` or `\r\n` if it then has at most `limit`
-- bytes, and refused as too long if not; in both cases exactly the line is taken off the input,
-- whatever the number of ReadLine fragments that it came in.
pub read_line_sized-line :
    (size limit : ℕ) (ending : Error) (body rest : Bytes)
    → 2 ≤ size
    → LacksLf body
    → read_line_sized size limit ending (body ++ lf ∷ rest)
      ≡ (if leb (length (content body)) limit then line (content body) rest else too_long rest)
unfolding read_line_sized
read_line_sized-line size limit ending body rest two h =
    line_loop-outcome (suc (length (body ++ lf ∷ rest))) size limit ending body rest [] false two h
      (omega (arith, length-append {0} body (lf ∷ rest)))
    ∙ ground arith

-- The same at the session's buffer.
pub read_limited_line-line :
    (limit : ℕ) (ending : Error) (body rest : Bytes)
    → LacksLf body
    → read_limited_line limit ending (body ++ lf ∷ rest)
      ≡ (if leb (length (content body)) limit then line (content body) rest else too_long rest)
unfolding read_limited_line
read_limited_line-line limit ending body rest h =
    read_line_sized-line reader_size limit ending body rest (omega arith) h
