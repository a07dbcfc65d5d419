-- ===== src/Lmtp/DataReader/RoundTrip.antt =====
-- What DATA carries: a message sent with its dots stuffed is read back byte for byte.
use mailwisp.Common.{
  ℕ, zero, suc, ◌+◌, ◌≤◌, ◌<◌, ◌≡◌, refl, ◌≢◌, ◌∙◌, sym, ap, ◌⊎◌, inl, inr, true, false, Option,
  none, some, List, [], ◌∷◌, ◌++◌, append_assoc, append-nil, All-append, Bytes, bytes_eq-ne, Error,
  eof, length, length-append, take, drop, take-append-drop, le→leb, All, ltb, ◌==◌, if◌then◌else◌,
  arith, Bool-cases, suc-==-zero,
}
use mailwisp.Lmtp.Line.{cr, lf, line, drop_cr, read_limited_line}
use mailwisp.Lmtp.Line.Limit.{LacksLf, content, read_limited_line-line, content-append}
use mailwisp.Lmtp.DataReader.{
  DataReader, dot, crlf, unstuff, accept, load, copy_out, read_loaded, read, read_next,
  new_data_reader,
}

-- A line of a message: no `\n`.
abbrev pub Message : Type 0
Message = List Bytes

-- The bytes of a message, each line ended by `\r\n`.
abbrev pub render : Message → Bytes
render [] = []
render (l ∷ ls) = (l ++ crlf) ++ render ls

-- Dot stuffing (RFC 5321, 4.5.2): a line that begins with a dot gets one more.
abbrev pub stuff : Bytes → Bytes
stuff [] = []
stuff (c ∷ s) = if c == b'.' then b'.' ∷ c ∷ s else c ∷ s

-- A message as the client sends it, before the lone dot and what follows.
abbrev pub sent : Message → Bytes → Bytes
sent [] rest = b'.' ∷ cr ∷ lf ∷ rest
sent (l ∷ ls) rest = (stuff l ++ cr ∷ []) ++ lf ∷ sent ls rest

unstuff-stuff : (l : Bytes) → unstuff (stuff l) ≡ l
unfolding unstuff
unstuff-stuff [] = refl
unstuff-stuff (c ∷ []) = ground arith
unstuff-stuff (c ∷ d ∷ s) = ground arith

LacksLf-stuff : (l : Bytes) → LacksLf l → LacksLf (stuff l)
LacksLf-stuff [] h = tt
LacksLf-stuff (c ∷ s) h = ground arith

stuff-ne-dot : (l : Bytes) → stuff l ≢ dot
stuff-ne-dot [] = ground arith
stuff-ne-dot (c ∷ []) = ground arith
stuff-ne-dot (c ∷ d ∷ s) = ground arith

content-cr : (s : Bytes) → content (s ++ cr ∷ []) ≡ s
unfolding drop_cr
content-cr s = content-append s cr [] ∙ append-nil s

-- A line that the reader takes: no `\n`, and stuffed within the limit for a line.
abbrev pub IsLine : ℕ → Bytes → Type 0
IsLine max_line l = LacksLf l × (length (stuff l) ≤ max_line)

-- The reader when the lines `ls` are still to be read from its input, within the limits.
pub record Sending (ls : Message) (rest : Bytes) (r : DataReader) : Type 0 where
  pub lines : All (IsLine r.max_line_bytes) ls
  pub at : r.input ≡ sent ls rest
  pub open_ : r.ended ≡ false
  pub sound : r.terminal_err ≡ none
  pub fits : r.written + length (render ls) ≤ r.max_bytes
  pub positive : 1 ≤ r.max_line_bytes

-- The next line put into `pending`.
abbrev loaded : Bytes → Message → Bytes → DataReader → DataReader
loaded l ls rest r = record r {
  input = sent ls rest;
  written = r.written + (length l + 2);
  pending = l ++ crlf;
}

LacksLf-cr : (s : Bytes) → LacksLf s → LacksLf (s ++ cr ∷ [])
LacksLf-cr s h = All-append (λ c. c ≢ lf) s (cr ∷ []) h (λ e. omega arith, tt)

line_of_sent :
    (l : Bytes) (ls : Message) (rest : Bytes) (limit : ℕ) (ending : Error)
    → IsLine limit l
    → read_limited_line limit ending (sent (l ∷ ls) rest) ≡ line (stuff l) (sent ls rest)
line_of_sent l ls rest limit ending h =
    read_limited_line-line limit ending (stuff l ++ cr ∷ []) (sent ls rest)
      (LacksLf-cr (stuff l) (LacksLf-stuff l h.0))
    ∙ rw (content-cr (stuff l), le→leb _ _ h.1) refl

load_line :
    (l : Bytes) (ls : Message) (rest : Bytes) (r : DataReader)
    → Sending (l ∷ ls) rest r
    → load r ≡ (loaded l ls rest r, none)
unfolding load accept
load_line l ls rest r s =
    rw
      (
        s.at,
        line_of_sent l ls rest r.max_line_bytes r.ending s.lines.0,
        bytes_eq-ne (stuff l) dot (stuff-ne-dot l),
        unstuff-stuff l,
        load,
      )
      (ground (arith, length-append (l ++ crlf) (render ls), length-append l crlf, s.fits))

stop_line :
    (rest : Bytes) (r : DataReader)
    → Sending [] rest r
    → load r ≡ (record r { input = rest; ended = true }, some eof)
unfolding load accept drop_cr
stop_line rest r s =
    rw
      (
        s.at,
        read_limited_line-line r.max_line_bytes r.ending (dot ++ cr ∷ []) rest (omega arith),
        le→leb 1 r.max_line_bytes s.positive,
        load,
      )
      refl

-- What a Read of at least one byte does: it ends a message that is used up, or copies something.
abbrev pub Reads : ℕ → Message → Bytes → DataReader → Type 0
Reads n ls rest r =
    ((r' : DataReader) × (read n r ≡ (r', [], some eof))
      × (r.pending ++ render ls ≡ [])
      × (r'.input ≡ rest)
      × (r'.ended ≡ true))
    ⊎ ((r' : DataReader) × (ls' : Message) × (out : Bytes) × (read n r ≡ (r', out, none))
        × Sending ls' rest r'
        × (r.pending ++ render ls ≡ out ++ (r'.pending ++ render ls'))
        × (1 ≤ length out))

take-pos : (n : ℕ) (s : Bytes) → 1 ≤ length s → 1 ≤ length (take (suc n) s)
take-pos n [] h = h
take-pos n (c ∷ s) h = omega arith

copied : (n : ℕ) (s rest : Bytes) → s ++ rest ≡ take n s ++ (drop n s ++ rest)
copied n s rest =
    ap (λ t. t ++ rest) (sym (take-append-drop n s)) ∙ append_assoc (take n s) (drop n s) rest

read_next-eq :
    (n : ℕ) (ls : Message) (rest : Bytes) (r : DataReader)
    → Sending ls rest r
    → read_next n r r.terminal_err ≡ read_loaded n (load r)
unfolding read_next
read_next-eq n ls rest r s = simp (s.sound, s.open_) refl

pending_empty : (s : Bytes) → ltb 0 (length s) ≡ false → s ≡ []
pending_empty [] h = refl
pending_empty (c ∷ s) h = absurd (ground arith)

next_Reads :
    (n : ℕ) (ls : Message) (rest : Bytes) (r : DataReader)
    → Sending ls rest r
    → r.pending ≡ []
    → read (suc n) r ≡ read_loaded (suc n) (load r)
    → Reads (suc n) ls rest r
next_Reads n [] rest r s none_left e = inl (
  record r { input = rest; ended = true },
  e ∙ rw (stop_line rest r s) refl,
  rw none_left refl,
  refl,
  refl,
)
next_Reads n (l ∷ ls) rest r s none_left e = inr (
  (copy_out (suc n) (loaded l ls rest r)).0,
  ls,
  take (suc n) (l ++ crlf),
  e ∙ rw (load_line l ls rest r s) refl,
  record {
    lines = s.lines.1;
    at = refl;
    open_ = s.open_;
    sound = s.sound;
    fits =
        omega (arith, s.fits, length-append {0} (l ++ crlf) (render ls), length-append {0} l crlf);
    positive = s.positive;
  },
  rw none_left (copied (suc n) (l ++ crlf) (render ls)),
  take-pos n (l ++ crlf) (omega (arith, length-append {0} l crlf)),
)

pub read-Reads :
    (n : ℕ) (ls : Message) (rest : Bytes) (r : DataReader)
    → Sending ls rest r
    → Reads (suc n) ls rest r
read-Reads n ls rest r s = elim (Bool-cases (ltb 0 (length r.pending))) [
  | inl some_left ↦ inr (
    (copy_out (suc n) r).0,
    ls,
    take (suc n) r.pending,
    unfold read in rw (suc-==-zero n, some_left) refl,
    record {
      lines = s.lines;
      at = s.at;
      open_ = s.open_;
      sound = s.sound;
      fits = s.fits;
      positive = s.positive;
    },
    copied (suc n) r.pending (render ls),
    take-pos n r.pending (ground arith),
  )
  | inr none_left ↦
      next_Reads n ls rest r s (pending_empty r.pending none_left)
        (unfold read in rw (suc-==-zero n, none_left) (read_next-eq (suc n) ls rest r s))
]

abbrev prepend : Bytes → DataReader × Bytes × Option Error → DataReader × Bytes × Option Error
prepend out (r, more, why) = (r, out ++ more, why)

-- What a consumer does with the result of a Read, given how it reads the rest.
abbrev go_on :
    (DataReader → DataReader × Bytes × Option Error)
    → DataReader × Bytes × Option Error
    → DataReader × Bytes × Option Error
go_on rest_of (r, out, some e) = (r, out, some e)
go_on rest_of (r, out, none) = prepend out (rest_of r)

-- A reader read to its end, the k-th last Read being into a buffer of `sizes k` + 1 bytes: what
-- io.Copy and io.ReadAll do. `none` in the place of an error: `fuel` Reads did not reach the end.
pub consume : ℕ → (ℕ → ℕ) → DataReader → DataReader × Bytes × Option Error
consume zero sizes r = (r, [], none)
consume (suc fuel) sizes r = go_on (consume fuel sizes) (read (suc (sizes fuel)) r)

consume-sent :
    (fuel : ℕ) (sizes : ℕ → ℕ) (ls : Message) (rest : Bytes) (r : DataReader)
    → Sending ls rest r
    → length (r.pending ++ render ls) < fuel
    → (r' : DataReader) × (consume fuel sizes r ≡ (r', r.pending ++ render ls, some eof))
      × (r'.input ≡ rest)
      × (r'.ended ≡ true)
unfolding consume
consume-sent zero sizes ls rest r s lt = absurd (omega arith)
consume-sent (suc fuel) sizes ls rest r s lt = elim (read-Reads (sizes fuel) ls rest r s) [
  | inl (r', e, empty, at, over) ↦ (r', rw (e, empty) refl, at, over)
  | inr (r', ls', out, e, s', split, some_out) ↦
      let (r'', e', at, over) =
        consume-sent fuel sizes ls' rest r' s'
          (omega (arith, ap length split, length-append {0} out (r'.pending ++ render ls'))) in
      (r'', rw (e, e', split) refl, at, over)
]

-- DATA round trip: a message within the limits, sent with its dots stuffed and a lone dot behind
-- it, is read back byte for byte, whatever the sizes of the buffers that it is read into; the reader
-- then stands directly behind the lone dot. So many Reads as the message has bytes, and one, are enough.
pub consume-new_data_reader :
    (fuel : ℕ) (sizes : ℕ → ℕ) (ls : Message) (rest : Bytes) (ending : Error) (max max_line : ℕ)
    → All (IsLine max_line) ls
    → length (render ls) ≤ max
    → 1 ≤ max_line
    → length (render ls) < fuel
    → (r' : DataReader) × (consume fuel sizes (new_data_reader (sent ls rest) ending max max_line)
        ≡ (r', render ls, some eof))
      × (r'.input ≡ rest)
      × (r'.ended ≡ true)
unfolding new_data_reader
consume-new_data_reader fuel sizes ls rest ending max max_line lines fits pos lt =
    consume-sent fuel sizes ls rest (new_data_reader (sent ls rest) ending max max_line)
      (record {
        lines = lines;
        at = refl;
        open_ = refl;
        sound = refl;
        fits = omega arith;
        positive = pos;
      })
      lt
