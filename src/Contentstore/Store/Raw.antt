-- ===== src/Contentstore/Store/Raw.antt =====
-- A message that the peer sends, as put stores it.
use mailwisp.Common.{
  ℕ, zero, suc, ◌+◌, ◌-◌, ◌≤◌, ◌<◌, ◌≡◌, refl, sym, ◌∙◌, ap, ◌⊎◌, inl, inr, Bool, true, false,
  Option, none, some, [], ◌∷◌, ◌++◌, append_assoc, Bytes, bytes_eq_refl, has_prefix, to_lower,
  lower, is_digit, is_lower_hex, all, pos, eof, Error, ok, suc-==-zero, ==_refl, length,
  length-append, min, All, ltb, if◌then◌else◌, arith,
}
use mailwisp.Encoding.Hex.{IsByte, hex_encode, length-hex_encode, hex_encode-hex}
use mailwisp.Message.Delivery.{ContentRef, all_lower_hex}
use mailwisp.Contentstore.Capacity.{Capacity, reserve, release, check_capacity}
use mailwisp.Contentstore.Store.{
  Store, Os, find_object, object_path, relative_path_for_key, key_of, verify, verify_size,
  verify_read, open_content, check_existing, after_existing, finish, link, install_at, install,
  after_copy, stage_with, stage, put_reserved, put,
}
use mailwisp.Contentstore.Store.Outcome.{find_object-here}
use mailwisp.Lmtp.DataReader.{DataReader, read, new_data_reader}
use mailwisp.Lmtp.DataReader.RoundTrip.{Message, render, sent, IsLine, Sending, read-Reads}
use mailwisp.Contentstore.Store.Copy.{
  Source, Copied, on_end, on_write, copy_round, copy_loop, copy_limited, copy_buffer_bytes,
}

-- Nothing fails on the way.
abbrev pub steady : Source
steady = record { cancelled = λ _. none; write_fails = λ _. none }

min-suc : (n : ℕ) → (k : ℕ) × (min copy_buffer_bytes (suc n) ≡ suc k)
min-suc n = (min copy_buffer_bytes (suc n) - 1, omega arith)

if-both : {A : Type 0} (b : Bool) (x : A) → (if b then x else x) ≡ x
if-both true x = refl
if-both false x = refl

round-reads :
    (go_on : DataReader → Bytes → Copied) (n k : ℕ) (r r' : DataReader) (copied out : Bytes)
    (e : Option Error)
    → min copy_buffer_bytes (suc n) ≡ suc k
    → read (suc k) r ≡ (r', out, e)
    → copy_round steady go_on (suc n) r copied ≡ on_write go_on copied (r', out, e) none
round-reads go_on n k r r' copied out e buffer result =
    rw (suc-==-zero n, buffer, result, if-both {A = Option Error} (ltb 0 (length out)) none) refl

-- The rounds after one that begins with the bytes `copied` and the limit `limit`.
abbrev rounds : ℕ → ℕ → Bytes → DataReader → Bytes → Copied
rounds fuel limit copied r' copied' =
    copy_loop fuel steady (limit - (length copied' - length copied)) r' copied'

copy_loop-sent :
    (fuel limit : ℕ) (ls : Message) (rest : Bytes) (r : DataReader) (copied : Bytes)
    → Sending ls rest r
    → length (r.pending ++ render ls) < limit
    → length (r.pending ++ render ls) < fuel
    → (r' : DataReader) × (copy_loop fuel steady limit r copied
        ≡ (r', copied ++ (r.pending ++ render ls), none))
      × (r'.input ≡ rest)
      × (r'.ended ≡ true)
unfolding copy_loop on_end
copy_loop-sent zero limit ls rest r copied s room lt = absurd (omega arith)
copy_loop-sent (suc fuel) zero ls rest r copied s room lt = absurd (omega arith)
copy_loop-sent (suc fuel) (suc n) ls rest r copied s room lt =
    let (k, buffer) = min-suc n in
    elim (read-Reads k ls rest r s) [
      | inl (r', e, empty, at, over) ↦ (
        r',
        round-reads (rounds fuel (suc n) copied) n k r r' copied [] (some eof) buffer e
            ∙ ap (λ t. (r', copied ++ t, none)) (sym empty),
        at,
        over,
      )
      | inr (r', ls', out, e, s', split, some_out) ↦
          let more = ap length split ∙ length-append out (r'.pending ++ render ls') in
          let (r'', e', at, over) =
            copy_loop-sent fuel (suc n - (length (copied ++ out) - length copied)) ls' rest r'
              (copied ++ out) s' (omega (arith, more, length-append {0} copied out))
              (omega (arith, more)) in
          (
            r'',
            round-reads (rounds fuel (suc n) copied) n k r r' copied out none buffer e
                ∙ e'
                ∙ ap (λ t. (r'', t, none))
                    (append_assoc copied out (r'.pending ++ render ls')
                      ∙ ap (λ t. copied ++ t) (sym split)),
            at,
            over,
          )
    ]

-- An operating system on which nothing fails, with so much space free.
abbrev pub calm : ℕ → Os
calm free = record {
  cancelled = none;
  available = ok free;
  capacity_cancelled = none;
  create_fails = none;
  chmod_fails = none;
  source = steady;
  copied_cancelled = none;
  sync_fails = none;
  close_fails = none;
  directory_fails = none;
  tree_fails = none;
  link_fails = none;
  installed_sync_fails = none;
  stat_fails = none;
  open_fails = none;
  verify_fails = none;
  remove_fails = none;
  discard_fails = false;
  staging_sync_fails = none;
  deleted_sync_fails = none;
  is_disk_full = λ _. false;
}

lower-hex : (c : ℕ) → is_lower_hex c ≡ true → lower c ≡ c
unfolding lower is_lower_hex is_digit
lower-hex c h = ground arith

to_lower-hex : (s : Bytes) → all is_lower_hex s ≡ true → (to_lower s ≡ s) × (all_lower_hex s ≡ true)
unfolding to_lower all_lower_hex
to_lower-hex [] h = (refl, refl)
to_lower-hex (c ∷ s) h =
    let first : is_lower_hex c ≡ true = ground arith in
    let (same_text, hex) = to_lower-hex s (ground arith) in
    (rw (lower-hex c first) (ap (λ t. c ∷ t) same_text), rw (first, hex) refl)

reserve_free :
    (c : Capacity) (free : ℕ)
    → check_capacity c (ok free) none ≡ ok tt
    → reserve c (ok free) none ≡ ok (record c { reserved_bytes = c.reserved_bytes + c.max_bytes })
unfolding check_capacity reserve
reserve_free c free h = rw h refl

module _ (sha256 : Bytes → Bytes) (free : ℕ) where
  -- Where the key of a content leads
  key_path :
      (content : Bytes)
      → length (sha256 content) ≡ 32
      → All IsByte (sha256 content)
      → relative_path_for_key (key_of sha256 content)
        ≡ ok (object_path (hex_encode (sha256 content)))
  unfolding relative_path_for_key has_prefix
  key_path content sized byte =
      let (same_text, hex) =
        to_lower-hex (hex_encode (sha256 content)) (hex_encode-hex (sha256 content) byte) in
      rw
        (
          length-hex_encode (sha256 content),
          sized,
          same_text,
          bytes_eq_refl (hex_encode (sha256 content)),
          hex,
        )
        refl

  -- A reference to a content
  abbrev pub reference : Bytes → ContentRef
  reference content = record { key = key_of sha256 content; size_bytes = pos (length content) }

  check_present :
      (s : Store) (content path : Bytes)
      → relative_path_for_key (key_of sha256 content) ≡ ok path
      → find_object path s.objects ≡ some content
      → check_existing sha256 (calm free) s content content (reference content) ≡ ok tt
  unfolding check_existing verify verify_size open_content verify_read
  check_present s content path placed present =
      rw
        (
          ==_refl (length content),
          placed,
          present,
          ==_refl (length content),
          bytes_eq_refl (key_of sha256 content),
        )
        refl

  install-calm :
      (s : Store) (content path : Bytes)
      → relative_path_for_key (key_of sha256 content) ≡ ok path
      → (find_object path s.objects ≡ none) ⊎ (find_object path s.objects ≡ some content)
      → (s' : Store) × (install sha256 (calm free) s content ≡ (s', ok (reference content)))
        × (find_object path s'.objects ≡ some content)
  unfolding install install_at link after_existing finish
  install-calm s content path placed (inl absent) = (
    record s { objects = (path, content) ∷ s.objects },
    rw (placed, absent) refl,
    find_object-here path content s.objects,
  )
  install-calm s content path placed (inr present) =
      (s, rw (placed, present, check_present s content path placed present) refl, present)

  not_over : (a b : ℕ) → a ≤ b → ltb b a ≡ false
  not_over a b h = ground arith

  after_copy-calm :
      (s : Store) (r : DataReader) (content : Bytes) (path : Bytes)
      → length content ≤ s.capacity.max_bytes
      → relative_path_for_key (key_of sha256 content) ≡ ok path
      → (find_object path s.objects ≡ none) ⊎ (find_object path s.objects ≡ some content)
      → (s' : Store) × (after_copy sha256 (calm free) s (r, content, none)
          ≡ (s', r, ok (reference content)))
        × (find_object path s'.objects ≡ some content)
  unfolding after_copy
  after_copy-calm s r content path fits placed there =
      let (s', installed, present) = install-calm s content path placed there in
      (s', rw (not_over (length content) s.capacity.max_bytes fits, installed) refl, present)

  -- A message of lines within the limits, sent with its dots stuffed, is stored byte for byte when nothing fails,
  -- there is room, its digest has 32 bytes, and its path is free or holds it: put returns its reference, its
  -- object is the message, and the reader stands directly behind the lone dot.
  pub put-sent :
      (s : Store) (ls : Message) (rest : Bytes) (ending : Error) (max max_line : ℕ)
      → All (IsLine max_line) ls
      → length (render ls) ≤ max
      → 1 ≤ max_line
      → length (render ls) ≤ s.capacity.max_bytes
      → check_capacity s.capacity (ok free) none ≡ ok tt
      → length (sha256 (render ls)) ≡ 32
      → All IsByte (sha256 (render ls))
      → (find_object (object_path (hex_encode (sha256 (render ls)))) s.objects ≡ none)
        ⊎ (find_object (object_path (hex_encode (sha256 (render ls)))) s.objects ≡ some (render ls))
      → (s' : Store) × (r' : DataReader) × (put sha256
            (calm free)
            s
            (new_data_reader (sent ls rest) ending max max_line)
          ≡ (s', r', ok (reference (render ls))))
        × (find_object (object_path (hex_encode (sha256 (render ls)))) s'.objects
            ≡ some (render ls))
        × (r'.input ≡ rest)
        × (r'.ended ≡ true)
  unfolding put put_reserved stage stage_with copy_limited new_data_reader
  put-sent s ls rest ending max max_line lines fits positive small room sized byte there =
      let r = new_data_reader (sent ls rest) ending max max_line in
      let c = record s.capacity {
        reserved_bytes = s.capacity.reserved_bytes + s.capacity.max_bytes;
      } in
      let (r', copied, at, over) =
        copy_loop-sent (suc (s.capacity.max_bytes + 1)) (s.capacity.max_bytes + 1) ls rest r []
          (record {
            lines = lines;
            at = refl;
            open_ = refl;
            sound = refl;
            fits = omega arith;
            positive = positive;
          })
          (omega arith) (omega arith) in
      let (s', stored, present) =
        after_copy-calm (record s { capacity = c }) r' (render ls) _ small
          (key_path (render ls) sized byte) there in
      (
        record s' { capacity = release s'.capacity },
        r',
        rw (reserve_free s.capacity free room, copied, stored) refl,
        present,
        at,
        over,
      )
