-- ===== src/Contentstore/Store/Outcome.antt =====
-- What put does to the objects, on every path.
use mailwisp.Common.{
  ℕ, ◌+◌, ◌≤◌, ◌≡◌, refl, sym, ◌∙◌, ap, subst, Option, none, some, List, [], ◌∷◌, Bytes,
  bytes_eq_iff, bytes_eq_refl, pos, Error, content_corrupt, Result, ok, err, guard, or_fail,
  then_ok, bind_ok, ok-injective, err-ne-ok, guard-ok, if_cases, length, ltb, ◌==◌, arith,
}
use mailwisp.Lmtp.DataReader.{DataReader}
use mailwisp.Message.Delivery.{ContentRef}
use mailwisp.Postgres.Delivery.{failing}
use mailwisp.Contentstore.Capacity.{check_capacity_locked, Capacity, reserve}
use mailwisp.Contentstore.Store.{
  Store, Os, find_object, relative_path_for_key, stop_on, as_is, wrap_storage_error, discard,
  finish, key_of, verify_read, verify_size, verify, open_content, check_existing, after_existing,
  link, install_at, install, after_copy, stage_with, stage, put_reserved, put,
}
use mailwisp.Contentstore.Store.Copy.{copy_limited}

abbrev pub Objects : Type 0
Objects = List (Bytes × Bytes)

-- No object has gone or changed: at most one was added, at a free path, which is that of its digest.
pub data Extends (sha256 : Bytes → Bytes) (before : Objects) (after : Objects) : Type 0 where
  same : after ≡ before → Extends sha256 before after
  added :
      (path content : Bytes)
      → relative_path_for_key (key_of sha256 content) ≡ ok path
      → find_object path before ≡ none
      → after ≡ (path, content) ∷ before
      → Extends sha256 before after

-- A reference that put returns: the object at its path has the digest that the key names, and the size, which is
-- within the limit.
pub record Stored (sha256 : Bytes → Bytes) (max_bytes : ℕ) (objects : Objects) (ref : ContentRef)
    : Type 0 where
  pub path : Bytes
  pub content : Bytes
  pub placed : relative_path_for_key ref.key ≡ ok path
  pub present : find_object path objects ≡ some content
  pub named : ref.key ≡ key_of sha256 content
  pub sized : ref.size_bytes ≡ pos (length content)
  pub small : length content ≤ max_bytes

-- What a part of put does that begins with the objects `before`.
pub record Outcome (sha256 : Bytes → Bytes) (max_bytes : ℕ) (before : Objects)
    (p : Store × Result ContentRef) : Type 0 where
  pub extends : Extends sha256 before p.0.objects
  pub stored : (ref : ContentRef) → p.1 ≡ ok ref → Stored sha256 max_bytes p.0.objects ref

stop_on-cases :
    {A : Type 0} (P : A × Result ContentRef → Type 0) (x : Option Error) (a : A)
    (wrap : Error → Error) (next : A × Result ContentRef)
    → ((e : Error) → P (a, err e))
    → P next
    → P (stop_on x a wrap next)
stop_on-cases P (some e) a wrap next stopped on = stopped (wrap e)
stop_on-cases P none a wrap next stopped on = on

pub find_object-here :
    (path content : Bytes) (os : Objects) → find_object path ((path, content) ∷ os) ≡ some content
find_object-here path content os = rw (bytes_eq_refl path) refl

failing-ok : (x : Option Error) → failing x ≡ ok tt → x ≡ none
failing-ok none h = refl
failing-ok (some e) h = absurd (err-ne-ok h)

or_fail-ok : (x : Option Bytes) (e : Error) (a : Bytes) → or_fail x e ≡ ok a → x ≡ some a
or_fail-ok none e a h = absurd (err-ne-ok h)
or_fail-ok (some b) e a h = ap some (ok-injective h)

-- Verify accepts a reference only where the object at its path has the digest and the size that it names.
pub verify-ok :
    (sha256 : Bytes → Bytes) (os : Os) (s : Store) (key : Bytes) (n : ℕ)
    → verify sha256 os s record { key = key; size_bytes = pos n } ≡ ok tt
    → (path : Bytes) × (content : Bytes) × (relative_path_for_key key ≡ ok path)
      × (find_object path s.objects ≡ some content)
      × (length content ≡ n)
      × (key ≡ key_of sha256 content)
unfolding verify verify_size open_content verify_read
verify-ok sha256 os s key n done =
    let (content, opened, checks) = bind_ok (open_content os s key) _ tt done in
    let (path, placed, file) = bind_ok (relative_path_for_key key) _ content opened in
    let (_, found) = then_ok (failing os.open_fails) _ file in
    let (_, guards) = then_ok (failing os.verify_fails) _ checks in
    let (sized, named) = then_ok (guard (length content == n) content_corrupt) _ guards in
    let same_size = guard-ok (length content == n) _ sized in
    (
      path,
      content,
      placed,
      or_fail-ok _ _ _ found,
      ground (arith, same_size),
      (bytes_eq_iff _ _).0 (guard-ok _ _ named),
    )

module _ (sha256 : Bytes → Bytes) (os : Os) (max_bytes : ℕ) (before : Objects) where
  stopped :
      (s : Store) (e : Error)
      → Extends sha256 before s.objects
      → Outcome sha256 max_bytes before (s, err e)
  stopped s e extends = record { extends = extends; stored = λ ref h. absurd (err-ne-ok h) }

  finish-Outcome :
      (s : Store) (content : Bytes) (ref : ContentRef)
      → Extends sha256 before s.objects
      → Stored sha256 max_bytes s.objects ref
      → Outcome sha256 max_bytes before (finish os s content ref)
  unfolding finish
  finish-Outcome s content ref extends stored =
      let P = Outcome sha256 max_bytes before in
      stop_on-cases P os.remove_fails _ as_is _ (λ e. stopped _ e extends)
        (stop_on-cases P os.staging_sync_fails s (wrap_storage_error os) _
          (λ e. stopped s e extends)
          (record {
            extends = extends;
            stored = λ ref' h. subst (Stored sha256 max_bytes s.objects) (ok-injective h) stored;
          }))

  check_existing-ok :
      (s : Store) (existing content key : Bytes)
      → length content ≤ max_bytes
      → check_existing sha256 os s existing content
          record { key = key; size_bytes = pos (length content) }
        ≡ ok tt
      → Stored sha256 max_bytes s.objects record { key = key; size_bytes = pos (length content) }
  unfolding check_existing
  check_existing-ok s existing content key small done =
      let (_, more) = then_ok (failing os.stat_fails) _ done in
      let (_, verified) =
        then_ok (guard (length existing == length content) content_corrupt) _ more in
      let (path, found, placed, present, sized, named) =
        verify-ok sha256 os s key (length content) verified in
      record {
        path = path;
        content = found;
        placed = placed;
        present = present;
        named = named;
        sized = ap pos (sym sized);
        small = omega (arith, sized, small);
      }

  after_existing-Outcome :
      (s : Store) (content : Bytes) (ref : ContentRef) (v : Result (Unit {0}))
      → s.objects ≡ before
      → (v ≡ ok tt → Stored sha256 max_bytes s.objects ref)
      → Outcome sha256 max_bytes before (after_existing sha256 os s content ref v)
  unfolding after_existing
  after_existing-Outcome s content ref (err e) at stored =
      stopped (discard os s content) e (same at)
  after_existing-Outcome s content ref (ok tt) at stored =
      finish-Outcome s content ref (same at) (stored refl)

  link-Outcome :
      (s : Store) (path content : Bytes) (there : Option Bytes)
      → s.objects ≡ before
      → length content ≤ max_bytes
      → relative_path_for_key (key_of sha256 content) ≡ ok path
      → find_object path s.objects ≡ there
      → Outcome sha256 max_bytes before (
          link sha256 os s path content
            record { key = key_of sha256 content; size_bytes = pos (length content) }
            there)
  unfolding link
  link-Outcome s path content (some existing) at small placed found =
      after_existing-Outcome s content _ _ at
        (check_existing-ok s existing content (key_of sha256 content) small)
  link-Outcome s path content none at small placed found =
      let linked =
        added path content placed (ap (find_object path) (sym at) ∙ found)
          (ap (λ os. (path, content) ∷ os) at) in
      stop_on-cases (Outcome sha256 max_bytes before) os.installed_sync_fails _
        (wrap_storage_error os) _ (λ e. stopped _ e linked)
        (finish-Outcome _ content _ linked (record {
          path = path;
          content = content;
          placed = placed;
          present = find_object-here path content s.objects;
          named = refl;
          sized = refl;
          small = small;
        }))

  install_at-Outcome :
      (s : Store) (content : Bytes) (placed : Result Bytes)
      → s.objects ≡ before
      → length content ≤ max_bytes
      → relative_path_for_key (key_of sha256 content) ≡ placed
      → Outcome sha256 max_bytes before (
          install_at sha256 os s content
            record { key = key_of sha256 content; size_bytes = pos (length content) }
            placed)
  unfolding install_at
  install_at-Outcome s content (err e) at small placed = stopped (discard os s content) e (same at)
  install_at-Outcome s content (ok path) at small placed =
      let P = Outcome sha256 max_bytes before in
      let halt = λ (e : Error). stopped (discard os s content) e (same at) in
      stop_on-cases P os.directory_fails (discard os s content) _ _ halt (
        stop_on-cases P os.tree_fails (discard os s content) _ _ halt (
          stop_on-cases P os.link_fails (discard os s content) _ _ halt
            (link-Outcome s path content (find_object path s.objects) at small placed refl)))

  abbrev store_and_result : Store × DataReader × Result ContentRef → Store × Result ContentRef
  store_and_result (s, r, result) = (s, result)

  after_copy-Outcome :
      (s : Store) (copied : DataReader × Bytes × Option Error)
      → s.objects ≡ before
      → s.capacity.max_bytes ≡ max_bytes
      → Outcome sha256 max_bytes before (store_and_result (after_copy sha256 os s copied))
  unfolding after_copy install
  after_copy-Outcome s (r, content, some e) at limit = stopped (discard os s content) _ (same at)
  after_copy-Outcome s (r, content, none) at limit =
      if_cases (λ p. Outcome sha256 max_bytes before (store_and_result p))
        (ltb s.capacity.max_bytes (length content))
        (λ _. stopped (discard os s content) _ (same at))
        (λ fits.
          let P = Outcome sha256 max_bytes before in
          let halt = λ (e : Error). stopped (discard os s content) e (same at) in
          stop_on-cases P os.copied_cancelled (discard os s content) _ _ halt (
            stop_on-cases P os.sync_fails (discard os s content) _ _ halt (
              stop_on-cases P os.close_fails (discard os s content) _ _ halt
                (install_at-Outcome s content _ at (ground (arith, fits, limit)) refl))))

  stage_with-Outcome :
      (s : Store) (r : DataReader) (create chmod : Option Error)
      → s.objects ≡ before
      → s.capacity.max_bytes ≡ max_bytes
      → Outcome sha256 max_bytes before (store_and_result (stage_with sha256 os s r create chmod))
  unfolding stage_with
  stage_with-Outcome s r (some e) chmod at limit = stopped s _ (same at)
  stage_with-Outcome s r none (some e) at limit = stopped (discard os s []) _ (same at)
  stage_with-Outcome s r none none at limit =
      after_copy-Outcome s (copy_limited os.source (s.capacity.max_bytes + 1) r) at limit

reserve-max_bytes :
    (c : Capacity) (available : Result ℕ) (cancelled : Option Error) (c' : Capacity)
    → reserve c available cancelled ≡ ok c'
    → c'.max_bytes ≡ c.max_bytes
unfolding reserve
reserve-max_bytes c available cancelled c' done =
    let (_, checked) = then_ok (failing cancelled) _ done in
    let (_, taken) = then_ok (check_capacity_locked c available cancelled c.max_bytes) _ checked in
    sym (ap (λ x. x.max_bytes) (ok-injective taken))

put_reserved-Outcome :
    (sha256 : Bytes → Bytes) (os : Os) (s : Store) (r : DataReader) (reserved : Result Capacity)
    → ((c : Capacity) → reserved ≡ ok c → c.max_bytes ≡ s.capacity.max_bytes)
    → Outcome sha256 s.capacity.max_bytes s.objects
        ((put_reserved sha256 os s r reserved).0, (put_reserved sha256 os s r reserved).2)
unfolding put_reserved stage
put_reserved-Outcome sha256 os s r (err e) limit = stopped sha256 os _ s.objects s e (same refl)
put_reserved-Outcome sha256 os s r (ok c) limit =
    let o =
      stage_with-Outcome sha256 os s.capacity.max_bytes s.objects (record s { capacity = c }) r
        os.create_fails os.chmod_fails refl (limit c refl) in
    record { extends = o.extends; stored = o.stored }

-- Whatever put meets on its way, no object goes or changes, and at most one is added, at a free path that is that of
-- its digest. When put succeeds, the object that its reference names is there, of the digest and the size that the
-- reference states, which is within the limit, whether put has linked it or found it.
pub put-Outcome :
    (sha256 : Bytes → Bytes) (os : Os) (s : Store) (r : DataReader)
    → Outcome sha256 s.capacity.max_bytes s.objects ((put sha256 os s r).0, (put sha256 os s r).2)
unfolding put
put-Outcome sha256 os s r = put_reserved-Outcome sha256 os s r _ (λ c done.
    reserve-max_bytes s.capacity os.available os.capacity_cancelled c
      (then_ok (failing os.cancelled) _ done).1)
