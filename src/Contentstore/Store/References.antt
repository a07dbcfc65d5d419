-- ===== src/Contentstore/Store/References.antt =====
-- The objects and the references to them in the database: PutLeased holds the lifecycle lock for reading until the
-- receiver has committed its reference, and DeleteUnreferenced takes it for writing.
use mailwisp.Common.{
  ℕ, ◌≤◌, ◌≡◌, refl, ◌≢◌, sym, ◌∙◌, ap, subst, inl, inr, Bool, true, false, ◌&&◌, ◌||◌, Option,
  none, some, List, [], ◌∷◌, ◌++◌, Bytes, bytes_eq, bytes_eq_iff, bytes_eq-ne, has_prefix, to_lower,
  Error, invalid_key, Result, ok, err, ◌>>◌, guard, then_ok, guard-ok, ok-injective, Bool-cases,
  length, take, drop, All, ◌==◌, arith,
}
use mailwisp.Lmtp.DataReader.{DataReader}
use mailwisp.Message.Delivery.{ContentRef, sha256_prefix, sha256_hex_length, all_lower_hex}
use mailwisp.Postgres.Delivery.{failing}
use mailwisp.Contentstore.Store.{
  Store, Os, find_object, remove_object, relative_path_for_key, key_of, put, delete_found,
  delete_at, delete_locked, after_delete, delete_unreferenced,
}
use mailwisp.Contentstore.Store.Outcome.{Objects, Extends, same, added, put-Outcome}

pub record World : Type 0 where
  pub store : Store
  pub references : List Bytes  -- the content keys that messages of the database have
  pub leases : List Bytes  -- the keys of the leases that are held; while there is one, the lock is

abbrev pub references_key : Bytes → List Bytes → Bool
references_key key [] = false
references_key key (k ∷ ks) = bytes_eq key k || references_key key ks

-- What the database answers to the recheck: its failure, or the truth.
abbrev pub recheck : Option Error → Bytes → List Bytes → Result Bool
recheck fails key references = failing fails >> ok (references_key key references)

module _ (sha256 : Bytes → Bytes) where
  -- The steps of the receivers and of the collector, in any order. A collection waits until no lease is held.
  pub data Step : World → World → Type 0 where
    puts :
        (w : World) (os : Os) (r : DataReader) (ref : ContentRef)
        → (put sha256 os w.store r).2 ≡ ok ref
        → Step w (record w { store = (put sha256 os w.store r).0; leases = ref.key ∷ w.leases })
    fails :
        (w : World) (os : Os) (r : DataReader) (e : Error)
        → (put sha256 os w.store r).2 ≡ err e
        → Step w (record w { store = (put sha256 os w.store r).0 })
    commits :
        (w : World) (before : List Bytes) (key : Bytes) (after : List Bytes)
        → w.leases ≡ before ++ key ∷ after
        → Step w (record w { references = key ∷ w.references })
    releases :
        (w : World) (before : List Bytes) (key : Bytes) (after : List Bytes)
        → w.leases ≡ before ++ key ∷ after
        → Step w (record w { leases = before ++ after })
    forgets :
        (w : World) (before : List Bytes) (key : Bytes) (after : List Bytes)
        → w.references ≡ before ++ key ∷ after
        → Step w (record w { references = before ++ after })
    collects :
        (w : World) (os : Os) (ref : ContentRef) (query_fails : Option Error)
        → w.leases ≡ []
        → Step w (record w {
          store = (delete_unreferenced os w.store ref (recheck query_fails ref.key w.references)).0;
        })

  pub data Reaches (start : World) : World → Type 0 where
    here : Reaches start start
    next : {v w : World} → Reaches start v → Step v w → Reaches start w

  -- The object that a key names is there, and its digest is that of the key.
  pub record Present (objects : Objects) (key : Bytes) : Type 0 where
    pub path : Bytes
    pub content : Bytes
    pub placed : relative_path_for_key key ≡ ok path
    pub found : find_object path objects ≡ some content
    pub named : key ≡ key_of sha256 content

  -- Every reference and every lease has its object.
  pub record Backed (w : World) : Type 0 where
    pub references : All (Present w.store.objects) w.references
    pub leases : All (Present w.store.objects) w.leases

find-cons :
    (path other content : Bytes) (c : Bytes) (os : Objects)
    → find_object path os ≡ none
    → find_object other os ≡ some c
    → find_object other ((path, content) ∷ os) ≡ some c
find-cons path other content c os free found = elim (Bool-cases (bytes_eq path other)) [
  | inl same_path ↦ absurd (
      none-ne-some
        (sym free ∙ ap (λ p. find_object p os) ((bytes_eq_iff path other).0 same_path) ∙ found))
  | inr different ↦ rw different found
]
  where
    none-ne-some : none ≡ some c → ⊥
    none-ne-some e = ground arith

find-remove :
    (path other : Bytes) (os : Objects)
    → path ≢ other
    → find_object other (remove_object path os) ≡ find_object other os
find-remove path other [] differ = refl
find-remove path other (o ∷ os) differ = elim (Bool-cases (bytes_eq o.0 path)) [
  | inl removed ↦
      rw
        (
          removed,
          bytes_eq-ne o.0 other
              (subst (λ p. p ≢ other) (sym ((bytes_eq_iff o.0 path).0 removed)) differ),
        )
        (find-remove path other os differ)
  | inr kept ↦ rw kept (elim (Bool-cases (bytes_eq o.0 other)) [
    | inl this ↦ rw this refl
    | inr another ↦ rw another (find-remove path other os differ)
  ])
]

has_prefix-drop : (p s : Bytes) → has_prefix p s ≡ true → s ≡ p ++ drop (length p) s
unfolding has_prefix
has_prefix-drop [] s h = refl
has_prefix-drop (c ∷ p) [] h = absurd (ground arith)
has_prefix-drop (c ∷ p) (d ∷ s) h =
    let same_head : c ≡ d = ground arith in
    let goes_on : has_prefix p s ≡ true = ground arith in
    rw same_head (ap (λ t. d ∷ t) (has_prefix-drop p s goes_on))

drop-path :
    (d : Bytes) → 4 ≤ length d → drop 6 (take 2 d ++ b'/' ∷ take 2 (drop 2 d) ++ b'/' ∷ d) ≡ d
drop-path [] h = absurd (omega arith)
drop-path (_ ∷ []) h = absurd (omega arith)
drop-path (_ ∷ _ ∷ []) h = absurd (omega arith)
drop-path (_ ∷ _ ∷ _ ∷ []) h = absurd (omega arith)
drop-path (a ∷ b ∷ c ∷ e ∷ d) h = refl

-- The key can be read off the path.
path_digest :
    (key path : Bytes) → relative_path_for_key key ≡ ok path → key ≡ sha256_prefix ++ drop 6 path
unfolding relative_path_for_key
path_digest key path placed =
    let digest = drop (length sha256_prefix) key in
    let (prefixed, more) = then_ok (guard (has_prefix sha256_prefix key) invalid_key) _ placed in
    let (sized, more₁) =
      then_ok
        (guard (length digest == sha256_hex_length && bytes_eq (to_lower digest) digest)
          invalid_key)
        _ more in
    let (_, built) = then_ok (guard (all_lower_hex digest) invalid_key) _ more₁ in
    has_prefix-drop sha256_prefix key (guard-ok _ _ prefixed)
    ∙ ap (λ d. sha256_prefix ++ d)
        (sym (drop-path digest (long _ _ (guard-ok _ _ sized))) ∙ ap (drop 6) (ok-injective built))
  where
    long : (n : ℕ) (b : Bool) → ((n == 64) && b) ≡ true → 4 ≤ n
    long n b h = ground arith

find-Extends :
    (sha256 : Bytes → Bytes) (before after : Objects) (path content : Bytes)
    → Extends sha256 before after
    → find_object path before ≡ some content
    → find_object path after ≡ some content
find-Extends sha256 before after path content (same at) found = ap (find_object path) at ∙ found
find-Extends sha256 before after path content (added new bytes _ free at) found =
    ap (find_object path) at ∙ find-cons new path bytes content before free found

module _ (os : Os) (s : Store) (other path content : Bytes)
    (placed : relative_path_for_key other ≡ ok path)
    (found : find_object path s.objects ≡ some content) where
  delete_found-others :
      (p : Bytes) (there : Option Bytes) (fails : Option Error)
      → p ≢ path
      → find_object path (delete_found os s p there fails).0.objects ≡ some content
  unfolding delete_found
  delete_found-others p none e differ = found
  delete_found-others p (some _) (some e) differ = found
  delete_found-others p (some _) none differ = find-remove p path s.objects differ ∙ found

  delete_at-others :
      (key : Bytes) (r : Result Bytes)
      → relative_path_for_key key ≡ r
      → key ≢ other
      → find_object path (delete_at os s r).0.objects ≡ some content
  unfolding delete_at
  delete_at-others key (err e) at differ = found
  delete_at-others key (ok p) at differ =
      delete_found-others p (find_object p s.objects) os.remove_fails (λ same_path. differ (
        path_digest key p at
        ∙ ap (λ q. sha256_prefix ++ drop 6 q) same_path
        ∙ sym (path_digest other path placed)))

  after_delete-store : (p : Store × Result (Unit {0})) → (after_delete p).0 ≡ p.0
  after_delete-store (s', err e) = refl
  after_delete-store (s', ok _) = refl

  -- A collection leaves the object of every other key.
  delete_unreferenced-others :
      (ref : ContentRef) (retained : Result Bool)
      → (retained ≡ ok false → ref.key ≢ other)
      → find_object path (delete_unreferenced os s ref retained).0.objects ≡ some content
  unfolding delete_unreferenced delete_locked
  delete_unreferenced-others ref (err e) differ = found
  delete_unreferenced-others ref (ok true) differ = found
  delete_unreferenced-others ref (ok false) differ =
      ap (λ t. find_object path t.objects) (after_delete-store (delete_locked os s ref))
      ∙ delete_at-others ref.key (relative_path_for_key ref.key) refl (differ refl)

module _ (sha256 : Bytes → Bytes) where
  pub All-Present :
      (before after : Objects) (keys : List Bytes)
      → ((key : Bytes) → Present sha256 before key → Present sha256 after key)
      → All (Present sha256 before) keys
      → All (Present sha256 after) keys
  All-Present before after [] keep h = tt
  All-Present before after (k ∷ ks) keep h = (keep k h.0, All-Present before after ks keep h.1)

  pub Present-Extends :
      (before after : Objects)
      → Extends sha256 before after
      → (key : Bytes) → Present sha256 before key
      → Present sha256 after key
  Present-Extends before after extends key p = record {
    path = p.path;
    content = p.content;
    placed = p.placed;
    found = find-Extends sha256 before after p.path p.content extends p.found;
    named = p.named;
  }

  All-among :
      (P : Bytes → Type 0) (before : List Bytes) (key : Bytes) (after : List Bytes)
      → All P (before ++ key ∷ after)
      → P key × All P (before ++ after)
  All-among P [] key after h = h
  All-among P (k ∷ ks) key after h =
      let (this, others) = All-among P ks key after h.1 in (this, (h.0, others))

  recheck-denies :
      (query_fails : Option Error) (key : Bytes) (keys : List Bytes)
      → recheck query_fails key keys ≡ ok false
      → references_key key keys ≡ false
  recheck-denies query_fails key keys h = ok-injective (then_ok (failing query_fails) _ h).1

  All-collect :
      (s : Store) (os : Os) (ref : ContentRef) (retained : Result Bool) (keys : List Bytes)
      → (retained ≡ ok false → references_key ref.key keys ≡ false)
      → All (Present sha256 s.objects) keys
      → All (Present sha256 (delete_unreferenced os s ref retained).0.objects) keys
  All-collect s os ref retained [] denies h = tt
  All-collect s os ref retained (k ∷ ks) denies h = (
    record {
      path = h.0.path;
      content = h.0.content;
      placed = h.0.placed;
      found =
          delete_unreferenced-others os s k h.0.path h.0.content h.0.placed h.0.found ref retained
            (λ deletes. other_key (denies deletes));
      named = h.0.named;
    },
    All-collect s os ref retained ks (λ deletes. not_later (denies deletes)) h.1,
  )
    where
      other_key : references_key ref.key (k ∷ ks) ≡ false → ref.key ≢ k
      other_key denied e = let same_key = (bytes_eq_iff ref.key k).1 e in ground (arith, same_key)

      not_later : references_key ref.key (k ∷ ks) ≡ false → references_key ref.key ks ≡ false
      not_later denied = ground arith

  step-Backed : (v w : World) → Backed sha256 v → Step sha256 v w → Backed sha256 w
  step-Backed v w kept (puts _ os r ref done) =
      let o = put-Outcome sha256 os v.store r in
      let keep = Present-Extends v.store.objects _ o.extends in
      let stored = o.stored ref done in
      record {
        references = All-Present _ _ v.references keep kept.references;
        leases = (
          record {
            path = stored.path;
            content = stored.content;
            placed = stored.placed;
            found = stored.present;
            named = stored.named;
          },
          All-Present _ _ v.leases keep kept.leases,
        );
      }
  step-Backed v w kept (fails _ os r e done) =
      let keep = Present-Extends v.store.objects _ (put-Outcome sha256 os v.store r).extends in
      record {
        references = All-Present _ _ v.references keep kept.references;
        leases = All-Present _ _ v.leases keep kept.leases;
      }
  step-Backed v w kept (commits _ before key after at) = record {
    references = (
      (All-among _ before key after
          (subst (All (Present sha256 v.store.objects)) at kept.leases)).0,
      kept.references,
    );
    leases = kept.leases;
  }
  step-Backed v w kept (releases _ before key after at) = record {
    references = kept.references;
    leases =
        (All-among _ before key after
          (subst (All (Present sha256 v.store.objects)) at kept.leases)).1;
  }
  step-Backed v w kept (forgets _ before key after at) = record {
    references =
        (All-among _ before key after
          (subst (All (Present sha256 v.store.objects)) at kept.references)).1;
    leases = kept.leases;
  }
  step-Backed v w kept (collects _ os ref query_fails idle) = record {
    references =
        All-collect v.store os ref _ v.references (recheck-denies query_fails ref.key v.references)
          kept.references;
    leases = rw idle tt;
  }

  -- However the receivers and the collector take turns, from a world without references and leases: every content
  -- key that the database refers to has its object, and the digest of the object is that of the key.
  pub Reaches-Backed :
      (v w : World) → v.references ≡ [] → v.leases ≡ [] → Reaches sha256 v w → Backed sha256 w
  Reaches-Backed v w none_referenced idle here = record {
    references = rw none_referenced tt;
    leases = rw idle tt;
  }
  Reaches-Backed v w none_referenced idle (next {v = m} run step) =
      step-Backed m w (Reaches-Backed v m none_referenced idle run) step
