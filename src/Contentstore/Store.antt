-- ===== src/Contentstore/Store.antt =====
-- The objects of internal/contentstore/store.go. The objects are a list from relative paths to bytes, and a
-- staging file that a failure leaves behind is an entry of `staging`. What the operating system answers is
-- an `Os`: `none` where an operation succeeds. SHA-256 is a parameter.
pub mod Copy
pub mod Outcome
pub mod Raw
pub mod References
use mailwisp.Common.{
  ℕ, ◌+◌, ◌≡◌, refl, Bool, true, false, not, ◌&&◌, Option, none, some, List, [], ◌∷◌, ◌++◌, Bytes,
  codes, bytes_eq, has_prefix, to_lower, ℤ, pos, negsuc, Error, text, other, content_too_large,
  insufficient_storage, invalid_key, content_corrupt, Result, ok, err, ◌>>=◌, ◌>>◌, guard, or_fail,
  length, take, drop, ltb, ◌==◌, if◌then◌else◌,
}
use mailwisp.Encoding.Hex.{hex_encode}
use mailwisp.Lmtp.DataReader.{DataReader}
use mailwisp.Message.Delivery.{ContentRef, sha256_prefix, sha256_hex_length, all_lower_hex}
use mailwisp.Postgres.Delivery.{failing}
use mailwisp.Contentstore.Capacity.{Capacity, reserve, release}
use mailwisp.Contentstore.Store.Copy.{Source, copy_limited}

pub record Store : Type 0 where
  pub capacity : Capacity
  pub objects : List (Bytes × Bytes)
  pub staging : List Bytes

pub record Os : Type 0 where
  pub cancelled : Option Error  -- the context, when put begins
  pub available : Result ℕ
  pub capacity_cancelled : Option Error  -- the context, in the check of the capacity
  pub create_fails : Option Error
  pub chmod_fails : Option Error
  pub source : Source
  pub copied_cancelled : Option Error  -- the context, after the copy
  pub sync_fails : Option Error
  pub close_fails : Option Error
  pub directory_fails : Option Error
  pub tree_fails : Option Error
  pub link_fails : Option Error  -- other than with os.ErrExist
  pub installed_sync_fails : Option Error
  pub stat_fails : Option Error
  pub open_fails : Option Error
  pub verify_fails : Option Error
  pub remove_fails : Option Error
  pub discard_fails : Bool  -- the deferred os.Remove of the staging file
  pub staging_sync_fails : Option Error
  pub deleted_sync_fails : Option Error
  pub is_disk_full : Error → Bool

abbrev pub wrap_storage_error : Os → Error → Error
wrap_storage_error os e = if os.is_disk_full e then insufficient_storage else e

-- filepath.Join(digest[:2], digest[2:4], digest)
abbrev pub object_path : Bytes → Bytes
object_path digest = take 2 digest ++ b'/' ∷ take 2 (drop 2 digest) ++ b'/' ∷ digest

unfoldable pub relative_path_for_key : Bytes → Result Bytes
unfolding has_prefix to_lower all_lower_hex
relative_path_for_key key = do
  guard (has_prefix sha256_prefix key) invalid_key
  let digest = drop (length sha256_prefix) key
  guard (length digest == sha256_hex_length && bytes_eq (to_lower digest) digest) invalid_key
  guard (all_lower_hex digest) invalid_key
  ok (object_path digest)

-- The file at a path
abbrev pub find_object : Bytes → List (Bytes × Bytes) → Option Bytes
find_object path [] = none
find_object path (o ∷ os) = if bytes_eq o.0 path then some o.1 else find_object path os

abbrev pub remove_object : Bytes → List (Bytes × Bytes) → List (Bytes × Bytes)
remove_object path [] = []
remove_object path (o ∷ os) =
    if bytes_eq o.0 path then remove_object path os else o ∷ remove_object path os

abbrev not_exist : Error
not_exist = other 1

-- OpenContent, with the bytes of the file
unfoldable pub open_content : Os → Store → Bytes → Result Bytes
unfolding relative_path_for_key
open_content os s key = do
  path ← relative_path_for_key key
  failing os.open_fails
  or_fail (find_object path s.objects) not_exist

-- The deferred os.Remove of the staging file, whose error is ignored
abbrev pub discard : Os → Store → Bytes → Store
discard os s content = record s {
  staging = if os.discard_fails then content ∷ s.staging else s.staging;
}

-- `return message.ContentRef{}, err` on the error of an operation; or what comes after the operation
abbrev pub stop_on :
    {A : Type 0}
    → Option Error
    → A
    → (Error → Error)
    → A × Result ContentRef
    → A × Result ContentRef
stop_on (some e) a wrap go_on = (a, err (wrap e))
stop_on none a wrap go_on = go_on

abbrev pub as_is : Error → Error
as_is e = e

-- The end of put: the staging file is removed, which keeps it where that fails.
unfoldable pub finish : Os → Store → Bytes → ContentRef → Store × Result ContentRef
finish os s content ref =
    stop_on os.remove_fails (record s { staging = content ∷ s.staging }) as_is
      (stop_on os.staging_sync_fails s (wrap_storage_error os) (s, ok ref))

module _ (sha256 : Bytes → Bytes) where
  abbrev pub key_of : Bytes → Bytes
  key_of content = sha256_prefix ++ hex_encode (sha256 content)

  -- Verify from the file on
  unfoldable pub verify_read : Os → ContentRef → Bytes → ℕ → Result (Unit {0})
  verify_read os ref content size = do
    failing os.verify_fails
    guard (length content == size) content_corrupt
    guard (bytes_eq ref.key (key_of content)) content_corrupt

  unfoldable pub verify_size : Os → Store → ContentRef → ℤ → Result (Unit {0})
  unfolding open_content verify_read
  verify_size os s ref (negsuc n) = err content_corrupt
  verify_size os s ref (pos n) = do
    content ← open_content os s ref.key
    verify_read os ref content n

  unfoldable pub verify : Os → Store → ContentRef → Result (Unit {0})
  unfolding verify_size
  verify os s ref = verify_size os s ref ref.size_bytes

  -- Where the destination exists: an object of that size that Verify accepts.
  unfoldable pub check_existing : Os → Store → Bytes → Bytes → ContentRef → Result (Unit {0})
  unfolding verify
  check_existing os s existing content ref = do
    failing os.stat_fails
    guard (length existing == length content) content_corrupt
    verify os s ref

  unfoldable pub after_existing :
      Os → Store → Bytes → ContentRef → Result (Unit {0}) → Store × Result ContentRef
  unfolding finish
  after_existing os s content ref (err e) = (discard os s content, err e)
  after_existing os s content ref (ok _) = finish os s content ref

  -- os.Link to the destination, with what comes after it.
  unfoldable pub link :
      Os → Store → Bytes → Bytes → ContentRef → Option Bytes → Store × Result ContentRef
  unfolding after_existing check_existing finish
  link os s path content ref (some existing) =
      after_existing os s content ref (check_existing os s existing content ref)
  link os s path content ref none =
      let linked = record s { objects = (path, content) ∷ s.objects } in
      stop_on os.installed_sync_fails (record linked { staging = content ∷ s.staging })
        (wrap_storage_error os) (finish os linked content ref)

  unfoldable pub install_at :
      Os → Store → Bytes → ContentRef → Result Bytes → Store × Result ContentRef
  unfolding link
  install_at os s content ref (err e) = (discard os s content, err e)
  install_at os s content ref (ok path) =
      stop_on os.directory_fails (discard os s content) (wrap_storage_error os) (
        stop_on os.tree_fails (discard os s content) (wrap_storage_error os) (
          stop_on os.link_fails (discard os s content) (wrap_storage_error os)
            (link os s path content ref (find_object path s.objects))))

  -- put from the digest on
  unfoldable pub install : Os → Store → Bytes → Store × Result ContentRef
  unfolding install_at relative_path_for_key
  install os s content =
      install_at os s content (record { key = key_of content; size_bytes = pos (length content) })
        (relative_path_for_key (key_of content))

  -- put after the copy; `s` has the reservation of this put.
  unfoldable pub after_copy :
      Os → Store → DataReader × Bytes × Option Error → Store × DataReader × Result ContentRef
  unfolding install
  after_copy os s (r, content, some e) = (discard os s content, r, err (wrap_storage_error os e))
  after_copy os s (r, content, none) =
      if ltb s.capacity.max_bytes (length content)
      then (discard os s content, r, err content_too_large)
      else let (s', result) = stop_on os.copied_cancelled (discard os s content) as_is (
          stop_on os.sync_fails (discard os s content) (wrap_storage_error os) (
            stop_on os.close_fails (discard os s content) (wrap_storage_error os)
              (install os s content))) in
        (s', r, result)

  unfoldable pub stage_with :
      Os → Store → DataReader → Option Error → Option Error → Store × DataReader × Result ContentRef
  unfolding after_copy
  stage_with os s r (some e) _ = (s, r, err (wrap_storage_error os e))
  stage_with os s r none (some e) = (discard os s [], r, err e)
  stage_with os s r none none =
      after_copy os s (copy_limited os.source (s.capacity.max_bytes + 1) r)

  unfoldable pub stage : Os → Store → DataReader → Store × DataReader × Result ContentRef
  unfolding stage_with
  stage os s r = stage_with os s r os.create_fails os.chmod_fails

  -- The deferred release of the reservation
  abbrev pub give_back :
      Store × DataReader × Result ContentRef → Store × DataReader × Result ContentRef
  give_back (s, r, result) = (record s { capacity = release s.capacity }, r, result)

  unfoldable pub put_reserved :
      Os → Store → DataReader → Result Capacity → Store × DataReader × Result ContentRef
  unfolding stage release
  put_reserved os s r (err e) = (s, r, err e)
  put_reserved os s r (ok c) = give_back (stage os (record s { capacity = c }) r)

  unfoldable pub put : Os → Store → DataReader → Store × DataReader × Result ContentRef
  unfolding put_reserved reserve
  put os s r =
      put_reserved os s r
        (failing os.cancelled >> reserve s.capacity os.available os.capacity_cancelled)

-- deleteLocked from os.Remove on
unfoldable pub delete_found :
    Os → Store → Bytes → Option Bytes → Option Error → Store × Result (Unit {0})
delete_found os s path none fails = (s, ok tt)
delete_found os s path (some _) (some e) = (s, err e)
delete_found os s path (some _) none =
    (record s { objects = remove_object path s.objects }, failing os.deleted_sync_fails)

unfoldable pub delete_at : Os → Store → Result Bytes → Store × Result (Unit {0})
unfolding delete_found
delete_at os s (err e) = (s, err e)
delete_at os s (ok path) = delete_found os s path (find_object path s.objects) os.remove_fails

unfoldable pub delete_locked : Os → Store → ContentRef → Store × Result (Unit {0})
unfolding delete_at relative_path_for_key
delete_locked os s ref = delete_at os s (relative_path_for_key ref.key)

abbrev pub after_delete : Store × Result (Unit {0}) → Store × Result Bool
after_delete (s, err e) = (s, err e)
after_delete (s, ok _) = (s, ok true)

-- DeleteUnreferenced under the write lock, `retained` being what the database answers
unfoldable pub delete_unreferenced : Os → Store → ContentRef → Result Bool → Store × Result Bool
unfolding delete_locked
delete_unreferenced os s ref (err e) = (s, err e)
delete_unreferenced os s ref (ok true) = (s, ok false)
delete_unreferenced os s ref (ok false) = after_delete (delete_locked os s ref)
