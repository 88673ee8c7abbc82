-- ===== src/Benchmark/Manifest/Lock/Verified.antt =====
-- What the reader has checked of a package whose lock it returns.
use mathlib.Core.Path.{subst}
use fingerprint_full_matcher.Prelude.{
  ℕ, ==_iff, String, true, false, not, ◌&&◌, ◌||◌, Option, none, some, List, [], ◌∷◌, ◌≡◌, ◌∙◌,
  refl, ap, sym, eq_iff, Bool-cases, inl, inr, and_true, All, arith,
}
use fingerprint_full_matcher.Prelude.Text.{is_empty}
use fingerprint_full_matcher.Prelude.Dict.{Dict, lookup}
use fingerprint_full_matcher.Prelude.Result.{
  Result, ok, ◌>>=◌, of_option, of_option_iff, bind_returned, require_returned, ok-injective,
}
use fingerprint_full_matcher.Benchmark.Manifest.Paths.{ManifestError, is_absolute}
use fingerprint_full_matcher.Benchmark.Manifest.Reader.{is_sha256}
use fingerprint_full_matcher.Benchmark.Manifest.Lock.{
  split_lines, partition, names, is_sorted, is_entry, sums_entry, read_sums, file_at, read_lock,
  has_digest, check_digests, check_locked, check_files, verify_lock,
}
use fingerprint_full_matcher.Supervisor.{same_iff}
use fingerprint_full_matcher.Supervisor.Paths.{split_slash, has_parent}
use fingerprint_full_matcher.Supervisor.Lock.{
  FileRecord, Lock, Content, Readings, lock_name, sums_name,
}
use fingerprint_full_matcher.Supervisor.Lock.Check.{
  is_named, same_number, same_set, entries_of, is_changed, text_of,
}

-- An entry of the sums that is safe to follow.
pub record IsSafe (entry : String × String) : Type 0 where
  pub digest : is_sha256 entry.1 ≡ true
  pub relative : is_absolute entry.0 ≡ false
  pub no_parent : has_parent (split_slash entry.0) ≡ false

allowed-IsSafe :
    (seen : List String) (digest relative : String)
    → is_entry (some (digest, relative)) ≡ true
    → not (is_absolute relative || has_parent (split_slash relative) || is_named relative seen)
      ≡ true
    → IsSafe (relative, digest)
unfolding is_entry
allowed-IsSafe seen digest relative is allowed = record {
  digest = ground arith;
  relative = ground arith;
  no_parent = ground arith;
}

sums_entry-IsSafe :
    (seen : List String) (line : String) (entry : String × String)
    → sums_entry seen line ≡ ok entry
    → IsSafe entry
unfolding sums_entry is_entry
sums_entry-IsSafe seen line entry h =
    let (is, h1) = require_returned (is_entry (partition line)) _ _ h in
    let (parted, found, h2) = bind_returned (of_option _ (partition line)) _ h1 in
    let there = (of_option_iff _ (partition line) parted).0 found in
    let (allowed, h3) =
      require_returned
        (not (is_absolute parted.1 || has_parent (split_slash parted.1) || is_named parted.1 seen))
        _ _ h2 in
    subst IsSafe (ok-injective h3)
      (allowed-IsSafe seen parted.0 parted.1 (ap is_entry (sym there) ∙ is) allowed)

read_sums-empty :
    (seen : List String) (line : String) (lines : List String)
    → is_empty line ≡ true
    → read_sums seen lines ≡ read_sums seen (line ∷ lines)
unfolding read_sums
read_sums-empty seen line lines h = rw h refl

read_sums-full :
    (seen : List String) (line : String) (lines : List String)
    → is_empty line ≡ false
    → ◌≡◌ {A = Result ManifestError (Dict String)}
        (do
          (relative, digest) ← sums_entry seen line
          rest ← read_sums (relative ∷ seen) lines
          ok ((relative, digest) ∷ rest))
        (read_sums seen (line ∷ lines))
unfolding read_sums
read_sums-full seen line lines h = rw h refl

read_sums-IsSafe :
    (seen lines : List String) (entries : Dict String)
    → read_sums seen lines ≡ ok entries
    → All IsSafe entries
unfolding read_sums
read_sums-IsSafe seen [] entries h = subst (All IsSafe) (ok-injective h) tt
read_sums-IsSafe seen (line ∷ lines) entries h = elim (Bool-cases (is_empty line)) [
  | inl empty ↦ read_sums-IsSafe seen lines entries (read_sums-empty seen line lines empty ∙ h)
  | inr full ↦
      let (entry, made, h1) =
        bind_returned (sums_entry seen line) _ (read_sums-full seen line lines full ∙ h) in
      let (rest, read, h2) = bind_returned (read_sums (entry.0 ∷ seen) lines) _ h1 in
      subst (All IsSafe) (ok-injective h2)
        (sums_entry-IsSafe seen line entry made, read_sums-IsSafe (entry.0 ∷ seen) lines rest read)
]

same_number-some : (n : ℕ) (other : Option ℕ) → same_number (some n) other ≡ true → other ≡ some n
unfolding same_number
same_number-some n none h = cc
same_number-some n (some m) h = ap some (sym ((==_iff n m).0 h))

module _ (readings : Readings) (files : Dict Content) where
  -- A file with this hash.
  pub record HasDigest (entry : String × String) : Type 0 where
    pub content : Content
    pub there : file_at files entry.0 ≡ some content
    pub digest : readings.sha256_file content ≡ entry.1

  -- A file that is as the lock has it.
  pub record IsAsLocked (entry : String × FileRecord) : Type 0 where
    pub content : Content
    pub there : file_at files entry.0 ≡ some content
    pub hash : entry.1.sha256 ≡ some (readings.sha256_file content)
    pub size : entry.1.size_bytes ≡ some (readings.size_of content)

  has_digest-HasDigest :
      (relative digest : String) (found : Option Content)
      → file_at files relative ≡ found
      → has_digest readings digest found ≡ true
      → HasDigest (relative, digest)
  unfolding has_digest
  has_digest-HasDigest relative digest none there h = cc
  has_digest-HasDigest relative digest (some content) there h = record {
    content = content;
    there = there;
    digest = (eq_iff (readings.sha256_file content) digest).0 h;
  }

  check_digests-HasDigest :
      (entries : Dict String) → check_digests readings files entries ≡ ok tt → All HasDigest entries
  unfolding check_digests
  check_digests-HasDigest [] h = tt
  check_digests-HasDigest ((relative, digest) ∷ entries) h =
      let (here, later) =
        require_returned (has_digest readings digest (file_at files relative)) _ _ h in
      (
        has_digest-HasDigest relative digest (file_at files relative) refl here,
        check_digests-HasDigest entries later,
      )

  check_locked-IsAsLocked :
      (relative : String) (item : FileRecord) (found : Option Content)
      → file_at files relative ≡ found
      → check_locked readings relative item found ≡ ok tt
      → IsAsLocked (relative, item)
  unfolding check_locked is_changed same_number
  check_locked-IsAsLocked relative item none there h = cc
  check_locked-IsAsLocked relative item (some content) there h = record {
    content = content;
    there = there;
    hash = sym ((same_iff (some (readings.sha256_file content)) item.sha256).0 (ground arith));
    size = same_number-some (readings.size_of content) item.size_bytes (ground arith);
  }

  check_files-IsAsLocked :
      (entries : Dict FileRecord)
      → check_files readings files entries ≡ ok tt
      → All IsAsLocked entries
  unfolding check_files
  check_files-IsAsLocked [] h = tt
  check_files-IsAsLocked ((relative, item) ∷ entries) h =
      let (done, first, later) =
        bind_returned (check_locked readings relative item (file_at files relative)) _ h in
      (
        check_locked-IsAsLocked relative item (file_at files relative) refl first,
        check_files-IsAsLocked entries later,
      )

  pub record IsVerified (lock : Lock) (hash : String) : Type 0 where
    pub sums : Content
    pub sums_there : lookup sums_name files ≡ some sums
    pub expected_sums : Dict String
    pub sums_read : read_sums [] (split_lines (text_of readings sums)) ≡ ok expected_sums
    pub safe : All IsSafe expected_sums
    pub digests : All HasDigest expected_sums
    pub complete : same_set (names expected_sums) (lock_name ∷ names (entries_of lock.files)) ≡ true
    pub sorted : is_sorted (names expected_sums) ≡ true
    pub locked : All IsAsLocked (entries_of lock.files)
    pub own : Content
    pub own_there : lookup lock_name files ≡ some own
    pub own_hash : hash ≡ readings.sha256_file own
    pub own_lock : read_lock readings (some own) ≡ ok lock

  -- Where the reader returns a lock and a hash: they are those of the package's lock file; the sums were
  -- read, and each of them has a SHA-256 text, a path that is not absolute and has no "..", and a file
  -- there with this hash; their paths are in order and are that of the lock and those of the lock's
  -- entries; and for each entry of the lock there is a file with its hash and size.
  pub verify_lock-IsVerified :
      (lock : Lock) (hash : String)
      → verify_lock readings files ≡ ok (lock, hash)
      → IsVerified lock hash
  unfolding verify_lock
  verify_lock-IsVerified lock hash h =
      let (read, lock_read, h1) = bind_returned (read_lock readings (lookup lock_name files)) _ h in
      let (sums, sums_found, h2) = bind_returned (of_option _ (lookup sums_name files)) _ h1 in
      let (expected_sums, sums_read, h3) =
        bind_returned (read_sums [] (split_lines (text_of readings sums))) _ h2 in
      let (both, h4) =
        require_returned
          (same_set (names expected_sums) (lock_name ∷ names (entries_of read.files))
            && is_sorted (names expected_sums))
          _ _ h3 in
      let (_, digests_ok, h5) = bind_returned (check_digests readings files expected_sums) _ h4 in
      let (_, files_ok, h6) =
        bind_returned (check_files readings files (entries_of read.files)) _ h5 in
      let (own, own_found, h7) = bind_returned (of_option _ (lookup lock_name files)) _ h6 in
      let (complete, sorted) =
        and_true (same_set (names expected_sums) (lock_name ∷ names (entries_of read.files)))
          (is_sorted (names expected_sums)) both in
      let own_there = (of_option_iff _ (lookup lock_name files) own).0 own_found in
      subst (λ returned. IsVerified returned.0 returned.1) (ok-injective h7)
        (record {
          sums = sums;
          sums_there = (of_option_iff _ (lookup sums_name files) sums).0 sums_found;
          expected_sums = expected_sums;
          sums_read = sums_read;
          safe = read_sums-IsSafe [] (split_lines (text_of readings sums)) expected_sums sums_read;
          digests = check_digests-HasDigest expected_sums digests_ok;
          complete = complete;
          sorted = sorted;
          locked = check_files-IsAsLocked (entries_of read.files) files_ok;
          own = own;
          own_there = own_there;
          own_hash = refl;
          own_lock = ap (read_lock readings) (sym own_there) ∙ lock_read;
        })
