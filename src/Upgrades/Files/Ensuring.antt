-- ===== src/Upgrades/Files/Ensuring.antt =====
-- What `ensure_release_binary` (src/mcp_socket_server/upgrades.py) returns and leaves on the disk.

use mcp_socket_server.Prelude.{
  String, ◌≡◌, refl, ap, sym, subst, ok-injective, err_is_not_ok, ◌∙◌, true, false, none, some,
  ◌==◌, ==_iff, string_eq, arith, Result, ok, err, ◌>>=◌, Bool-cases, Option-cases, inl, inr,
  lookup,
}
use mcp_socket_server.Errors.{Exn}
use mcp_socket_server.Wire.{Bytes}
use mcp_socket_server.Upgrades.{version_ok}
use mcp_socket_server.Upgrades.Files.{
  Sha256, IsIncremental, File, Disk, World, Ensured, sha256_of, usable, move_tmp, chmod_tmp,
  write_tmp, save_binary, downloads, store, bad_sum, bad_version, ensure_binary,
  ensure_release_binary, clean_version, binary_path, reused, unreadable,
}
use mcp_socket_server.Upgrades.Files.Hashing.{sha256_file-sha256_of}
use mcp_socket_server.Upgrades.Files.Saving.{Holds, Answer, Stores, untouched, store-Stores}

-- The path and the sum of a binary that can be read.
abbrev pub if_read : Result Exn (Unit {0}) → String → String → Ensured
if_read (ok _) path sum = ok (path, sum)
if_read (err e) path sum = err (unreadable e)

module _ (h : Sha256) (binary : String) where
  usable-lookup :
      (d : Disk) (f : File)
      → usable binary d ≡ some f
      → (lookup binary d ≡ some f) × (f.executable ≡ true)
  unfolding usable
  usable-lookup d f e = ground arith

  read_or_not :
      (d : Disk) (f : File)
      → usable binary d ≡ some f
      → (reading : Result Exn (Unit {0}))
      → Answer h binary d (d, reused binary (reading >>= λ _. ok (sha256_of h f.content)))
  read_or_not d f e (err x) = refl
  read_or_not d f e (ok _) = (
    refl,
    record {
      file = f;
      found = (usable-lookup d f e).0;
      runs = (usable-lookup d f e).1;
      summed = refl;
    },
  )

  ensure_binary-Stores :
      IsIncremental h → (w : World) (d : Disk) → Stores h binary d (ensure_binary h w binary d)
  unfolding ensure_binary
  ensure_binary-Stores laws w d = elim (Option-cases (usable binary d)) [
    | inl e ↦ rw (ensure_binary, e) (store-Stores h binary w d (downloads w))
    | inr (f, e) ↦
        rw (ensure_binary, e, sha256_file-sha256_of h laws w.read_binary f)
          (record { answer = read_or_not d f e w.read_binary; frame = untouched h binary d })
  ]

  save_binary-sum :
      (w : World) (d : Disk) (bs : Bytes) (path sum sum' : String)
      → (save_binary w binary sum bs d).1 ≡ ok (path, sum')
      → sum' ≡ sum
  unfolding save_binary write_tmp chmod_tmp move_tmp
  save_binary-sum w d bs path sum sum' e = ground arith

  store-same :
      (w : World) (d : Disk) (bs : Bytes) (expected : String)
      → (sha256_of h bs == expected) ≡ true
      → store h w binary (ok (bs, expected)) d ≡ save_binary w binary (sha256_of h bs) bs d
  unfolding store
  store-same w d bs expected same = rw same refl

  store-other :
      (w : World) (d : Disk) (bs : Bytes) (expected : String)
      → (sha256_of h bs == expected) ≡ false
      → (store h w binary (ok (bs, expected)) d).1 ≡ err (bad_sum expected (sha256_of h bs))
  unfolding store
  store-other w d bs expected other = rw other refl

  -- A download that is kept has the sum that is published beside it.
  store-published :
      (w : World) (d : Disk) (path sum : String) (downloaded : Result Exn (Bytes × String))
      → (store h w binary downloaded d).1 ≡ ok (path, sum)
      → (bs : Bytes) × ((downloaded ≡ ok (bs, sum)) × (sha256_of h bs ≡ sum))
  unfolding store
  store-published w d path sum (err x) e = cc
  store-published w d path sum (ok (bs, expected)) e =
      elim (Bool-cases (sha256_of h bs == expected)) [
        | inl same ↦
            let published = (==_iff (sha256_of h bs) expected).0 same in
            let own =
              save_binary-sum w d bs path (sha256_of h bs) sum
                (sym (ap (λ (r : Disk × Ensured). r.1) (store-same w d bs expected same)) ∙ e) in
            (bs, (ap (λ s. ok (bs, s)) (sym published ∙ sym own), sym own))
        | inr other ↦ absurd (err_is_not_ok (sym (store-other w d bs expected other) ∙ e))
      ]

  -- The same for the whole of `ensure_binary`, on a disk without a file to reuse.
  ensure_binary-published :
      (w : World) (d : Disk) (path sum : String)
      → usable binary d ≡ none
      → (ensure_binary h w binary d).1 ≡ ok (path, sum)
      → (bs : Bytes) × ((downloads w ≡ ok (bs, sum)) × (sha256_of h bs ≡ sum))
  unfolding ensure_binary
  ensure_binary-published w d path sum fresh e =
      store-published w d path sum (downloads w) (sym (ap (λ (r : Disk × Ensured). r.1) opened) ∙ e)
    where
      opened : ensure_binary h w binary d ≡ store h w binary (downloads w) d
      opened = rw (ensure_binary, fresh) refl

  ensure_binary_again :
      (w : World) (d : Disk) (sum : String)
      → IsIncremental h
      → Holds h binary d binary sum
      → ensure_binary h w binary d ≡ (d, if_read w.read_binary binary sum)
  unfolding ensure_binary usable
  ensure_binary_again w d sum laws held =
      let there : usable binary d ≡ some held.file = rw (usable, held.found, held.runs) refl in
      rw (ensure_binary, there)
        (ap (λ (r : Ensured). (d, r))
          (ap (reused binary) (sha256_file-sha256_of h laws w.read_binary held.file)
            ∙ reread w.read_binary))
    where
      reread :
          (reading : Result Exn (Unit {0}))
          → reused binary (reading >>= λ _. ok (sha256_of h held.file.content))
            ≡ if_read reading binary sum
      reread (err e) = refl
      reread (ok _) = ap (λ s. ok (binary, s)) (sym held.summed)

answer_of :
    (h : Sha256) (binary : String) (d : Disk) (r : Disk × Ensured) (path sum : String)
    → Answer h binary d r
    → r.1 ≡ ok (path, sum)
    → (path ≡ binary) × Holds h binary r.0 path sum
answer_of h binary d (d', err x) path sum held e = cc
answer_of h binary d (d', ok (p, s)) path sum held e =
    subst (λ (q : String × String). (q.0 ≡ binary) × Holds h binary d' q.0 q.1) (ok-injective e)
      held

module _ (h : Sha256) (w : World) (version download_dir : String) (d : Disk) where
  accepted :
      version_ok (clean_version version) ≡ true
      → ensure_release_binary h w version download_dir d
        ≡ ensure_binary h w (binary_path download_dir (clean_version version)) d
  unfolding ensure_release_binary
  accepted good = rw good refl

  refused :
      version_ok (clean_version version) ≡ false
      → ensure_release_binary h w version download_dir d
        ≡ (d, err (bad_version (clean_version version)))
  unfolding ensure_release_binary
  refused bad = rw bad refl

  -- Whatever fails during `ensure_release_binary`, no file is touched but the binary of this version and
  -- its `.tmp`; on a failure the binary is as it was, never half of a file; and a success names a file
  -- that can be run, with the SHA-256 of its content.
  pub ensure_release_binary-Stores :
      IsIncremental h
      → Stores h
          (binary_path download_dir (clean_version version))
          d
          (ensure_release_binary h w version download_dir d)
  ensure_release_binary-Stores laws = elim (Bool-cases (version_ok (clean_version version))) [
    | inl good ↦ rw (accepted good) (ensure_binary-Stores h _ laws w d)
    | inr bad ↦ rw (refused bad) (record { answer = refl; frame = untouched h _ d })
  ]

  -- If there was no file to reuse, a success of `ensure_release_binary` has a version in the right form,
  -- and every download has arrived, with the sum that is published for it.
  pub ensure_release_binary-published :
      (path sum : String)
      → usable (binary_path download_dir (clean_version version)) d ≡ none
      → (ensure_release_binary h w version download_dir d).1 ≡ ok (path, sum)
      → (version_ok (clean_version version) ≡ true)
        × ((bs : Bytes) × ((downloads w ≡ ok (bs, sum)) × (sha256_of h bs ≡ sum)))
  ensure_release_binary-published path sum fresh e =
      elim (Bool-cases (version_ok (clean_version version))) [
        | inl good ↦ (
          good,
          ensure_binary-published h _ w d path sum fresh
              (sym (ap (λ (r : Disk × Ensured). r.1) (accepted good)) ∙ e),
        )
        | inr bad ↦
            absurd (err_is_not_ok (sym (ap (λ (r : Disk × Ensured). r.1) (refused bad)) ∙ e))
      ]

-- Once `ensure_release_binary` has succeeded, calling it again changes nothing on the disk, and gives the
-- same path and sum if the binary can be read; otherwise it raises what the reading raises. Nothing else
-- that the network and the disk then do makes a difference.
pub ensure_release_binary_again :
    (h : Sha256) (w w' : World) (version download_dir : String) (d : Disk) (path sum : String)
    → IsIncremental h
    → (ensure_release_binary h w version download_dir d).1 ≡ ok (path, sum)
    → let d' = (ensure_release_binary h w version download_dir d).0 in
      ensure_release_binary h w' version download_dir d' ≡ (d', if_read w'.read_binary path sum)
ensure_release_binary_again h w w' version download_dir d path sum laws e =
    elim (Bool-cases (version_ok (clean_version version))) [
      | inl good ↦
          let binary = binary_path download_dir (clean_version version) in
          let d' = (ensure_release_binary h w version download_dir d).0 in
          let (same, held) =
            answer_of h binary d (ensure_release_binary h w version download_dir d) path sum
              (ensure_release_binary-Stores h w version download_dir d laws).answer e in
          accepted h w' version download_dir d' good
          ∙ ensure_binary_again h binary w' d' sum laws
              (subst (λ p. Holds h binary d' p sum) same held)
          ∙ ap (λ p. (d', if_read w'.read_binary p sum)) (sym same)
      | inr bad ↦ absurd (
          err_is_not_ok
            (sym (ap (λ (r : Disk × Ensured). r.1) (refused h w version download_dir d bad)) ∙ e))
    ]
