-- ===== src/Upgrades/Files/Saving.antt =====
-- The steps of `ensure_release_binary` (src/mcp_socket_server/upgrades.py) on the disk, from the check
-- of the sum to `os.replace`.

use text.Mathlib.TextLemmas.{append_cancel_left, append-nil, cons-ne-nil}
use mcp_socket_server.Prelude.{
  String, ◌≡◌, ◌≢◌, refl, sym, ◌∙◌, true, Option, none, some, ◌==◌, string_eq, arith, Result, ok,
  err, Bool-cases, inl, inr, lookup, insert, erase, lookup-insert, lookup-erase_ne,
}
use mcp_socket_server.Errors.{Exn}
use mcp_socket_server.Wire.{Bytes}
use mcp_socket_server.Upgrades.Files.{
  Sha256, File, Disk, World, Ensured, sha256_of, tmp_path, write_file, make_executable,
  replace_file, move_tmp, chmod_tmp, write_tmp, save_binary, store, download_failed,
}

tmp_path-ne : (binary : String) → tmp_path binary ≢ binary
unfolding tmp_path
tmp_path-ne binary p =
    cons-ne-nil _ _ (append_cancel_left binary ".tmp" "" (p ∙ sym (append-nil binary)))

lookup-insert_self : (k : String) (f : File) (d : Disk) → lookup k (insert k f d) ≡ some f
lookup-insert_self k f d = ground (arith, lookup-insert k k f d)

lookup-insert_ne :
    (j k : String) (f : File) (d : Disk) → j ≢ k → lookup j (insert k f d) ≡ lookup j d
lookup-insert_ne j k f d differ = ground (arith, lookup-insert j k f d)

lookup-replace_file :
    (source target : String) (f : File) (d : Disk)
    → lookup source d ≡ some f
    → replace_file source target d ≡ insert target f (erase source d)
unfolding replace_file
lookup-replace_file source target f d e = rw (replace_file, e) refl

module _ (h : Sha256) (binary : String) where
  -- A path names a file that can be run and that has this sum.
  pub record Holds (d : Disk) (path sum : String) : Type 0 where
    pub file : File
    pub found : lookup path d ≡ some file
    pub runs : file.executable ≡ true
    pub summed : sum ≡ sha256_of h file.content

  -- A failure leaves the binary as it was; a success names the binary.
  abbrev pub Answer : Disk → Disk × Ensured → Type 0
  Answer d (d', err _) = lookup binary d' ≡ lookup binary d
  Answer d (d', ok (path, sum)) = (path ≡ binary) × Holds d' path sum

  -- No other file is touched.
  abbrev pub Frame : Disk → Disk → Type 0
  Frame d d' = (p : String) → p ≢ binary → p ≢ tmp_path binary → lookup p d' ≡ lookup p d

  pub record Stores (d : Disk) (r : Disk × Ensured) : Type 0 where
    pub answer : Answer d r
    pub frame : Frame d r.0

  -- What holds between the opening of the `.tmp` file and the end.
  record Written (d d' : Disk) (f : File) : Type 0 where
    found : lookup (tmp_path binary) d' ≡ some f
    kept : lookup binary d' ≡ lookup binary d
    frame : Frame d d'

  insert-Written :
      (f : File) (d d' : Disk)
      → lookup binary d' ≡ lookup binary d
      → Frame d d'
      → Written d (insert (tmp_path binary) f d') f
  insert-Written f d d' kept frame = record {
    found = lookup-insert_self (tmp_path binary) f d';
    kept = lookup-insert_ne binary (tmp_path binary) f d' (λ p. tmp_path-ne binary (sym p)) ∙ kept;
    frame =
        λ p other differ. lookup-insert_ne p (tmp_path binary) f d' differ ∙ frame p other differ;
  }

  make_executable-Written :
      (d d' : Disk) (f : File)
      → Written d d' f
      → Written d (make_executable (tmp_path binary) d') (record f { executable = true })
  unfolding make_executable
  make_executable-Written d d' f written =
      rw (make_executable, written.found)
        (insert-Written (record f { executable = true }) d d' written.kept written.frame)

  move_tmp-Stores :
      (w : World) (d d' : Disk) (f : File)
      → Written d d' f
      → f.executable ≡ true
      → Stores d (move_tmp w binary (sha256_of h f.content) d')
  unfolding move_tmp
  move_tmp-Stores w d d' f written runs = moved w.replace
    where
      moved :
          (r : Result Exn (Unit {0}))
          → Stores d (elim r as (λ _. Disk × Ensured) [
            | err e ↦ (d', err (download_failed e))
            | ok _ ↦ (replace_file (tmp_path binary) binary d', ok (binary, sha256_of h f.content))
          ])
      moved (err e) = record { answer = written.kept; frame = written.frame }
      moved (ok _) = rw (lookup-replace_file (tmp_path binary) binary f d' written.found) (record {
        answer = (
          refl,
          record {
            file = f;
            found = lookup-insert_self binary f (erase (tmp_path binary) d');
            runs = runs;
            summed = refl;
          },
        );
        frame = λ p other differ.
            lookup-insert_ne p binary f (erase (tmp_path binary) d') other
            ∙ lookup-erase_ne p (tmp_path binary) d' differ
            ∙ written.frame p other differ;
      })

  chmod_tmp-Stores :
      (w : World) (d d' : Disk) (f : File)
      → Written d d' f
      → Stores d (chmod_tmp w binary (sha256_of h f.content) d')
  unfolding chmod_tmp
  chmod_tmp-Stores w d d' f written = run w.chmod
    where
      run :
          (r : Result Exn (Unit {0}))
          → Stores d (elim r as (λ _. Disk × Ensured) [
            | err e ↦ (d', err (download_failed e))
            | ok _ ↦
                move_tmp w binary (sha256_of h f.content) (make_executable (tmp_path binary) d')
          ])
      run (err e) = record { answer = written.kept; frame = written.frame }
      run (ok _) =
          move_tmp-Stores w d _ (record f { executable = true })
            (make_executable-Written d d' f written) refl

  pub untouched : (d : Disk) → Frame d d
  untouched d p other differ = refl

  write_tmp-Stores :
      (w : World) (d : Disk) (bs : Bytes) → Stores d (write_tmp w binary (sha256_of h bs) bs d)
  unfolding write_tmp write_file
  write_tmp-Stores w d bs = run w.write_tmp
    where
      run :
          (o : Option (Bytes × Exn))
          → Stores d (elim o as (λ _. Disk × Ensured) [
            | none ↦ chmod_tmp w binary (sha256_of h bs) (write_file (tmp_path binary) bs d)
            | some (part, e) ↦ (write_file (tmp_path binary) part d, err (download_failed e))
          ])
      run none = chmod_tmp-Stores w d _ _ (insert-Written _ d d refl (untouched d))
      run (some (part, e)) =
          let written = insert-Written _ d d refl (untouched d) in
          record { answer = written.kept; frame = written.frame }

  save_binary-Stores :
      (w : World) (d : Disk) (bs : Bytes) → Stores d (save_binary w binary (sha256_of h bs) bs d)
  unfolding save_binary
  save_binary-Stores w d bs = run w.open_tmp
    where
      run :
          (r : Result Exn (Unit {0}))
          → Stores d (elim r as (λ _. Disk × Ensured) [
            | err e ↦ (d, err (download_failed e))
            | ok _ ↦ write_tmp w binary (sha256_of h bs) bs d
          ])
      run (err e) = record { answer = refl; frame = untouched d }
      run (ok _) = write_tmp-Stores w d bs

  pub store-Stores :
      (w : World) (d : Disk) (downloaded : Result Exn (Bytes × String))
      → Stores d (store h w binary downloaded d)
  unfolding store
  store-Stores w d (err e) = record { answer = refl; frame = untouched d }
  store-Stores w d (ok (bs, expected)) = elim (Bool-cases (sha256_of h bs == expected)) [
    | inl same ↦ rw same (save_binary-Stores w d bs)
    | inr other ↦ rw other (record { answer = refl; frame = untouched d })
  ]
