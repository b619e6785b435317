-- ===== src/Upgrades/Files.antt =====
-- `ensure_release_binary` and `_sha256_file` (src/mcp_socket_server/upgrades.py) on a disk, with the
-- downloads and what the disk refuses as arguments.
pub mod Hashing
pub mod Saving
pub mod Ensuring
use Prim.Native.String
use mathlib.Core.List
use Prim.Native.String.{◌++◌}
use mcp_socket_server.Prelude.{
  ℕ, zero, suc, ◌+◌, ◌≡◌, List, [], ◌∷◌, String, Bool, true, false, ◌||◌, not, Option, none, some,
  ◌==◌, string_eq, if◌then◌else◌, length, take, drop, is_nonempty, Result, ok, err, ◌>>=◌, Dict,
  lookup, insert, erase,
}
use mcp_socket_server.Errors.{Exn, other_error}
use mcp_socket_server.Text.{
  is_char, is_blank, is_empty, starts_with_char, strip, strip_left, after_last,
}
use mcp_socket_server.Wire.{Bytes}
use mcp_socket_server.Upgrades.{version_ok}

-- `hashlib.sha256`: an object that takes bytes piece by piece. A call of `update` with no bytes changes
-- nothing, and two calls are one with the bytes joined, as the library's documentation says.
pub record Sha256 : Type 1 where
  pub Hash : Type 0
  pub new : Hash
  pub update : Hash → Bytes → Hash
  pub hexdigest : Hash → String

pub record IsIncremental (h : Sha256) : Type 0 where
  pub update_empty : (s : h.Hash) → h.update s [] ≡ s
  pub update_joined :
      (s : h.Hash) (a b : Bytes) → h.update (h.update s a) b ≡ h.update s (List.◌++◌ a b)

pub record File : Type 0 where
  pub content : Bytes
  pub executable : Bool

-- The files by their paths.
abbrev pub Disk : Type 0
Disk = Dict String File

-- f.read(1 << 20)
abbrev pub chunk : ℕ
chunk = 1048576

module _ (h : Sha256) where
  -- hashlib.sha256(bs).hexdigest()
  unfoldable pub sha256_of : Bytes → String
  sha256_of bs = h.hexdigest (h.update h.new bs)

  -- The loop over `iter(lambda: f.read(size), b"")`: each turn takes at least one byte, so one turn more
  -- than the bytes that are left is fuel enough.
  unfoldable pub hash_chunks : ℕ → ℕ → Bytes → h.Hash → h.Hash
  hash_chunks size zero bs s = s
  hash_chunks size (suc fuel) bs s = elim (is_nonempty (take size bs)) [
    | true ↦ hash_chunks size fuel (drop size bs) (h.update s (take size bs))
    | false ↦ s
  ]

  -- `reading` is what the opening and the reading of the file raise.
  unfoldable pub sha256_file : Result Exn (Unit {0}) → File → Result Exn String
  unfolding hash_chunks
  sha256_file (err e) f = err e
  sha256_file (ok _) f = ok (h.hexdigest (hash_chunks chunk (length f.content + 1) f.content h.new))

-- os.path.join of two parts, the second not absolute
unfoldable pub path_join : String → String → String
path_join a b = if is_empty a || ends_with_slash a then a ++ b else a ++ "/" ++ b
  where
    ends_with_slash : String → Bool
    ends_with_slash String.[] = false
    ends_with_slash (String.◌∷◌ c String.[]) = is_char b'/' c
    ends_with_slash (String.◌∷◌ c (String.◌∷◌ d s)) = ends_with_slash (String.◌∷◌ d s)

unfoldable pub version_dir : String → String → String
unfolding path_join
version_dir download_dir version =
    path_join (path_join download_dir "socket_server") ("v" ++ version)

unfoldable pub binary_path : String → String → String
unfolding path_join version_dir
binary_path download_dir version = path_join (version_dir download_dir version) "socket_server"

unfoldable pub tmp_path : String → String
tmp_path binary = binary ++ ".tmp"

-- r2.text.strip().split()[0]
first_word : String → Result Exn String
unfolding strip is_blank
first_word s =
    if is_empty (strip is_blank s)
    then err (other_error "IndexError")
    else ok (until_blank (strip is_blank s))
  where
    until_blank : String → String
    until_blank String.[] = String.[]
    until_blank (String.◌∷◌ c r) = if is_blank c then String.[] else String.◌∷◌ c (until_blank r)

-- What the world does during one call: the answers to the two downloads, and what each operation on the
-- disk raises, if it does. A write that raises leaves the bytes that it has written.
pub record World : Type 0 where
  pub makedirs : Result Exn (Unit {0})
  pub binary_answer : Result Exn Bytes
  pub sum_answer : Result Exn String
  pub open_tmp : Result Exn (Unit {0})
  pub write_tmp : Option (Bytes × Exn)
  pub chmod : Result Exn (Unit {0})
  pub replace : Result Exn (Unit {0})
  -- the opening and the reading of a binary that is there
  pub read_binary : Result Exn (Unit {0})

-- The reasons in the second component of the result, and `unreadable`: the exception of a binary that
-- cannot be read, which leaves the function.
pub data Unusable : Type 0 where
  bad_version : String → Unusable
  -- expected and actual
  bad_sum : String → String → Unusable
  download_failed : Exn → Unusable
  unreadable : Exn → Unusable

-- A path with the sum of the file there.
abbrev pub Ensured : Type 0
Ensured = Result Unusable (String × String)

-- return binary, _sha256_file(binary)
abbrev pub reused : String → Result Exn String → Ensured
reused binary (err e) = err (unreadable e)
reused binary (ok sum) = ok (binary, sum)

-- open(path, "wb"): the file is emptied, and keeps its mode
abbrev mode_of : Option File → Bool
mode_of none = false
mode_of (some f) = f.executable

unfoldable pub write_file : String → Bytes → Disk → Disk
write_file path bs d = insert path (record { content = bs; executable = mode_of (lookup path d) }) d

-- os.chmod(path, 0o755)
unfoldable pub make_executable : String → Disk → Disk
make_executable path d = elim (lookup path d) [
  | none ↦ d
  | some f ↦ insert path (record f { executable = true }) d
]

-- os.replace(source, target), which is atomic
unfoldable pub replace_file : String → String → Disk → Disk
replace_file source target d = elim (lookup source d) [
  | none ↦ d
  | some f ↦ insert target f (erase source d)
]

-- os.path.isfile(path) and os.access(path, os.X_OK)
unfoldable pub usable : String → Disk → Option File
usable path d = elim (lookup path d) as (λ _. Option File) [
  | none ↦ none
  | some f ↦ if f.executable then some f else none
]

-- From `os.replace` back to the opening of the `.tmp` file.
unfoldable pub move_tmp : World → String → String → Disk → Disk × Ensured
unfolding replace_file tmp_path
move_tmp w binary sum d = elim w.replace as (λ _. Disk × Ensured) [
  | err e ↦ (d, err (download_failed e))
  | ok _ ↦ (replace_file (tmp_path binary) binary d, ok (binary, sum))
]

unfoldable pub chmod_tmp : World → String → String → Disk → Disk × Ensured
unfolding make_executable move_tmp tmp_path
chmod_tmp w binary sum d = elim w.chmod as (λ _. Disk × Ensured) [
  | err e ↦ (d, err (download_failed e))
  | ok _ ↦ move_tmp w binary sum (make_executable (tmp_path binary) d)
]

unfoldable pub write_tmp : World → String → String → Bytes → Disk → Disk × Ensured
unfolding write_file chmod_tmp tmp_path
write_tmp w binary sum bs d = elim w.write_tmp as (λ _. Disk × Ensured) [
  | none ↦ chmod_tmp w binary sum (write_file (tmp_path binary) bs d)
  | some (part, e) ↦ (write_file (tmp_path binary) part d, err (download_failed e))
]

-- with open(tmp, "wb") as f: …
unfoldable pub save_binary : World → String → String → Bytes → Disk → Disk × Ensured
unfolding write_tmp
save_binary w binary sum bs d = elim w.open_tmp as (λ _. Disk × Ensured) [
  | err e ↦ (d, err (download_failed e))
  | ok _ ↦ write_tmp w binary sum bs d
]

-- version.strip().lstrip("v")
unfoldable pub clean_version : String → String
unfolding strip strip_left is_blank is_char
clean_version version = strip_left (is_char b'v') (strip is_blank version)

-- What is downloaded: the bytes and the sum that is published, if nothing raises.
unfoldable pub downloads : World → Result Exn (Bytes × String)
unfolding first_word
downloads w = do
  _ ← w.makedirs
  bs ← w.binary_answer
  page ← w.sum_answer
  expected ← first_word page
  ok (bs, expected)

module _ (h : Sha256) where
  -- The check of the sum comes before any write.
  unfoldable pub store : World → String → Result Exn (Bytes × String) → Disk → Disk × Ensured
  unfolding save_binary sha256_of
  store w binary (err e) d = (d, err (download_failed e))
  store w binary (ok (bs, expected)) d =
      if sha256_of h bs == expected
      then save_binary w binary (sha256_of h bs) bs d
      else (d, err (bad_sum expected (sha256_of h bs)))

  unfoldable pub ensure_binary : World → String → Disk → Disk × Ensured
  unfolding usable sha256_file downloads store
  ensure_binary w binary d = elim (usable binary d) as (λ _. Disk × Ensured) [
    | some f ↦ (d, reused binary (sha256_file h w.read_binary f))
    | none ↦ store w binary (downloads w) d
  ]

  unfoldable pub ensure_release_binary : World → String → String → Disk → Disk × Ensured
  unfolding clean_version version_ok binary_path ensure_binary
  ensure_release_binary w version download_dir d =
      if version_ok (clean_version version)
      then ensure_binary w (binary_path download_dir (clean_version version)) d
      else (d, err (bad_version (clean_version version)))
