-- ===== src/Tests/Upgrades.antt =====
-- Tests of the upgrade files (src/mcp_socket_server/upgrades.py).
use mathlib.Core.List.{append-nil, append_assoc}
use mcp_socket_server.Prelude.{
  ℕ, ◌+◌, String, ◌≡◌, refl, true, false, none, some, List, [], ◌∷◌, ◌++◌, length, Result, ok, err,
  lookup, insert, erase, string_eq,
}
use mcp_socket_server.Errors.{Exn, os_error}
use mcp_socket_server.Text.{decimal, has_char}
use mcp_socket_server.Upgrades.{new_checker, version_ok, search_version, daily_loop}
use mcp_socket_server.Upgrades.Versions.{slash, version_ok-slash}
use mcp_socket_server.Upgrades.Streaks.{
  is_failing, is_recovered, count_if, failing_now, daily_loop-balance, changes, versions,
  daily_loop-changes,
}
use mcp_socket_server.Upgrades.Files.{
  Sha256, IsIncremental, File, World, sha256_of, sha256_file, usable, downloads, clean_version,
  binary_path, ensure_release_binary, unreadable,
}
use mcp_socket_server.Upgrades.Files.Hashing.{sha256_file-sha256_of}
use mcp_socket_server.Upgrades.Files.Saving.{Stores}
use mcp_socket_server.Upgrades.Files.Ensuring.{
  ensure_release_binary-Stores, ensure_release_binary-published, ensure_release_binary_again,
}

-- A page of the repository, and one without a version.
abbrev pub page : Result Exn String
page = ok "# v\nVERSION = \"1.9.0\"\n"

abbrev days : List (Result Exn String)
days =
    page ∷ err (os_error "refused") ∷ err (os_error "refused") ∷ page ∷ ok "VERSION = \"2.0\"" ∷ []

found_version : search_version "# v\nVERSION = \"1.9.0\"\n" ≡ some "1.9.0"
unfolding search_version
found_version = refl

accepts : version_ok "1.8.0" ≡ true
unfolding version_ok
accepts = refl

rejects : version_ok "../1.8" ≡ false
unfolding version_ok
rejects = refl

version_ok-slash_example : has_char slash "1.8.0" ≡ false
version_ok-slash_example = version_ok-slash "1.8.0" accepts

daily_loop-balance_example :
    count_if is_failing (daily_loop days new_checker).1 + failing_now new_checker
    ≡ count_if is_recovered (daily_loop days new_checker).1
      + failing_now (daily_loop days new_checker).0
daily_loop-balance_example = daily_loop-balance days new_checker

daily_loop-changes_example :
    ((daily_loop days new_checker).0.announced, versions (daily_loop days new_checker).1)
    ≡ changes none days
daily_loop-changes_example = daily_loop-changes days new_checker

announces : versions (daily_loop days new_checker).1 ≡ "1.9.0" ∷ "2.0" ∷ []
unfolding daily_loop string_eq
announces = refl

-- A hash that keeps the bytes and shows how many there are.
abbrev pub counting : Sha256
counting = record { Hash = List ℕ; new = []; update = ◌++◌; hexdigest = λ bs. decimal (length bs) }

counting-IsIncremental : IsIncremental counting
counting-IsIncremental = record { update_empty = append-nil; update_joined = append_assoc }

abbrev binary : File
binary = record { content = 1 ∷ 2 ∷ 3 ∷ []; executable = true }

sha256_file-sha256_of_example :
    sha256_file counting (ok tt) binary ≡ ok (sha256_of counting (1 ∷ 2 ∷ 3 ∷ []))
sha256_file-sha256_of_example = sha256_file-sha256_of counting counting-IsIncremental (ok tt) binary

abbrev pub online : World
online = record {
  makedirs = ok tt;
  binary_answer = ok (1 ∷ 2 ∷ 3 ∷ []);
  sum_answer = ok "3  socket_server\n";
  open_tmp = ok tt;
  write_tmp = none;
  chmod = ok tt;
  replace = ok tt;
  read_binary = ok tt;
}

-- The disk is full after one byte.
abbrev full_disk : World
full_disk = record online { write_tmp = some (1 ∷ [], os_error "no space") }

-- The binary is there, and cannot be read.
abbrev unreadable_disk : World
unreadable_disk = record online { read_binary = err (os_error "input/output error") }

abbrev stored_path : String
stored_path = "./downloads/socket_server/v1.8.0/socket_server"

ensure_release_binary-Stores_example :
    Stores counting
      (binary_path "./downloads" (clean_version " v1.8.0"))
      []
      (ensure_release_binary counting full_disk " v1.8.0" "./downloads" [])
ensure_release_binary-Stores_example =
    ensure_release_binary-Stores counting full_disk " v1.8.0" "./downloads" []
      counting-IsIncremental

stores : (ensure_release_binary counting online "v1.8.0" "./downloads" []).1 ≡ ok (stored_path, "3")
unfolding ensure_release_binary string_eq lookup insert erase decimal
stores = refl

nothing_there : usable (binary_path "./downloads" (clean_version "v1.8.0")) [] ≡ none
unfolding usable lookup
nothing_there = refl

ensure_release_binary-published_example :
    (version_ok (clean_version "v1.8.0") ≡ true)
    × ((bs : List ℕ) × ((downloads online ≡ ok (bs, "3")) × (sha256_of counting bs ≡ "3")))
ensure_release_binary-published_example =
    ensure_release_binary-published counting online "v1.8.0" "./downloads" [] stored_path "3"
      nothing_there stores

ensure_release_binary_again_example :
    let d = (ensure_release_binary counting online "v1.8.0" "./downloads" []).0 in
    ensure_release_binary counting unreadable_disk "v1.8.0" "./downloads" d
    ≡ (d, err (unreadable (os_error "input/output error")))
ensure_release_binary_again_example =
    ensure_release_binary_again counting online unreadable_disk "v1.8.0" "./downloads" []
      stored_path "3" counting-IsIncremental stores

ensure_release_binary_reused :
    let d = (ensure_release_binary counting online "v1.8.0" "./downloads" []).0 in
    ensure_release_binary counting full_disk "v1.8.0" "./downloads" d ≡ (d, ok (stored_path, "3"))
ensure_release_binary_reused =
    ensure_release_binary_again counting online full_disk "v1.8.0" "./downloads" [] stored_path "3"
      counting-IsIncremental stores
