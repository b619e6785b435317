-- ===== src/Upgrades/Files/Hashing.antt =====
-- The sum of a file that is read in chunks (`_sha256_file` of src/mcp_socket_server/upgrades.py).

use mcp_socket_server.Prelude.{
  ℕ, zero, suc, ◌+◌, ◌<◌, ◌≡◌, refl, ap, sym, ◌∙◌, [], ◌∷◌, length, take, drop, length-append,
  take-append-drop, arith, Result, ok, err, ◌>>=◌,
}
use mcp_socket_server.Errors.{Exn}
use mcp_socket_server.Wire.{Bytes}
use mcp_socket_server.Upgrades.Files.{
  Sha256, IsIncremental, File, sha256_of, hash_chunks, sha256_file,
}

module _ (h : Sha256) (laws : IsIncremental h) where
  hash_chunks-update :
      (size fuel : ℕ) (bs : Bytes) (s : h.Hash)
      → length bs < fuel
      → hash_chunks h (suc size) fuel bs s ≡ h.update s bs
  unfolding hash_chunks
  hash_chunks-update size zero bs s short = absurd (omega arith)
  hash_chunks-update size (suc fuel) [] s short = sym (laws.update_empty s)
  hash_chunks-update size (suc fuel) (b ∷ bs) s short =
      let rest : length (drop size bs) < fuel = omega (
        arith,
        ap length (take-append-drop size bs),
        length-append (take size bs) (drop size bs),
      ) in
      hash_chunks-update size fuel (drop size bs) _ rest
      ∙ laws.update_joined s (b ∷ take size bs) (drop size bs)
      ∙ ap (λ l. h.update s (b ∷ l)) (take-append-drop size bs)

  -- Reading a file in chunks gives the sum of its whole content, if the hash takes bytes piece by piece;
  -- if the file cannot be opened or read, it raises that.
  pub sha256_file-sha256_of :
      (reading : Result Exn (Unit {0})) (f : File)
      → sha256_file h reading f ≡ (reading >>= λ _. ok (sha256_of h f.content))
  unfolding sha256_file sha256_of
  sha256_file-sha256_of (err e) f = refl
  sha256_file-sha256_of (ok _) f =
      ap (λ s. ok (h.hexdigest s))
        (hash_chunks-update 1048575 (length f.content + 1) f.content h.new (omega arith))
