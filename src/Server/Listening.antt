-- ===== src/Server/Listening.antt =====
-- The tool `socket_listen` (src/mcp_socket_server/server.py): its run on one target, which also marks
-- the target in the registry.
pub mod Marks
pub mod Tool
use mcp_socket_server.Prelude.{
  ℕ, ◌+◌, String, Bool, true, false, ◌&&◌, ◌||◌, Option, none, some, List, [], ◌∷◌, if◌then◌else◌,
  ltb, leb, eqb, length, take, Result, ok, err,
}
use mcp_socket_server.Errors.{Exn}
use mcp_socket_server.Text.{split_dots}
use mcp_socket_server.Text.Signed.{ℤ, pos, ltz, eqz, number_of}
use mcp_socket_server.Value.{Value, text, bytes}
use mcp_socket_server.Registry.{Registry, set_listen_liveness}

-- [int(x) for x in v.split(".")]
unfoldable pub parse_numbers : List String → Option (List ℤ)
unfolding number_of
parse_numbers [] = some []
parse_numbers (s ∷ parts) = elim (number_of s) [
  | none ↦ none
  | some n ↦ elim (parse_numbers parts) [ none ↦ none | some l ↦ some (n ∷ l) ]
]

-- a >= b, of two tuples
unfoldable pub tuple_ge : List ℤ → List ℤ → Bool
tuple_ge xs [] = true
tuple_ge [] (y ∷ ys) = false
tuple_ge (x ∷ xs) (y ∷ ys) = ltz y x || (eqz x y && tuple_ge xs ys)

abbrev pub knows_stop : Option (List ℤ) → Bool
knows_stop none = false
knows_stop (some parts) = tuple_ge (take 3 parts) (pos 1 ∷ pos 7 ∷ pos 1 ∷ [])

-- Whether what `client.version()` answers names version 1.7.1 or later; anything that raises does not.
unfoldable pub supports_stop : Result Exn Value → Bool
unfolding parse_numbers tuple_ge split_dots
supports_stop (ok (text v)) = knows_stop (parse_numbers (split_dots v))
supports_stop _ = false

abbrev mark : String → ℕ → Bool → Option Registry → Option Registry
mark host port alive none = none
mark host port alive (some r) = some (set_listen_liveness host alive port r)

-- action == "start": what `client.socket_listen("start", …)` and then `client.version()` answer
unfoldable pub run_start :
    String
    → ℕ
    → Result Exn Value
    → Result Exn Value
    → Option Registry
    → Option Registry × Result Exn Value
unfolding supports_stop set_listen_liveness
run_start host port (err e) version r = (r, err e)
run_start host port (ok v) version r =
    (if supports_stop version then mark host port true r else r, ok v)

-- action == "stop"
unfoldable pub run_stop :
    String → ℕ → Result Exn Value → Option Registry → Option Registry × Result Exn Value
unfolding set_listen_liveness
run_stop host port (err e) r = (r, err e)
run_stop host port (ok v) r = (mark host port false r, ok v)

-- What `fetch` returns: the size, the bytes that are encoded, and the file where they are cut.
pub record Fetched : Type 0 where
  pub size : ℕ
  pub content : List ℕ
  pub truncated : Bool
  pub file_path : Option String

-- action == "fetch": the bytes, and the answer to the `save` that follows where they are too many
unfoldable pub run_fetch : ℕ → String → Result Exn (List ℕ) → Result Exn Value → Result Exn Fetched
run_fetch max_bytes file_path (err e) saved = err e
run_fetch max_bytes file_path (ok bs) saved =
    let whole =
      ok (record { size = length bs; content = bs; truncated = false; file_path = none }) in
    let cut = elim saved as (λ _. Result Exn Fetched) [
      | err e ↦ err e
      | ok _ ↦ ok (record {
        size = length bs;
        content = take max_bytes bs;
        truncated = true;
        file_path = some file_path;
      })
    ] in
    if leb (length bs) max_bytes then whole else cut
