-- ===== src/Server/Transfers.antt =====
-- The tool `file_transfer` (src/mcp_socket_server/server.py): the commands by which a client moves files
-- to and from each target.
pub mod Hosts
use Prim.Native.String
use Prim.Native.String.{◌++◌}
use mcp_socket_server.Prelude.{
  ℕ, String, Bool, true, false, ◌&&◌, ◌||◌, List, map, if◌then◌else◌, eqb, [], ◌∷◌, length,
}
use mcp_socket_server.Text.{
  colon, is_char, has_char, starts_with_char, strip_left, before_last, after_last, count_char,
  is_digits, decimal,
}
use mcp_socket_server.Server.{Bridge, resolve_targets}

-- "]:" in t, and t.split("]:", 1)[0]
unfoldable pub has_close : String → Bool
unfolding is_char starts_with_char
has_close String.[] = false
has_close (String.◌∷◌ c t) = (is_char b']' c && starts_with_char colon t) || has_close t

unfoldable pub before_close : String → String
unfolding is_char starts_with_char
before_close String.[] = String.[]
before_close (String.◌∷◌ c t) =
    if is_char b']' c && starts_with_char colon t then String.[] else String.◌∷◌ c (before_close t)

-- The host of a target that may carry a port.
unfoldable pub target_host : String → String
unfolding has_close before_close starts_with_char strip_left is_char count_char after_last is_digits
    before_last
target_host t =
    if starts_with_char b'[' t && has_close t
    then strip_left (is_char b'[') (before_close t)
    else if eqb (count_char colon t) 1 && is_digits (after_last colon t)
    then before_last colon t
    else t

-- f"[{host}]" if ":" in host else host
unfoldable pub url_host : String → String
unfolding has_char
url_host host = if has_char colon host then "[" ++ (host ++ "]") else host

pub record Transfer : Type 0 where
  pub target : String
  pub download : String
  pub upload : String

unfoldable pub transfer : ℕ → String → Transfer
unfolding target_host url_host decimal
transfer http_port t =
    let files =
      "http://" ++ (url_host (target_host t) ++ (":" ++ (decimal http_port ++ "/files"))) in
    record {
      target = t;
      download = "curl -o 本地文件 \"" ++ (files ++ "?path=<远端绝对路径>\"");
      upload = "curl -F \"path=<远端绝对路径>\" -F \"file=@本地文件\" " ++ files;
    }

-- The answer: the commands with their number, or a note and a usage where there are none.
pub data Guide : Type 0 where
  usage : Guide
  commands : ℕ → List Transfer → Guide

abbrev guide : List Transfer → Guide
guide [] = usage
guide (t ∷ cmds) = commands (length (t ∷ cmds)) (t ∷ cmds)

unfoldable pub file_transfer : ℕ → List String → Bridge → Guide
unfolding resolve_targets transfer
file_transfer http_port targets b = guide (map (transfer http_port) (resolve_targets targets b))
