-- ===== src/Server/Upgrade/Sending.antt =====
-- What `upgrade_run` (src/mcp_socket_server/server.py) does on one target: the check of its version, the
-- push of the binary, and the request to apply it, with the calls that it makes.
pub mod Gates
use mcp_socket_server.Prelude.{
  ℕ, String, Bool, true, false, Option, none, some, List, [], ◌∷◌, if◌then◌else◌, take, Result, ok,
  err,
}
use mcp_socket_server.Errors.{Exn, other_error}
use mcp_socket_server.Text.{split_dots}
use mcp_socket_server.Text.Signed.{ℤ, pos}
use mcp_socket_server.Value.{Value, Fields, dict, text, bool, null, field, end, is_set, get_or}
use mcp_socket_server.Wire.{Bytes}
use mcp_socket_server.Pool.{Client, close}
use mcp_socket_server.Upgrades.Push.{Post, PushError, push_binary}
use mcp_socket_server.Server.Listening.{parse_numbers, tuple_ge}

-- The texts under "_error", by what they say.
pub data Refusal : Type 0 where
  odd_version : String → Refusal
  too_old : String → Refusal
  push_refused : PushError → Refusal
  agent_refused : Value → Refusal
  odd_reply : Fields → Refusal

-- What goes to the target: the request for its version, the binary, the request to apply it.
pub data Call : Type 0 where
  asks_version : Call
  pushes : Call
  applies : Call

-- What the calls find: the answer to `client.version()`, the bytes of the binary, the HTTP service, and
-- the answer to `client.upgrade_apply(…)`.
pub record Answers : Type 0 where
  pub version : Result Exn Value
  pub read : Result Exn Bytes
  pub service : Post → Result Exn Value
  pub apply : String → String → Bool → Result Exn Value

-- An attempt raises, refuses, or has pushed to a target of this version.
pub data Stop : Type 0 where
  raised : Exn → Stop
  refused : Refusal → Stop

abbrev pub Attempt : Type 0
Attempt = List Call × Result Stop String

abbrev pub tell : Call → Attempt → Attempt
tell call (calls, r) = (call ∷ calls, r)

-- resp.get("error") and resp.get("ok")
unfoldable pub applied : String → Result Exn Value → Attempt
unfolding is_set
applied cur (err e) = ([], err (raised e))
applied cur (ok (dict fs)) =
    if is_set "error" fs
    then ([], err (refused (agent_refused (get_or "error" null fs))))
    else if is_set "ok" fs
    then ([], ok cur)
    else ([], err (refused (odd_reply fs)))
applied cur (ok v) = ([], err (raised (other_error "AttributeError")))

unfoldable pub after_push : String → Result PushError String → Result Exn Value → Attempt
unfolding applied
after_push cur (err e) reply = ([], err (refused (push_refused e)))
after_push cur (ok staging) reply = tell applies (applied cur reply)

-- tuple(int(x) for x in str(cur).split(".")[:3])
unfoldable pub version_parts : String → Option (List ℤ)
unfolding split_dots parse_numbers
version_parts cur = parse_numbers (take 3 (split_dots cur))

-- (1, 8, 0)
abbrev pub first_upgradable : List ℤ
first_upgradable = pos 1 ∷ pos 8 ∷ pos 0 ∷ []

unfoldable pub gate : String → Attempt → Option (List ℤ) → Attempt
unfolding tuple_ge
gate cur go none = ([], err (refused (odd_version cur)))
gate cur go (some parts) =
    if tuple_ge parts first_upgradable then go else ([], err (refused (too_old cur)))

-- `str` of what is no text
module _ (str : Value → String) where
  abbrev pub str_of : Value → String
  str_of (text s) = s
  str_of v = str v

  unfoldable pub after_version :
      String → String → String → String → Bool → Answers → Result Exn Value → Attempt
  unfolding gate version_parts after_push push_binary
  after_version host binary ver sum force a (err e) = ([], err (raised e))
  after_version host binary ver sum force a (ok v) =
      let pushed = push_binary a.read a.service host binary ver 9001 in
      gate (str_of v) (tell pushes (after_push (str_of v) pushed (a.apply ver sum force)))
        (version_parts (str_of v))

  unfoldable pub attempt : String → String → String → String → Bool → Answers → Attempt
  unfolding after_version
  attempt host binary ver sum force a =
      tell asks_version (after_version host binary ver sum force a a.version)

-- {"_error": …}, with the f-string of the refusal
module _ (message : Refusal → Value) where
  unfoldable pub conclude : Client → Result Stop String → Client × Result Exn Value
  unfolding close
  conclude c (err (raised e)) = (c, err e)
  conclude c (err (refused r)) = (c, ok (dict (field "_error" (message r) end)))
  conclude c (ok cur) =
      (close c, ok (dict (field "pushed" (bool true) (field "from_version" (text cur) end))))

module _ (str : Value → String) (message : Refusal → Value) where
  -- `run_one` of `upgrade_run`
  unfoldable pub run_one :
      String → String → String → Bool → Answers → Client → Client × Result Exn Value
  unfolding attempt conclude
  run_one binary ver sum force a c =
      conclude message c (attempt str c.host binary ver sum force a).1
