-- ===== src/Server/Upgrade/Run.antt =====
-- `upgrade_run` (src/mcp_socket_server/server.py) as a whole: the version is settled, the binary is
-- fetched once, every target is sent to, and those that took it are polled. The audit is left out.
pub mod Accounts
use mcp_socket_server.Prelude.{
  ℕ, String, Bool, true, false, Option, none, some, List, [], ◌∷◌, if◌then◌else◌, map, keep_if,
  is_nonempty, Result, ok, err,
}
use mcp_socket_server.Errors.{Exn}
use mcp_socket_server.Text.{is_empty}
use mcp_socket_server.Value.{Value, Fields, text, null, is_set, get_or}
use mcp_socket_server.Commands.{system}
use mcp_socket_server.Pool.Scheduler.{Visit}
use mcp_socket_server.Upgrades.{Checker, version_ok, fetch_latest_version}
use mcp_socket_server.Upgrades.Files.{
  Sha256, World, Disk, Unusable, unreadable, Ensured, clean_version, ensure_release_binary,
}
use mcp_socket_server.Server.{Bridge, Failure, Report, resolve_targets}
use mcp_socket_server.Server.Batch.{run_batch}
use mcp_socket_server.Server.Upgrade.{Round, Pushed, finish_upgrade}
use mcp_socket_server.Server.Upgrade.Sending.{Refusal, Answers, run_one}

-- Why no target is sent to.
pub data Early : Type 0 where
  no_target : Early
  bad_version : String → Early
  no_latest : Early
  no_binary : Unusable → Early
  -- an exception that leaves the tool
  raises : Exn → Early

abbrev without_binary : Unusable → Early
without_binary (unreadable e) = raises e
without_binary x = no_binary x

-- What a run on one target meets, its calls on the client apart.
pub record Turn : Type 0 where
  pub visit : Visit
  pub answers : Answers

-- The version that is asked for, or else the latest.
abbrev latest : Option String → Result Early String
latest none = err no_latest
latest (some v) = if is_empty v then err no_latest else ok v

unfoldable pub choose_version : String → Result Exn String → Checker → Checker × Result Early String
unfolding version_ok clean_version fetch_latest_version
choose_version version page c =
    if is_empty (clean_version version)
    then ((fetch_latest_version page c).0, latest (fetch_latest_version page c).2)
    else (
      c,
      if version_ok (clean_version version)
          then ok (clean_version version)
          else err (bad_version (clean_version version)),
    )

abbrev as_text : Value → String
as_text (text s) = s
as_text _ = ""

-- An entry of `batch["results"]` with `pushed` set; its other values are texts.
unfoldable pub pushed_of : Fields → Pushed
pushed_of fs = record {
  target = as_text (get_or "target" null fs);
  from_version = as_text (get_or "from_version" null fs);
}

unfoldable pub pushed_entries : List Fields → List Pushed
unfolding is_set pushed_of
pushed_entries results = map pushed_of (keep_if (is_set "pushed") results)

-- The objects that the tool works on, beside the bridge.
pub record Desk : Type 0 where
  pub bridge : Bridge
  pub checker : Checker
  pub disk : Disk

-- What the tool returns from its batch on: the version, the failures, and the targets upgraded.
pub record Upgraded : Type 0 where
  pub version : String
  pub failed : List Failure
  pub results : List Pushed

module _ (sha : Sha256) (str : Value → String) (message : Refusal → Value) (force : Bool) where
  -- A run of the batch.
  unfoldable pub visit_of : String → String → String → String × Turn → String × Visit
  unfolding run_one
  visit_of binary ver sum (host, t) =
      (host, record t.visit { fn = run_one str message binary ver sum force t.answers })

  unfoldable pub send_all :
      ℕ → ℕ → String → String → String → List (String × Turn) → Bridge → Bridge × Report
  unfolding run_batch visit_of
  send_all port timeout binary ver sum turns b =
      run_batch port timeout system [] (map (visit_of binary ver sum) turns) b

  unfoldable pub conclude : ℕ → String → List Round → Report → Upgraded
  unfolding pushed_entries finish_upgrade
  conclude port ver rounds report =
      let (results, failed) =
        finish_upgrade port ver rounds (pushed_entries report.results) report.failed in
      record { version = ver; failed = failed; results = results }

  unfoldable pub with_binary :
      ℕ
      → ℕ
      → String
      → List (String × Turn)
      → List Round
      → Checker
      → Bridge
      → Disk × Ensured
      → Desk × Result Early Upgraded
  unfolding send_all conclude
  with_binary port timeout ver turns rounds c b (d, err e) =
      (record { bridge = b; checker = c; disk = d }, err (without_binary e))
  with_binary port timeout ver turns rounds c b (d, ok (binary, sum)) =
      let (b', report) = send_all port timeout binary ver sum turns b in
      (record { bridge = b'; checker = c; disk = d }, ok (conclude port ver rounds report))

  unfoldable pub with_version :
      ℕ
      → ℕ
      → String
      → World
      → List (String × Turn)
      → List Round
      → Desk
      → Checker × Result Early String
      → Desk × Result Early Upgraded
  unfolding ensure_release_binary with_binary
  with_version port timeout dir w turns rounds desk (c, err e) =
      (record desk { checker = c }, err e)
  with_version port timeout dir w turns rounds desk (c, ok ver) =
      with_binary port timeout ver turns rounds c desk.bridge
        (ensure_release_binary sha w ver dir desk.disk)

  -- `turns` are the runs on the resolved targets, in the order in which they complete.
  unfoldable pub upgrade_run :
      ℕ
      → ℕ
      → String
      → List String
      → String
      → Result Exn String
      → World
      → List (String × Turn)
      → List Round
      → Desk
      → Desk × Result Early Upgraded
  unfolding resolve_targets choose_version with_version
  upgrade_run port timeout dir targets version page w turns rounds desk =
      if is_nonempty (resolve_targets targets desk.bridge)
      then with_version port timeout dir w turns rounds desk
          (choose_version version page desk.checker)
      else (desk, err no_target)
