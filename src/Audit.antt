-- ===== src/Audit.antt =====
-- The audit log (src/mcp_socket_server/audit.py): the rows of the SQLite table `audit_log`, and what each
-- method does to them. Every method runs under `_lock`. A `ts` is in seconds.
pub mod Loop
pub mod Params
pub mod Retention
use Prim.Native.String.{◌++◌}
use mcp_socket_server.Prelude.{
  ℕ, ◌+◌, ◌*◌, String, Bool, not, Option, none, some, List, [], ◌∷◌, if◌then◌else◌, ltb, eqb,
  keep_if, Result, ok, err, ◌>>=◌,
}
use mathlib.Core.List
use mcp_socket_server.Errors.{Exn}
use mcp_socket_server.Text.{text_length, text_take}
use mcp_socket_server.Value.{Value, Items, Fields, end, field, text, dict, list, put}

pub record Entry : Type 0 where
  pub id : ℕ
  pub ts : ℕ
  pub source_ip : String
  pub tool : String
  pub params : String
  pub ok_count : ℕ
  pub failed_count : ℕ
  pub outcomes : String
  pub duration_ms : ℕ

-- The rows in the order of their ids; `last_id` is what AUTOINCREMENT remembers.
pub record AuditLogger : Type 0 where
  pub rows : List Entry
  pub last_id : ℕ
  pub retention_days : ℕ

abbrev pub day : ℕ
day = 86400

-- ts < datetime('now', '-<days> days')
abbrev pub is_expired : ℕ → ℕ → Entry → Bool
is_expired now days e = ltb (e.ts + days * day) now

unfoldable pub cleanup : ℕ → ℕ → AuditLogger → AuditLogger
cleanup now days a = record a { rows = keep_if (λ (e : Entry). not (is_expired now days e)) a.rows }

-- `__init__` on the rows of the file
unfoldable pub open_audit : ℕ → ℕ → AuditLogger → AuditLogger
unfolding cleanup
open_audit now retention_days a =
    let opened = record a { retention_days = retention_days } in
    if ltb 0 retention_days then cleanup now retention_days opened else opened

abbrev pub max_len : ℕ
max_len = 200

-- What a call of `write` says, but for its time.
pub record Report : Type 0 where
  pub tool : String
  pub params : Fields
  pub outcomes : Items
  pub ok_count : ℕ
  pub failed_count : ℕ
  pub duration_ms : ℕ
  pub source_ip : String

-- `str`
module _ (str : Value → String) where
  abbrev pub truncated : Value → Value
  truncated v =
      if ltb max_len (text_length (str v)) then text (text_take max_len (str v) ++ "...") else v

  -- The loop of `_truncate_params`, on its result.
  unfoldable pub truncate_from : Fields → Fields → Fields
  unfolding text_length text_take put
  truncate_from result end = result
  truncate_from result (field k v fs) = truncate_from (put k (truncated v) result) fs

  unfoldable pub truncate_params : Fields → Fields
  unfolding truncate_from
  truncate_params params = truncate_from end params

abbrev entry : ℕ → ℕ → Report → String → String → Entry
entry id now r params outcomes = record {
  id = id;
  ts = now;
  source_ip = r.source_ip;
  tool = r.tool;
  params = params;
  ok_count = r.ok_count;
  failed_count = r.failed_count;
  outcomes = outcomes;
  duration_ms = r.duration_ms;
}

unfoldable pub append_row : ℕ → Report → AuditLogger → String × String → AuditLogger
append_row now r a (params, outcomes) = record a {
  rows = List.◌++◌ a.rows (entry (a.last_id + 1) now r params outcomes ∷ []);
  last_id = a.last_id + 1;
}

-- `json.dumps(…, ensure_ascii=False)`, which raises on what is no JSON
module _ (str : Value → String) (dumps : Value → Result Exn String) where
  -- The texts of a row.
  unfoldable pub row_texts : Report → Result Exn (String × String)
  unfolding truncate_params
  row_texts r = do
    params ← dumps (dict (truncate_params str r.params))
    outcomes ← dumps (list r.outcomes)
    ok (params, outcomes)

  unfoldable pub write : ℕ → Report → AuditLogger → Result Exn AuditLogger
  unfolding row_texts append_row
  write now r a = elim (row_texts r) as (λ _. Result Exn AuditLogger) [
    | err e ↦ err e
    | ok texts ↦ ok (append_row now r a texts)
  ]
