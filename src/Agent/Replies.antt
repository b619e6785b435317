-- ===== src/Agent/Replies.antt =====
-- What the methods of src/mcp_socket_server/socket_client.py make of a reply, once it is read.
pub mod Limits
use mcp_socket_server.Prelude.{
  ℕ, Bool, true, false, Option, some, if◌then◌else◌, Result, ok, err, ltb, ◌==◌, string_eq,
}
use mcp_socket_server.Errors.{Exn, other_error, connection_error}
use mcp_socket_server.Text.{text_length, text_take}
use mcp_socket_server.Value.{
  Value, Fields, end, field, text, bool, dict, get, put, has, get_or, truthy,
}

abbrev pub attribute_error : Exn
attribute_error = other_error "AttributeError"

-- reply.get("res", False), which any object but a dict lacks
unfoldable pub res_of : Value → Result Exn Value
unfolding get
res_of (dict fs) = ok (get_or "res" (bool false) fs)
res_of _ = err attribute_error

abbrev pub max_stdout : ℕ
max_stdout = 65536

cut_stdout : Fields → Option Value → Fields
unfolding text_length text_take put
cut_stdout fs (some (text s)) =
    if ltb max_stdout (text_length s)
    then put "stdout_truncated" (bool true) (put "stdout" (text (text_take max_stdout s)) fs)
    else fs
cut_stdout fs _ = fs

-- `cmd_exec`: a stdout of more than 64K characters is cut, and marked
unfoldable pub cmd_exec_result : Value → Value
unfolding cut_stdout get
cmd_exec_result (dict fs) = dict (cut_stdout fs (get "stdout" fs))
cmd_exec_result v = v

-- `capture_start`: a dict with an error as it is, anything else as {"res": bool}
unfoldable pub capture_start_result : Value → Result Exn Value
unfolding has get truthy
capture_start_result (dict fs) =
    if has "error" fs
    then ok (dict fs)
    else ok (dict (field "res" (bool (truthy (get_or "res" (bool false) fs))) end))
capture_start_result _ = err attribute_error

-- `capture_stop`: the new form as it is, the old form {"res": bool} translated
unfoldable pub capture_stop_result : Value → Value
unfolding has get truthy
capture_stop_result (dict fs) =
    if has "stopped" fs
    then dict fs
    else if has "res" fs
    then (if truthy (get_or "res" (bool false) fs)
        then dict (field "stopped" (bool true) (field "legacy" (bool true) end))
        else dict (
            field "stopped" (bool false)
              (field "legacy" (bool true) (field "error" (text "停止未完成（旧版语义），可重试") end))))
    else dict (field "stopped" (bool false) (field "error" (text "无法解析的服务端响应") end))
capture_stop_result v = dict (field "stopped" (bool false) (field "error" (text "无法解析的服务端响应") end))

-- `boce_run`: a dict with an error is raised
unfoldable pub boce_result : Value → Result Exn Value
unfolding has
boce_result (dict fs) =
    if has "error" fs then err (connection_error "boce failed") else ok (dict fs)
boce_result v = ok v

abbrev is_error_status : Option Value → Bool
is_error_status (some (text s)) = s == "error"
is_error_status _ = false

-- `replay_run`: a dict whose status is "error" is raised
unfoldable pub replay_result : Value → Result Exn Value
unfolding get
replay_result (dict fs) =
    if is_error_status (get "status" fs)
    then err (connection_error "replay failed")
    else ok (dict fs)
replay_result v = ok v

-- `upgrade_apply`: anything but a dict becomes an error
unfoldable pub upgrade_result : Value → Value
upgrade_result (dict fs) = dict fs
upgrade_result v = dict (field "error" (text "无法解析的 dt20 响应") end)

-- `socket_listen("start")`: a reply without a pid is raised
unfoldable pub listen_start_result : Value → Result Exn Value
unfolding truthy get
listen_start_result (dict fs) =
    if truthy (get_or "pid" Value.null fs)
    then ok (dict fs)
    else err (connection_error "listen start failed")
listen_start_result _ = err attribute_error
