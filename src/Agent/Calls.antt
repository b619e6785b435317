-- ===== src/Agent/Calls.antt =====
-- The calls of src/mcp_socket_server/socket_client.py: payload, datatype, reply.
use mcp_socket_server.Prelude.{
  ℕ, String, Bool, Option, none, some, List, [], ◌∷◌, if◌then◌else◌, eqb,
}
use mcp_socket_server.Value.{
  Value, Items, nil, cons, Fields, end, field, text, bool, num, list, put,
}
use mcp_socket_server.Pool.{Client}
use mcp_socket_server.Wire.{Exec, ◌>>=◌, ◌>>◌, pure, lift}
use mcp_socket_server.Agent.{
  Codec, send, send_json, recv_text_json, recv_lenprefixed_json, recv_gzip_response,
}
use mcp_socket_server.Agent.Replies.{
  res_of, cmd_exec_result, capture_start_result, capture_stop_result, boce_result, replay_result,
  upgrade_result,
}

-- `if x is not None: payload[k] = x`
unfoldable pub put_text : String → Option String → Fields → Fields
put_text k none fs = fs
put_text k (some s) fs = put k (text s) fs

unfoldable pub put_value : String → Option Value → Fields → Fields
put_value k none fs = fs
put_value k (some v) fs = put k v fs

-- `if n: payload[k] = n`
unfoldable pub put_nonzero : String → ℕ → Fields → Fields
put_nonzero k n fs = if eqb n 0 then fs else put k (num n) fs

abbrev pub texts : List String → Items
texts [] = nil
texts (s ∷ l) = cons (text s) (texts l)

pub record ReplayOptions : Type 0 where
  pub pcaps : List String
  pub uplink_iface : String
  pub downlink_iface : String
  pub uplink_vlan : Option Value
  pub downlink_vlan : Option Value
  pub mbps : ℕ
  pub force_ip_src : Option String
  pub force_ip_dst : Option String
  pub force_sport : ℕ
  pub force_dport : ℕ

module _ (codec : Codec) (c : Client) where
  unfoldable pub version : Exec Value
  unfolding send recv_text_json ◌>>=◌
  version = do send c 14 []; recv_text_json codec c

  unfoldable pub isfile : String → Exec Value
  unfolding send_json recv_text_json lift ◌>>=◌
  isfile path = do
    send_json codec c 7 (field "file" (text path) end)
    reply ← recv_text_json codec c
    lift (res_of reply)

  unfoldable pub isdir : String → Exec Value
  unfolding send_json recv_text_json lift ◌>>=◌
  isdir path = do
    send_json codec c 8 (field "dir" (text path) end)
    reply ← recv_text_json codec c
    lift (res_of reply)

  unfoldable pub pcap_flow_extract : String → Exec Value
  unfolding send_json recv_lenprefixed_json ◌>>=◌
  pcap_flow_extract pcap_dir = do
    send_json codec c 200 (field "pcap_dir" (text pcap_dir) end)
    recv_lenprefixed_json codec c

  unfoldable pub cmd_exec_payload : String → Option String → Option Value → Bool → Fields
  unfolding put_text put_value
  cmd_exec_payload args cwd env wait =
      put_value "env" env
        (put_text "cwd" cwd (field "args" (text args) (field "wait" (bool wait) end)))

  unfoldable pub cmd_exec : String → Option String → Option Value → Bool → Exec Value
  unfolding cmd_exec_payload send_json recv_gzip_response pure ◌>>=◌
  cmd_exec args cwd env wait = do
    send_json codec c 1 (cmd_exec_payload args cwd env wait)
    reply ← recv_gzip_response codec c
    pure (cmd_exec_result reply)

  unfoldable pub capture_start : Option String → Option String → String → Bool → Exec Value
  unfolding put_text send_json recv_text_json lift ◌>>=◌
  capture_start eth path extended single_queue = do
    send_json codec c 5 (
        put_text "path" path (
          put_text "eth" eth
            (field "extended" (text extended) (field "single_queue" (bool single_queue) end))))
    reply ← recv_text_json codec c
    lift (capture_start_result reply)

  unfoldable pub capture_stop : String → Exec Value
  unfolding send_json recv_text_json pure ◌>>=◌
  capture_stop path = do
    send_json codec c 6 (field "path" (text path) end)
    reply ← recv_text_json codec c
    pure (capture_stop_result reply)

  unfoldable pub boce_run : String → ℕ → ℕ → ℕ → ℕ → String → Option String → Exec Value
  unfolding put_text send_json recv_lenprefixed_json lift ◌>>=◌
  boce_run url count interval thread_count timeout mode chromium_path = do
    send_json codec c 131 (
        put_text "chromium_path" chromium_path (
          field "url" (text url) (
            field "count" (num count) (
              field "interval" (num interval) (
                field "thread_count" (num thread_count)
                  (field "timeout" (num timeout) (field "mode" (text mode) end)))))))
    reply ← recv_lenprefixed_json codec c
    lift (boce_result reply)

  unfoldable pub replay_payload : ReplayOptions → Fields
  unfolding put_text put_value put_nonzero
  replay_payload o = put_nonzero "force_dport" o.force_dport (
      put_nonzero "force_sport" o.force_sport (
        put_text "force_ip_dst" o.force_ip_dst (
          put_text "force_ip_src" o.force_ip_src (
            put_value "downlink_vlan" o.downlink_vlan (
              put_value "uplink_vlan" o.uplink_vlan (
                field "pcaps" (list (texts o.pcaps)) (
                  field "uplink_iface" (text o.uplink_iface) (
                    field "downlink_iface" (text o.downlink_iface)
                      (field "mbps" (num o.mbps) end)))))))))

  unfoldable pub replay_run : ReplayOptions → Exec Value
  unfolding replay_payload send_json recv_text_json lift ◌>>=◌
  replay_run o = do
    send_json codec c 0 (replay_payload o)
    reply ← recv_text_json codec c
    lift (replay_result reply)

  unfoldable pub upgrade_apply : String → String → Bool → Exec Value
  unfolding send_json recv_text_json pure ◌>>=◌
  upgrade_apply version' sha256 force = do
    send_json codec c 20 (
        field "version" (text version')
          (field "sha256" (text sha256) (field "force" (bool force) end)))
    reply ← recv_text_json codec c
    pure (upgrade_result reply)
