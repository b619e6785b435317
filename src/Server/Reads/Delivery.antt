-- ===== src/Server/Reads/Delivery.antt =====
-- `pcap_flow_extract` from the bytes on the socket to the report of the tool
-- (src/mcp_socket_server/server.py, pool.py and socket_client.py).
use mcp_socket_server.Prelude.{
  ℕ, ◌+◌, ◌^◌, ◌<◌, String, ◌≡◌, refl, ap, ◌∙◌, true, none, [], ◌∷◌, ◌++◌, length, ltb, arith, ok,
}
use mcp_socket_server.Value.{Value, Items, field, end, text, list, items_length, items_take}
use mcp_socket_server.Pool.{Client, TargetPool}
use mcp_socket_server.Pool.Scheduler.{
  Visit, Scheduler, acquire, get_pool, run_on, run_one, batch, succeeded,
}
use mcp_socket_server.Wire.{Bytes, Sock, Exec, recv_prefixed}
use mcp_socket_server.Wire.Reading.{content}
use mcp_socket_server.Wire.Frames.{frame, recv_prefixed-frame}
use mcp_socket_server.Agent.{Codec, send_json, recv_lenprefixed_json}
use mcp_socket_server.Agent.Calls
use mcp_socket_server.Agent.Requests.{with_open_socket, after_send}
use mcp_socket_server.Server.{failed, count_ok}
use mcp_socket_server.Server.Reads.{
  Turn, call_on, run_reads, max_flows, flows_of, cut_flows, flow_report, FlowReport,
  pcap_flow_extract,
}

module _ (codec : Codec) (c : Client) (open_socket : c.connected ≡ true) where
  -- The reply of the agent, however it is cut into pieces, is what the call returns.
  pcap_flow_extract-frame :
      (dir : String) (body more : Bytes) (v : Value) (s : Sock)
      → length (codec.dumps (Value.dict (field "pcap_dir" (text dir) end))) + 4 < 2 ^ 31
      → s.refuses ≡ none
      → length body < 2 ^ 31
      → content s.incoming ≡ frame body ++ more
      → codec.loads body ≡ ok v
      → (Calls.pcap_flow_extract codec c dir s).0 ≡ ok v
  unfolding Calls.pcap_flow_extract send_json recv_lenprefixed_json
  pcap_flow_extract-frame dir body more v s l h fits e parsed =
      let (u, wrote, same) =
        after_send c open_socket 200 (codec.dumps (Value.dict (field "pcap_dir" (text dir) end))) s
          (omega arith) l h in
      let read = recv_prefixed-frame c.timeout body more u fits (ap content same ∙ e) in
      rw wrote (
        rw (with_open_socket c open_socket (recv_prefixed c.timeout))
          (rw (read.1) (rw parsed refl)))

module _ (port timeout : ℕ) (host : String) (v : Visit) (s : Scheduler) where
  -- A run that is lent a client on which the function returns is a success.
  one_result :
      (p : TargetPool) (client client' : Client) (w : Value)
      → acquire timeout v (get_pool host port s).0 ≡ (p, ok client)
      → v.fn client ≡ (client', ok w)
      → (batch port timeout ((host, v) ∷ []) s).1 ≡ succeeded host w ∷ []
  unfolding batch run_one run_on
  one_result p client client' w lent returned = rw lent (rw returned refl)

-- The report on one target that answers with a list of flows.
abbrev pub flows_report : String → Items → FlowReport
flows_report host vs = record {
  ok = 1;
  failed = [];
  results =
      record {
        target = host;
        flows = list (items_take max_flows vs);
        total = items_length vs;
        truncated = ltb max_flows (items_length vs);
      }
      ∷ [];
}

-- If `pcap_flow_extract` on one target is lent an open client whose socket accepts a request that fits an
-- int, and a frame comes back, cut into any pieces, whose body is the JSON of a list of flows, then the
-- report has that target alone, as a success, with the first thousand of the flows, their number, and
-- whether some are left out.
pub pcap_flow_extract-delivers :
    (codec : Codec) (port timeout : ℕ) (dir host : String) (t : Turn) (s : Scheduler)
    (p : TargetPool) (client : Client) (body more : Bytes) (vs : Items)
    → acquire timeout t.visit (get_pool host port s).0 ≡ (p, ok client)
    → client.connected ≡ true
    → length (codec.dumps (Value.dict (field "pcap_dir" (text dir) end))) + 4 < 2 ^ 31
    → t.sock.refuses ≡ none
    → length body < 2 ^ 31
    → content t.sock.incoming ≡ frame body ++ more
    → codec.loads body ≡ ok (list vs)
    → (pcap_flow_extract codec port timeout dir ((host, t) ∷ []) s).1 ≡ ok (flows_report host vs)
unfolding pcap_flow_extract run_reads call_on flow_report cut_flows flows_of count_ok failed acquire
pcap_flow_extract-delivers codec port timeout dir host t s p client body more vs lent opened l h
      fits e parsed =
    let call : Client → Exec Value = λ c. Calls.pcap_flow_extract codec c dir in
    let returned =
      pcap_flow_extract-frame codec client opened dir body more (list vs) t.sock l h fits e
        parsed in
    let one =
      one_result port timeout host (call_on call (host, t)).1 s p client client (list vs) lent
        (ap (λ r. (client, r)) returned) in
    ap flow_report one
