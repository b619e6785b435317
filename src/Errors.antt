-- ===== src/Errors.antt =====
-- The exceptions that the code raises or lets through. The texts that `str(e)` renders are not
-- modelled: where the code stores `str(e)`, the model stores the exception.
use mcp_socket_server.Prelude.{String}

pub data Exn : Type 0 where
  -- `TimeoutError` of `TargetPool.acquire`, which names the host
  pool_full : String → Exn
  -- `OSError` and its kin, raised by a socket: refused, reset, timed out
  os_error : String → Exn
  -- `ConnectionError` raised by the client itself
  connection_error : String → Exn
  -- `ValueError`: a bad argument, a text that is no JSON
  value_error : String → Exn
  -- any other `Exception`
  other_error : String → Exn
