-- ===== src/Core.antt =====
-- implementations/python/lib/src/anycall/core.py and config.py: how a client is wired. A client's
-- connection is its socket timeout here; times are in microseconds.
pub mod Patient
use anycall.Prelude.{ℕ, zero, suc, ◌+◌, Bool, Option, none, some}
use anycall.Prelude.Int.{ℤ, pos, negsuc}
use anycall.Text.{Text}
use anycall.Errors.{value_error, Result, ok, err}
use anycall.Client.{Client, new_client}
use anycall.Server.{Server, new_server}

abbrev pub socket_timeout_margin : ℕ
socket_timeout_margin = 5000000

-- `_client_socket_timeout`: none is no limit.
unfoldable pub client_socket_timeout : ℤ → Option ℕ
client_socket_timeout (pos zero) = none
client_socket_timeout (pos (suc n)) = some (suc n + socket_timeout_margin)
client_socket_timeout (negsuc n) = none

-- `AnycallProperties`
pub record AnycallProperties : Type 0 where
  pub timeout : ℤ
  pub metrics_enabled : Bool

-- What `AnyCall.client` puts together, at a monotonic time.
pub record Wired : Type 0 where
  pub socket_timeout : Option ℕ
  pub properties : AnycallProperties
  pub client : Client

unfoldable pub make_client : ℤ → Bool → Option ℤ → ℕ → Wired
unfolding client_socket_timeout
make_client timeout metrics_enabled default_max_queue_depth now = record {
  socket_timeout = client_socket_timeout timeout;
  properties = record { timeout = timeout; metrics_enabled = metrics_enabled };
  client = new_client timeout default_max_queue_depth now;
}

-- `AnyCall.server`
unfoldable pub make_server : Text → Option ℤ → Result Server
unfolding new_server
make_server server_id max_concurrency = new_server server_id max_concurrency

-- `supply` of annotation.py: the marks that it puts on a method, or a ValueError.
pub record Supply : Type 0 where
  pub supply_method_name : Text
  pub supply_max_concurrency : ℕ

unfoldable pub supply : Text → ℤ → Result Supply
supply method_name (pos zero) = err value_error
supply method_name (pos (suc n)) =
    ok (record { supply_method_name = method_name; supply_max_concurrency = suc n })
supply method_name (negsuc n) = err value_error
