-- ===== src/Model/RoundTrip.antt =====
-- `from_dict` after `to_dict` of model.py.
use anycall.Prelude.{◌≡◌, refl, arith}
use anycall.Text.{◌==◌}
use anycall.Json.{get, put}
use anycall.Errors.{ok}
use anycall.Model.Dataclass.{optional}
use anycall.Model.Request
use anycall.Model.Request.{AnyCallRequest}
use anycall.Model.Response
use anycall.Model.Response.{AnyCallResponse}

-- A request that was turned to a dict is read back from it.
pub request_round_trip : (r : AnyCallRequest) → Request.from_dict (Request.to_dict r) ≡ ok r
unfolding Request.from_dict Request.to_dict Request.normal_key get put ◌==◌
request_round_trip r = refl

-- So is a response, whether or not it carries a lost server.
pub response_round_trip : (r : AnyCallResponse) → Response.from_dict (Response.to_dict r) ≡ ok r
unfolding Response.from_dict Response.to_dict Response.normal_key optional get put ◌==◌
response_round_trip r = ground arith
