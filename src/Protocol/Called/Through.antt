-- ===== src/Protocol/Called/Through.antt =====
-- One call, followed from the push to the deletion of its response's queue.
use anycall.Prelude.{ℕ, suc, ◌<◌, ◌≡◌, ap, ◌∙◌, false, none, some, [], ◌∷◌}
use anycall.Text.{Text, ◌==◌}
use anycall.Json.{Json, str}
use anycall.Json.Print.{dumps}
use anycall.Json.RoundTrip.{Writable}
use anycall.Errors.{Exn, ok}
use anycall.Model.Request
use anycall.Model.Request.{AnyCallRequest}
use anycall.Serialization.{Dacite, PyType, Object, serialize}
use anycall.Serialization.Wire.{request_text, response_text}
use anycall.Queues.{
  inflight_key, request_queue, response_queue, heartbeat_key, heartbeat_ttl_seconds,
}
use anycall.Prelude.Int.{sub_ℕ}
use anycall.Redis.{Redis}
use anycall.Adapter.{micros}
use anycall.Adapter.Acquire.{take_spec}
use anycall.Server.Answering.{answered_with}
use anycall.Server.Invoke.{run_method}
use anycall.Server.Requests.{or_error}
use anycall.Server.EndToEnd.{created_request-read}
use anycall.Server.Served.{handler_of, round_answers}
use anycall.Client.{Client}
use anycall.Client.Call.{call_impl}
use anycall.Client.Decode.{read_response}
use anycall.Client.Prompt.{published, prompt_call}
use anycall.Text.Equality.{eq_self}
use anycall.Protocol.Called.Traces.{
  without_response, at_response, response_there, lists_back, owners_back, contents-published,
  contents-collected,
}
use anycall.Protocol.Called.Setting.{Served, request_of, answer_of, IsUnused, serve, meets, id_read}

module _ (R : Redis) (dacite : Dacite) (describe : Exn → Text) (format : Json → Text) where
  open R use {State, time, zcount, contents, cjson_decode}

  module _ (c : Served) (s : State) (unused : IsUnused R c s) (some_id : (c.uuid == []) ≡ false)
      (decoded : cjson_decode (request_text (request_of c)) ≡ some (Request.to_dict (request_of c)))
      (places : 0 < c.member.supply_max_concurrency) (named : Writable (str c.uuid))
      (for_method : Writable (str c.name)) (sent : Writable c.argument)
      (runs : run_method dacite (handler_of c.member c.parameter_type) (request_of c)
        ≡ ok (answer_of c)) where
    abbrev arrived : State
    arrived = serve R dacite describe format c (published R c.name (request_text (request_of c)) s)

    arrived_contents :
        contents arrived
        ≡ at_response R c.server_id c.name c.uuid
            (request_text (request_of c))
            (answer_of c)
            (contents s)
    unfolding Request.create or_error
    arrived_contents =
        let item = request_text (request_of c) in
        let pushed = contents-published R c.name item s in
        let alone_there : (contents (published R c.name item s)).list (request_queue c.name)
            ≡ item ∷ [] =
          rw pushed (simp (eq_self (request_queue c.name), unused.no_requests)) in
        round_answers dacite describe format R c.server_id c.name item c.uuid c.member
          c.parameter_type 0 0 (str c.name) (str (dumps c.argument)) (published R c.name item s)
          places alone_there (id_read R dacite describe format c decoded)
          (created_request-read dacite describe format R c.uuid c.name c.argument named for_method
            sent)
        ∙ ap
            (λ x. answered_with c.uuid (or_error describe (str c.uuid) x) c.uuid (
              take_spec R inflight_key c.server_id (request_queue c.name) item
                (contents (published R c.name item s))))
            runs
        ∙ ap
            (λ d.
              answered_with c.uuid (answer_of c) c.uuid
                (take_spec R inflight_key c.server_id (request_queue c.name) item d))
            pushed

    -- A call with the argument's text comes back with what its response reads as, and leaves the
    -- lists and the owners as they were.
    pub call_through :
        (argument value : Object) (want : PyType) (rounds servers clock elapsed : ℕ) (self : Client)
        → serialize argument ≡ ok (dumps c.argument)
        → zcount heartbeat_key (sub_ℕ (time s) (micros heartbeat_ttl_seconds)) s ≡ servers
        → 0 < servers
        → self.default_max_queue_depth ≡ none
        → read_response dacite describe format c.name c.uuid want
            (some (response_text (answer_of c)))
          ≡ ok value
        → let (r, w) =
            call_impl R dacite describe format
              (suc rounds)
              c.name
              argument
              want
              none
              c.uuid
              (meets R dacite describe format c s clock elapsed self) in
          (r ≡ ok value)
          × ((k : Text) → (contents w.redis).list k ≡ (contents s).list k)
          × ((id : Text)
              → (contents w.redis).hash inflight_key id ≡ (contents s).hash inflight_key id)
    call_through argument value want rounds servers clock elapsed self text alive some_alive
          unlimited reads =
        let item = request_text (request_of c) in
        let there : (contents arrived).list (response_queue c.uuid)
            ≡ response_text (answer_of c) ∷ [] =
          rw arrived_contents (
            response_there R c.server_id c.name c.uuid item (answer_of c) (contents s)
              unused.no_response some_id) in
        let (returned, left) =
          prompt_call R dacite describe format rounds servers clock elapsed elapsed elapsed elapsed
            c.name c.uuid (dumps c.argument) (response_text (answer_of c)) argument value want
            (serve R dacite describe format c) s self text alive some_alive unlimited there reads in
        let stored =
          ap contents left
          ∙ contents-collected R c.uuid arrived
          ∙ ap (without_response (response_queue c.uuid)) arrived_contents in
        (
          returned,
          λ k.
              ap (λ d. d.list k) stored
              ∙ lists_back R c.server_id c.name c.uuid item (answer_of c) (contents s) k
                  unused.no_requests unused.no_response some_id,
          λ id.
              ap (λ d. d.hash inflight_key id) stored
              ∙ owners_back R c.server_id c.name c.uuid item (answer_of c) (contents s) id
                  (id_read R dacite describe format c decoded) unused.no_owner some_id,
        )
