-- ===== src/Server/Answering.antt =====
-- What `_process_request` of server.py leaves in Redis.
use anycall.Prelude.{ℕ, ◌≡◌, refl, ap, subst, ◌∙◌, true, false, List, [], ◌∷◌}
use anycall.Text.{Text, ◌==◌}
use anycall.Text.Equality.{eq_self}
use anycall.Model.Dataclass.{is_set}
use anycall.Json.{Json, str, null}
use anycall.Json.Print.{dumps}
use anycall.Errors
use anycall.Errors.{Exn, Result, ok, err, ◌>>=◌}
use anycall.Model.Request.{AnyCallRequest}
use anycall.Model.Response
use anycall.Model.Response.{AnyCallResponse}
use anycall.Serialization.{Dacite, Object, serialize, deserialize}
use anycall.Serialization.Wire.{response_text}
use anycall.Queues.{inflight_key, response_queue, response_ttl_seconds}
use anycall.Redis.{Redis, Data}
use anycall.Exec.{alone, pipeline, run_all}
use anycall.Adapter.{respond, respond_commands}
use anycall.Adapter.Respond.{pushed, released, respond_done}
use anycall.Server.{MethodHandler, Server}
use anycall.Server.Invoke.{read_request, run_method}
use anycall.Server.Requests.{
  show_id, or_error, send, process_read, process_request, hashable, add, discard,
}

-- What an answer leaves in Redis.
abbrev pub answered_with : Text → AnyCallResponse → Text → Data → Data
answered_with queue r acquired_id d =
    released inflight_key acquired_id (pushed (response_queue queue) (response_text r) d)

-- An id that is not in the set is added and taken away again.
abbrev pub Absent : Json → List Json → Type 0
Absent v [] = Unit {0}
Absent v (x ∷ xs) = ((dumps x == dumps v) ≡ false) × Absent v xs

discard-add :
    (v : Json) (xs : List Json)
    → (dumps v == dumps v) ≡ true
    → Absent v xs
    → discard v (add v xs) ≡ xs
unfolding discard add
discard-add v [] same h = rw same
discard-add v (x ∷ xs) same h = simp (h.0) (ap (λ ys. x ∷ ys) (discard-add v xs same h.1))

module _ (dacite : Dacite) (describe : Exn → Text) (format : Json → Text) (R : Redis) where
  open R use {State, contents}

  send_lem :
      (r : AnyCallResponse) (acquired_id : Text) (s : State) (clock : ℕ) (self : Server)
      → (s' : State) × (send format R r acquired_id (alone s clock self)
          ≡ (ok tt, alone s' clock self))
        × (contents s' ≡ answered_with (show_id format r.request_id) r acquired_id (contents s))
  unfolding send serialize respond pipeline
  send_lem r acquired_id s clock self = (
    run_all
        (respond_commands R (response_queue (show_id format r.request_id)) (response_text r)
          response_ttl_seconds inflight_key acquired_id)
        s,
    refl,
    (respond_done R (response_queue (show_id format r.request_id)) (response_text r)
        response_ttl_seconds inflight_key acquired_id s).0,
  )

  -- The answer to a request with a text for an id is for that id.
  bind_id :
      {A : Type 0} (id : Text) (x : Result A) (k : A → Result AnyCallResponse)
      → ((a : A) → (or_error describe (str id) (k a)).request_id ≡ str id)
      → (or_error describe (str id) (Errors.◌>>=◌ x k)).request_id ≡ str id
  unfolding or_error Response.error
  bind_id id (ok a) k h = h a
  bind_id id (err e) k h = refl

  answer_id :
      (handler : MethodHandler) (id : Text) (m p : Json)
      → let r : AnyCallRequest = record { request_id = str id; method_name = m; payload = p } in
        (or_error describe (str id) (run_method dacite handler r)).request_id ≡ str id
  unfolding or_error run_method Response.success
  answer_id handler id m p = bind_id id (deserialize dacite p handler.parameter_type) _ (λ param.
      bind_id id (handler.method _ param) _
        (λ result. bind_id id (serialize result) _ (λ text. refl)))

  -- What a request leaves in Redis, by the response that the server computes.
  pub request_stored :
      (handler : MethodHandler) (request_json acquired_id id : Text) (m p : Json) (s : State)
      (clock : ℕ) (self : Server)
      → let r : AnyCallRequest = record { request_id = str id; method_name = m; payload = p } in
        read_request dacite request_json ≡ ok r
        → Absent (str id) self.in_flight_request_ids
        → let (result, w) =
            process_request dacite describe format R handler request_json acquired_id
              (alone s clock self) in
          (result ≡ ok tt)
          × (w.self.in_flight_request_ids ≡ self.in_flight_request_ids)
          × (contents w.redis
              ≡ answered_with id
                  (or_error describe (str id) (run_method dacite handler r))
                  acquired_id
                  (contents s))
  unfolding process_request process_read hashable is_set
  request_stored handler request_json acquired_id id m p s clock self reads absent =
      let r : AnyCallRequest = record { request_id = str id; method_name = m; payload = p } in
      let answer = or_error describe (str id) (run_method dacite handler r) in
      let self' : Server = record self {
        in_flight_request_ids = discard (str id) (add (str id) self.in_flight_request_ids);
      } in
      let (s', run, stored) = send_lem answer acquired_id s clock self' in
      rw (reads, process_request, run)
        (
          refl,
          discard-add (str id) self.in_flight_request_ids (eq_self (dumps (str id))) absent,
          stored
              ∙ ap (λ queue. answered_with queue answer acquired_id (contents s))
                  (ap (show_id format) (answer_id handler id m p)),
        )

  -- What comes of a request with a text for an id: its payload is built as the type of the method's
  -- parameter, the method is called with it, and what it returns is written as JSON.
  abbrev pub outcome : MethodHandler → Text → Json → Json → Result Text
  outcome handler id m p = do
    param ← deserialize dacite p handler.parameter_type
    result ← handler.method (record { request_id = str id; method_name = m }) param
    serialize result

  -- The fields of the response to it.
  abbrev pub told_caller : Text → Result Text → AnyCallResponse
  told_caller id (ok text) = record {
    request_id = str id;
    payload = str text;
    error_msg = null;
    lost_server = null;
  }
  told_caller id (err e) = record {
    request_id = str id;
    payload = null;
    error_msg = str (describe e);
    lost_server = null;
  }

  written :
      (id : Text) (x : Result Text)
      → or_error describe (str id) (Errors.◌>>=◌ x (λ text. ok (Response.success (str id) text)))
        ≡ told_caller id x
  unfolding or_error is_set Response.success Response.error
  written id (ok text) = refl
  written id (err e) = refl

  returned :
      (id : Text) (x : Result Object)
      → or_error describe (str id) (
          Errors.◌>>=◌ x (λ result.
            Errors.◌>>=◌ (serialize result) (λ text. ok (Response.success (str id) text))))
        ≡ told_caller id (Errors.◌>>=◌ x serialize)
  unfolding or_error is_set Response.error
  returned id (ok result) = written id (serialize result)
  returned id (err e) = refl

  told_caller_lem :
      (handler : MethodHandler) (id : Text) (m p : Json)
      → let r : AnyCallRequest = record { request_id = str id; method_name = m; payload = p } in
        or_error describe (str id) (run_method dacite handler r)
        ≡ told_caller id (outcome handler id m p)
  unfolding run_method or_error is_set Response.error
  told_caller_lem handler id m p = go (deserialize dacite p handler.parameter_type)
    where
      go :
          (x : Result Object)
          → or_error describe (str id) (
              Errors.◌>>=◌ x (λ param.
                Errors.◌>>=◌
                  (handler.method (record { request_id = str id; method_name = m }) param)
                  (λ result.
                    Errors.◌>>=◌ (serialize result) (λ text. ok (Response.success (str id) text)))))
            ≡ told_caller id (
                Errors.◌>>=◌ x (λ param.
                  Errors.◌>>=◌
                    (handler.method (record { request_id = str id; method_name = m }) param)
                    serialize))
      go (ok param) = returned id (handler.method _ param)
      go (err e) = refl

  -- Over a working connection and with no interference, a request that reads with a text for an id,
  -- absent from the set of ids, is answered on the queue of its id: if its payload builds as the
  -- type of the method's parameter, the method returns and its result can be written as JSON, with
  -- this JSON text as the payload and no error; if one of these steps raises, with the text of the
  -- exception as the error and no payload. The response names no lost server; the in-flight entry
  -- is dropped and the server's set of ids is as before.
  pub request_answered :
      (handler : MethodHandler) (request_json acquired_id id : Text) (m p : Json) (s : State)
      (clock : ℕ) (self : Server)
      → let r : AnyCallRequest = record { request_id = str id; method_name = m; payload = p } in
        read_request dacite request_json ≡ ok r
        → Absent (str id) self.in_flight_request_ids
        → let (result, w) =
            process_request dacite describe format R handler request_json acquired_id
              (alone s clock self) in
          (result ≡ ok tt)
          × (w.self.in_flight_request_ids ≡ self.in_flight_request_ids)
          × (contents w.redis
              ≡ answered_with id (told_caller id (outcome handler id m p)) acquired_id (contents s))
  request_answered handler request_json acquired_id id m p s clock self reads absent =
      subst
        (λ answer.
          let (result, w) =
            process_request dacite describe format R handler request_json acquired_id
              (alone s clock self) in
          (result ≡ ok tt)
          × (w.self.in_flight_request_ids ≡ self.in_flight_request_ids)
          × (contents w.redis ≡ answered_with id answer acquired_id (contents s)))
        (told_caller_lem handler id m p)
        (request_stored handler request_json acquired_id id m p s clock self reads absent)
