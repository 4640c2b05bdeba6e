-- ===== src/Protocol/Called/Traces.antt =====
-- What is stored in the course of a call, from the push to the deletion of the response's queue.
use anycall.Prelude.{◌≡◌, ap, ◌∙◌, arith, false, none, some, [], ◌∷◌}
use anycall.Text.{Text, ◌==◌}
use anycall.Text.Equality.{eq_iff, eq_self, ne→false}
use anycall.Model.Response.{AnyCallResponse}
use anycall.Serialization.Wire.{response_text}
use anycall.Queues.{inflight_key, request_queue, response_queue}
use anycall.Queues.Keys.{Key, requests, responses, inflight, key_text, key_text-injective}
use anycall.Redis.{Redis, Data, update, front_of}
use anycall.Adapter.Acquire.{id_of, take_spec}
use anycall.Server.Answering.{answered_with}
use anycall.Client.Prompt.{published, collected}

keys_differ : (a b : Key) → (a ≡ b → ⊥) → (key_text a == key_text b) ≡ false
keys_differ a b h = ne→false _ _ (λ e. h (key_text-injective a b e))

pub response_ne_inflight : (uuid : Text) → (response_queue uuid == inflight_key) ≡ false
response_ne_inflight uuid = keys_differ (responses uuid) inflight (λ e. cc)

pub request_ne_response : (name uuid : Text) → (request_queue name == response_queue uuid) ≡ false
request_ne_response name uuid = keys_differ (requests name) (responses uuid) (λ e. cc)

-- The request is alone in its queue.
abbrev with_request : Text → Text → Data → Data
with_request queue item d = record d { list = update d.list queue (item ∷ d.list queue) }

-- The response is taken and its key deleted.
abbrev pub without_response : Text → Data → Data
without_response queue d = record {
  list = update (update d.list queue (front_of (d.list queue))) queue [];
  hash = update d.hash queue (λ _. none);
  zset = update d.zset queue (λ _. none);
}

module _ (R : Redis) where
  open R use {
    State, contents, lpush, rpop, contents-lpush, contents-publish, contents-rpop, contents-del,
  }

  pub contents-published :
      (name item : Text) (s : State)
      → contents (published R name item s) ≡ with_request (request_queue name) item (contents s)
  contents-published name item s =
      contents-publish _ _ _ ∙ contents-lpush (request_queue name) item s

  pub contents-collected :
      (uuid : Text) (s : State)
      → contents (collected R uuid s) ≡ without_response (response_queue uuid) (contents s)
  contents-collected uuid s =
      let queue = response_queue uuid in
      contents-del queue (rpop queue s).1
      ∙ ap
          (λ d. record {
            list = update d.list queue [];
            hash = update d.hash queue (λ _. none);
            zset = update d.zset queue (λ _. none);
          })
          (contents-rpop queue s)

module _ (R : Redis) (server_id name uuid item : Text) (answer : AnyCallResponse) (d : Data) where
  abbrev pub at_response : Data
  at_response = answered_with uuid answer uuid (
      take_spec R inflight_key server_id (request_queue name) item
        (with_request (request_queue name) item d))

  -- The response stands alone in its queue.
  pub response_there :
      d.list (response_queue uuid) ≡ []
      → (uuid == []) ≡ false
      → at_response.list (response_queue uuid) ≡ response_text answer ∷ []
  response_there free some_id =
      simp (some_id, eq_self (response_queue uuid), request_ne_response name uuid, free)

  -- In the end each list is what it was.
  pub lists_back :
      (k : Text)
      → d.list (request_queue name) ≡ []
      → d.list (response_queue uuid) ≡ []
      → (uuid == []) ≡ false
      → (without_response (response_queue uuid) at_response).list k ≡ d.list k
  lists_back k queue_free free some_id =
      simp (some_id, queue_free, eq_self (request_queue name))
        (ground (arith, eq_iff (response_queue uuid) k, eq_iff (request_queue name) k))

  -- So is each owner.
  pub owners_back :
      (id : Text)
      → id_of R item ≡ some uuid
      → d.hash inflight_key uuid ≡ none
      → (uuid == []) ≡ false
      → (without_response (response_queue uuid) at_response).hash inflight_key id
        ≡ d.hash inflight_key id
  owners_back id named unowned some_id =
      simp (some_id, named, response_ne_inflight uuid, eq_self inflight_key)
        (ground (arith, eq_iff uuid id))
