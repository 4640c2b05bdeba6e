-- ===== src/Queues/Keys.antt =====
-- The keys that the functions of queues.py name, by what they are for.
use anycall.Prelude.{ℕ, zero, suc, [], ◌∷◌, ◌≡◌, refl, ap, arith, drop-append, Bool-cases, inl, inr}
use anycall.Text.{Text, ◌==◌}
use anycall.Text.Equality.{append_cancel, eq→path, eq_self, ne→false}
use anycall.Queues.{
  request_queue_prefix, response_queue_prefix, inflight_key, heartbeat_key, request_queue,
  response_queue, method_name_from_queue,
}

-- The keys that the protocol uses, by what they are for.
pub data Key : Type 0 where
  requests : Text → Key
  responses : Text → Key
  inflight : Key
  heartbeats : Key

abbrev pub key_text : Key → Text
key_text (requests method_name) = request_queue method_name
key_text (responses request_id) = response_queue request_id
key_text inflight = inflight_key
key_text heartbeats = heartbeat_key

-- The character at a position, 0 past the end.
abbrev nth : ℕ → Text → ℕ
nth i [] = 0
nth zero (c ∷ s) = c
nth (suc i) (c ∷ s) = nth i s

-- The method name is recovered from the key of its request queue.
pub method_name-request_queue : (m : Text) → method_name_from_queue (request_queue m) ≡ m
unfolding method_name_from_queue request_queue
method_name-request_queue m = drop-append request_queue_prefix m

-- Two uses of a Redis key, for requests, responses, the in-flight hash or the heartbeats, have the
-- same key only if they are the same use of the same method or request.
pub key_text-injective : (a b : Key) → key_text a ≡ key_text b → a ≡ b
unfolding request_queue response_queue
key_text-injective (requests m) (requests n) h =
    ap requests (append_cancel request_queue_prefix m n h)
key_text-injective (responses m) (responses n) h =
    ap responses (append_cancel response_queue_prefix m n h)
key_text-injective inflight inflight h = refl
key_text-injective heartbeats heartbeats h = refl
key_text-injective (requests m) (responses n) h = absurd (omega (arith, ap (nth 10) h))
key_text-injective (requests m) inflight h = absurd (omega (arith, ap (nth 8) h))
key_text-injective (requests m) heartbeats h = absurd (omega (arith, ap (nth 8) h))
key_text-injective (responses m) (requests n) h = absurd (omega (arith, ap (nth 10) h))
key_text-injective (responses m) inflight h = absurd (omega (arith, ap (nth 8) h))
key_text-injective (responses m) heartbeats h = absurd (omega (arith, ap (nth 8) h))
key_text-injective inflight (requests n) h = absurd (omega (arith, ap (nth 8) h))
key_text-injective inflight (responses n) h = absurd (omega (arith, ap (nth 8) h))
key_text-injective inflight heartbeats h = absurd (omega (arith, ap (nth 8) h))
key_text-injective heartbeats (requests n) h = absurd (omega (arith, ap (nth 8) h))
key_text-injective heartbeats (responses n) h = absurd (omega (arith, ap (nth 8) h))
key_text-injective heartbeats inflight h = absurd (omega (arith, ap (nth 8) h))

response_same : (a b : Text) → response_queue a ≡ response_queue b → a ≡ b
unfolding response_queue
response_same a b h = append_cancel response_queue_prefix a b h

pub response_queue_eq : (a b : Text) → (response_queue a == response_queue b) ≡ (a == b)
response_queue_eq a b = elim (Bool-cases (a == b)) [
  | inl same ↦ rw (same, eq→path a b same, eq_self (response_queue b))
  | inr other ↦ rw other (ne→false _ _ (λ h. cc (other, eq_self b, response_same a b h)))
]
