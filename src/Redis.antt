-- ===== src/Redis.antt =====
-- Redis, as the commands that redis_adapter.py sends. The server is no part of the repository: it
-- is a parameter, and the laws state the documented effect of each command on what is stored.
pub mod Memory
use anycall.Prelude.{
  ℕ, ◌≡◌, ◌≢◌, Bool, true, false, Option, none, some, List, [], ◌∷◌, ◌++◌, length, if◌then◌else◌,
  is_some,
}
use anycall.Prelude.Int.{ℤ, at_least, at_most}
use anycall.Text.{Text, ◌==◌}
use anycall.Assoc.{lookup, Distinct}
use anycall.Json.{Json}

-- What is stored: lists from the head, hashes, and sorted sets with scores in microseconds.
pub record Data : Type 0 where
  pub list : Text → List Text
  pub hash : Text → Text → Option Text
  pub zset : Text → Text → Option ℕ

abbrev pub update {ℓ} : {A : Type ℓ} → (Text → A) → Text → A → Text → A
update f k v j = if k == j then v else f j

-- The tail element, if any, and the elements before it.
abbrev pub last_of : List Text → Option Text
last_of [] = none
last_of (x ∷ []) = some x
last_of (x ∷ y ∷ xs) = last_of (y ∷ xs)

abbrev pub front_of : List Text → List Text
front_of [] = []
front_of (x ∷ []) = []
front_of (x ∷ y ∷ xs) = x ∷ front_of (y ∷ xs)

-- `field` of a sorted set's member, if its score passes the test
abbrev pub passing : (ℕ → Bool) → Option ℕ → Bool
passing test none = false
passing test (some score) = test score

abbrev pub drop_passing : (ℕ → Bool) → Option ℕ → Option ℕ
drop_passing test none = none
drop_passing test (some score) = if test score then none else some score

abbrev pub contains : Text → List Text → Bool
contains m [] = false
contains m (x ∷ xs) = if x == m then true else contains m xs

pub record Redis : Type 1 where
  pub State : Type 0
  pub time : State → ℕ
  pub lpush : Text → Text → State → State
  pub rpop : Text → State → Option Text × State
  pub llen : Text → State → ℕ
  pub del : Text → State → ℕ × State
  pub expire : Text → ℕ → State → State
  pub publish : Text → Text → State → State
  pub hset : Text → Text → Text → State → State
  pub hdel : Text → Text → State → ℕ × State
  pub hgetall : Text → State → List (Text × Text)
  pub zadd : Text → ℕ → Text → State → ℕ × State
  pub zremrangebyscore : Text → ℤ → State → State
  pub zrange : Text → State → List Text
  pub zcount : Text → ℤ → State → ℕ
  pub zrangebyscore : Text → ℤ → State → List Text
  -- `cjson.decode` of a script, `none` for its error
  pub cjson_decode : Text → Option Json
  pub ttl : State → Text → Option ℕ
  pub contents : State → Data
  pub contents-lpush :
      (k v : Text) (s : State)
      → contents (lpush k v s)
        ≡ record (contents s) { list = update (contents s).list k (v ∷ (contents s).list k) }
  pub rpop_value : (k : Text) (s : State) → (rpop k s).0 ≡ last_of ((contents s).list k)
  pub contents-rpop :
      (k : Text) (s : State)
      → contents (rpop k s).1
        ≡ record (contents s) { list = update (contents s).list k (front_of ((contents s).list k)) }
  pub llen_value : (k : Text) (s : State) → llen k s ≡ length ((contents s).list k)
  pub contents-del :
      (k : Text) (s : State)
      → contents (del k s).1 ≡ record {
        list = update (contents s).list k [];
        hash = update (contents s).hash k (λ _. none);
        zset = update (contents s).zset k (λ _. none);
      }
  pub contents-expire : (k : Text) (n : ℕ) (s : State) → contents (expire k n s) ≡ contents s
  pub contents-publish : (k v : Text) (s : State) → contents (publish k v s) ≡ contents s
  pub contents-hset :
      (k f v : Text) (s : State)
      → contents (hset k f v s) ≡ record (contents s) {
        hash = update (contents s).hash k (update ((contents s).hash k) f (some v));
      }
  pub hdel_value :
      (k f : Text) (s : State) → (hdel k f s).0 ≡ (if is_some ((contents s).hash k f) then 1 else 0)
  pub contents-hdel :
      (k f : Text) (s : State)
      → contents (hdel k f s).1 ≡ record (contents s) {
        hash = update (contents s).hash k (update ((contents s).hash k) f none);
      }
  pub hgetall_value : (k f : Text) (s : State) → lookup f (hgetall k s) ≡ (contents s).hash k f
  pub hgetall_distinct : (k : Text) (s : State) → Distinct (hgetall k s)
  pub zadd_value :
      (k : Text) (score : ℕ) (m : Text) (s : State)
      → (zadd k score m s).0 ≡ (if is_some ((contents s).zset k m) then 0 else 1)
  pub contents-zadd :
      (k : Text) (score : ℕ) (m : Text) (s : State)
      → contents (zadd k score m s).1 ≡ record (contents s) {
        zset = update (contents s).zset k (update ((contents s).zset k) m (some score));
      }
  -- from -inf up to the bound
  pub contents-zremrangebyscore :
      (k : Text) (bound : ℤ) (s : State)
      → contents (zremrangebyscore k bound s) ≡ record (contents s) {
        zset =
            update (contents s).zset k (λ m. drop_passing (at_most bound) ((contents s).zset k m));
      }
  -- the whole set
  pub zrange_value :
      (k m : Text) (s : State) → contains m (zrange k s) ≡ is_some ((contents s).zset k m)
  -- from the bound up to +inf
  pub zrangebyscore_value :
      (k m : Text) (bound : ℤ) (s : State)
      → contains m (zrangebyscore k bound s) ≡ passing (at_least bound) ((contents s).zset k m)
  pub zcount_value :
      (k : Text) (bound : ℤ) (s : State) → zcount k bound s ≡ length (zrangebyscore k bound s)
  -- an expiry is set on a key that exists, and stays when the value changes
  pub ttl-expire :
      (k : Text) (n : ℕ) (s : State) → (contents s).list k ≢ [] → ttl (expire k n s) k ≡ some n
  pub ttl-hdel : (h f k : Text) (s : State) → (h == k) ≡ false → ttl (hdel h f s).1 k ≡ ttl s k
