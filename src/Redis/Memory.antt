-- ===== src/Redis/Memory.antt =====
-- A Redis in memory: a value of the interface, at which theorems about every Redis can be used.
use anycall.Prelude.{
  ℕ, ◌≡◌, refl, ap, ap₂, fun_ext, Bool, not, Option, none, some, List, [], ◌∷◌, arith, length,
  if◌then◌else◌, is_some,
}
use anycall.Prelude.Int.{at_least, at_most}
use anycall.Text.{Text}
use anycall.Text.Equality.{eq_iff, eq_self}
use anycall.Assoc.{
  canonical, lookup-canonical, canonical-Distinct, lookup, insert, remove, lookup-insert,
  lookup-remove,
}
use anycall.Json.Parse.{loads}
use anycall.Redis.{Redis, Data, update, last_of, front_of, passing, drop_passing, contains}

pub record Memory : Type 0 where
  pub now : ℕ
  pub lists : Text → List Text
  pub hashes : Text → List (Text × Text)
  pub zsets : Text → List (Text × ℕ)
  pub ttls : Text → Option ℕ

abbrev pub empty_memory : ℕ → Memory
empty_memory now = record {
  now = now;
  lists = λ _. [];
  hashes = λ _. [];
  zsets = λ _. [];
  ttls = λ _. none;
}

module _ {V : Type 0} where
  -- The entries whose key passes the test.
  abbrev pub keep : (Text → Bool) → List (Text × V) → List (Text × V)
  keep p [] = []
  keep p ((k, v) ∷ m) = let rest = keep p m in if p k then (k, v) ∷ rest else rest

  abbrev pub keys : List (Text × V) → List Text
  keys [] = []
  keys ((k, v) ∷ m) = k ∷ keys m

  lookup-keep :
      (p : Text → Bool) (k : Text) (m : List (Text × V))
      → lookup k (keep p m) ≡ (if p k then lookup k m else none)
  unfolding lookup
  lookup-keep p k [] = ground arith
  lookup-keep p k ((j, v) ∷ m) = ground (arith, eq_iff j k, lookup-keep p k m)

  pub contains-keys : (k : Text) (m : List (Text × V)) → contains k (keys m) ≡ is_some (lookup k m)
  unfolding lookup
  contains-keys k [] = refl
  contains-keys k ((j, v) ∷ m) = ground (arith, contains-keys k m)

abbrev pub stored : Memory → Data
stored s = record {
  list = s.lists;
  hash = λ k f. lookup f (s.hashes k);
  zset = λ k m. lookup m (s.zsets k);
}

abbrev pub data_of :
    (Text → List Text) → (Text → Text → Option Text) → (Text → Text → Option ℕ) → Data
data_of l h z = record { list = l; hash = h; zset = z }

abbrev pub without_passing : (ℕ → Bool) → List (Text × ℕ) → List (Text × ℕ)
without_passing test z = keep (λ m. not (passing test (lookup m z))) z

abbrev pub with_passing : (ℕ → Bool) → List (Text × ℕ) → List (Text × ℕ)
with_passing test z = keep (λ m. passing test (lookup m z)) z

pub lookup-without_passing :
    (test : ℕ → Bool) (m : Text) (z : List (Text × ℕ))
    → lookup m (without_passing test z) ≡ drop_passing test (lookup m z)
lookup-without_passing test m z =
    ground (arith, lookup-keep (λ k. not (passing test (lookup k z))) m z)

pub contains-with_passing :
    (test : ℕ → Bool) (m : Text) (z : List (Text × ℕ))
    → contains m (keys (with_passing test z)) ≡ passing test (lookup m z)
contains-with_passing test m z =
    ground (
      arith,
      contains-keys m (with_passing test z),
      lookup-keep (λ k. passing test (lookup k z)) m z,
    )

-- A map changed at one key, seen through `lookup`.
pub lookup-update :
    {V : Type 0} (maps : Text → List (Text × V)) (k : Text) (new : List (Text × V))
    (f : Text → Option V)
    → ((j : Text) → lookup j new ≡ f j)
    → ◌≡◌ {A = Text → Text → Option V}
        (λ i j. lookup j (update maps k new i))
        (update (λ i j. lookup j (maps i)) k f)
lookup-update maps k new f h = fun_ext λ i. fun_ext λ j. ground (arith, h j)

-- `HDEL` of one field: how many were removed
abbrev hdel_count : {V : Type 0} → Option V → ℕ
hdel_count none = 0
hdel_count (some v) = 1

pub contents-del_lem :
    (k : Text) (s : Memory)
    → data_of
        (update s.lists k [])
        (λ i j. lookup j (update s.hashes k [] i))
        (λ i j. lookup j (update s.zsets k [] i))
      ≡ data_of
          (update s.lists k [])
          (update (stored s).hash k (λ _. none))
          (update (stored s).zset k (λ _. none))
contents-del_lem k s =
    ap₂ (data_of (update s.lists k []))
      (lookup-update s.hashes k [] (λ _. none) (λ j. unfold lookup in refl))
      (lookup-update s.zsets k [] (λ _. none) (λ j. unfold lookup in refl))

pub ttl_self : (k : Text) (n : ℕ) (s : Memory) → update s.ttls k (some n) k ≡ some n
ttl_self k n s = rw (eq_self k)

abbrev pub memory : Redis
memory = record {
  State = Memory;
  time = λ s. s.now;
  lpush = λ k v s. record s { lists = update s.lists k (v ∷ s.lists k) };
  rpop = λ k s. (last_of (s.lists k), record s { lists = update s.lists k (front_of (s.lists k)) });
  llen = λ k s. length (s.lists k);
  del = λ k s. (
    1,
    record s {
      lists = update s.lists k [];
      hashes = update s.hashes k [];
      zsets = update s.zsets k [];
    },
  );
  expire = λ k n s. record s { ttls = update s.ttls k (some n) };
  publish = λ k v s. s;
  hset = λ k f v s. record s { hashes = update s.hashes k (insert f v (s.hashes k)) };
  hdel = λ k f s. (
    (if is_some (lookup f (s.hashes k)) then 1 else 0),
    record s { hashes = update s.hashes k (remove f (s.hashes k)) },
  );
  hgetall = λ k s. canonical (s.hashes k);
  zadd = λ k score m s. (
    (if is_some (lookup m (s.zsets k)) then 0 else 1),
    record s { zsets = update s.zsets k (insert m score (s.zsets k)) },
  );
  zremrangebyscore = λ k bound s. record s {
    zsets = update s.zsets k (without_passing (at_most bound) (s.zsets k));
  };
  zrange = λ k s. keys (s.zsets k);
  zcount = λ k bound s. length (keys (with_passing (at_least bound) (s.zsets k)));
  zrangebyscore = λ k bound s. keys (with_passing (at_least bound) (s.zsets k));
  cjson_decode = loads;
  ttl = λ s. s.ttls;
  contents = stored;
  contents-lpush = λ k v s. refl;
  rpop_value = λ k s. refl;
  contents-rpop = λ k s. refl;
  llen_value = λ k s. refl;
  contents-del = λ k s. contents-del_lem k s;
  contents-expire = λ k n s. refl;
  contents-publish = λ k v s. refl;
  contents-hset = λ k f v s.
      ap (λ h. data_of s.lists h (stored s).zset)
        (lookup-update s.hashes k _ _ (λ j. lookup-insert f j v (s.hashes k)));
  hdel_value = λ k f s. refl;
  contents-hdel = λ k f s.
      ap (λ h. data_of s.lists h (stored s).zset)
        (lookup-update s.hashes k _ _ (λ j. lookup-remove f j (s.hashes k)));
  hgetall_value = λ k f s. lookup-canonical f (s.hashes k);
  hgetall_distinct = λ k s. canonical-Distinct (s.hashes k);
  zadd_value = λ k score m s. refl;
  contents-zadd = λ k score m s.
      ap (data_of s.lists (stored s).hash)
        (lookup-update s.zsets k _ _ (λ j. lookup-insert m j score (s.zsets k)));
  contents-zremrangebyscore = λ k bound s.
      ap (data_of s.lists (stored s).hash)
        (lookup-update s.zsets k _ _ (λ j. lookup-without_passing (at_most bound) j (s.zsets k)));
  zrange_value = λ k m s. contains-keys m (s.zsets k);
  zrangebyscore_value = λ k m bound s. contains-with_passing (at_least bound) m (s.zsets k);
  zcount_value = λ k bound s. refl;
  ttl-expire = λ k n s h. ttl_self k n s;
  ttl-hdel = λ h f k s e. refl;
}
