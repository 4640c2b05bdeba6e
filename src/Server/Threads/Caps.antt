-- ===== src/Server/Threads/Caps.antt =====
-- The caps of server.py in every reachable state of its threads.
use anycall.Prelude.{
  eqb_self, ◌++◌, ℕ, suc, ◌≤◌, ◌<◌, ◌≡◌, refl, ap, ◌∙◌, arith, Option, some, List, [], ◌∷◌,
}
use anycall.Prelude.Int.{ℤ, pos}
use anycall.Text.{Text}
use anycall.Errors.{ok}
use anycall.Server.{Server, new_server, server_with}
use anycall.Server.Registration.{with_handler, without_handler}
use anycall.Server.Requests.{release_slot}
use anycall.Server.Threads.{
  Threads, Step, Reach, start, later, route, take_method, take_global, look, pass_by, submit,
  refuse, open_pool, shut_pool, begin, note_ids, give_global, give_method, register, unregister,
  flags, Worker, processing, leaving, polling, worker_holds, total, holders,
}
use anycall.Server.Threads.Invariant.{
  Inv, Inv-start, workers_split, acquire_slot_lem, given_back_lem,
}
use anycall.Server.Threads.Steps.{Step-Inv}

pub Reach-Inv : {id : Text} {cap : Option ℤ} {c : Threads} → Reach id cap c → Inv c
Reach-Inv {id} {cap} (start s h) = Inv-start id cap s h
Reach-Inv (later r step) = Step-Inv step (Reach-Inv r)

-- The server's cap is the limiter at place 0.
record HasCap (n : ℕ) (c : Threads) : Type 0 where
  pub cap : c.server.global_limiter ≡ some 0
  pub capacity : (c.server.limiters 0).capacity ≡ n
  pub above : 0 < c.server.next_limiter

HasCap-start :
    (id : Text) (n : ℕ) (s : Server)
    → new_server id (some (pos (suc n))) ≡ ok s
    → HasCap (suc n) (record { server = s; reader = polling; workers = []; refused = [] })
unfolding new_server
HasCap-start id n s h = rw (← same) (record { cap = refl; capacity = refl; above = omega arith })
  where
    same : server_with id (some 0) (suc n) ≡ s
    same = ground arith

Step-HasCap : {n : ℕ} {c d : Threads} → Step c d → HasCap n c → HasCap n d
unfolding release_slot with_handler without_handler
Step-HasCap (look name idle cap method) h = record {
  cap = h.cap;
  capacity = h.capacity;
  above = h.above;
}
Step-HasCap (pass_by name looked) h = record { cap = h.cap; capacity = h.capacity; above = h.above }
Step-HasCap (route name job idle limiter) h = record {
  cap = h.cap;
  capacity = h.capacity;
  above = h.above;
}
Step-HasCap {c = c} (take_method job limiters at got) h = record {
  cap = h.cap;
  capacity = (acquire_slot_lem job.method_limiter c.server limiters got 0).1 ∙ h.capacity;
  above = h.above;
}
Step-HasCap {c = c} (take_global job limiters at got) h = record {
  cap = h.cap;
  capacity = (acquire_slot_lem c.server.global_limiter c.server limiters got 0).1 ∙ h.capacity;
  above = h.above;
}
Step-HasCap (submit job at takes) h = record { cap = h.cap; capacity = h.capacity; above = h.above }
Step-HasCap (refuse job at shut) h = record { cap = h.cap; capacity = h.capacity; above = h.above }
Step-HasCap (open_pool workers) h = record { cap = h.cap; capacity = h.capacity; above = h.above }
Step-HasCap shut_pool h = record { cap = h.cap; capacity = h.capacity; above = h.above }
Step-HasCap (begin job jobs line) h = record { cap = h.cap; capacity = h.capacity; above = h.above }
Step-HasCap (note_ids ids) h = record { cap = h.cap; capacity = h.capacity; above = h.above }
Step-HasCap {c = c} (give_global job before after split) h = record {
  cap = h.cap;
  capacity = (given_back_lem c.server.global_limiter c.server.limiters 0).1 ∙ h.capacity;
  above = h.above;
}
Step-HasCap {c = c} (give_method job before after split) h = record {
  cap = h.cap;
  capacity = (given_back_lem job.method_limiter c.server.limiters 0).1 ∙ h.capacity;
  above = h.above;
}
Step-HasCap (register name m t) h = record {
  cap = h.cap;
  capacity = ground (arith, h.capacity, h.above);
  above = omega (arith, h.above);
}
Step-HasCap (unregister name) h = record {
  cap = ground (arith, h.cap);
  capacity = ground (arith, h.capacity);
  above = ground (arith, h.above);
}
Step-HasCap (flags running rung) h = record { cap = h.cap; capacity = h.capacity; above = h.above }

Reach-HasCap :
    {id : Text} {n : ℕ} {c : Threads} → Reach id (some (pos (suc n))) c → HasCap (suc n) c
Reach-HasCap {id} {n} (start s h) = HasCap-start id n s h
Reach-HasCap (later r step) = Step-HasCap step (Reach-HasCap r)

-- The workers that are in `_process_request`.
abbrev pub busy : List Worker → ℕ
busy [] = 0
busy (processing job ∷ ws) = suc (busy ws)
busy (leaving job ∷ ws) = busy ws

busy-le : (ws : List Worker) → busy ws ≤ total (worker_holds 0 (some 0)) ws
busy-le [] = omega arith
busy-le (processing job ∷ ws) = omega (arith, busy-le ws)
busy-le (leaving job ∷ ws) = omega (arith, busy-le ws)

-- In every state that the threads of a server reach, each limiter has counted exactly the slots
-- that the read loop, the jobs in line, the workers and the jobs that a shut executor refused hold,
-- and never more than its capacity.
pub slots_counted :
    {id : Text} {max_concurrency : Option ℤ} {c : Threads}
    → Reach id max_concurrency c
    → (place : ℕ)
    → ((c.server.limiters place).in_use ≡ holders place c)
      × (holders place c ≤ (c.server.limiters place).capacity)
slots_counted {c = c} r place =
    let inv = Reach-Inv r in (inv.counted place, omega (arith, inv.counted place, inv.capped place))

-- In every state that the threads of a server with a positive cap reach, in any order of their
-- steps, no more workers than the cap are processing a request.
pub cap_never_exceeded :
    {id : Text} {n : ℕ} {c : Threads} → Reach id (some (pos (suc n))) c → busy c.workers ≤ suc n
cap_never_exceeded {c = c} r =
    let has = Reach-HasCap r in
    let inv = Reach-Inv r in
    omega (
      arith,
      busy-le c.workers,
      ap (λ g. total (worker_holds 0 g) c.workers) has.cap,
      inv.counted 0,
      inv.capped 0,
      has.capacity,
    )

-- The limiter that a worker releases next, with the server's cap.
abbrev pub releases_next : Option ℕ → Worker → Option ℕ
releases_next cap (processing job) = cap
releases_next cap (leaving job) = job.method_limiter

holds_next :
    (cap : Option ℕ) (worker : Worker) (place : ℕ)
    → releases_next cap worker ≡ some place
    → 0 < worker_holds place cap worker
holds_next cap (processing job) place next = rw next (ground (arith, eqb_self place))
holds_next cap (leaving job) place next = rw next (ground (arith, eqb_self place))

-- In every state that the threads of a server reach, a limiter that a worker releases next has
-- counted at least one slot, so its count never falls below 0.
pub released_slot_is_held :
    {id : Text} {max_concurrency : Option ℤ} {c : Threads}
    → Reach id max_concurrency c
    → (worker : Worker) (before after : List Worker) (place : ℕ)
    → c.workers ≡ before ++ (worker ∷ after)
    → releases_next c.server.global_limiter worker ≡ some place
    → 0 < (c.server.limiters place).in_use
released_slot_is_held {c = c} r worker before after place split next =
    let inv = Reach-Inv r in
    omega (
      arith,
      inv.counted place,
      holds_next c.server.global_limiter worker place next,
      workers_split inv place before (worker ∷ after) split,
    )
