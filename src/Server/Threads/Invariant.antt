-- ===== src/Server/Threads/Invariant.antt =====
-- What every step of the threads of server.py keeps: a limiter counts the slots that are held.
use anycall.Prelude.{
  ℕ, zero, suc, ◌+◌, ◌-◌, ◌≤◌, ◌<◌, ◌≡◌, refl, ap, ◌∙◌, arith, Bool, true, false, Option, none,
  some, List, [], ◌∷◌, ◌++◌, eqb, eqb→eq, is_some, if◌then◌else◌, inl, inr, Bool-cases,
}
use anycall.Prelude.Int.{ℤ, pos, negsuc}
use anycall.Text.{Text, ◌==◌}
use anycall.Assoc.{lookup, lookup-insert, lookup-remove}
use anycall.Errors.{ok}
use anycall.Server.{Job, Server, new_server, server_with, ring}
use anycall.Server.Limiter.{ConcurrencyLimiter, available, acquire, release}
use anycall.Serialization.{PyType}
use anycall.Server.Registration.{Member, with_handler, without_handler}
use anycall.Server.Loops.{acquire_slot}
use anycall.Server.Requests.{release_slot, given_back}
use anycall.Server.Threads.{
  Threads, Reader, Worker, processing, leaving, polling, looking, at_method, at_global, at_submit,
  holds, worker_holds, total, holders,
}

-- A limiter that is named stands in the store.
abbrev Placed : Option ℕ → ℕ → Type 0
Placed none next = Unit {0}
Placed (some place) next = place < next

abbrev pub ReaderPlaced : Reader → ℕ → Type 0
ReaderPlaced (at_method job) next = Placed job.method_limiter next
ReaderPlaced (at_global job) next = Unit {0}
ReaderPlaced (at_submit job) next = Unit {0}
ReaderPlaced polling next = Unit {0}
ReaderPlaced (looking name) next = Unit {0}

pub record Inv (c : Threads) : Type 0 where
  pub counted : (place : ℕ) → (c.server.limiters place).in_use ≡ holders place c
  pub capped : (place : ℕ) → (c.server.limiters place).in_use ≤ (c.server.limiters place).capacity
  pub fresh : (place : ℕ) → c.server.next_limiter ≤ place → holders place c ≡ 0
  pub cap_placed : Placed c.server.global_limiter c.server.next_limiter
  pub reader_placed : ReaderPlaced c.reader c.server.next_limiter
  pub placed : (name : Text) → Placed (lookup name c.server.method_limiters) c.server.next_limiter

pub total-append :
    {A : Type 0} (w : A → ℕ) (xs ys : List A) → total w (xs ++ ys) ≡ total w xs + total w ys
total-append w [] ys = omega arith
total-append w (x ∷ xs) ys = omega (arith, total-append w xs ys)

-- A slot is taken only where one is free.
pub acquire_slot_lem :
    (o : Option ℕ) (s : Server) (limiters : ℕ → ConcurrencyLimiter)
    → acquire_slot o s ≡ some (record s { limiters = limiters })
    → (place : ℕ)
    → ((limiters place).in_use ≡ (s.limiters place).in_use + holds place o)
      × ((limiters place).capacity ≡ (s.limiters place).capacity)
      × ((s.limiters place).in_use ≤ (s.limiters place).capacity
          → (limiters place).in_use ≤ (limiters place).capacity)
unfolding acquire_slot acquire available
acquire_slot_lem none s limiters h place = ground arith
acquire_slot_lem (some p) s limiters h place = elim (Bool-cases (eqb place p)) [
  | inl here ↦ ground (arith, eqb→eq place p)
  | inr elsewhere ↦ ground arith
]

pub given_back_lem :
    (o : Option ℕ) (limiters : ℕ → ConcurrencyLimiter) (place : ℕ)
    → ((given_back o limiters place).in_use ≡ (limiters place).in_use - holds place o)
      × ((given_back o limiters place).capacity ≡ (limiters place).capacity)
unfolding given_back release
given_back_lem none limiters place = (omega arith, refl)
given_back_lem (some p) limiters place = ground (arith, eqb→eq place p)

pub holds-Placed :
    (o : Option ℕ) (next place : ℕ) → Placed o next → next ≤ place → holds place o ≡ 0
holds-Placed none next place h le = refl
holds-Placed (some p) next place h le = ground arith

Placed-weaken : (o : Option ℕ) (next : ℕ) → Placed o next → Placed o (next + 1)
Placed-weaken none next h = tt
Placed-weaken (some p) next h = omega arith

Inv-server_with :
    (id : Text) (cap : Option ℕ) (capacity : ℕ)
    → Placed cap 1
    → Inv (record {
      server = server_with id cap capacity;
      reader = polling;
      workers = [];
      refused = [];
    })
unfolding lookup
Inv-server_with id cap capacity h = record {
  counted = λ place. refl;
  capped = λ place. omega arith;
  fresh = λ place le. refl;
  cap_placed = h;
  reader_placed = tt;
  placed = λ name. tt;
}

pub Inv-start :
    (id : Text) (max_concurrency : Option ℤ) (s : Server)
    → new_server id max_concurrency ≡ ok s
    → Inv (record { server = s; reader = polling; workers = []; refused = [] })
unfolding new_server
Inv-start id none s h = rw (← same) (Inv-server_with id none 0 tt)
  where
    same : server_with id none 0 ≡ s
    same = ground arith
Inv-start id (some (pos zero)) s h = cc
Inv-start id (some (pos (suc n))) s h =
    rw (← same) (Inv-server_with id (some 0) (suc n) (omega arith))
  where
    same : server_with id (some 0) (suc n) ≡ s
    same = ground arith
Inv-start id (some (negsuc n)) s h = cc

ReaderPlaced-weaken : (r : Reader) (next : ℕ) → ReaderPlaced r next → ReaderPlaced r (next + 1)
ReaderPlaced-weaken polling next h = tt
ReaderPlaced-weaken (looking name) next h = tt
ReaderPlaced-weaken (at_method job) next h = Placed-weaken job.method_limiter next h
ReaderPlaced-weaken (at_global job) next h = tt
ReaderPlaced-weaken (at_submit job) next h = tt

Placed-if :
    (b : Bool) (p o : Option ℕ) (next : ℕ)
    → Placed p next
    → Placed o next
    → Placed (if b then p else o) next
Placed-if true p o next h k = h
Placed-if false p o next h k = k

module _ {c : Threads} (inv : Inv c) where
  open c use {server, reader, workers}

  pub workers_split :
      (place : ℕ) (before rest : List Worker)
      → workers ≡ before ++ rest
      → total (worker_holds place server.global_limiter) workers
        ≡ total (worker_holds place server.global_limiter) before
          + total (worker_holds place server.global_limiter) rest
  workers_split place before rest split =
      ap (total (worker_holds place server.global_limiter)) split ∙ total-append _ before rest

  pub give_global-Inv :
      (job : Job) (before after : List Worker)
      → workers ≡ before ++ (processing job ∷ after)
      → Inv (record c {
        server = release_slot server.global_limiter server;
        workers = before ++ (leaving job ∷ after);
      })
  unfolding release_slot
  give_global-Inv job before after split = record {
    counted = λ place. omega (
      arith,
      inv.counted place,
      given_back_lem server.global_limiter server.limiters place,
      workers_split place before (processing job ∷ after) split,
      total-append (worker_holds place server.global_limiter) before (leaving job ∷ after),
    );
    capped = λ place.
        omega (arith, inv.capped place, given_back_lem server.global_limiter server.limiters place);
    fresh = λ place le. omega (
      arith,
      inv.fresh place le,
      workers_split place before (processing job ∷ after) split,
      total-append (worker_holds place server.global_limiter) before (leaving job ∷ after),
    );
    cap_placed = inv.cap_placed;
    reader_placed = inv.reader_placed;
    placed = inv.placed;
  }

  pub give_method-Inv :
      (job : Job) (before after : List Worker)
      → workers ≡ before ++ (leaving job ∷ after)
      → Inv (record c {
        server = ring (release_slot job.method_limiter server);
        workers = before ++ after;
      })
  unfolding release_slot
  give_method-Inv job before after split = record {
    counted = λ place. omega (
      arith,
      inv.counted place,
      given_back_lem job.method_limiter server.limiters place,
      workers_split place before (leaving job ∷ after) split,
      total-append (worker_holds place server.global_limiter) before after,
    );
    capped = λ place.
        omega (arith, inv.capped place, given_back_lem job.method_limiter server.limiters place);
    fresh = λ place le. omega (
      arith,
      inv.fresh place le,
      workers_split place before (leaving job ∷ after) split,
      total-append (worker_holds place server.global_limiter) before after,
    );
    cap_placed = inv.cap_placed;
    reader_placed = inv.reader_placed;
    placed = inv.placed;
  }

  pub register-Inv :
      (name : Text) (m : Member) (t : PyType)
      → Inv (record c { server = with_handler name m t server })
  unfolding with_handler
  register-Inv name m t = record {
    counted = λ place.
        ground (arith, eqb→eq place server.next_limiter, inv.counted place, inv.fresh place);
    capped = λ place. ground (arith, inv.capped place);
    fresh = λ place le. inv.fresh place (omega (arith, le));
    cap_placed = Placed-weaken server.global_limiter server.next_limiter inv.cap_placed;
    reader_placed = ReaderPlaced-weaken reader server.next_limiter inv.reader_placed;
    placed = λ other. rw (lookup-insert name other server.next_limiter server.method_limiters) (
        Placed-if (name == other) _ _ _ (omega arith) (
          Placed-weaken (lookup other server.method_limiters) server.next_limiter
            (inv.placed other)));
  }

  pub unregister-Inv : (name : Text) → Inv (record c { server = without_handler name server })
  unfolding without_handler
  unregister-Inv name = elim (Bool-cases (is_some (lookup name server.method_handlers))) [
    | inl there ↦ rw there (record {
      counted = inv.counted;
      capped = inv.capped;
      fresh = inv.fresh;
      cap_placed = inv.cap_placed;
      reader_placed = inv.reader_placed;
      placed = λ other.
          rw (lookup-remove name other server.method_limiters)
            (Placed-if (name == other) none _ _ tt (inv.placed other));
    })
    | inr missing ↦ rw missing inv
  ]

-- Every step of every thread keeps the invariant.
