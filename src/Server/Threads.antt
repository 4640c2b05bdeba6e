-- ===== src/Server/Threads.antt =====
-- The threads of server.py, interleaved in any order: the read loop in `_dispatch_message`, the
-- workers in `_process_message`, and others that register methods, start the server or stop it. The
-- pool may start any job that is in line, so what is shown holds for every number of workers.
pub mod Invariant
pub mod Steps
pub mod Caps
pub mod Runs
pub mod Refused
pub mod Messages
use anycall.Prelude.{
  ℕ, ◌+◌, ◌≡◌, Bool, true, false, not, ◌&&◌, is_some, Option, none, some, List, [], ◌∷◌, ◌++◌, eqb,
  if◌then◌else◌,
}
use anycall.Prelude.Int.{ℤ}
use anycall.Text.{Text}
use anycall.Assoc.{lookup}
use anycall.Json.{Json}
use anycall.Errors.{ok}
use anycall.Serialization.{PyType}
use anycall.Server.{Job, Server, new_server, ring}
use anycall.Server.Limiter.{ConcurrencyLimiter}
use anycall.Server.Registration.{Member, with_handler, without_handler}
use anycall.Server.Loops.{has_room, acquire_slot}
use anycall.Server.Requests.{release_slot}

-- Where the read loop stands, with the method in whose queue it looks, or the request that it has
-- taken.
pub data Reader : Type 0 where
  polling : Reader
  looking : Text → Reader
  at_method : Job → Reader
  at_global : Job → Reader
  at_submit : Job → Reader

-- Where a worker stands: in `_process_request`, or between the two releases.
pub data Worker : Type 0 where
  processing : Job → Worker
  leaving : Job → Worker

pub record Threads : Type 0 where
  pub server : Server
  pub reader : Reader
  pub workers : List Worker
  -- the jobs that a shut executor refused
  pub refused : List Job

-- Does the executor take jobs?
abbrev pub takes_jobs : Server → Bool
takes_jobs s = is_some s.workers && not s.shut

pub data Step (c : Threads) : Threads → Type 0 where
  -- Only queues of methods with capacity are tried.
  look :
      (name : Text)
      → c.reader ≡ polling
      → has_room c.server c.server.global_limiter ≡ true
      → has_room c.server (lookup name c.server.method_limiters) ≡ true
      → Step c (record c { reader = looking name })
  -- Nothing was taken, or a request of a method that is gone.
  pass_by : (name : Text) → c.reader ≡ looking name → Step c (record c { reader = polling })
  route :
      (name : Text) (job : Job)
      → c.reader ≡ looking name
      → job.method_limiter ≡ lookup name c.server.method_limiters
      → Step c (record c { reader = at_method job })
  take_method :
      (job : Job) (limiters : ℕ → ConcurrencyLimiter)
      → c.reader ≡ at_method job
      → acquire_slot job.method_limiter c.server ≡ some (record c.server { limiters = limiters })
      → Step c
          (record c { reader = at_global job; server = record c.server { limiters = limiters } })
  take_global :
      (job : Job) (limiters : ℕ → ConcurrencyLimiter)
      → c.reader ≡ at_global job
      → acquire_slot c.server.global_limiter c.server
        ≡ some (record c.server { limiters = limiters })
      → Step c
          (record c { reader = at_submit job; server = record c.server { limiters = limiters } })
  submit :
      (job : Job)
      → c.reader ≡ at_submit job
      → takes_jobs c.server ≡ true
      → Step c (record c {
        reader = polling;
        server = record c.server { jobs = c.server.jobs ++ job ∷ [] };
      })
  -- The exception of `submit` is logged, and nobody gives the job's slots back.
  refuse :
      (job : Job)
      → c.reader ≡ at_submit job
      → takes_jobs c.server ≡ false
      → Step c (record c { reader = polling; refused = job ∷ c.refused })
  begin :
      (job : Job) (jobs : List Job)
      → c.server.jobs ≡ job ∷ jobs
      → Step c (record c {
        server = record c.server { jobs = jobs };
        workers = processing job ∷ c.workers;
      })
  note_ids :
      (ids : List Json)
      → Step c (record c { server = record c.server { in_flight_request_ids = ids } })
  give_global :
      (job : Job) (before after : List Worker)
      → c.workers ≡ before ++ (processing job ∷ after)
      → Step c (record c {
        server = release_slot c.server.global_limiter c.server;
        workers = before ++ (leaving job ∷ after);
      })
  give_method :
      (job : Job) (before after : List Worker)
      → c.workers ≡ before ++ (leaving job ∷ after)
      → Step c (record c {
        server = ring (release_slot job.method_limiter c.server);
        workers = before ++ after;
      })
  register :
      (name : Text) (m : Member) (t : PyType)
      → Step c (record c { server = with_handler name m t c.server })
  unregister : (name : Text) → Step c (record c { server = without_handler name c.server })
  flags :
      (running rung : Bool)
      → Step c (record c { server = record c.server { running = running; rung = rung } })
  open_pool :
      (workers : ℕ)
      → Step c (record c { server = record c.server { workers = some workers; shut = false } })
  shut_pool : Step c (record c { server = record c.server { shut = true } })

-- From a new server.
pub data Reach (server_id : Text) (max_concurrency : Option ℤ) : Threads → Type 0 where
  start :
      (s : Server)
      → new_server server_id max_concurrency ≡ ok s
      → Reach server_id max_concurrency
          (record { server = s; reader = polling; workers = []; refused = [] })
  later :
      {c d : Threads}
      → Reach server_id max_concurrency c
      → Step c d
      → Reach server_id max_concurrency d

-- How many slots of a limiter are held: by the loop, by the jobs in line, by the workers and by
-- refused jobs.
abbrev pub holds : ℕ → Option ℕ → ℕ
holds place none = 0
holds place (some p) = if eqb place p then 1 else 0

abbrev pub both : ℕ → Option ℕ → Job → ℕ
both place cap job = holds place cap + holds place job.method_limiter

abbrev pub reader_holds : ℕ → Option ℕ → Reader → ℕ
reader_holds place cap polling = 0
reader_holds place cap (looking name) = 0
reader_holds place cap (at_method job) = 0
reader_holds place cap (at_global job) = holds place job.method_limiter
reader_holds place cap (at_submit job) = both place cap job

abbrev pub worker_holds : ℕ → Option ℕ → Worker → ℕ
worker_holds place cap (processing job) = both place cap job
worker_holds place cap (leaving job) = holds place job.method_limiter

abbrev pub total {ℓ} : {A : Type ℓ} → (A → ℕ) → List A → ℕ
total w [] = 0
total w (x ∷ xs) = w x + total w xs

abbrev pub holders : ℕ → Threads → ℕ
holders place c =
    reader_holds place c.server.global_limiter c.reader
    + total (both place c.server.global_limiter) c.server.jobs
    + total (worker_holds place c.server.global_limiter) c.workers
    + total (both place c.server.global_limiter) c.refused
