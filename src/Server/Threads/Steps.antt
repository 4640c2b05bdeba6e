-- ===== src/Server/Threads/Steps.antt =====
-- Every step of the threads of server.py keeps their invariant.
use anycall.Prelude.{subst, ap, arith, [], ◌∷◌}
use anycall.Server.Threads.{
  Threads, Step, route, take_method, take_global, look, pass_by, submit, refuse, open_pool,
  shut_pool, begin, note_ids, give_global, give_method, register, unregister, flags, both,
  reader_holds, total,
}
use anycall.Server.Threads.Invariant.{
  Inv, ReaderPlaced, total-append, acquire_slot_lem, holds-Placed, give_global-Inv, give_method-Inv,
  register-Inv, unregister-Inv,
}

pub Step-Inv : {c d : Threads} → Step c d → Inv c → Inv d
Step-Inv {c} (route name job idle limiter) inv = record {
  counted = λ place.
      omega (arith, inv.counted place, ap (reader_holds place c.server.global_limiter) idle);
  capped = inv.capped;
  fresh = λ place le.
      omega (arith, inv.fresh place le, ap (reader_holds place c.server.global_limiter) idle);
  cap_placed = inv.cap_placed;
  reader_placed = rw limiter (inv.placed name);
  placed = inv.placed;
}
Step-Inv {c} (take_method job limiters at got) inv = record {
  counted = λ place. omega (
    arith,
    inv.counted place,
    ap (reader_holds place c.server.global_limiter) at,
    acquire_slot_lem job.method_limiter c.server limiters got place,
  );
  capped = λ place.
      (acquire_slot_lem job.method_limiter c.server limiters got place).2 (inv.capped place);
  fresh = λ place le. omega (
    arith,
    inv.fresh place le,
    ap (reader_holds place c.server.global_limiter) at,
    holds-Placed job.method_limiter c.server.next_limiter place
        (subst (λ r. ReaderPlaced r c.server.next_limiter) at inv.reader_placed) le,
  );
  cap_placed = inv.cap_placed;
  reader_placed = tt;
  placed = inv.placed;
}
Step-Inv {c} (take_global job limiters at got) inv = record {
  counted = λ place. omega (
    arith,
    inv.counted place,
    ap (reader_holds place c.server.global_limiter) at,
    acquire_slot_lem c.server.global_limiter c.server limiters got place,
  );
  capped = λ place.
      (acquire_slot_lem c.server.global_limiter c.server limiters got place).2 (inv.capped place);
  fresh = λ place le. omega (
    arith,
    inv.fresh place le,
    ap (reader_holds place c.server.global_limiter) at,
    holds-Placed c.server.global_limiter c.server.next_limiter place inv.cap_placed le,
  );
  cap_placed = inv.cap_placed;
  reader_placed = tt;
  placed = inv.placed;
}
Step-Inv {c} (submit job at takes) inv = record {
  counted = λ place. omega (
    arith,
    inv.counted place,
    ap (reader_holds place c.server.global_limiter) at,
    total-append (both place c.server.global_limiter) c.server.jobs (job ∷ []),
  );
  capped = inv.capped;
  fresh = λ place le. omega (
    arith,
    inv.fresh place le,
    ap (reader_holds place c.server.global_limiter) at,
    total-append (both place c.server.global_limiter) c.server.jobs (job ∷ []),
  );
  cap_placed = inv.cap_placed;
  reader_placed = tt;
  placed = inv.placed;
}
Step-Inv {c} (begin job jobs line) inv = record {
  counted = λ place.
      omega (arith, inv.counted place, ap (total (both place c.server.global_limiter)) line);
  capped = inv.capped;
  fresh = λ place le.
      omega (arith, inv.fresh place le, ap (total (both place c.server.global_limiter)) line);
  cap_placed = inv.cap_placed;
  reader_placed = inv.reader_placed;
  placed = inv.placed;
}
Step-Inv (note_ids ids) inv = record {
  counted = inv.counted;
  capped = inv.capped;
  fresh = inv.fresh;
  cap_placed = inv.cap_placed;
  reader_placed = inv.reader_placed;
  placed = inv.placed;
}
Step-Inv {c} (give_global job before after split) inv = give_global-Inv inv job before after split
Step-Inv {c} (give_method job before after split) inv = give_method-Inv inv job before after split
Step-Inv {c} (register name m t) inv = register-Inv inv name m t
Step-Inv {c} (unregister name) inv = unregister-Inv inv name
Step-Inv (flags running rung) inv = record {
  counted = inv.counted;
  capped = inv.capped;
  fresh = inv.fresh;
  cap_placed = inv.cap_placed;
  reader_placed = inv.reader_placed;
  placed = inv.placed;
}
Step-Inv (open_pool workers) inv = record {
  counted = inv.counted;
  capped = inv.capped;
  fresh = inv.fresh;
  cap_placed = inv.cap_placed;
  reader_placed = inv.reader_placed;
  placed = inv.placed;
}
Step-Inv shut_pool inv = record {
  counted = inv.counted;
  capped = inv.capped;
  fresh = inv.fresh;
  cap_placed = inv.cap_placed;
  reader_placed = inv.reader_placed;
  placed = inv.placed;
}
Step-Inv {c} (refuse job at shut) inv = record {
  counted =
      λ place. omega (arith, inv.counted place, ap (reader_holds place c.server.global_limiter) at);
  capped = inv.capped;
  fresh = λ place le.
      omega (arith, inv.fresh place le, ap (reader_holds place c.server.global_limiter) at);
  cap_placed = inv.cap_placed;
  reader_placed = tt;
  placed = inv.placed;
}
Step-Inv {c} (look name idle cap method) inv = record {
  counted = λ place.
      omega (arith, inv.counted place, ap (reader_holds place c.server.global_limiter) idle);
  capped = inv.capped;
  fresh = λ place le.
      omega (arith, inv.fresh place le, ap (reader_holds place c.server.global_limiter) idle);
  cap_placed = inv.cap_placed;
  reader_placed = tt;
  placed = inv.placed;
}
Step-Inv {c} (pass_by name looked) inv = record {
  counted = λ place.
      omega (arith, inv.counted place, ap (reader_holds place c.server.global_limiter) looked);
  capped = inv.capped;
  fresh = λ place le.
      omega (arith, inv.fresh place le, ap (reader_holds place c.server.global_limiter) looked);
  cap_placed = inv.cap_placed;
  reader_placed = tt;
  placed = inv.placed;
}
