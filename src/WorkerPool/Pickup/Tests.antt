-- ===== src/WorkerPool/Pickup/Tests.antt =====
-- A task that stores a client, and a worker on its way to it.
use native.Mathlib.Decide.{ℕ_discrete}
use nonblocking_io.Common.{update, total, ℕ, ◌≤◌, ◌≡◌, refl, true, false, [], ◌∷◌, arith}
use nonblocking_io.WorkerPool.Samples.{client, add_one, nothing}
use nonblocking_io.WorkerPool.{ClientInfo, Worker}
use nonblocking_io.WorkerPool.Handover
use nonblocking_io.WorkerPool.Handover.{Storage}
use nonblocking_io.WorkerPool.Pickup.{
  outside, bringing, storing, emplacing, leaving, seen, held, facing, fronted, popping, recording,
  watching, Pickup, look, acquire, look_again, bring, acquire_for, begin_emplace, emplace, release,
  front, begin_pop, pop, insert_info, add, removed, recorded, watched, initial, Reach, here, next,
}
use nonblocking_io.WorkerPool.Pickup.Sections.{inside, taken_count}
use nonblocking_io.WorkerPool.Pickup.Locked.{pickup_refines, no_empty_pop}

-- Thread 0 has stored the client and given the lock back; thread 1 is about to read the front.
abbrev about_to_pop : Pickup ℕ
about_to_pop = record {
  mutex = record { taken = true };
  store = record nothing { storage = client ∷ []; put = client ∷ [] };
  pc =
      update
        (update
          (update
            (update
              (update
                (update (update (update (λ _. outside) 0 (bringing client)) 0 (storing client)) 0
                  (emplacing client []))
                0 leaving)
              0 outside)
            1 seen)
          1 held)
        1 facing;
  faulted = false;
}

about_to_pop-Reach : Reach add_one 2 (initial add_one nothing) about_to_pop
unfolding ℕ_discrete nonblocking_io.WorkerPool.put_client
about_to_pop-Reach =
    next
      (next
        (next
          (next
            (next
              (next
                (next (next here (bring 0 client (omega arith) refl))
                  (acquire_for 0 (omega arith) refl refl))
                (begin_emplace 0 (omega arith) refl))
              (emplace 0 (omega arith) refl))
            (release 0 (omega arith) refl))
          (look 1 (omega arith) refl))
        (acquire 1 (omega arith) refl refl))
      (look_again 1 (omega arith) refl)

no_empty_pop_example :
    (about_to_pop.faulted ≡ false)
    × (total inside 2 about_to_pop.pc ≤ 1)
    × (total inside 2 about_to_pop.pc ≡ taken_count about_to_pop)
no_empty_pop_example = no_empty_pop add_one 2 about_to_pop-Reach

-- Thread 1 has taken the client, and the lock is free again.
abbrev taken_out : Pickup ℕ
taken_out = record {
  mutex = record { taken = false };
  store = watched add_one 1 client (recorded 1 client (removed 1 client [] about_to_pop.store));
  pc =
      update
        (update
          (update
            (update
              (update (update about_to_pop.pc 1 (fronted client)) 1 (popping client (client ∷ [])))
              1 (recording client))
            1 (watching client))
          1 leaving)
        1 outside;
  faulted = false;
}

taken_out-Reach : Reach add_one 2 (initial add_one nothing) taken_out
unfolding ℕ_discrete
taken_out-Reach =
    next
      (next
        (next
          (next
            (next (next about_to_pop-Reach (front 1 (omega arith) refl refl))
              (begin_pop 1 (omega arith) refl))
            (pop 1 (omega arith) refl))
          (insert_info 1 (omega arith) refl))
        (add 1 (omega arith) refl))
      (release 1 (omega arith) refl)

pickup_refines_example : Handover.Reach add_one nothing taken_out.store
pickup_refines_example = pickup_refines add_one 2 taken_out-Reach refl
