-- ===== src/Concurrency/QueueMutex/Examples.antt =====
-- ns_mutex.c with a queue of one node, and two threads that acquire.
use operating_systems_theory.Common.{arith, [], none, refl, some, ◌∷◌, ◌≡◌}
use operating_systems_theory.Concurrency.QueueMutex.{
  Mutex, node, null, write, acquire_all, ok, fault, ns_mutex_init, ns_mutex_acquire,
  ns_mutex_release, ◌>>◌,
}
use operating_systems_theory.Concurrency.QueueMutex.Faults.{
  acquire_all-returns, acquire-after_release,
}

abbrev created : Mutex
created = record {
  outer_glock = 1;
  glock = 1;
  head = 16;
  tail = 16;
  cell = write (λ _. none) 16 (some (node 0 null));
}

acquire_all-returns_test : (m' : Mutex) × (acquire_all (32 ∷ 48 ∷ []) created ≡ ok m')
acquire_all-returns_test =
    acquire_all-returns (32 ∷ 48 ∷ []) created
      (record { glock_free = refl; last = node 0 null; tail_node = refl })
      (omega arith, refl, (omega arith, tt), (omega arith, refl, tt, tt))

acquire-after_release_test :
    (ns_mutex_init 16 >> ns_mutex_acquire 32 >> ns_mutex_release >> ns_mutex_acquire 48) created
    ≡ fault
acquire-after_release_test =
    acquire-after_release created 16 32 48 (omega arith) (omega arith) (omega arith) (omega arith)
      (omega arith)
