-- ===== src/Tests/Ports.antt =====
-- The theorem on ports, at an operating system that gives the ports 1, 2, 3, … and on which another
-- process holds the lock of the first.
use near_sandbox_rs.Base.{
  ℕ, ◌+◌, ◌≡◌, refl, inr, String, some, none, ok, str_eq, not, ◌>>=◌, ◌==◌, if◌then◌else◌, decimal,
}
use near_sandbox_rs.Sandbox.Ports.{
  Os, lock_name, bound_socket, pick_unused_port_guard, acquire_unused_port_guard,
  acquire_or_lock_port,
}
use near_sandbox_rs.Sandbox.Ports.Locked.{IsLocked, acquire_or_lock_port_locks}

instance abbrev counting_os : Os
counting_os = record {
  World = ℕ;
  Socket = ℕ;
  File = String;
  new_v4 = λ w. (inr 0, w);
  set_reuseaddr = λ s w. (inr s, w);
  bind = λ s port w. (inr (if port == 0 then w else port), w + 1);
  local_port = λ s w. inr s;
  create = λ name w. (inr name, w);
  try_lock = λ file w. (inr (not (str_eq file "near-sandbox-port1.lock")), w);
  discard = λ s file w. w;
}

second_port : acquire_or_lock_port 5 none 1 ≡ (ok (some (2, "near-sandbox-port2.lock")), 3)
unfolding acquire_or_lock_port acquire_unused_port_guard pick_unused_port_guard bound_socket
    lock_name decimal ◌>>=◌
second_port = refl

acquire_or_lock_port_locks_example : IsLocked 2 "near-sandbox-port2.lock" 3
acquire_or_lock_port_locks_example =
    acquire_or_lock_port_locks 5 none 1 3 2 "near-sandbox-port2.lock" second_port
