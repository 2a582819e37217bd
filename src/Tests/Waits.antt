-- ===== src/Tests/Waits.antt =====
-- The theorem on waiting, at a node that answers from the second second on.
use near_sandbox_rs.Base.{
  ℕ, ◌≡◌, refl, inr, ok, true, leb, String, [], ◌∷◌, if◌then◌else◌, arith, parse_unsigned,
}
use near_sandbox_rs.Base.Dict.{Dict}
use near_sandbox_rs.Sandbox.Ready.{Status, Waiting, timeout_secs, wait_until_ready}
use near_sandbox_rs.Sandbox.Ready.Probes.{Explained, wait_until_ready_bounded}

instance abbrev slow_node : Status
slow_node = record {
  World = ℕ;
  now = λ w. w;
  wait_until = λ t w. if leb t w then w else t;
  get = λ url w. (inr (leb 1000 w), w);
}

abbrev environment : Dict String
environment = ("NEAR_RPC_TIMEOUT_SECS", "3") ∷ []

abbrev waiting : Waiting ℕ
waiting = record { world = 0; probes = [] }

three_seconds : timeout_secs environment ≡ ok 3
unfolding timeout_secs parse_unsigned
three_seconds = refl

wait_until_ready_bounded_example :
    Explained 6 [] (wait_until_ready true environment "http://localhost:3030" waiting)
wait_until_ready_bounded_example =
    wait_until_ready_bounded true environment "http://localhost:3030" 3 waiting three_seconds
      (omega arith)
