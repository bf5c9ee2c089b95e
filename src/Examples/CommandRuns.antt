-- ===== src/Examples/CommandRuns.antt =====
-- SET and GET on the database that is a list.
use quicke_r.Prelude.{ℕ, ◌≡◌, refl, some, [], ◌∷◌, Bytes, codes, replicate}
use quicke_r.Memory.{ok}
use quicke_r.Server.Commands.{State, run_command}
use quicke_r.Server.Commands.SetGet.{run_command-set_get}
use quicke_r.Examples.PlainEvp.{plain}
use quicke_r.Examples.NestedRuns.{held}
use quicke_r.Examples.NetRuns.{plain_base64}
use quicke_r.Examples.ServerRuns.{listed}

abbrev empty : State listed
empty = record { root_key = replicate 20 0; behind = []; savebuf = []; db = [] }

abbrev of_size : ℕ → Bytes
of_size n = replicate n 0

run_command-set_get_example :
    (s' : State listed) × (run_command listed plain plain_base64 [] held.0 of_size
        (codes "SET" ∷ codes "k" ∷ codes "v" ∷ [])
        empty
      ≡ ok (some (codes "0", s')))
    × (run_command listed plain plain_base64 [] held.0 of_size (codes "GET" ∷ codes "k" ∷ []) s'
        ≡ ok (some (codes "v", s')))
run_command-set_get_example =
    run_command-set_get listed plain plain_base64 [] held.0 of_size (codes "k") (codes "v") empty
      refl
