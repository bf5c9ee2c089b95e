-- ===== src/Examples/RoundRuns.antt =====
-- The orders of one round, and two bytes as a text.
use quicke_r.Prelude.{◌*◌, ◌++◌, length, Bytes, ◌≡◌, true, false, List, [], ◌∷◌, arith}
use quicke_r.Memory.{ok}
use quicke_r.Text.Hex.{bytes_to_new_hexstring, hex_bytes, bytes_to_new_hexstring-reads}
use quicke_r.Rounds.{Order, start, stop, finish, root_key, Flags, heard}
use quicke_r.Rounds.Law.{heard-orders}

abbrev orders : List Order
orders = root_key 2621455 ∷ start ∷ stop ∷ finish ∷ []

abbrev idle : Flags
idle = record { run_workload = false; end_program = false; key_handle = 0 }

heard-orders_example :
    heard orders idle
    ≡ ok (record { run_workload = false; end_program = true; key_handle = 2621455 })
heard-orders_example = heard-orders orders idle (omega arith, (tt, (tt, (tt, tt))))

abbrev two_bytes : Bytes
two_bytes = 171 ∷ 7 ∷ []

bytes_to_new_hexstring-reads_example :
    (text : Bytes) × (bytes_to_new_hexstring two_bytes ≡ ok (text ++ (0 ∷ [])))
    × (length text ≡ length two_bytes * 2)
    × (hex_bytes text ≡ two_bytes)
bytes_to_new_hexstring-reads_example =
    bytes_to_new_hexstring-reads two_bytes (omega arith, (omega arith, tt))
