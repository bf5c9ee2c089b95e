-- ===== src/Examples/LoaderRuns.antt =====
-- The loader, its file of keys, and the threads that start the machines.
use quicke_r.Prelude.{ℕ, ◌%◌, ◌≡◌, ◌≢◌, refl, [], Bytes, codes, length, All, same, false, arith}
use quicke_r.Memory.{ok}
use quicke_r.Server.Values.Found.{Found}
use quicke_r.Wire.{Ends}
use quicke_r.Wire.Tokens.{IsToken, avoids, avoids-IsToken}
use quicke_r.Machines.{KeyList, entry_at}
use quicke_r.Machines.KeyFile.{read_key_list}
use quicke_r.Loader.{types_of, key_name, letters, key_letter, populate_types, location_lines}
use quicke_r.Loader.Names.{key_name-distinct}
use quicke_r.Loader.Found.{loaded_pairs, populate_types-Found}
use quicke_r.Loader.Located.{read_key_list-location_lines}
use quicke_r.Examples.PlainEvp.{plain}
use quicke_r.Examples.NestedRuns.{held}
use quicke_r.Examples.ServerRuns.{listed}
use quicke_r.Examples.PlainWire.{shifted, one_piece}
use quicke_r.Examples.WireRuns.{sized, sized-length, start, link}

third_name : key_name 28 ≡ codes "cbaaa"
unfolding key_name letters key_letter
third_name = refl

key_name-distinct_example : same (key_name 2) (key_name 28) ≡ false
key_name-distinct_example =
    key_name-distinct 2 28 (omega arith) (omega arith) (λ e. omega (arith, e))

v-IsToken : IsToken (codes "v")
unfolding avoids
v-IsToken = avoids-IsToken _ _ refl

-- The second of two servers gets the key 1 of 2.
populate_types-Found_example :
    (after : Ends listed) × (populate_types link shifted
        (types_of (codes "v") (codes "v") (codes "v") (codes "v"))
        (1 % 2)
        2
        2
        start.store
      ≡ ok after)
    × Found listed after.site.state.db
        (loaded_pairs (key_name 1) (codes "v") (codes "v") (codes "v") (codes "v"))
populate_types-Found_example =
    populate_types-Found listed plain shifted [] held.0 sized one_piece (codes "v") (codes "v")
      (codes "v") (codes "v") 100 2 2 1 start.store
      (v-IsToken, (v-IsToken, (v-IsToken, (v-IsToken, tt))))
      (omega arith, (omega arith, (omega arith, (omega arith, tt)))) (omega arith) (omega arith)
      (omega arith) (omega arith)
      (record {
        site_room = omega (arith, sized-length 2000);
        client_room = omega (arith, sized-length 2000);
      })

abbrev addresses : ℕ → Bytes
addresses i = codes "10.0.0.7"

address-IsToken : IsToken (codes "10.0.0.7")
unfolding avoids
address-IsToken = avoids-IsToken _ _ refl

address-one_line : All (λ c. c ≢ 10) (codes "10.0.0.7")
address-one_line = (
  (λ e. omega arith),
  (
    (λ e. omega arith),
    (
      (λ e. omega arith),
      (
        (λ e. omega arith),
        ((λ e. omega arith), ((λ e. omega arith), ((λ e. omega arith), ((λ e. omega arith), tt)))),
      ),
    ),
  ),
)

read_key_list-location_lines_example :
    (keys : KeyList) × (read_key_list (location_lines addresses 2 3) ≡ ok keys)
    × (length keys ≡ 3)
    × (entry_at keys 2 ≡ ok (key_name 2, codes "10.0.0.7"))
read_key_list-location_lines_example =
    read_key_list-location_lines addresses 2 (λ i. address-IsToken) (λ i. address-one_line) 3 2
      (omega arith)
