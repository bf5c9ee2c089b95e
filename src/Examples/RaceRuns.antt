-- ===== src/Examples/RaceRuns.antt =====
-- An update of the ciphertext 7 while another thread stores the ciphertext 8.
use quicke_r.Prelude.{◌≡◌, refl, true, some, List, [], ◌∷◌, ◌++◌, Bytes, codes, same, inr}
use quicke_r.Memory.{ok}
use quicke_r.Text.Split.{split_by_underscore}
use quicke_r.Text.Decimal.{decimal, digits_value}
use quicke_r.Text.Int.{print_int, atoi}
use quicke_r.Server.Values.{
  setall_values, find_root, pairs, key_suffix, get_value, set_value, print_version, ctxt_version,
}
use quicke_r.Server.Update.{Request, Recoded, read_phase, write_phase}
use quicke_r.Server.Update.Commit.{Tidy}
use quicke_r.Server.Update.Race.{setall, Steps, done, more, write_phase-loses-none}
use quicke_r.Examples.ServerRuns.{listed}

abbrev q : Request
q = record {
  wrap_id = codes "wrap_7";
  header_id = codes "header_7";
  data_id = codes "data_7";
  version_id = codes "ctxt_version_7";
  new_wrap = codes "w2";
  delta = codes "d";
}

abbrev c : Recoded
c = record { new_header = codes "h2"; new_ciphertext = codes "c2" }

abbrev tokens : List Bytes
tokens = codes "root_version_8" ∷ codes "r1" ∷ codes "data_8" ∷ codes "x" ∷ []

abbrev start : List (Bytes × Bytes)
start =
    (codes "ctxt_version_7", codes "9")
    ∷ (codes "ctxt_version_8", codes "3")
    ∷ (codes "header_7", codes "h")
    ∷ (codes "data_7", codes "c")
    ∷ []

abbrev between : List (Bytes × Bytes)
between =
    (codes "data_8", codes "x")
    ∷ (codes "root_version_8", codes "r1")
    ∷ (codes "ctxt_version_8", codes "4")
    ∷ start

abbrev end : List (Bytes × Bytes)
end =
    (codes "ctxt_version_7", codes "10")
    ∷ (codes "data_7", codes "c2")
    ∷ (codes "header_7", codes "h2")
    ∷ (codes "wrap_7", codes "w2")
    ∷ between

other_run : setall_values listed (some (codes "r1")) tokens start ≡ ok (true, between)
unfolding setall_values find_root pairs same key_suffix split_by_underscore get_value print_version
    decimal atoi set_value print_int digits_value
other_run = refl

other_root : find_root (pairs tokens) ≡ some (codes "root_version_8", codes "r1")
unfolding find_root pairs same
other_root = refl

other_suffix : key_suffix (codes "root_version_8") ≡ ok (codes "8")
unfolding key_suffix split_by_underscore
other_suffix = refl

other-Tidy :
    Tidy
      (codes "ctxt_version_7")
      (codes "header_7")
      (codes "data_7")
      (ctxt_version ++ codes "8")
      (pairs tokens)
unfolding pairs same
other-Tidy = record {
  spares_version = (refl, (refl, tt));
  owner = inr (record {
    not_version = refl;
    not_header = refl;
    not_content = refl;
    spares_header = (refl, (refl, tt));
    spares_content = (refl, (refl, tt));
  });
}

other : Steps listed (codes "ctxt_version_7") (codes "header_7") (codes "data_7") start between
other =
    more
      (setall (some (codes "r1")) tokens (codes "root_version_8") (codes "r1") (codes "8") other_run
        other_root other_suffix other-Tidy)
      done

nine : listed.get start (codes "ctxt_version_7") ≡ some (decimal 9)
unfolding decimal same
nine = refl

own_run : write_phase listed q (read_phase listed q start) (some c) between ≡ ok (true, end)
unfolding write_phase read_phase same get_value print_version decimal atoi set_value print_int
    digits_value
own_run = refl

write_phase-loses-none_example :
    (listed.get between (codes "header_7") ≡ listed.get start (codes "header_7"))
    × (listed.get between (codes "data_7") ≡ listed.get start (codes "data_7"))
write_phase-loses-none_example =
    write_phase-loses-none listed q c start between end 9 nine other own_run
