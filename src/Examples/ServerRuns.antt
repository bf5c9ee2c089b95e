-- ===== src/Examples/ServerRuns.antt =====
-- The texts and the server: their theorems at small inputs, and a database that is a list.
use quicke_r.Prelude.{
  ◌≡◌, refl, true, false, Option, some, none, List, [], ◌∷◌, Bytes, codes, same, if◌then◌else◌,
  arith, All,
}
use quicke_r.Memory.{ok}
use quicke_r.Text.Split.{split, split_by_underscore, space, IsWord, split-join}
use quicke_r.Text.Decimal.{digits_value, decimal}
use quicke_r.Text.Int.{print_int, atoi, atoi-decimal}
use quicke_r.Server.Redis.{Redis}
use quicke_r.Server.Values.{
  setall_values, find_root, pairs, key_suffix, get_value, print_version, set_value,
}
use quicke_r.Server.Values.Stores.{Committed, setall_values-Committed}

abbrev lookup : List (Bytes × Bytes) → Bytes → Option Bytes
lookup [] j = none
lookup ((k, v) ∷ db) j = if same k j then some v else lookup db j

abbrev pub listed : Redis
listed = record {
  Db = List (Bytes × Bytes);
  get = lookup;
  set = λ db k v. (k, v) ∷ db;
  get-set = λ db k j v. refl;
}

abbrev words : List Bytes
words = codes "GET" ∷ codes "k" ∷ []

words-IsWord : All (IsWord space) words
words-IsWord = (
  (λ e. cc, (λ e. omega arith, (λ e. omega arith, (λ e. omega arith, tt)))),
  ((λ e. cc, (λ e. omega arith, tt)), tt),
)

split-join_example : split space (codes "GET k") ≡ words
split-join_example = split-join space words words-IsWord

atoi-decimal_example : atoi (decimal 120) ≡ 120
atoi-decimal_example = atoi-decimal 120 (omega arith)

abbrev tokens : List Bytes
tokens = codes "root_version_7" ∷ codes "r1" ∷ codes "ctxt_data_7" ∷ codes "new" ∷ []

abbrev before : List (Bytes × Bytes)
before = (codes "ctxt_version_7", codes "9") ∷ (codes "ctxt_data_7", codes "old") ∷ []

abbrev after : List (Bytes × Bytes)
after =
    (codes "ctxt_data_7", codes "new")
    ∷ (codes "root_version_7", codes "r1")
    ∷ (codes "ctxt_version_7", codes "10")
    ∷ before

accepted : setall_values listed (some (codes "r1")) tokens before ≡ ok (true, after)
unfolding setall_values find_root pairs same key_suffix split_by_underscore get_value print_version
    decimal atoi set_value print_int digits_value
accepted = refl

declined : setall_values listed (some (codes "r2")) tokens before ≡ ok (false, before)
unfolding setall_values find_root pairs same
declined = refl

setall_values-Committed_example : Committed listed (some (codes "r1")) tokens before after
setall_values-Committed_example =
    setall_values-Committed listed (some (codes "r1")) tokens before after accepted
