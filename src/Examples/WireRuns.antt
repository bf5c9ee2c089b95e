-- ===== src/Examples/WireRuns.antt =====
-- Upload and download over the server, and what it rests on, at small inputs.
use quicke_r.Prelude.{
  ℕ, ◌+◌, ◌*◌, ◌≡◌, ◌↔◌, false, refl, same, some, [], ◌∷◌, ◌++◌, Bytes, codes, length, replicate,
  length-replicate, arith,
}
use quicke_r.Memory.{ok, poke, put_front, overwrite}
use quicke_r.Text.Decimal.{decimal, decimal_loop, digits, digits_value}
use quicke_r.Text.Int.{atoi, print_int}
use quicke_r.Nested.Encrypt.{ae_keygen}
use quicke_r.Server.Values.{
  c_string, get_value, set_value, bump_version, setall_values, find_root, pairs,
}
use quicke_r.Server.Commands.{State}
use quicke_r.Server.Commands.Reply.{IsText}
use quicke_r.Nested.Layout.{layer_size, le32}
use quicke_r.Actions.{
  World, key_bytes, handle_string, updatable_encrypt_and_upload, updatable_download_and_decrypt,
}
use quicke_r.Actions.Loops.Ends.{Wraps, Unwraps}
use quicke_r.Wire.{Ends, peer}
use quicke_r.Wire.Stores.{HasRoom, Left, setall-setall_values, getall-Found}
use quicke_r.Client.{Peer, setall, getall}
use quicke_r.Client.Replies.{decoded}
use quicke_r.Server.Values.Counter.{HasNine, bump_version-fits}
use quicke_r.Wire.Tokens.{IsToken, avoids-IsToken, avoids, avoids-IsWord}
use quicke_r.Server.Update.Recode.{base64_size}
use quicke_r.Wire.Upload.{System, Uploadable}
use quicke_r.Wire.Life.{download-upload}
use quicke_r.Text.Split.{underscore, IsWord}
use quicke_r.Examples.PlainEvp.{plain, plain_laws}
use quicke_r.Examples.NestedRuns.{draws, draws-IsDrawn, of_byte, held}
use quicke_r.Examples.ServerRuns.{listed}
use quicke_r.Examples.PlainWire.{
  shifted, grouped, encoded, shifted_speaks, one_piece, appending, appending_laws,
}

abbrev pub sized : ℕ → Bytes
sized n = replicate n 0

pub sized-length : (n : ℕ) → length (sized n) ≡ n
sized-length n = length-replicate n 0

-- "5" in its fifteen bytes.
abbrev pub five_text : Bytes
five_text = 53 ∷ replicate 14 0

abbrev triple : Bytes
triple = 33 ∷ 33 ∷ 33 ∷ 35 ∷ []

-- The root key is the text of the handle 5, which fills its twenty bytes.
abbrev pub site_state : State listed
site_state = record {
  root_key = 86 ∷ 33 ∷ 33 ∷ 35 ∷ (triple ++ triple ++ triple ++ triple);
  behind = replicate 4 0;
  savebuf = [];
  db = (codes "ctxt_version_k", codes "3") ∷ [];
}

abbrev pub start : System listed plain_laws shifted_speaks appending_laws [] held.0 sized one_piece
start = record {
  store = record { site = record { state = site_state; buff = sized 2000 }; client = sized 2000 };
  session = 0;
}

pub k-IsToken : IsToken (codes "k")
unfolding avoids
k-IsToken = avoids-IsToken _ _ refl

k-IsWord : IsWord underscore (codes "k")
unfolding avoids
k-IsWord = avoids-IsWord underscore _ _ refl

five_fits : handle_string 5 ≡ ok five_text
unfolding handle_string poke put_front overwrite decimal decimal_loop print_int
five_fits = refl

pub ready :
    Uploadable listed plain_laws shifted_speaks appending_laws [] held.0 sized one_piece
      (of_byte 7)
      draws
      5
      (codes "k")
      (codes "hi" ++ (0 ∷ []))
      five_text
      (codes "3")
      1
      start
unfolding c_string get_value atoi digits digits_value same grouped
ready = record {
  drawn = draws-IsDrawn;
  key_16 = refl;
  message_fits = omega arith;
  total_fits = omega arith;
  id_token = k-IsToken;
  id_word = k-IsWord;
  handle_fits = omega arith;
  handle_is = five_fits;
  root_is = refl;
  counted = refl;
  counter_fits = omega arith;
}

abbrev needed : ℕ
needed =
    49
    + 4 * 1
    + (base64_size (length (key_bytes (ae_keygen (of_byte 7) 1) ++ (1 ∷ [])))
        + base64_size 84
        + base64_size (33 + length (codes "hi") + 1 * layer_size)
        + base64_size 15)

room : HasRoom listed start.store needed
unfolding key_bytes le32 ae_keygen base64_size
room = record {
  site_room = omega (arith, sized-length 2000);
  client_room = omega (arith, sized-length 2000);
}

pub hi-IsText : IsText (codes "hi")
hi-IsText = ((λ e. omega arith), ((λ e. omega arith), tt))

abbrev pub link : Peer
link = peer listed plain shifted [] held.0 sized one_piece

download-upload_example :
    (w1 : World plain link shifted appending) × (updatable_encrypt_and_upload plain link shifted
        appending 1
        (of_byte 7)
        draws
        5
        (codes "k")
        (codes "hi" ++ (0 ∷ []))
        1
        start
      ≡ ok w1)
    × (w2 : World plain link shifted appending) × (updatable_download_and_decrypt plain link shifted
          appending 1 sized
          (codes "k")
          w1
        ≡ ok (some (codes "hi"), w2))
unfolding ae_keygen
download-upload_example =
    download-upload listed plain_laws shifted_speaks appending_laws [] held.0 sized one_piece 1 0 0
      (of_byte 7) draws 5 (codes "k") (codes "hi") five_text (codes "3")
      (key_bytes (ae_keygen (of_byte 7) 1) ++ (1 ∷ []))
      (key_bytes (ae_keygen (of_byte 7) 1) ++ (1 ∷ [])) 1 sized start 0 0 ready hi-IsText
      sized-length (Wraps.done refl) (omega arith) (Unwraps.done refl) (omega arith) room

bump_version-fits_example :
    (bump_version listed (codes "ctxt_version_k") site_state.db
      ≡ ok (
          set_value listed
            (codes "ctxt_version_k")
            (print_int (atoi (codes "3") + 1))
            site_state.db))
    ↔ HasNine (atoi (codes "3") + 1)
unfolding get_value same
bump_version-fits_example =
    bump_version-fits listed (codes "ctxt_version_k") (codes "3") site_state.db refl

setall-setall_values_example :
    (after : Ends listed) × (setall link shifted ((codes "a", codes "v") ∷ []) start.store
      ≡ ok after)
    × Left listed (record site_state { db = site_state.db }) start.store after
unfolding setall_values find_root pairs same avoids encoded grouped
setall-setall_values_example =
    setall-setall_values listed plain shifted [] held.0 sized one_piece
      (codes "a", codes "v", grouped (codes "v")) [] false site_state.db start.store (refl, tt)
      (avoids-IsToken _ _ refl, (avoids-IsToken _ _ refl, tt)) refl
      (record {
        site_room = omega (arith, sized-length 2000);
        client_room = omega (arith, sized-length 2000);
      })

getall-Found_example :
    (after : Ends listed) × (getall link shifted (codes "ctxt_version_k" ∷ []) start.store
      ≡ ok (decoded shifted (codes "3") ∷ [], after))
    × Left listed site_state start.store after
unfolding get_value same avoids
getall-Found_example =
    getall-Found listed plain shifted [] held.0 sized one_piece (codes "ctxt_version_k", codes "3")
      [] start.store (refl, tt) (omega arith) (avoids-IsToken _ _ refl, tt)
      (avoids-IsToken _ _ refl, tt)
      (record {
        site_room = omega (arith, sized-length 2000);
        client_room = omega (arith, sized-length 2000);
      })
      (record {
        site_room = omega (arith, sized-length 2000);
        client_room = omega (arith, sized-length 2000);
      })
