-- ===== src/Examples/MachineRuns.antt =====
-- An update machine over one ciphertext.
use quicke_r.Prelude.{ℕ, ◌+◌, ◌*◌, ◌≡◌, refl, some, [], ◌∷◌, ◌++◌, Bytes, codes, length, arith}
use quicke_r.Nested.Encrypt.{ae_keygen}
use quicke_r.Nested.Layout.{layer_size, le32}
use quicke_r.Server.Turn.{Site}
use quicke_r.Text.Int.{atoi}
use quicke_r.Actions.{key_bytes}
use quicke_r.Actions.Loops.Ends.{Wraps}
use quicke_r.Server.Update.Recode.{base64_size}
use quicke_r.Wire.{Ends}
use quicke_r.Wire.Kept.{Kept}
use quicke_r.Wire.Replaced.{Stays}
use quicke_r.Wire.Upload.{upload-Kept}
use quicke_r.Machines.{Visit, KeyList, Crew}
use quicke_r.Machines.Visits.{Item}
use quicke_r.Examples.PlainEvp.{plain_laws}
use quicke_r.Examples.NestedRuns.{draws, of_byte, held}
use quicke_r.Examples.ServerRuns.{listed}
use quicke_r.Examples.PlainWire.{
  shifted_faithful, shifted_speaks, one_piece, appending, appending_laws,
}
use quicke_r.Examples.WireRuns.{sized, sized-length, start, ready, five_text}
use quicke_r.Examples.JourneyRuns.{second, around}

-- The server after an upload.
abbrev wrapped_key : Bytes
wrapped_key = key_bytes (ae_keygen (of_byte 7) 1) ++ (1 ∷ [])

wrapped_21 : length wrapped_key ≡ 21
unfolding key_bytes ae_keygen le32
wrapped_21 = refl

uploaded :
    (after : Ends listed) × Kept listed plain_laws shifted_faithful appending_laws
      (codes "k")
      5
      (codes "hi" ++ (0 ∷ []))
      (ae_keygen (of_byte 7) 1)
      wrapped_key
      0
      (1 * layer_size)
      (atoi (codes "3") + 1)
      after.site.state.db
    × Stays listed (codes "k") start.store after
unfolding base64_size
uploaded =
    let (after, ran, kept, stays) =
      upload-Kept listed plain_laws shifted_speaks appending_laws [] held.0 sized one_piece 1 0
        (of_byte 7) draws 5 (codes "k") (codes "hi" ++ (0 ∷ [])) five_text (codes "3") wrapped_key 1
        start 0 ready (Wraps.done refl) (omega arith)
        (record {
          site_room = omega (arith, sized-length 2000, wrapped_21);
          client_room = omega (arith, sized-length 2000, wrapped_21);
        }) in
    (after, kept, stays)

abbrev sites : Bytes → Site listed
sites address = uploaded.0.site

abbrev item : ℕ → Item
item k = record { id = codes "k"; t = codes "hi"; address = codes "s"; handle = 5 }

abbrev keys : KeyList
keys = some (codes "k", codes "s") ∷ []

abbrev visits : ℕ → Visit
visits k = record {
  before = around;
  network = one_piece;
  draws = second;
  stack = [];
  after = around;
}

abbrev crews : ℕ → Crew appending
crews i = record { client = sized 2000; session = 0; stale = [] }
