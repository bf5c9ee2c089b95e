-- ===== src/Examples/JourneyRuns.antt =====
-- The life of a ciphertext at the server, at small inputs.
use quicke_r.Prelude.{
  ◌+◌, ◌≡◌, ◌<◌, ◌∙◌, ap, refl, some, List, [], ◌∷◌, ◌++◌, codes, length, length-append, All, arith,
}
use quicke_r.Memory.{ok}
use quicke_r.Text.Decimal.{digits_value, decimal, digits}
use quicke_r.Text.Int.{atoi}
use quicke_r.Server.Values.{get_value, ctxt_version}
use quicke_r.Actions.{updatable_encrypt_and_upload}
use quicke_r.Actions.Loops.Answers.{Answers}
use quicke_r.Actions.Loops.Ends.{Wraps, Reopens}
use quicke_r.Server.Update.Recode.{base64_size}
use quicke_r.Wire.Rekeyed.{Draws, IsGood}
use quicke_r.Wire.Upload.{System}
use quicke_r.Wire.Calls.{Around, Call, Parties}
use quicke_r.Wire.Traffic.{Request, call, upload, IsRequest, changes, InBudget, run_requests}
use quicke_r.Wire.Journey.{run_requests-updatable_encrypt_and_upload}
use quicke_r.Examples.PlainEvp.{plain, plain_laws}
use quicke_r.Examples.NestedRuns.{draws, draws-IsDrawn, of_byte, held, next, next-IsUpdate}
use quicke_r.Examples.ServerRuns.{listed}
use quicke_r.Examples.PlainWire.{shifted, shifted_speaks, one_piece, appending, appending_laws}
use quicke_r.Examples.WireRuns.{sized, sized-length, start, link, ready, hi-IsText, five_text}

abbrev pub answering : Answers appending_laws 1
answering = record {
  size = λ n. n + 1;
  length-is = λ handle text wrapped h. ap length h ∙ length-append text (1 ∷ []);
  wraps = λ handle text s. (0, text ++ (1 ∷ []), s, Wraps.done refl, omega arith);
  reopens = λ handle text wrapped s h. (0, wrapped, s, Reopens.done refl, omega arith);
}

abbrev pub second : Draws
second = record {
  key = of_byte 12;
  total = 0;
  draws = next.rekey;
  iv = next.iv;
  hat2 = held.0;
  alloc = sized;
}

pub second-IsGood : IsGood second
second-IsGood = record {
  key_16 = refl;
  total_fits = omega arith;
  drawn = next-IsUpdate.rekey_ok;
  iv_16 = refl;
  history_some = next-IsUpdate.history_ne_zero;
  sized = sized-length;
}

abbrev pub around : Around
around = record { network = one_piece; iv = []; hat2 = held.0; alloc = sized; buffers = sized }

abbrev look : Request
look = call (Call.download around)

abbrev again : Request
again = upload one_piece [] held.0 sized (of_byte 7) draws

abbrev requests : List Request
requests = look ∷ call (Call.update one_piece second []) ∷ look ∷ again ∷ look ∷ []

requests-IsRequest : All IsRequest requests
requests-IsRequest =
    (sized-length, (second-IsGood, (sized-length, ((refl, draws-IsDrawn), (sized-length, tt)))))

in_budget : InBudget 1 1 requests
in_budget = (omega arith, tt)

counter_small : atoi (codes "3") + 1 + changes requests < 1000000000
unfolding atoi digits digits_value
counter_small = omega arith

run_requests-updatable_encrypt_and_upload_example :
    (w1 : System listed plain_laws shifted_speaks appending_laws [] held.0 sized one_piece)
    × (updatable_encrypt_and_upload plain link shifted appending 1
          (of_byte 7)
          draws
          5
          (codes "k")
          (codes "hi" ++ (0 ∷ []))
          1
          start
        ≡ ok w1)
    × (x : Parties listed plain shifted appending) × (run_requests listed plain shifted appending 1
          (codes "k")
          5
          (codes "hi" ++ (0 ∷ []))
          1
          requests
          (w1.store, w1.session)
        ≡ ok (some (codes "hi") ∷ some (codes "hi") ∷ some (codes "hi") ∷ [], x))
    × (get_value listed (ctxt_version ++ codes "k") x.0.site.state.db
        ≡ some (decimal (atoi (codes "3") + 1 + 2)))
unfolding base64_size
run_requests-updatable_encrypt_and_upload_example =
    run_requests-updatable_encrypt_and_upload listed plain_laws shifted_speaks appending_laws []
      held.0 sized one_piece 1 answering (of_byte 7) draws 5 (codes "k") (codes "hi") five_text
      (codes "3") 1 requests start ready hi-IsText requests-IsRequest in_budget counter_small
      (omega arith)
      (record {
        site_room = omega (arith, sized-length 2000);
        client_room = omega (arith, sized-length 2000);
      })
