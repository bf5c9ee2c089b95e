-- ===== src/Examples/DownloadRuns.antt =====
-- A download of an updatable ciphertext from a server that has one answer.
use quicke_r.Prelude.{
  ℕ, ◌+◌, ◌*◌, ◌≤◌, ◌≡◌, refl, ◌∙◌, some, List, [], ◌∷◌, ◌++◌, Bytes, codes, length, replicate,
  length-replicate, arith,
}
use quicke_r.Memory.{ok}
use quicke_r.Text.Split.{space, join}
use quicke_r.Text.Decimal.{digits_value, digits}
use quicke_r.Text.Int.{atoi, ulong}
use quicke_r.Nested.Layout.{layer_size, CtHatDataEn, hat_bytes}
use quicke_r.Nested.Encrypt.{fresh}
use quicke_r.Nested.Encrypt.Law.{ae_encrypt-Holds}
use quicke_r.Nested.Layers.{Holds}
use quicke_r.Nested.Casts.{length-hat_bytes}
use quicke_r.Nested.Chain.Law.{length-Holds}
use quicke_r.Server.Commands.Reply.{IsText}
use quicke_r.Client.{Peer, getall}
use quicke_r.Client.Replies.{getall-decodes}
use quicke_r.Wire.Tokens.{split_by_space-join}
use quicke_r.Wire.Values.{decoded_text, texts_tokens}
use quicke_r.Wire.Accepted.{texts_of}
use quicke_r.Actions.{World, key_bytes, updatable_download_and_decrypt}
use quicke_r.Actions.Loops.{unwrap_loop}
use quicke_r.Actions.Download.{asked_of, held_value, updatable_download_and_decrypt-Holds}
use quicke_r.Examples.PlainEvp.{plain, plain_laws}
use quicke_r.Examples.NestedRuns.{draws, draws-IsDrawn, owner}
use quicke_r.Examples.PlainWire.{shifted, shifted_faithful, shifted_speaks, appending}

abbrev hi : Bytes
hi = codes "hi" ++ (0 ∷ [])

abbrev made :
    (hat : CtHatDataEn) × (ct : Bytes) × Holds plain_laws owner.key hat ct hi 0 (1 * layer_size)
made =
    let x =
      ae_encrypt-Holds plain_laws draws owner hi [] (fresh (32 + 3 + 1 * layer_size)) draws-IsDrawn
        refl (omega arith) (length-replicate {A = ℕ} (32 + 3 + 1 * layer_size) 0) in
    (x.0, x.1, x.3)

abbrev wrapped : Bytes
wrapped = key_bytes owner ++ (1 ∷ [])

abbrev five_text : Bytes
five_text = 53 ∷ replicate 14 0

hat_some : 1 ≤ length (hat_bytes made.0)
hat_some =
    omega (arith, length-hat_bytes plain_laws owner.key made.0 made.1 hi 0 (1 * layer_size) made.2)

ct_some : 1 ≤ length made.1
ct_some = omega (arith, length-Holds plain_laws made.2)

wrapped_some : 1 ≤ length wrapped
unfolding key_bytes
wrapped_some = omega arith

abbrev texts : List Bytes
texts =
    shifted_faithful.text wrapped
    ∷ shifted_faithful.text (hat_bytes made.0)
    ∷ shifted_faithful.text made.1
    ∷ shifted_faithful.text five_text
    ∷ []

abbrev one_answer : Peer
one_answer = record {
  World = ℕ;
  serve = λ request w. ok (join space texts, w);
  serve_own = λ request w. ok ([], w);
  usable = λ k. k + 24;
}

abbrev waiting : World plain one_answer shifted appending
waiting = record { store = 0; session = 0 }

got :
    getall one_answer shifted (asked_of (codes "k")) 0
    ≡ ok (
      held_value wrapped
          ∷ held_value (hat_bytes made.0)
          ∷ held_value made.1
          ∷ held_value five_text
          ∷ [],
      0,
    )
got =
    getall-decodes one_answer shifted
      (texts_of (codes "k") (shifted_faithful.text wrapped)
        (shifted_faithful.text (hat_bytes made.0)) (shifted_faithful.text made.1)
        (shifted_faithful.text five_text))
      _ 0 0 refl
      (split_by_space-join texts (
        texts_tokens shifted_speaks wrapped (hat_bytes made.0) made.1 five_text wrapped_some
          hat_some ct_some (omega arith)))
      (omega arith)
    ∙ rw
        (
          decoded_text shifted_speaks wrapped wrapped_some,
          decoded_text shifted_speaks (hat_bytes made.0) hat_some,
          decoded_text shifted_speaks made.1 ct_some,
          decoded_text shifted_speaks five_text (omega arith),
        )
        refl

unwrapped : unwrap_loop appending 1 5 wrapped 0 ≡ ok (key_bytes owner ++ (1 ∷ []), 0)
unfolding unwrap_loop
unwrapped = refl

reads_five : ulong (atoi five_text) ≡ 5
unfolding atoi digits digits_value ulong
reads_five = refl

hi-IsText : IsText (codes "hi")
hi-IsText = ((λ e. omega arith), ((λ e. omega arith), tt))

updatable_download_and_decrypt-Holds_example :
    updatable_download_and_decrypt plain one_answer shifted appending 1
      (λ n. replicate n 0)
      (codes "k")
      waiting
    ≡ ok (some (codes "hi"), record { store = 0; session = 0 })
updatable_download_and_decrypt-Holds_example =
    updatable_download_and_decrypt-Holds plain_laws one_answer shifted appending 1
      (λ n. replicate n 0) (codes "k") wrapped (1 ∷ []) five_text owner made.0 made.1 (codes "hi") 0
      (1 * layer_size) 5 waiting 0 0 (λ n. length-replicate n 0) (omega arith) reads_five got
      unwrapped made.2 hi-IsText
