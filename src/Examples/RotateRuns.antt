-- ===== src/Examples/RotateRuns.antt =====
-- The operations that are not updatable, at small inputs.
use quicke_r.Prelude.{
  ◌+◌, ℕ, ◌≡◌, ◌≢◌, refl, ap, ◌∙◌, true, some, [], ◌∷◌, ◌++◌, Bytes, codes, All, replicate,
  length-replicate, arith,
}
use quicke_r.Memory.{ok}
use quicke_r.Text.Split.{space}
use quicke_r.Client.{Peer, getall}
use quicke_r.Client.Replies.{getall-decodes, decoded}
use quicke_r.Wire.Tokens.{IsToken, split_by_space-join}
use quicke_r.Actions.{World, wrap_id, data_id}
use quicke_r.Actions.Naive.{encrypt_and_upload, download_and_decrypt}
use quicke_r.Actions.Naive.Law.{
  naive_ciphertext, encrypt_and_upload-never_stores, download_and_decrypt-Sealed,
}
use quicke_r.Examples.NestedRuns.{of_byte}
use quicke_r.Wire.Values.{decoded_text}
use quicke_r.Actions.Download.{held_value}
use quicke_r.Actions.Loops.{unwrap_loop}
use quicke_r.Examples.PlainEvp.{plain, plain_laws}
use quicke_r.Examples.PlainWire.{shifted, shifted_faithful, shifted_speaks, appending}

abbrev silent : Peer
silent = record {
  World = ℕ;
  serve = λ request w. ok ([], w);
  serve_own = λ request w. ok ([], w);
  usable = λ k. k + 24;
}

-- A server that has one answer, the texts of a wrapped key and of a ciphertext.
abbrev made : Bytes
made = naive_ciphertext plain_laws silent shifted appending (of_byte 1) (of_byte 2) (codes "abc")

abbrev pair_peer : Peer
pair_peer = record {
  World = ℕ;
  serve_own = λ request w. ok ([], w);
  usable = λ k. k + 24;
  serve = λ request w.
      ok (shifted_faithful.text (of_byte 1 ++ (1 ∷ [])) ++ (space ∷ shifted_faithful.text made), w);
}

abbrev waiting : World plain pair_peer shifted appending
waiting = record { store = 0; session = 0 }

abbrev sized : ℕ → Bytes
sized n = replicate n 0

abbrev wrapped_16 : Bytes
wrapped_16 = of_byte 1 ++ (1 ∷ [])

pair_texts : All IsToken (shifted_faithful.text wrapped_16 ∷ shifted_faithful.text made ∷ [])
pair_texts =
    (shifted_speaks.token wrapped_16 (omega arith), (shifted_speaks.token made (omega arith), tt))

pair_got :
    getall pair_peer shifted (wrap_id (codes "k") ∷ data_id (codes "k") ∷ []) 0
    ≡ ok (held_value wrapped_16 ∷ held_value made ∷ [], 0)
pair_got =
    getall-decodes pair_peer shifted
      ((wrap_id (codes "k"), shifted_faithful.text wrapped_16)
        ∷ (data_id (codes "k"), shifted_faithful.text made)
        ∷ [])
      _ 0 0 refl (split_by_space-join _ pair_texts) (omega arith)
    ∙ ap (λ v. ok (v ∷ decoded shifted (shifted_faithful.text made) ∷ [], 0))
        (decoded_text shifted_speaks wrapped_16 (omega arith))
    ∙ ap (λ v. ok (held_value wrapped_16 ∷ v ∷ [], 0))
        (decoded_text shifted_speaks made (omega arith))

unwrapped_16 : unwrap_loop appending 1 5 wrapped_16 0 ≡ ok (of_byte 1 ++ (1 ∷ []), 0)
unfolding unwrap_loop
unwrapped_16 = refl

download_and_decrypt-Sealed_example :
    download_and_decrypt plain pair_peer shifted appending 1 sized (codes "k") 5 waiting
    ≡ ok (some (some 3, codes "abc"), record { store = 0; session = 0 })
download_and_decrypt-Sealed_example =
    download_and_decrypt-Sealed plain_laws pair_peer shifted appending 1 sized (codes "k") 5
      wrapped_16 (of_byte 1) (1 ∷ []) (of_byte 2) (codes "abc") waiting 0 0
      (λ n. length-replicate n 0) refl refl (omega arith) pair_got unwrapped_16

encrypt_and_upload-never_stores_example :
    encrypt_and_upload plain pair_peer shifted appending 1
      (of_byte 1)
      (of_byte 2)
      (of_byte 3)
      5
      (codes "k")
      (codes "abc")
      waiting
    ≢ ok (true, waiting)
encrypt_and_upload-never_stores_example =
    encrypt_and_upload-never_stores plain pair_peer shifted appending 1 5 (of_byte 1) (of_byte 2)
      (of_byte 3) (codes "k") (codes "abc") waiting waiting
