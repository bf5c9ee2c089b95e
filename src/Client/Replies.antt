-- ===== src/Client/Replies.antt =====
-- What setall sends, and the values that getall makes of a reply with a word for each key.
use quicke_r.Prelude.{◌*◌, ◌≤◌, ◌≡◌, refl, List, [], ◌∷◌, Bytes, map, length, le→ltb}
use quicke_r.Memory.{ok, ◌>>=◌}
use quicke_r.Text.Split.{split_by_space}
use quicke_r.Server.Update.{Base64}
use quicke_r.Client.{savedata, populate, Peer, Value, decode_values, getall, setall, get, set}
use quicke_r.Client.Requests.{
  savedata_request, populate_request, getall_request, setall_request, get_request, set_request,
}

-- What is made of a word.
abbrev pub decoded : Base64 → Bytes → Value
decoded b v = record { bytes = b.dec v; is_zero = b.dec_zero v }

module _ (p : Peer) (b : Base64) where
  decode_values-words :
      (kvs : List (Bytes × Bytes))
      → decode_values p b (map (λ kv. kv.0) kvs) (map (λ kv. kv.1) kvs)
        ≡ ok (map (λ kv. decoded b kv.1) kvs)
  unfolding decode_values
  decode_values-words [] = refl
  decode_values-words (kv ∷ kvs) = rw (decode_values-words kvs) refl

  pub getall-decodes :
      (kvs : List (Bytes × Bytes)) (text : Bytes) (w w' : p.World)
      → p.serve (getall_request (map (λ kv. kv.0) kvs)) w ≡ ok (text, w')
      → split_by_space text ≡ map (λ kv. kv.1) kvs
      → 4 * length (map (λ kv. kv.0) kvs) ≤ p.usable (length (map (λ kv. kv.0) kvs))
      → getall p b (map (λ kv. kv.0) kvs) w ≡ ok (map (λ kv. decoded b kv.1) kvs, w')
  unfolding getall
  getall-decodes kvs text w w' h words fits =
      rw (getall, h, ◌>>=◌, words, decode_values-words kvs, le→ltb _ _ fits) refl

  pub setall-sends :
      (kvs : List (Bytes × Bytes)) (request text : Bytes) (w w' : p.World)
      → setall_request b kvs ≡ ok request
      → p.serve request w ≡ ok (text, w')
      → setall p b kvs w ≡ ok w'
  unfolding setall
  setall-sends kvs request text w w' made h = rw (setall, made, ◌>>=◌, h) refl

  pub savedata-sends :
      (value text : Bytes) (w w' : p.World)
      → p.serve (savedata_request value) w ≡ ok (text, w')
      → savedata p b value w ≡ ok w'
  unfolding savedata
  savedata-sends value text w w' h = rw (savedata, h) refl

  pub populate-sends :
      (value text : Bytes) (w w' : p.World)
      → p.serve (populate_request value) w ≡ ok (text, w')
      → populate p b value w ≡ ok w'
  unfolding populate
  populate-sends value text w w' h = rw (populate, h) refl

  get-receives :
      (key text : Bytes) (w w' : p.World)
      → p.serve (get_request key) w ≡ ok (text, w')
      → get p b key w ≡ ok (b.dec text, w')
  unfolding get
  get-receives key text w w' h = rw (get, h) refl

  set-sends :
      (key value request text : Bytes) (w w' : p.World)
      → set_request b key value ≡ ok request
      → p.serve request w ≡ ok (text, w')
      → set p b key value w ≡ ok w'
  unfolding set
  set-sends key value request text w w' made h = rw (set, made, ◌>>=◌, h) refl
