-- ===== src/Wire/Stores.antt =====
-- setall and getall of the client over the connection: what they do to the server's store.
use quicke_r.Prelude.{
  ℕ, ◌+◌, ◌*◌, ◌≤◌, ◌≡◌, ◌≢◌, refl, ap, ◌∙◌, Bool, true, false, List, [], ◌∷◌, ◌++◌, append_assoc,
  Bytes, codes, length, length-append, All, All-append, map, ◌==◌, Bool-cases, inl, inr, arith,
}
use quicke_r.Memory.{ok}
use quicke_r.Crypto.Evp.{Evp}
use quicke_r.Text.Split.{space, split_by_space, join}
use quicke_r.Nested.Layout.{CtHatDataEn}
use quicke_r.Server.Redis.{Redis}
use quicke_r.Server.Values.{c_string, setall_values}
use quicke_r.Server.Values.Found.{Found, getall_values-Found}
use quicke_r.Server.Update.{Base64}
use quicke_r.Server.Commands.{current_root_key, State, flag, run_command}
use quicke_r.Server.Commands.Batch.{run_command-setall, run_command-getall}
use quicke_r.Server.Commands.Reply.{IsText, c_string-text, c_string-stale}
use quicke_r.Client.{setall, getall}
use quicke_r.Client.Words.{
  Entry, sent, words_of, IsEncoded, setall_text, setall_request-join, getall_text,
  getall_request-join,
}
use quicke_r.Client.Replies.{decoded, getall-decodes, setall-sends}
use quicke_r.Wire.{Network, Ends, peer}
use quicke_r.Wire.Tokens.{IsToken, join-IsText, split_by_space-join, setall_IsToken, getall_IsToken}
use quicke_r.Wire.Exchange.{Reads, exchange_lem}

pub Reads_text : (result : Bytes) → IsText result → Reads result (λ t. Unit)
Reads_text result h y rest = elim (Bool-cases (y == 0)) [
  | inl ended ↦ (result, rw ended at (c_string-stale result rest y h), h, omega arith, tt)
  | inr other ↦
      let y_ne : y ≢ 0 = ground (arith, other) in
      (
        result ++ (y ∷ []),
        rw other at (c_string-stale result rest y h),
        All-append _ result (y ∷ []) h (y_ne, tt),
        omega (arith, length-append result (y ∷ [])),
        tt,
      )
]

Reads_ended : (v : Bytes) → IsText v → Reads (v ++ (0 ∷ [])) (λ t. t ≡ v)
Reads_ended v h y rest = (
  v,
  ap c_string (append_assoc v (0 ∷ []) (y ∷ 0 ∷ rest)) ∙ c_string-text v (y ∷ 0 ∷ rest) h,
  h,
  omega (arith, length-append v (0 ∷ [])),
  refl,
)

flag-IsText : (stored : Bool) → IsText (flag stored)
unfolding flag
flag-IsText true = ((λ e. omega arith), tt)
flag-IsText false = tt

length-flag : (stored : Bool) → length (flag stored) ≤ 1
unfolding flag
length-flag true = omega arith
length-flag false = omega arith

module _ (r : Redis) where
  -- Both buffers have so many bytes at least.
  pub record HasRoom (w : Ends r) (k : ℕ) : Type 0 where
    pub site_room : k ≤ length w.site.buff
    pub client_room : k ≤ length w.client

  -- The server's state is `st`, and the buffers have the sizes that they had.
  pub record Left (st : State r) (w after : Ends r) : Type 0 where
    pub state_is : after.site.state ≡ st
    pub site_size : length after.site.buff ≡ length w.site.buff
    pub client_size : length after.client ≡ length w.client

module _ (r : Redis) (e : Evp) (b : Base64) (drawn_iv : Bytes) (hat2 : CtHatDataEn)
    (alloc : ℕ → Bytes) (n : Network) where
  -- The client's setall does to the store what SETALL does with the keys and the encoded values,
  -- whether the server stores them or refuses.
  pub setall-setall_values :
      (t : Entry) (ts : List Entry) (stored : Bool) (db : r.Db) (w : Ends r)
      → IsEncoded b (t ∷ ts)
      → All IsToken (words_of (t ∷ ts))
      → setall_values r (current_root_key r w.site.state) (words_of (t ∷ ts)) w.site.state.db
        ≡ ok (stored, db)
      → HasRoom r w (length (setall_text b (t ∷ ts)) + 5)
      → (after : Ends r) × (setall (peer r e b drawn_iv hat2 alloc n) b (sent (t ∷ ts)) w
          ≡ ok after)
        × Left r (record w.site.state { db = db }) w after
  setall-setall_values t ts stored db w encoded tokens h room =
      let words : List Bytes = codes "SETALL" ∷ words_of (t ∷ ts) in
      let is_tokens : All IsToken words = (setall_IsToken, tokens) in
      let x =
        exchange_lem r e b drawn_iv hat2 alloc n (λ v. Unit) (setall_text b (t ∷ ts)) (flag stored)
          (record w.site.state { db = db }) w (join-IsText words is_tokens)
          (ap (λ ws. run_command r e b drawn_iv hat2 alloc ws w.site.state)
              (split_by_space-join words is_tokens)
            ∙ (run_command-setall r e b drawn_iv hat2 alloc (words_of (t ∷ ts)) w.site.state stored
                db h))
          (Reads_text (flag stored) (flag-IsText stored)) (omega (arith, room.site_room))
          (omega (arith, room.site_room, length-flag stored)) (omega (arith, room.client_room))
          (omega (arith, room.client_room, length-flag stored)) in
      (
        x.after,
        setall-sends (peer r e b drawn_iv hat2 alloc n) b (sent (t ∷ ts))
            (setall_text b (t ∷ ts) ++ (0 ∷ [])) x.text w x.after
            (setall_request-join b t ts encoded) x.runs,
        record { state_is = x.state_is; site_size = x.site_size; client_size = x.client_size },
      )

  -- The client's getall gives what the stored texts decode to, and leaves the server's state as it
  -- was, when the client's malloc gives the array of the sizes four usable bytes for each key.
  pub getall-Found :
      (kv : Bytes × Bytes) (kvs : List (Bytes × Bytes)) (w : Ends r)
      → Found r w.site.state.db (kv ∷ kvs)
      → 4 * length (map (λ x. x.0) (kv ∷ kvs)) ≤ n.usable (length (map (λ x. x.0) (kv ∷ kvs)))
      → All IsToken (map (λ x. x.0) (kv ∷ kvs))
      → All IsToken (map (λ x. x.1) (kv ∷ kvs))
      → HasRoom r w (length (getall_text (map (λ x. x.0) (kv ∷ kvs))) + 3)
      → HasRoom r w (length (join space (map (λ x. x.1) (kv ∷ kvs))) + 5)
      → (after : Ends r) × (getall
            (peer r e b drawn_iv hat2 alloc n)
            b
            (map (λ x. x.0) (kv ∷ kvs))
            w
          ≡ ok (map (λ x. decoded b x.1) (kv ∷ kvs), after))
        × Left r w.site.state w after
  getall-Found kv kvs w found usable keys values room_t room_v =
      let names : List Bytes = map (λ x. x.0) kvs in
      let words : List Bytes = codes "GETALL" ∷ kv.0 ∷ names in
      let is_tokens : All IsToken words = (getall_IsToken, keys) in
      let texts : List Bytes = map (λ x. x.1) (kv ∷ kvs) in
      let listed = getall_values-Found r w.site.state.db (kv ∷ kvs) found in
      let text_v : IsText (join space texts) = join-IsText texts values in
      let len = length-append (join space texts) (0 ∷ []) in
      let x =
        exchange_lem r e b drawn_iv hat2 alloc n (λ v. v ≡ join space texts)
          (getall_text (kv.0 ∷ names)) (join space texts ++ (0 ∷ [])) w.site.state w
          (join-IsText words is_tokens)
          (ap (λ ws. run_command r e b drawn_iv hat2 alloc ws w.site.state)
              (split_by_space-join words is_tokens)
            ∙ (rw listed at (run_command-getall r e b drawn_iv hat2 alloc kv.0 names w.site.state)))
          (Reads_ended (join space texts) text_v) (omega (arith, room_t.site_room))
          (omega (arith, room_v.site_room, len)) (omega (arith, room_t.client_room))
          (omega (arith, room_v.client_room, len)) in
      (
        x.after,
        getall-decodes (peer r e b drawn_iv hat2 alloc n) b (kv ∷ kvs) x.text w x.after
            (rw (getall_request-join kv.0 names) x.runs)
            (ap split_by_space x.holds ∙ split_by_space-join texts values) usable,
        record { state_is = x.state_is; site_size = x.site_size; client_size = x.client_size },
      )
