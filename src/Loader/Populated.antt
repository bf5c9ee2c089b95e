-- ===== src/Loader/Populated.antt =====
-- What the servers hold after the loader.
use quicke_r.Prelude.{
  ℕ, suc, ◌+◌, ◌*◌, ◌≤◌, ◌<◌, ◌≡◌, refl, sym, ap, subst, ◌∙◌, some, List, [], ◌∷◌, ◌++◌, Bytes,
  codes, length, le→leb, lt→ltb, All, arith,
}
use quicke_r.Memory.{ok, ◌>>=◌}
use quicke_r.Crypto.Evp.{Evp}
use quicke_r.Text.Split.{space, join}
use quicke_r.Nested.Layout.{CtHatDataEn}
use quicke_r.Server.Redis.{Redis}
use quicke_r.Server.Update.{Base64}
use quicke_r.Server.Commands.{State, populate_keys, run_command}
use quicke_r.Server.Commands.Populate.{run_command-savedata, run_command-populate}
use quicke_r.Client.{savedata, populate}
use quicke_r.Client.Replies.{savedata-sends, populate-sends}
use quicke_r.Client.Requests.{savedata_request, populate_request}
use quicke_r.Wire.{Network, Ends, exchange, peer}
use quicke_r.Wire.Tokens.{IsToken, avoids, avoids-IsToken, join-IsText, split_by_space-join}
use quicke_r.Wire.Exchange.{Exchanged, exchange_lem}
use quicke_r.Wire.Stores.{Reads_text, HasRoom, Left}
use quicke_r.Machines.Share.{share, share_more}
use quicke_r.Loader.{Types, list_text, listbuf_size, populate_types}
use quicke_r.Loader.Lists.{prefixed, list_loop-join, length-share, length-prefixed, prefixed-tokens}

saved_text :
    (value : Bytes)
    → savedata_request value ≡ join space (codes "SAVEDATA" ∷ value ∷ []) ++ (0 ∷ [])
unfolding savedata_request
saved_text value = refl

module _ (r : Redis) (e : Evp) (b : Base64) (drawn_iv : Bytes) (hat2 : CtHatDataEn)
    (alloc : ℕ → Bytes) (n : Network) where
  -- A request of a command and words is answered by "0".
  answered :
      (command : Bytes) (words : List Bytes) (st : State r) (w : Ends r)
      → All IsToken (command ∷ words)
      → run_command r e b drawn_iv hat2 alloc (command ∷ words) w.site.state
        ≡ ok (some (codes "0", st))
      → HasRoom r w (length (join space (command ∷ words)) + 5)
      → Exchanged r e b drawn_iv hat2 alloc n (λ v. Unit) (join space (command ∷ words)) st w
  answered command words st w tokens ran room =
      exchange_lem r e b drawn_iv hat2 alloc n (λ v. Unit) (join space (command ∷ words))
        (codes "0") st w (join-IsText (command ∷ words) tokens)
        (ap (λ ws. run_command r e b drawn_iv hat2 alloc ws w.site.state)
            (split_by_space-join (command ∷ words) tokens)
          ∙ ran)
        (Reads_text (codes "0") ((λ e. omega arith), tt)) (omega (arith, room.site_room))
        (omega (arith, room.site_room)) (omega (arith, room.client_room))
        (omega (arith, room.client_room))

  saved :
      (value : Bytes) (w : Ends r)
      → IsToken value
      → HasRoom r w (length value + 14)
      → (after : Ends r) × (savedata (peer r e b drawn_iv hat2 alloc n) b value w ≡ ok after)
        × Left r (record w.site.state { savebuf = value }) w after
  unfolding savedata_request avoids
  saved value w token room =
      let x =
        answered (codes "SAVEDATA") (value ∷ []) (record w.site.state { savebuf = value }) w
          (avoids-IsToken _ _ refl, (token, tt))
          (run_command-savedata r e b drawn_iv hat2 alloc value w.site.state)
          (record {
            site_room = omega (arith, room.site_room);
            client_room = omega (arith, room.client_room);
          }) in
      (
        x.after,
        savedata-sends (peer r e b drawn_iv hat2 alloc n) b value x.text w x.after
            (ap (λ q. exchange r e b drawn_iv hat2 alloc n q w) (saved_text value) ∙ x.runs),
        record { state_is = x.state_is; site_size = x.site_size; client_size = x.client_size },
      )

  listed :
      (names : List Bytes) (w : Ends r)
      → All IsToken names
      → HasRoom r w (length (join space (codes "POPULATE" ∷ names)) + 5)
      → (join space (codes "POPULATE" ∷ names) ≡ codes "POPULATE " ++ join space names)
      → (after : Ends r) × (populate (peer r e b drawn_iv hat2 alloc n) b (join space names) w
          ≡ ok after)
        × Left r
            (record w.site.state {
              db = populate_keys r names w.site.state.savebuf w.site.state.db;
            })
            w
            after
  unfolding populate_request avoids
  listed names w tokens room text =
      let x =
        answered (codes "POPULATE") names
          (record w.site.state { db = populate_keys r names w.site.state.savebuf w.site.state.db })
          w (avoids-IsToken _ _ refl, tokens)
          (run_command-populate r e b drawn_iv hat2 alloc names w.site.state) room in
      (
        x.after,
        populate-sends (peer r e b drawn_iv hat2 alloc n) b (join space names) x.text w x.after (
            ap (λ q. exchange r e b drawn_iv hat2 alloc n q w) (ap (λ s. s ++ (0 ∷ [])) (sym text))
            ∙ x.runs),
        record { state_is = x.state_is; site_size = x.site_size; client_size = x.client_size },
      )

-- What a server's store has after the types of values were stored for the keys of a share.
abbrev pub loaded : (r : Redis) → Types → List ℕ → r.Db → r.Db
loaded r [] js db = db
loaded r ((prefix, value) ∷ types) js db =
    loaded r types js (populate_keys r (prefixed prefix js) value db)

-- The prefix and the value are words, the prefix is no longer than the longest, and the value's
-- request fits.
abbrev pub IsType : ℕ → Bytes × Bytes → Type 0
IsType k t = IsToken t.0 × IsToken t.1 × (length t.0 ≤ 13) × (length t.1 + 14 ≤ k)

module _ (r : Redis) (e : Evp) (b : Base64) (drawn_iv : Bytes) (hat2 : CtHatDataEn)
    (alloc : ℕ → Bytes) (n : Network) where
  list_text-join :
      (prefix : Bytes) (i count total : ℕ)
      → 1 ≤ count
      → length prefix ≤ 13
      → 19 * (total + 1) < listbuf_size
      → list_text prefix i count total
        ≡ ok (join space (prefixed prefix (share (suc total) i count total)))
  unfolding list_text
  list_text-join prefix i count total some_server short small =
      let is =
        list_loop-join (suc total) i count total prefix some_server (omega arith) (omega arith) in
      let js : List ℕ = share (suc total) i count total in
      let fits =
        le→leb (length (join space (prefixed prefix js)) + 1) listbuf_size (
          omega (arith, length-prefixed prefix js short, length-share (suc total) i count total)) in
      rw (list_text, is, fits) refl

  one_type :
      (prefix value : Bytes) (k i count total : ℕ) (js : List ℕ) (w : Ends r)
      → share (suc total) i count total ≡ i ∷ js
      → IsType k (prefix, value)
      → 19 * (total + 1) + 14 ≤ k
      → HasRoom r w k
      → (saved_at : Ends r) × (after : Ends r) × (savedata
            (peer r e b drawn_iv hat2 alloc n)
            b
            value
            w
          ≡ ok saved_at)
        × (populate
              (peer r e b drawn_iv hat2 alloc n)
              b
              (join space (prefixed prefix (i ∷ js)))
              saved_at
            ≡ ok after)
        × (after.site.state.db ≡ populate_keys r (prefixed prefix (i ∷ js)) value w.site.state.db)
        × HasRoom r after k
  one_type prefix value k i count total js w is t enough room =
      let names : List Bytes = prefixed prefix (i ∷ js) in
      let (w1, first, left1) = saved r e b drawn_iv hat2 alloc n value w t.1 (record {
        site_room = omega (arith, room.site_room, t.3);
        client_room = omega (arith, room.client_room, t.3);
      }) in
      let few : length (i ∷ js) ≤ suc total =
        subst (λ ks. length ks ≤ suc total) is (length-share (suc total) i count total) in
      let size : length (join space names) ≤ 19 * length (i ∷ js) =
        length-prefixed prefix (i ∷ js) t.2 in
      let (w2, second, left2) =
        listed r e b drawn_iv hat2 alloc n names w1 (prefixed-tokens prefix (i ∷ js) t.0)
          (record {
            site_room = omega (arith, room.site_room, left1.site_size, size, few, enough);
            client_room = omega (arith, room.client_room, left1.client_size, size, few, enough);
          })
          refl in
      (
        w1,
        w2,
        first,
        second,
        ap (λ st. st.db) left2.state_is
            ∙ ap (λ st. populate_keys r names st.savebuf st.db) left1.state_is,
        record {
          site_room = omega (arith, room.site_room, left1.site_size, left2.site_size);
          client_room = omega (arith, room.client_room, left1.client_size, left2.client_size);
        },
      )

  -- What the loader sends to a server with at least one key leaves the values of all types at the
  -- keys of its share.
  pub populate_types-loaded :
      (types : Types) (k i count total : ℕ) (w : Ends r)
      → All (IsType k) types
      → 1 ≤ count
      → i < total
      → 19 * (total + 1) < listbuf_size
      → 19 * (total + 1) + 14 ≤ k
      → HasRoom r w k
      → (after : Ends r) × (populate_types
            (peer r e b drawn_iv hat2 alloc n)
            b
            types
            i
            count
            total
            w
          ≡ ok after)
        × (after.site.state.db ≡ loaded r types (share (suc total) i count total) w.site.state.db)
        × HasRoom r after k
  unfolding populate_types
  populate_types-loaded [] k i count total w t some_server below small enough room =
      (w, refl, refl, room)
  populate_types-loaded ((prefix, value) ∷ types) k i count total w t some_server below small enough
        room =
      let js : List ℕ = share total (i + count) count total in
      let is : share (suc total) i count total ≡ i ∷ js =
        share_more total i count total (lt→ltb i total below) in
      let (w1, w2, first, second, db_is, room2) =
        one_type prefix value k i count total js w is t.0 enough room in
      let (w3, rest, db3, room3) =
        populate_types-loaded types k i count total w2 t.1 some_server below small enough room2 in
      let list_is =
        list_text-join prefix i count total some_server t.0.2 small
        ∙ ap (λ ks. ok (join space (prefixed prefix ks))) is in
      (
        w3,
        rw (populate_types, list_is, ◌>>=◌, first, ◌>>=◌, second) rest,
        db3
            ∙ ap (loaded r types (share (suc total) i count total)) (
                db_is
                ∙ ap (λ ks. populate_keys r (prefixed prefix ks) value w.site.state.db) (sym is)),
        room3,
      )
