-- ===== src/Wire/Calls.antt =====
-- Updates and downloads of a ciphertext, one after the other, each over a network of its own and
-- with draws of its own.
use quicke_r.Server.Commands.{current_root_key}
use quicke_r.Prelude.{
  ℕ, suc, ◌+◌, ◌*◌, ◌^◌, ◌<◌, ◌≡◌, refl, sym, subst, ap, ◌∙◌, Option, some, List, [], ◌∷◌, ◌++◌,
  Bytes, length, length-append, replicate, All, arith,
}
use quicke_r.Memory.{Run, ok, ◌>>=◌}
use quicke_r.Crypto.Evp.{Evp, EvpLaws}
use quicke_r.Nested.Layout.{layer_size, AeKey, CtHatDataEn, le32}
use quicke_r.Nested.Encrypt.{ae_keygen}
use quicke_r.Server.Redis.{Redis}
use quicke_r.Server.Update.{Base64}
use quicke_r.Server.Update.Recode.{base64_size, IsFaithful}
use quicke_r.Server.Commands.Reply.{IsText}
use quicke_r.Hsm.{Hsm, HsmLaws}
use quicke_r.Actions.{
  key_bytes, updatable_update_dek_and_ciphertext, updatable_download_and_decrypt,
}
use quicke_r.Actions.Values.{length-le32}
use quicke_r.Actions.Loops.Ends.{Reopens-Unwraps, Wraps-Wrapped}
use quicke_r.Actions.Loops.Answers.{Answers}
use quicke_r.Wire.{Network, Ends, peer}
use quicke_r.Wire.Tokens.{IsToken}
use quicke_r.Wire.Stores.{HasRoom}
use quicke_r.Wire.Values.{Speaks}
use quicke_r.Wire.Kept.{Kept}
use quicke_r.Wire.Replaced.{Stays, Stays-refl, Stays-trans}
use quicke_r.Wire.Rekeyed.{Draws, IsGood, update-Kept}
use quicke_r.Wire.Download.{download-Kept}

-- What a download meets: the network, what the server would draw and has in its allocations, and
-- what the client has in its own.
pub record Around : Type 0 where
  pub network : Network
  pub iv : Bytes
  pub hat2 : CtHatDataEn
  pub alloc : ℕ → Bytes
  pub buffers : ℕ → Bytes

-- An update, with the bytes of the stack that it may send, or a download.
pub data Call : Type 0 where
  update : Network → Draws → Bytes → Call
  download : Around → Call

abbrev pub updates : List Call → ℕ
updates [] = 0
updates (update n u stack ∷ cs) = suc (updates cs)
updates (download o ∷ cs) = updates cs

abbrev pub downloads : List Call → ℕ
downloads [] = 0
downloads (update n u stack ∷ cs) = downloads cs
downloads (download o ∷ cs) = suc (downloads cs)

-- The draws of an update are good, the allocations of a download have the size asked for.
abbrev pub IsCall : Call → Type 0
IsCall (update n u stack) = IsGood u
IsCall (download o) = (k : ℕ) → length (o.buffers k) ≡ k

module _ (r : Redis) (e : Evp) (b : Base64) (h : Hsm) where
  abbrev pub Parties : Type 0
  Parties = Ends r × h.Session

  -- What the downloads returned. The value that an update returns is not looked at.
  unfoldable pub run_call : ℕ → Bytes → Call → Parties → Run (List (Option Bytes) × Parties)
  run_call patience id (update n u stack) x = do
    out ←
        updatable_update_dek_and_ciphertext e (peer r e b u.iv u.hat2 u.alloc n) b h patience u.key
          u.draws stack id u.total (record { store = x.0; session = x.1 })
    ok ([], (out.1.store, out.1.session))
  run_call patience id (download o) x = do
    out ←
        updatable_download_and_decrypt e (peer r e b o.iv o.hat2 o.alloc o.network) b h patience
          o.buffers id (record { store = x.0; session = x.1 })
    ok (out.0 ∷ [], (out.1.store, out.1.session))

  unfoldable pub run_calls : ℕ → Bytes → List Call → Parties → Run (List (Option Bytes) × Parties)
  unfolding run_call
  run_calls patience id [] x = ok ([], x)
  run_calls patience id (c ∷ cs) x = do
    first ← run_call patience id c x
    rest ← run_calls patience id cs first.1
    ok (first.0 ++ rest.0, rest.1)

module _ (r : Redis) {e : Evp} (l : EvpLaws e) {b : Base64} {f : IsFaithful b} (sp : Speaks f)
    {h : Hsm} (hl : HsmLaws h) (patience : ℕ) (a : Answers hl patience) (id t : Bytes)
    (handle : ℕ) where
  -- What is kept: the text with its NUL, under some key that is wrapped.
  pub record Living (n room count : ℕ) (x : Parties r e b h) : Type 0 where
    pub ae_key : AeKey
    pub wrapped : Bytes
    pub kept : Kept r l f hl id handle (t ++ (0 ∷ [])) ae_key wrapped n room count x.0.site.state.db
    pub wrapped_size : length wrapped ≡ a.size 20

  -- Room for every request and reply about a ciphertext of so many bytes.
  abbrev pub calls_room : ℕ → ℕ
  calls_room ct_length =
      51
      + 4 * length id
      + (base64_size (a.size 20) + base64_size 84 + base64_size 15)
      + (base64_size (a.size 20) + base64_size 184)
      + base64_size ct_length

  pub length-key_bytes :
      (key : Bytes) (total : ℕ) → length key ≡ 16 → length (key_bytes (ae_keygen key total)) ≡ 20
  unfolding key_bytes ae_keygen
  length-key_bytes key total h16 =
      omega (arith, length-append key (le32 total), length-le32 total, h16)

  pub update_lives :
      (n : ℕ) (room count : ℕ) (net : Network) (u : Draws) (stack : Bytes) (x : Parties r e b h)
      → Living n (room + 96) count x
      → IsToken id
      → IsGood u
      → count + 1 < 1000000000
      → 33 + length t + layer_size * n + 96 < 2 ^ 31
      → HasRoom r x.0 (calls_room (33 + length t + layer_size * n + (room + 96)))
      → (x' : Parties r e b h) × (run_call r e b h patience id (update net u stack) x ≡ ok ([], x'))
        × Living (suc n) room (count + 1) x'
        × Stays r id x.0 x'.0
  unfolding run_call
  update_lives n room count net u stack x v id_token g small fits rooms =
      let m_size = length-append t (0 ∷ []) in
      let (j, out, s1, reopens, j_lt) = a.reopens handle _ v.wrapped x.1 v.kept.is_wrapped in
      let (i, wrapped2, s2, wraps, i_lt) =
        a.wraps handle (key_bytes (ae_keygen u.key u.total)) s1 in
      let size2 : length wrapped2 ≡ a.size 20 =
        a.length-is handle _ wrapped2 (Wraps-Wrapped h hl wraps)
        ∙ ap a.size (length-key_bytes u.key u.total g.key_16) in
      let (after, ran, kept, stays) =
        update-Kept r l sp hl u net patience j i stack id (t ++ (0 ∷ [])) v.wrapped out wrapped2
          handle n room count v.ae_key x.0 x.1 s1 s2 v.kept g id_token small (omega (arith, m_size))
          reopens j_lt wraps i_lt
          (record {
            site_room =
                omega (arith, rooms.site_room, ap base64_size v.wrapped_size, ap base64_size size2);
            client_room =
                omega
                  (arith, rooms.client_room, ap base64_size v.wrapped_size, ap base64_size size2);
          }) in
      (
        (after, s2),
        rw (run_call, ran) refl,
        record {
          ae_key = ae_keygen u.key u.total;
          wrapped = wrapped2;
          kept = kept;
          wrapped_size = size2;
        },
        stays,
      )

  pub download_lives :
      (n : ℕ) (room count : ℕ) (o : Around) (x : Parties r e b h)
      → Living n room count x
      → IsToken id
      → IsText t
      → ((k : ℕ) → length (o.buffers k) ≡ k)
      → HasRoom r x.0 (calls_room (33 + length t + layer_size * n + room))
      → (x' : Parties r e b h) × (run_call r e b h patience id (download o) x
          ≡ ok (some t ∷ [], x'))
        × Living n room count x'
        × Stays r id x.0 x'.0
  unfolding run_call
  download_lives n room count o x v id_token text sized rooms =
      let (j, out, s1, reopens, j_lt) = a.reopens handle _ v.wrapped x.1 v.kept.is_wrapped in
      let (after, ran, left) =
        download-Kept r l sp hl o.iv o.hat2 o.alloc o.network patience j id t v.wrapped out handle n
          room count v.ae_key o.buffers x.0 x.1 s1 v.kept id_token text sized
          (Reopens-Unwraps h reopens) j_lt
          (record {
            site_room = omega (arith, rooms.site_room, ap base64_size v.wrapped_size);
            client_room = omega (arith, rooms.client_room, ap base64_size v.wrapped_size);
          }) in
      (
        (after, s1),
        rw (run_call, ran) refl,
        record {
          ae_key = v.ae_key;
          wrapped = v.wrapped;
          kept =
              subst
                (λ st.
                  Kept r l f hl id handle (t ++ (0 ∷ [])) v.ae_key v.wrapped n room count st.db)
                (sym left.state_is) v.kept;
          wrapped_size = v.wrapped_size;
        },
        record {
          root_key = ap (current_root_key r) left.state_is;
          site_size = left.site_size;
          client_size = left.client_size;
          aside = λ k away. ap (λ st. r.get st.db k) left.state_is;
        },
      )

  -- After any updates and downloads of a text that the server keeps, every call of which returns,
  -- each download gave the text, and the server keeps it still, with a layer and a step of the
  -- counter for each update.
  pub run_calls-Living :
      (cs : List Call) (n room count : ℕ) (x : Parties r e b h)
      → Living n (room + updates cs * layer_size) count x
      → All IsCall cs
      → IsToken id
      → IsText t
      → count + updates cs < 1000000000
      → 33 + length t + layer_size * (n + updates cs) < 2 ^ 31
      → HasRoom r x.0
          (calls_room (33 + length t + layer_size * n + (room + updates cs * layer_size)))
      → (x' : Parties r e b h) × (run_calls r e b h patience id cs x
          ≡ ok (replicate (downloads cs) (some t), x'))
        × Living (n + updates cs) room (count + updates cs) x'
        × Stays r id x.0 x'.0
  unfolding run_calls
  run_calls-Living [] n room count x v calls id_token text small fits rooms =
      let same_room : room + 0 ≡ room = omega arith in
      let same_n : n + 0 ≡ n = omega arith in
      let same_count : count + 0 ≡ count = omega arith in
      (x, refl, rw (same_n, same_count) (rw same_room at v), Stays-refl id x.0)
  run_calls-Living (update net u stack ∷ cs) n room count x v calls id_token text small fits rooms =
      let budget : room + suc (updates cs) * layer_size ≡ room + updates cs * layer_size + 96 =
        omega arith in
      let (x1, ran, v1, stays1) =
        update_lives n (room + updates cs * layer_size) count net u stack x (rw budget at v)
          id_token calls.0 (omega arith) (omega arith) (rw budget at rooms) in
      let same_size : 33 + length t + layer_size * suc n + (room + updates cs * layer_size)
          ≡ 33 + length t + layer_size * n + (room + suc (updates cs) * layer_size) =
        omega arith in
      let (x2, rest, v2, stays2) =
        run_calls-Living cs (suc n) room (count + 1) x1 v1 calls.1 id_token text (omega arith)
          (omega arith)
          (rw same_size (record {
            site_room = omega (arith, rooms.site_room, stays1.site_size);
            client_room = omega (arith, rooms.client_room, stays1.client_size);
          })) in
      let same_n : n + suc (updates cs) ≡ suc n + updates cs = omega arith in
      let same_count : count + suc (updates cs) ≡ count + 1 + updates cs = omega arith in
      (
        x2,
        rw (run_calls, ran, ◌>>=◌, rest) refl,
        rw (same_n, same_count) v2,
        Stays-trans {w3 = x2.0} stays1 stays2,
      )
  run_calls-Living (download o ∷ cs) n room count x v calls id_token text small fits rooms =
      let (x1, ran, v1, stays1) =
        download_lives n (room + updates cs * layer_size) count o x v id_token text calls.0 rooms in
      let (x2, rest, v2, stays2) =
        run_calls-Living cs n room count x1 v1 calls.1 id_token text small fits (record {
          site_room = omega (arith, rooms.site_room, stays1.site_size);
          client_room = omega (arith, rooms.client_room, stays1.client_size);
        }) in
      (x2, rw (run_calls, ran, ◌>>=◌, rest) refl, v2, Stays-trans {w3 = x2.0} stays1 stays2)
