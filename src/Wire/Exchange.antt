-- ===== src/Wire/Exchange.antt =====
-- A request that the server answers: what both ends hold then.
use mathlib.Core.List.{flatten}
use quicke_r.Prelude.{
  ℕ, ◌+◌, ◌≤◌, ◌≡◌, refl, sym, ap, ◌∙◌, some, [], ◌∷◌, ◌++◌, append_assoc, Bytes, length,
  length-append, replicate, length-replicate, arith,
}
use quicke_r.Memory.{ok, poke, ◌>>=◌}
use quicke_r.Memory.Regions.{parts, poke_at}
use quicke_r.Crypto.Evp.{Evp}
use quicke_r.Net.{sendall, recvall}
use quicke_r.Net.Framing.{recvall-Framed}
use quicke_r.Net.Sending.{sendall_whole}
use quicke_r.Text.Split.{split_by_space}
use quicke_r.Nested.Layout.{CtHatDataEn}
use quicke_r.Server.Redis.{Redis}
use quicke_r.Server.Values.{c_string}
use quicke_r.Server.Update.{Base64}
use quicke_r.Server.Commands.{State, run_command, reply}
use quicke_r.Server.Commands.Reply.{IsText, c_string-text, reply-runs}
use quicke_r.Server.Turn.{Site, turn}
use quicke_r.Wire.{Network, Ends, arriving, exchange, exchange_own}

two_front :
    (back : Bytes) → 2 ≤ length back → (y : ℕ) × (z : ℕ) × (rest : Bytes) × (back ≡ y ∷ z ∷ rest)
two_front [] h = absurd (omega arith)
two_front (y ∷ []) h = absurd (omega arith)
two_front (y ∷ z ∷ rest) h = (y, z, rest, refl)

-- The text of the reply to a result, which one byte of the buffer may follow.
abbrev pub Reads : Bytes → (Bytes → Type 0) → Type 0
Reads result P =
    (y : ℕ) (rest : Bytes)
    → (text : Bytes) × (c_string (result ++ (y ∷ 0 ∷ rest)) ≡ some text)
      × IsText text
      × (length text ≤ length result + 1)
      × P text

-- A text with its NUL arrives at the front of a buffer that has room for it.
received :
    (n : Network) (t buff : Bytes)
    → IsText t
    → length t + 3 ≤ length buff
    → (rest : Bytes) × (recvall (arriving n (t ++ (0 ∷ []))) buff (length buff)
        ≡ ok (length t + 1, t ++ (0 ∷ rest)))
      × (length t + 1 + length rest ≡ length buff)
unfolding arriving
received n t buff h room =
    let x : Bytes = t ++ (0 ∷ []) in
    let len_x : length x ≡ length t + 1 = length-append t (0 ∷ []) in
    let sent : sendall (n.accepts x) x ≡ (x, length x) =
      sendall_whole (n.accepts x) x (n.accepts-some x) (n.accepts-enough x) in
    let f = parts buff (length t + 1) (omega arith) in
    let (y, z, rest, is) = two_front f.back (omega (arith, f.rest, f.size)) in
    let whole : buff ≡ f.front ++ (y ∷ z ∷ rest) = f.whole ∙ ap (λ s. f.front ++ s) is in
    let made =
      recvall-Framed (n.cut x) f.front rest y z (length buff) (n.cut-Framed t h)
        (f.size ∙ sym len_x ∙ ap length (sym (n.cut-whole x))) (omega (arith, f.rest, f.size)) in
    let arrived : recvall (n.cut x) buff (length buff) ≡ ok (length t + 1, x ++ (y ∷ 0 ∷ rest)) =
      ap (λ s. recvall (n.cut x) s (length buff)) whole
      ∙ made
      ∙ ap (λ k. ok (k, flatten (n.cut x) ++ (y ∷ 0 ∷ rest))) f.size
      ∙ ap (λ s. ok (length t + 1, s ++ (y ∷ 0 ∷ rest))) (n.cut-whole x) in
    (
      y ∷ 0 ∷ rest,
      rw (arriving, sent, arrived, append_assoc t (0 ∷ []) (y ∷ 0 ∷ rest)) refl,
      omega (arith, f.rest, f.size, ap length is),
    )

-- A reply to a result goes out of a buffer that has two bytes more.
replied :
    (P : Bytes → Type 0) (result buff : Bytes)
    → Reads result P
    → length result + 2 ≤ length buff
    → (text : Bytes) × (after : Bytes) × (reply buff result ≡ ok (text, after))
      × IsText text
      × (length text ≤ length result + 1)
      × P text
      × (length after ≡ length buff)
replied P result buff reads room =
    let f = parts buff (length result) (omega arith) in
    let (y, z, rest, is) = two_front f.back (omega (arith, f.rest, f.size)) in
    let (text, read, is_text, short, holds) = reads y rest in
    let (after, ran, size) = reply-runs result f.front rest text y z f.size read in
    (
      text,
      after,
      ap (λ s. reply s result) (f.whole ∙ ap (λ s. f.front ++ s) is) ∙ ran,
      is_text,
      short,
      holds,
      omega (arith, size, f.rest, f.size, ap length is),
    )

module _ (r : Redis) (e : Evp) (b : Base64) (drawn_iv : Bytes) (hat2 : CtHatDataEn)
    (alloc : ℕ → Bytes) where
  turn_lem :
      (n : Network) (P : Bytes → Type 0) (t result : Bytes) (s : Site r) (st : State r)
      → IsText t
      → run_command r e b drawn_iv hat2 alloc (split_by_space t) s.state ≡ ok (some (result, st))
      → Reads result P
      → length t + 3 ≤ length s.buff
      → length result + 2 ≤ length s.buff
      → (text : Bytes) × (after : Bytes) × (turn r e b drawn_iv hat2 alloc
            (arriving n (t ++ (0 ∷ [])))
            s
          ≡ ok (some text, record { state = st; buff = after }))
        × IsText text
        × (length text ≤ length result + 1)
        × P text
        × (length after ≡ length s.buff)
  unfolding turn
  turn_lem n P t result s st h ran reads room_t room_r =
      let (rest, got, size) = received n t s.buff h room_t in
      let total : length (t ++ (0 ∷ rest)) ≡ length s.buff =
        omega (arith, size, length-append t (0 ∷ rest)) in
      let (text, after, made, is_text, short, holds, same_size) =
        replied P result (t ++ (0 ∷ rest)) reads (omega (arith, total)) in
      (
        text,
        after,
        rw (turn, got, ◌>>=◌, c_string-text t rest h, ran, made) refl,
        is_text,
        short,
        holds,
        same_size ∙ total,
      )

  -- A request out of a buffer of its own size, which has room for the reply.
  pub exchange_own_lem :
      (n : Network) (P : Bytes → Type 0) (t result : Bytes) (st : State r) (w : Ends r)
      → IsText t
      → run_command r e b drawn_iv hat2 alloc (split_by_space t) w.site.state
        ≡ ok (some (result, st))
      → Reads result P
      → length t + 3 ≤ length w.site.buff
      → length result + 2 ≤ length w.site.buff
      → length result + 3 ≤ length t
      → (reply : Bytes) × (after : Ends r) × (exchange_own r e b drawn_iv hat2 alloc n
            (t ++ (0 ∷ []))
            w
          ≡ ok (reply, after))
        × (after.site.state ≡ st)
        × (length after.site.buff ≡ length w.site.buff)
        × (length after.client ≡ length w.client)
  unfolding exchange_own
  exchange_own_lem n P t result st w h ran reads room_t room_r short_r =
      let (text, after, turned, is_text, short, holds, site_size) =
        turn_lem n P t result w.site st h ran reads room_t room_r in
      let size : length (t ++ (0 ∷ [])) ≡ length t + 1 = length-append t (0 ∷ []) in
      let cleared : Bytes = replicate (length (t ++ (0 ∷ []))) 0 in
      let len : length cleared ≡ length (t ++ (0 ∷ [])) =
        length-replicate {A = ℕ} (length (t ++ (0 ∷ []))) 0 in
      let (rest, got, client_size) =
        received n text cleared is_text (omega (arith, size, len, short, short_r)) in
      (
        text ++ (0 ∷ rest),
        record { site = record { state = st; buff = after }; client = w.client },
        rw (exchange_own, turned, ◌>>=◌, rw len at got) refl,
        refl,
        site_size,
        refl,
      )

  -- What an exchange leaves: the text that the client gets, and both ends.
  pub record Exchanged (n : Network) (P : Bytes → Type 0) (t : Bytes) (st : State r) (w : Ends r)
      : Type 0 where
    pub text : Bytes
    pub after : Ends r
    pub runs : exchange r e b drawn_iv hat2 alloc n (t ++ (0 ∷ [])) w ≡ ok (text, after)
    pub holds : P text
    pub state_is : after.site.state ≡ st
    pub site_size : length after.site.buff ≡ length w.site.buff
    pub client_size : length after.client ≡ length w.client

  -- A request that is a text, and whose command succeeds, is answered, when the buffers of both ends
  -- have room for it and for the result.
  pub exchange_lem :
      (n : Network) (P : Bytes → Type 0) (t result : Bytes) (st : State r) (w : Ends r)
      → IsText t
      → run_command r e b drawn_iv hat2 alloc (split_by_space t) w.site.state
        ≡ ok (some (result, st))
      → Reads result P
      → length t + 3 ≤ length w.site.buff
      → length result + 2 ≤ length w.site.buff
      → length t + 1 ≤ length w.client
      → length result + 4 ≤ length w.client
      → Exchanged n P t st w
  unfolding exchange
  exchange_lem n P t result st w h ran reads room_t room_r client_t client_r =
      let (text, after, turned, is_text, short, holds, site_size) =
        turn_lem n P t result w.site st h ran reads room_t room_r in
      let f = parts w.client (length t + 1) client_t in
      let made : poke w.client 0 (t ++ (0 ∷ [])) ≡ ok ((t ++ (0 ∷ [])) ++ f.back) =
        ap (λ s. poke s 0 (t ++ (0 ∷ []))) f.whole
        ∙ poke_at [] f.front f.back (t ++ (0 ∷ [])) 0 refl
            (f.size ∙ sym (length-append t (0 ∷ []))) in
      let size : length ((t ++ (0 ∷ [])) ++ f.back) ≡ length w.client =
        omega
          (arith, length-append (t ++ (0 ∷ [])) f.back, length-append t (0 ∷ []), f.rest, f.size) in
      let (rest, got, client_size) =
        received n text ((t ++ (0 ∷ [])) ++ f.back) is_text (omega (arith, size, short)) in
      record {
        text = text;
        after = record { site = record { state = st; buff = after }; client = text ++ (0 ∷ rest) };
        runs = rw (exchange, made, ◌>>=◌, turned, got, c_string-text text rest is_text) refl;
        holds = holds;
        state_is = refl;
        site_size = site_size;
        client_size = omega (arith, size, client_size, length-append text (0 ∷ rest));
      }
