-- ===== src/Machines/Started.antt =====
-- How a machine reads the message that starts it.
use quicke_r.Prelude.{
  ◌^◌, ℕ, ◌+◌, ◌≤◌, ◌<◌, ◌≡◌, refl, ap, ◌∙◌, Bool, some, List, [], ◌∷◌, ◌++◌, append_assoc, Bytes,
  codes, length, length-append, le→leb, same, All, arith,
}
use quicke_r.Memory.{ok, ◌>>=◌}
use quicke_r.Crypto.Evp.{Evp}
use quicke_r.Text.Split.{space, join}
use quicke_r.Text.Decimal.{decimal}
use quicke_r.Text.Int.{atoi-decimal}
use quicke_r.Text.Width.{length-decimal}
use quicke_r.Server.Redis.{Redis}
use quicke_r.Server.Values.{c_string}
use quicke_r.Server.Update.{Base64}
use quicke_r.Server.Commands.Reply.{c_string-text}
use quicke_r.Hsm.{Hsm}
use quicke_r.Wire.Tokens.{IsToken, avoids, avoids-IsToken, join-IsText, split_by_space-join}
use quicke_r.Rounds.Law.{decimal-IsToken}
use quicke_r.Machines.{
  Fleet, Visit, KeyList, round_loop, on_message, printed_param, additional_param, start_message,
}

printed_param-fits : (n : ℕ) → n < 1000 → printed_param n ≡ ok (decimal n)
unfolding printed_param
printed_param-fits n h =
    rw (le→leb (length (decimal n) + 1) 4 (omega (arith, length-decimal n 2 h))) refl

-- The parameters of a start, of numbers below 1000.
additional_param-fits :
    (i m : ℕ) → i < 1000 → m < 1000 → additional_param i m ≡ ok (decimal i ++ (space ∷ decimal m))
unfolding additional_param
additional_param-fits i m hi hm =
    let text : Bytes = decimal i ++ (space ∷ decimal m) in
    let size : length text + 1 ≤ 10 = omega (
      arith,
      length-append (decimal i) (space ∷ decimal m),
      length-decimal i 2 hi,
      length-decimal m 2 hm,
    ) in
    rw
      (
        additional_param,
        printed_param-fits i hi,
        ◌>>=◌,
        printed_param-fits m hm,
        ◌>>=◌,
        le→leb (length text + 1) 10 size,
      )
      refl

start_words : ℕ → ℕ → List Bytes
start_words i m = codes "START" ∷ decimal i ∷ decimal m ∷ []

start_tokens : (i m : ℕ) → All IsToken (codes "START" ∷ decimal i ∷ decimal m ∷ [])
unfolding avoids
start_tokens i m = (avoids-IsToken _ _ refl, (decimal-IsToken i, (decimal-IsToken m, tt)))

start_text :
    (i m : ℕ) (rest : Bytes)
    → start_message (decimal i ++ (space ∷ decimal m)) ++ rest
      ≡ join space (codes "START" ∷ decimal i ∷ decimal m ∷ []) ++ (0 ∷ rest)
unfolding start_message
start_text i m rest = simp append_assoc

module _ (r : Redis) (e : Evp) (b : Base64) (h : Hsm) where
  -- A machine that gets the parameters of a start, which are ints, runs its loop from the first of them in steps of
  -- the second, and answers, whatever the bytes behind the message are.
  pub on_message-start :
      (turns patience : ℕ) (visits : ℕ → Visit) (keys : KeyList) (i m : ℕ) (rest : Bytes)
      (w w' : Fleet r h) (compared : List Bool)
      → i < 2 ^ 31
      → m < 2 ^ 31
      → round_loop r e b h turns patience visits keys i m w ≡ ok (compared, w')
      → on_message r e b h turns patience visits keys
          (start_message (decimal i ++ (space ∷ decimal m)) ++ rest)
          w
        ≡ ok (some (codes "DONE "), compared, w')
  unfolding on_message same
  on_message-start turns patience visits keys i m rest w w' compared i_lt m_lt ran =
      let ws : List Bytes = codes "START" ∷ decimal i ∷ decimal m ∷ [] in
      let read : c_string (start_message (decimal i ++ (space ∷ decimal m)) ++ rest)
          ≡ some (join space ws) =
        ap c_string (start_text i m rest)
        ∙ c_string-text (join space ws) rest (join-IsText ws (start_tokens i m)) in
      rw
        (
          on_message,
          read,
          ◌>>=◌,
          split_by_space-join ws (start_tokens i m),
          atoi-decimal i i_lt,
          atoi-decimal m m_lt,
          ran,
        )
        refl
