-- ===== src/Rounds/Law.antt =====
-- A client machine does what the orders say, however many there are.
use quicke_r.Prelude.{
  ℕ, ◌+◌, ◌≤◌, ◌<◌, ◌≡◌, ◌≢◌, refl, ap, ◌∙◌, Bool, true, false, ◌||◌, some, List, [], ◌∷◌, ◌++◌,
  Bytes, codes, length, All, same, le→leb, arith,
}
use quicke_r.Memory.{Run, ok, ◌>>=◌}
use quicke_r.Text.Split.{space, join, split_by_space}
use quicke_r.Text.Decimal.{decimal, decimal-IsDigits, IsDigits}
use quicke_r.Text.Int.{ulong, ulong-small, atoi-decimal}
use quicke_r.Text.Width.{length-decimal, length-decimal_some}
use quicke_r.Server.Values.{c_string}
use quicke_r.Server.Commands.Reply.{IsText, c_string-text}
use quicke_r.Wire.Tokens.{IsToken, avoids, avoids-IsToken, join-IsText, split_by_space-join}
use quicke_r.Rounds.{
  Order, start, stop, finish, root_key, message, Flags, on_words, command_listener, heard,
}

-- Whether the workload runs after the orders: the last start, stop or end says so.
abbrev pub running_after : List Order → Bool → Bool
running_after [] before = before
running_after (start ∷ os) before = running_after os true
running_after (stop ∷ os) before = running_after os false
running_after (finish ∷ os) before = running_after os false
running_after (root_key n ∷ os) before = running_after os before

-- Whether any order is the end.
abbrev pub ended_by : List Order → Bool
ended_by [] = false
ended_by (start ∷ os) = ended_by os
ended_by (stop ∷ os) = ended_by os
ended_by (finish ∷ os) = true
ended_by (root_key n ∷ os) = ended_by os

-- The last root key that was told.
abbrev pub key_after : List Order → ℕ → ℕ
key_after [] before = before
key_after (start ∷ os) before = key_after os before
key_after (stop ∷ os) before = key_after os before
key_after (finish ∷ os) before = key_after os before
key_after (root_key n ∷ os) before = key_after os n

-- A handle that fits `root_key_string`.
abbrev pub Fits : Order → Type 0
Fits start = Unit
Fits stop = Unit
Fits finish = Unit
Fits (root_key n) = n < 1000000000

digits-IsText : (s : Bytes) → IsDigits s → IsText s
digits-IsText [] h = tt
digits-IsText (c ∷ s) h = ((λ e. omega (arith, h.0)), digits-IsText s h.1)

digits-IsWord : (s : Bytes) → IsDigits s → All (λ c. c ≢ space) s
digits-IsWord [] h = tt
digits-IsWord (c ∷ s) h = ((λ e. omega (arith, h.0)), digits-IsWord s h.1)

not_empty : (s : Bytes) → 1 ≤ length s → s ≢ []
not_empty [] h = absurd (omega arith)
not_empty (c ∷ s) h = λ e. cc

pub decimal-IsToken : (n : ℕ) → IsToken (decimal n)
decimal-IsToken n = (
  (not_empty (decimal n) (length-decimal_some n), digits-IsWord (decimal n) (decimal-IsDigits n)),
  digits-IsText (decimal n) (decimal-IsDigits n),
)

root_key_tokens : (n : ℕ) → All IsToken (codes "ROOTKEY" ∷ decimal n ∷ [])
unfolding avoids
root_key_tokens n = (avoids-IsToken _ _ refl, (decimal-IsToken n, tt))

-- What each order changes.
abbrev pub follow : Order → Flags → Flags
follow start f = record f { run_workload = true }
follow stop f = record f { run_workload = false }
follow finish f = record f { run_workload = false; end_program = true }
follow (root_key n) f = record f { key_handle = n }

one_heard :
    (o : Order) (f : Flags)
    → Fits o
    → (bytes : Bytes) × (message o ≡ ok bytes) × (command_listener bytes f ≡ ok (follow o f))
unfolding message command_listener on_words c_string split_by_space same
one_heard start f h = (_, refl, refl)
one_heard stop f h = (_, refl, refl)
one_heard finish f h = (_, refl, refl)
one_heard (root_key n) f h =
    let fits = le→leb (length (decimal n) + 1) 10 (omega (arith, length-decimal n 8 h)) in
    let ws : List Bytes = codes "ROOTKEY" ∷ decimal n ∷ [] in
    let tokens = root_key_tokens n in
    (
      join space ws ++ (0 ∷ []),
      rw fits refl,
      heard_words (join space ws) ws f _ (c_string-text (join space ws) [] (join-IsText ws tokens))
          (split_by_space-join ws tokens)
          (ap (λ k. ok (record f { key_handle = k }))
            (ap ulong (atoi-decimal n (omega (arith, h))) ∙ ulong-small n (omega (arith, h)))),
    )
  where
    heard_words :
        (t : Bytes) (ws : List Bytes) (g : Flags) (out : Run Flags)
        → c_string (t ++ (0 ∷ [])) ≡ some t
        → split_by_space t ≡ ws
        → on_words ws g ≡ out
        → command_listener (t ++ (0 ∷ [])) g ≡ out
    heard_words t ws g out read words done = rw (command_listener, read, ◌>>=◌, words) done

-- What the orders leave.
abbrev pub after_all : List Order → Flags → Flags
after_all os f = record {
  run_workload = running_after os f.run_workload;
  end_program = f.end_program || ended_by os;
  key_handle = key_after os f.key_handle;
}

or_false : (x : Bool) → x ≡ (x || false)
or_false true = refl
or_false false = refl

or_true : (x : Bool) → true ≡ (x || true)
or_true true = refl
or_true false = refl

after_step :
    (o : Order) (os : List Order) (f : Flags) → after_all os (follow o f) ≡ after_all (o ∷ os) f
after_step start os f = refl
after_step stop os f = refl
after_step finish os f =
    ap
      (λ x. record {
        run_workload = running_after os false;
        end_program = x;
        key_handle = key_after os f.key_handle;
      })
      (or_true f.end_program)
after_step (root_key n) os f = refl

-- The machine that hears the orders of a coordinator, one after the other, in the end runs its
-- workload as the last start, stop or end said, has been ended if any order was the end or it was
-- before, and has the last root key that was told, when every root key is below 10 ^ 9. No order
-- is lost on the way through the messages.
pub heard-orders : (os : List Order) (f : Flags) → All Fits os → heard os f ≡ ok (after_all os f)
unfolding heard
heard-orders [] f h = ap (λ x. ok (record f { end_program = x })) (or_false f.end_program)
heard-orders (o ∷ os) f h =
    let (bytes, sent, got) = one_heard o f h.0 in
    rw (heard, sent, ◌>>=◌, got) (heard-orders os (follow o f) h.1 ∙ ap ok (after_step o os f))
