-- ===== src/Examples/NetRuns.antt =====
-- The connection, the requests, the replies and the loops of the client: their theorems at small
-- inputs.
use mathlib.Core.List.{flatten}
use quicke_r.Prelude.{
  ℕ, ◌+◌, length, ◌-◌, ◌≡◌, refl, false, some, [], ◌∷◌, ◌++◌, Bytes, codes, if◌then◌else◌, ◌==◌,
  arith,
}
use quicke_r.Memory.{ok}
use quicke_r.Net.{recvall, sendall}
use quicke_r.Net.Framing.{recvall-Framed}
use quicke_r.Net.Sending.{sendall_whole}
use quicke_r.Server.Update.{Base64}
use quicke_r.Server.Commands.{reply}
use quicke_r.Server.Commands.Reply.{reply-stale}
use quicke_r.Text.Split.{split_by_space}
use quicke_r.Client.Requests.{setall_request, getall_request}
use quicke_r.Client.Words.{setall_request-words, getall_request-words, sent, words_of}
use quicke_r.Hsm.{Hsm}
use quicke_r.Actions.Loops.{wrap_loop, generate_new_k_master, generate_new_k_master-succeeds}
use quicke_r.Actions.Loops.Ends.{Wraps, wrap_loop-ends}

recvall-Framed_example :
    recvall (codes "GET" ∷ (codes " k" ++ (0 ∷ [])) ∷ []) (codes "......" ++ (7 ∷ 8 ∷ [])) 6
    ≡ ok (6, (codes "GET k" ++ (0 ∷ [])) ++ (7 ∷ 0 ∷ []))
unfolding flatten
recvall-Framed_example =
    recvall-Framed (codes "GET" ∷ (codes " k" ++ (0 ∷ [])) ∷ []) (codes "......") [] 7 8 6
      ((codes "GE", b'T', (λ e. omega arith), refl), (codes " k", refl)) refl (omega arith)

sendall_whole_example : sendall (2 ∷ 1 ∷ 1 ∷ []) (codes "abc") ≡ (codes "abc", 3)
sendall_whole_example =
    sendall_whole (2 ∷ 1 ∷ 1 ∷ []) (codes "abc")
      ((omega arith, omega arith), ((omega arith, omega arith), ((omega arith, omega arith), tt)))
      (omega arith)

-- The value "v" over the request "GET k" is answered as "vE".
reply-stale_example :
    (after : Bytes) × (reply (codes "G" ++ (b'E' ∷ b'T' ∷ codes " k")) (codes "v")
      ≡ ok (if b'E' == 0 then codes "v" else codes "v" ++ (b'E' ∷ []), after))
    × (length after ≡ length (codes "v") + 2 + length (codes " k"))
reply-stale_example =
    reply-stale (codes "v") (codes "G") (codes " k") b'E' b'T' ((λ e. omega arith), tt) refl

abbrev pub plain_base64 : Base64
plain_base64 = record { enc = λ s. some s; dec = λ s. some s; dec_zero = λ s. false }

abbrev entry : Bytes × Bytes × Bytes
entry = (codes "k", codes "v", codes "v")

setall_request-words_example :
    (text : Bytes) × (setall_request plain_base64 (sent (entry ∷ [])) ≡ ok (text ++ (0 ∷ [])))
    × (split_by_space text ≡ codes "SETALL" ∷ words_of (entry ∷ []))
setall_request-words_example =
    setall_request-words plain_base64 entry [] (refl, tt)
      (
        (
          (λ e. cc),
          (
            (λ e. omega arith),
            (
              (λ e. omega arith),
              (
                (λ e. omega arith),
                ((λ e. omega arith), ((λ e. omega arith), ((λ e. omega arith), tt))),
              ),
            ),
          ),
        ),
        (((λ e. cc), ((λ e. omega arith), tt)), (((λ e. cc), ((λ e. omega arith), tt)), tt)),
      )

getall_request-words_example :
    (text : Bytes) × (getall_request (codes "k" ∷ []) ≡ text ++ (0 ∷ []))
    × (split_by_space text ≡ codes "GETALL" ∷ codes "k" ∷ [])
getall_request-words_example = getall_request-words (codes "k") [] (
  (
    (λ e. cc),
    (
      (λ e. omega arith),
      (
        (λ e. omega arith),
        ((λ e. omega arith), ((λ e. omega arith), ((λ e. omega arith), ((λ e. omega arith), tt)))),
      ),
    ),
  ),
  (((λ e. cc), ((λ e. omega arith), tt)), tt),
)

-- A module that fails until its session, a number, reaches 0.
abbrev counting : Hsm
counting = record {
  Session = ℕ;
  encrypt = λ handle plain s. ok (s, plain, s - 1);
  decrypt = λ handle wrapped s. ok (s, wrapped, s - 1);
  generate = λ s. (s, 5, s - 1);
  destroy = λ handle s. s;
  reset = λ s. s;
}

generate_new_k_master_example : (generate_new_k_master counting 2).0 ≡ 0
generate_new_k_master_example = generate_new_k_master-succeeds counting 2 2 (omega arith) refl

wrap_loop-ends_example : wrap_loop counting 2 9 (codes "key") 1 ≡ ok (codes "key", 0)
wrap_loop-ends_example =
    wrap_loop-ends counting 1 2 9 (codes "key") (codes "key") 1 0
      (Wraps.retry refl (λ e. omega arith) (Wraps.done refl)) (omega arith)
