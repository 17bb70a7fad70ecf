-- ===== src/Evm/Sending.antt =====
-- The retries of a submission.
use drx_wallet.Base.{
  ℕ, zero, suc, ◌+◌, ◌<◌, ◌≡◌, refl, inl, inr, true, false, some, List, [], ◌∷◌, String, ltb,
  Bool-cases, if◌then◌else◌, arith,
}
use drx_wallet.Base.Outcome.{Outcome, ok, err, Error}
use drx_wallet.Base.Text.{add_prefix}
use drx_wallet.Evm.{Reply, accepted, refused, is_known, send_raw_transaction}

-- The first answer that is final decides; where there is none, the submission failed.
abbrev pub first_final : String → List Reply → Outcome String
first_final hash [] = err Error.network_error
first_final hash (accepted txid ∷ replies) = ok txid
first_final hash (refused reason ∷ replies) =
    let rest = first_final hash replies in if is_known reason then ok (add_prefix hash) else rest

-- The answers from the k-th on.
abbrev pub replies_from : (ℕ → Reply) → ℕ → ℕ → List Reply
replies_from answers k zero = []
replies_from answers k (suc n) = answers k ∷ replies_from answers (k + 1) n

send_last :
    (answers : ℕ → Reply) (hash : String) (k : ℕ) (r : Reply)
    → k ≡ 5
    → answers k ≡ r
    → send_raw_transaction 1 answers hash k ≡ some (first_final hash (r ∷ []))
unfolding send_raw_transaction
send_last answers hash k (accepted txid) sum e = rw (e, send_raw_transaction) refl
send_last answers hash k (refused reason) sum e = elim (Bool-cases (is_known reason)) [
  | inl known ↦ rw (e, known, send_raw_transaction) refl
  | inr fresh ↦
      let over : ltb 5 (k + 1) ≡ true = ground arith in
      rw (e, fresh, over, send_raw_transaction) refl
]

send_more :
    (answers : ℕ → Reply) (hash : String) (n k : ℕ) (r : Reply) (rest : List Reply)
    → k < 5
    → answers k ≡ r
    → send_raw_transaction n answers hash (k + 1) ≡ some (first_final hash rest)
    → send_raw_transaction (suc n) answers hash k ≡ some (first_final hash (r ∷ rest))
unfolding send_raw_transaction
send_more answers hash n k (accepted txid) rest below e later = rw (e, send_raw_transaction) refl
send_more answers hash n k (refused reason) rest below e later =
    elim (Bool-cases (is_known reason)) [
      | inl known ↦ rw (e, known, send_raw_transaction) refl
      | inr fresh ↦
          let again : ltb 5 (k + 1) ≡ false = ground arith in
          rw (e, fresh, again, send_raw_transaction) later
    ]

send_from :
    (answers : ℕ → Reply) (hash : String) (n k : ℕ)
    → n + k ≡ 5
    → send_raw_transaction (suc n) answers hash k
      ≡ some (first_final hash (replies_from answers k (suc n)))
send_from answers hash zero k sum = send_last answers hash k (answers k) (omega arith) refl
send_from answers hash (suc n) k sum =
    send_more answers hash (suc n) k (answers k) (replies_from answers (k + 1) (suc n))
      (omega arith) refl (send_from answers hash n (k + 1) (omega arith))

-- Fuel for six submissions is enough: a first call returns. It gives the first answer that is final among
-- six, an acceptance or a text that tells that the transaction is known or was reverted, and else it fails.
pub send_raw_transaction_lem :
    (answers : ℕ → Reply) (hash : String)
    → send_raw_transaction 6 answers hash 0 ≡ some (first_final hash (replies_from answers 0 6))
send_raw_transaction_lem answers hash = send_from answers hash 5 0 refl
