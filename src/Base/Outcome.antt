-- ===== src/Base/Outcome.antt =====
-- A promise that has settled: its value, or the error that it was rejected with.
use drx_wallet.Base.{◌≡◌, ◌⊎◌, inl, inr, refl, Option, none, some}

pub data Error : Type 0 where
  unknown_platform too_many_records weird_outputs mismatched_values not_cardano : Error
  no_raw_transaction unknown_address too_many_secrets insufficient_fee : Error
  unknown_currency entity_not_found null_reference empty_criteria : Error
  hot_wallet_not_found hot_wallet_insufficient unsupported_hot_wallet : Error
  wallet_balance_not_found missing_to_address not_a_seeding_tx : Error
  block_not_found invalid_range already_has_address missing_wallet missing_data_key missing_token
        unsupported_hd :
      Error
  invalid_webhook_id network_error insufficient_balance unbuilt_transaction : Error

pub data Outcome (A : Type 0) : Type 0 where
  ok : A → Outcome A
  err : Error → Outcome A

infixl 5 ◌>>=◌ ◌>>◌
abbrev pub ◌>>=◌ : {A B : Type 0} → Outcome A → (A → Outcome B) → Outcome B
ok a >>= f = f a
err e >>= f = err e

abbrev pub ◌>>◌ : {A B : Type 0} → Outcome A → Outcome B → Outcome B
m >> k = m >>= λ _. k

-- `findOneOrFail`, and the guards that throw when a row is missing.
abbrev pub or_throw : {A : Type 0} → Error → Option A → Outcome A
or_throw e none = err e
or_throw e (some a) = ok a

-- Inversion of a call that resolved.
pub >>=-eq-ok :
    {A B : Type 0} (call : Outcome A) (then_ : A → Outcome B) {last : B}
    → (call >>= then_) ≡ ok last
    → (value : A) × (call ≡ ok value) × (then_ value ≡ ok last)
>>=-eq-ok (ok value) then_ resolved = (value, refl, resolved)
>>=-eq-ok (err thrown) then_ resolved = cc

-- Inversion of a call that was rejected.
pub >>=-eq-err :
    {A B : Type 0} (call : Outcome A) (then_ : A → Outcome B) {x : Error}
    → (call >>= then_) ≡ err x
    → (call ≡ err x) ⊎ ((value : A) × (call ≡ ok value) × (then_ value ≡ err x))
>>=-eq-err (ok value) then_ rejected = inr (value, refl, rejected)
>>=-eq-err (err thrown) then_ rejected = inl (cc (rejected))

pub or_throw-eq-ok :
    {A : Type 0} (e : Error) (o : Option A) {a : A} → or_throw e o ≡ ok a → o ≡ some a
or_throw-eq-ok e none h = cc
or_throw-eq-ok e (some a) h = cc

pub ok-injective : {A : Type 0} (a b : A) → ok a ≡ ok b → a ≡ b
ok-injective a b h = cc
