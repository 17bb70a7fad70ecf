-- ===== src/Tests/Blocks.antt =====
-- A chain of two blocks, the first of which is cached.
use drx_wallet.Base.{
  ◌↔◌, ℕ, ◌≤◌, ◌≡◌, refl, Option, none, some, List, [], ◌∷◌, String, ◌==◌, if◌then◌else◌, Has,
}
use drx_wallet.Base.Outcome.{ok, err, Error}
use drx_wallet.Blocks.{
  Block, Source, get_one_block, get_transactions_by_ids, get_block_transactions,
  get_multi_blocks_transactions,
}
use drx_wallet.Blocks.Reading.{IsIn, get_multi_blocks_transactions_lem}

abbrev first_block : Block
first_block = record { number = 1; txids = "a" ∷ ("" ∷ ("b" ∷ [])) }

abbrev second_block : Block
second_block = record { number = 2; txids = "c" ∷ [] }

abbrev cached : ℕ → Option Block
cached n = if n == 1 then some first_block else none

-- The transaction of a text is the text itself.
abbrev source : Source String
source = record {
  cached_block = cached;
  fetch_block = λ n. ok (if n == 2 then some second_block else none);
  get_one_transaction = λ txid b. ok (some txid);
}

abbrev all_read : List String
all_read = "a" ∷ ("b" ∷ ("c" ∷ []))

read : get_multi_blocks_transactions source 1 2 ≡ ok all_read
unfolding get_multi_blocks_transactions get_block_transactions get_one_block get_transactions_by_ids
read = refl

read_backwards : get_multi_blocks_transactions source 2 1 ≡ err Error.invalid_range
unfolding get_multi_blocks_transactions
read_backwards = refl

read_too_far : get_multi_blocks_transactions source 2 3 ≡ err Error.block_not_found
unfolding get_multi_blocks_transactions get_block_transactions get_one_block get_transactions_by_ids
read_too_far = refl

get_multi_blocks_transactions_lem_example :
    Has "c" all_read ↔ ((m : ℕ) × (1 ≤ m) × (m ≤ 2) × IsIn source m "c")
get_multi_blocks_transactions_lem_example = get_multi_blocks_transactions_lem source 1 2 "c" read
