-- ===== src/Crawler.antt =====
-- The tick of libs/sota-common/src/BaseCrawler.ts: which blocks it processes, and from where the next
-- tick goes on. A number that is missing, zero or not a number is unset.
pub mod Coverage
use drx_wallet.Base.{
  ℕ, ◌+◌, ◌≡◌, Bool, false, Option, none, some, List, [], ◌∷◌, if◌then◌else◌, Has,
}
use drx_wallet.Base.Int.{ℤ, pos, ◌+ℤ◌, ◌-ℤ◌, ltb_ℤ, eqb_ℤ, ◌≤ℤ◌}

abbrev pub truthy : Option ℤ → Option ℤ
truthy none = none
truthy (some n) = if eqb_ℤ n (pos 0) then none else some n

abbrev pub or_else_block : Option ℤ → Option ℤ → Option ℤ
or_else_block none other = other
or_else_block (some n) other = some n

abbrev pub or_block : Option ℤ → ℤ → ℤ
or_block none n = n
or_block (some m) n = m

-- The latest processed block: in the process, from FORCE_CRAWL_BLOCK, from the database, or the one
-- before the newest of the network.
unfoldable pub latest_processed_block : Option ℤ → Option ℤ → Option ℤ → ℤ → ℤ
latest_processed_block cached forced stored network =
    or_block (or_else_block (truthy cached) (or_else_block (truthy forced) (truthy stored)))
      (network -ℤ pos 1)

pub record CrawlPlan : Type 0 where
  pub from_block : ℤ
  pub to_block : ℤ
  pub safe_block : ℤ

abbrev pub min_block : ℤ → ℤ → ℤ
min_block a limit = if ltb_ℤ limit a then limit else a

-- Blocks `from_block` to `to_block` are processed, and `safe_block` is the latest one after that;
-- nothing is done if the newest block of the network was processed before.
unfoldable pub do_process : ℕ → ℤ → ℤ → Option CrawlPlan
do_process required latest network =
    let to_block = min_block (latest +ℤ pos (required + 1)) network in
    if ltb_ℤ network (latest +ℤ pos 1)
    then none
    else some (record {
      from_block = latest +ℤ pos 1;
      to_block = to_block;
      safe_block = min_block (network -ℤ pos required) to_block;
    })

-- A tick of the crawler: the newest block of the network then, and its plan.
pub record Crawled : Type 0 where
  pub network : ℤ
  pub plan : CrawlPlan

-- A run of ticks that process blocks, the latest first, from a latest processed block to another.
-- The block in the process is not zero: a zero would be taken for unset.
pub data Run (required : ℕ) (start : ℤ) : List Crawled → ℤ → Type 0 where
  begin : Run required start [] start
  crawl :
      {ticks : List Crawled} {latest : ℤ}
      → Run required start ticks latest
      → (forced stored : Option ℤ) (network : ℤ) (plan : CrawlPlan) → eqb_ℤ latest (pos 0) ≡ false
      → do_process required (latest_processed_block (some latest) forced stored network) network
        ≡ some plan
      → Run required start (record { network = network; plan = plan } ∷ ticks) plan.safe_block

-- A tick processed the block when the network was ahead of it by the confirmations asked for.
abbrev pub IsConfirmed : ℕ → ℤ → List Crawled → Type 0
IsConfirmed required block ticks =
    (c : Crawled) × Has c ticks
    × (c.plan.from_block ≤ℤ block)
    × (block ≤ℤ c.plan.to_block)
    × (block +ℤ pos required ≤ℤ c.network)
