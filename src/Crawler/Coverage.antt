-- ===== src/Crawler/Coverage.antt =====
-- The crawler skips no block.
use drx_wallet.Base.{
  ℕ, ◌+◌, ◌≡◌, refl, subst, inl, inr, true, false, Option, some, List, Bool-cases, arith,
}
use drx_wallet.Base.Int.{ℤ, pos, ◌+ℤ◌, ◌-ℤ◌, ltb_ℤ, leb_ℤ, eqb_ℤ, ◌≤ℤ◌, int_laws}
use drx_wallet.Crawler.{
  CrawlPlan, min_block, do_process, latest_processed_block, Crawled, Run, begin, crawl, IsConfirmed,
}

-- The bounds of a tick's plan.
pub record IsPlan (required : ℕ) (latest network : ℤ) (p : CrawlPlan) : Type 0 where
  pub starts : p.from_block ≡ latest +ℤ pos 1
  pub goes_on : p.from_block ≤ℤ p.to_block
  pub few : p.to_block ≤ℤ latest +ℤ pos (required + 1)
  pub on_network : p.to_block ≤ℤ network
  pub processed : p.safe_block ≤ℤ p.to_block
  pub confirmed : p.safe_block +ℤ pos required ≤ℤ network

min_block_le_left : (a b : ℤ) → min_block a b ≤ℤ a
min_block_le_left a b = ground arith

min_block_le_right : (a b : ℤ) → min_block a b ≤ℤ b
min_block_le_right a b = ground arith

some-injective : {A : Type 0} (a b : A) → some a ≡ some b → a ≡ b
some-injective a b e = cc

-- The plan of a tick begins right after the latest processed block, is of at most one block more than
-- the confirmations asked for, and stays on the network; its safe block is one that it processed or
-- that was processed before, with the confirmations asked for.
pub do_process-IsPlan :
    (required : ℕ) (latest network : ℤ) (p : CrawlPlan)
    → do_process required latest network ≡ some p
    → IsPlan required latest network p
unfolding do_process
do_process-IsPlan required latest network p e =
    elim (Bool-cases (ltb_ℤ network (latest +ℤ pos 1))) [
      | inl newest ↦ cc (rw newest at e)
      | inr more ↦
          let to_block = min_block (latest +ℤ pos (required + 1)) network in
          let built : CrawlPlan = record {
            from_block = latest +ℤ pos 1;
            to_block = to_block;
            safe_block = min_block (network -ℤ pos required) to_block;
          } in
          subst (IsPlan required latest network) (some-injective built p (rw more at e)) (record {
            starts = refl;
            goes_on = from_le latest network more;
            few = min_block_le_left (latest +ℤ pos (required + 1)) network;
            on_network = min_block_le_right (latest +ℤ pos (required + 1)) network;
            processed = min_block_le_right (network -ℤ pos required) to_block;
            confirmed = safe_le network to_block;
          })
    ]
  where
    from_le :
        (l n : ℤ)
        → ltb_ℤ n (l +ℤ pos 1) ≡ false
        → l +ℤ pos 1 ≤ℤ min_block (l +ℤ pos (required + 1)) n
    from_le l n h = grind int_laws

    safe_le : (n t : ℤ) → min_block (n -ℤ pos required) t +ℤ pos required ≤ℤ n
    safe_le n t = grind int_laws

cached_wins :
    (latest : ℤ) (forced stored : Option ℤ) (network : ℤ)
    → eqb_ℤ latest (pos 0) ≡ false
    → latest_processed_block (some latest) forced stored network ≡ latest
unfolding latest_processed_block
cached_wins latest forced stored network nonzero = rw nonzero refl

between : (b latest : ℤ) → leb_ℤ b latest ≡ false → latest +ℤ pos 1 ≤ℤ b
between b latest h = grind int_laws

safe_confirmed :
    (b safe network : ℤ) (required : ℕ)
    → b ≤ℤ safe
    → safe +ℤ pos required ≤ℤ network
    → b +ℤ pos required ≤ℤ network
safe_confirmed b safe network required h k = grind int_laws

≤ℤ_trans : (a b c : ℤ) → a ≤ℤ b → b ≤ℤ c → a ≤ℤ c
≤ℤ_trans a b c h k = omega (arith, h, k)

-- However the network grows or shrinks and however far each tick comes, a block between the start of
-- the run and the latest processed block was processed by one of its ticks while the network was
-- ahead of it by the confirmations asked for: no block is skipped.
pub no_block_skipped :
    (required : ℕ) (start : ℤ) {ticks : List Crawled} {latest : ℤ}
    → Run required start ticks latest
    → (block : ℤ) → start +ℤ pos 1 ≤ℤ block
    → block ≤ℤ latest
    → IsConfirmed required block ticks
no_block_skipped required start begin block after upto =
    absurd (nothing_between start block after upto)
  where
    nothing_between : (s b : ℤ) → s +ℤ pos 1 ≤ℤ b → b ≤ℤ s → ⊥
    nothing_between s b h k = grind int_laws
no_block_skipped required start
      (crawl {ticks} {latest} run forced stored network plan nonzero planned) block after upto =
    elim (Bool-cases (leb_ℤ block latest)) [
      | inl old ↦
          let (c, there, first, last, ahead) =
            no_block_skipped required start run block after (leb_le block latest old) in
          (c, inr there, first, last, ahead)
      | inr new ↦
          let bounds = do_process-IsPlan required latest network plan (
            subst (λ l. do_process required l network ≡ some plan)
              (cached_wins latest forced stored network nonzero) planned) in
          (
            record { network = network; plan = plan },
            inl refl,
            rw bounds.starts (between block latest new),
            ≤ℤ_trans block plan.safe_block plan.to_block upto bounds.processed,
            safe_confirmed block plan.safe_block network required upto bounds.confirmed,
          )
    ]
  where
    leb_le : (a b : ℤ) → leb_ℤ a b ≡ true → a ≤ℤ b
    leb_le a b h = ground arith
