-- ===== src/Matcher/PoolCache.antt =====
-- What the quote cache of a pool holds (synthesize_quote_cache of programs/amm/src/state.rs).
use barista_dex_perc.Prelude.{
  Bool-cases, inl, inr, ℕ, zero, suc, ◌≡◌, ◌⊎◌, refl, subst, List, [], ◌∷◌, arith,
}
use barista_dex_perc.Prelude.Int.{ℤ, pos, ltb_ℤ, ◌≤ℤ◌, ◌==ℤ◌, ◌*ℤ◌, ◌/ℤ◌}
use barista_dex_perc.Prelude.Outcome.{Outcome, ok, err, abort, >>=-eq-ok, ok_injective}
use barista_dex_perc.Amm.Quote.{AmmError, QuoteResult}
use barista_dex_perc.Matcher.{
  Side, QuoteLevel, default_level, no_levels, QuoteCache, new_cache, padded, update_cache, as_i64,
}
use barista_dex_perc.Matcher.Pool.{
  AmmPool, AmmState, pool_quote, spot_price, sampled, sample_level, sample_fractions, sample_levels,
  sample_cache, synthesize_quote_cache,
}

-- The price at which the pool would fill the level's quantity.
pub record IsQuote (p : AmmPool) (side : Side) (l : QuoteLevel) : Type 0 where
  pub result : QuoteResult
  pub some_qty : pos 1 ≤ℤ l.avail_qty
  pub quoted : pool_quote p side l.avail_qty ≡ ok result
  pub price : l.px ≡ result.vwap_px

-- Each level is empty or a quote.
AreQuoted : AmmPool → Side → List QuoteLevel → Type 0
AreQuoted p side [] = Unit {0}
AreQuoted p side (l ∷ ls) = ((l ≡ default_level) ⊎ IsQuote p side l) × AreQuoted p side ls

module _ (p : AmmPool) (side : Side) where
  sampled-IsQuote :
      (o : Outcome AmmError QuoteResult) (qty : ℤ) (l : QuoteLevel)
      → pool_quote p side qty ≡ o
      → pos 1 ≤ℤ qty
      → sampled o qty ≡ ok l
      → (l ≡ default_level) ⊎ IsQuote p side l
  unfolding sampled
  sampled-IsQuote abort qty l q n h = cc
  sampled-IsQuote (err e) qty l q n h = inl (ground arith)
  sampled-IsQuote (ok r) qty l q n h = inr (
      subst (IsQuote p side) (ok_injective h)
        (record { result = r; some_qty = n; quoted = q; price = refl }))

  sample_level-IsQuote :
      (fraction : ℤ) (l : QuoteLevel)
      → sample_level p side fraction ≡ ok l
      → (l ≡ default_level) ⊎ IsQuote p side l
  unfolding sample_level
  sample_level-IsQuote fraction l h =
      let qty = as_i64 ((p.x_reserve *ℤ fraction) /ℤ pos 1_000_000) in
      elim (Bool-cases (ltb_ℤ (pos 0) qty)) [
        | inl some ↦
            sampled-IsQuote (pool_quote p side qty) qty l refl (ground arith) (ground arith)
        | inr none ↦ inl (ground arith)
      ]

  sample_levels-AreQuoted :
      (fractions : List ℤ) (ls : List QuoteLevel)
      → sample_levels p side fractions ≡ ok ls
      → AreQuoted p side ls
  unfolding sample_levels AreQuoted
  sample_levels-AreQuoted [] ls h = subst (AreQuoted p side) (ok_injective h) tt
  sample_levels-AreQuoted (f ∷ fs) ls h =
      let (l, a, h1) = >>=-eq-ok (sample_level p side f) _ h in
      let (rest, b, h2) = >>=-eq-ok (sample_levels p side fs) _ h1 in
      let first = sample_level-IsQuote f l a in
      let others = sample_levels-AreQuoted fs rest b in
      subst (AreQuoted p side) (ok_injective h2) (first, others)

  padded-AreQuoted :
      (n : ℕ) (ls : List QuoteLevel) → AreQuoted p side ls → AreQuoted p side (padded n ls)
  unfolding padded AreQuoted
  padded-AreQuoted zero ls h = tt
  padded-AreQuoted (suc n) [] h = (inl refl, padded-AreQuoted n [] tt)
  padded-AreQuoted (suc n) (l ∷ ls) (h, hs) = (h, padded-AreQuoted n ls hs)

  none-AreQuoted : AreQuoted p side no_levels
  unfolding AreQuoted
  none-AreQuoted = (inl refl, (inl refl, (inl refl, (inl refl, tt))))

  quoted_cache :
      (ls : List QuoteLevel)
      → sample_levels p side sample_fractions ≡ ok ls
      → AreQuoted p side (padded 4 ls)
  quoted_cache ls h = padded-AreQuoted 4 ls (sample_levels-AreQuoted sample_fractions ls h)

sample_cache-AreQuoted :
    (s : AmmState) (c : QuoteCache)
    → sample_cache s ≡ ok c
    → AreQuoted s.pool Side.buy c.best_asks × AreQuoted s.pool Side.sell c.best_bids
unfolding sample_cache update_cache
sample_cache-AreQuoted s c h =
    let (asks, a, h1) = >>=-eq-ok (sample_levels s.pool Side.buy sample_fractions) _ h in
    let (bids, b, h2) = >>=-eq-ok (sample_levels s.pool Side.sell sample_fractions) _ h1 in
    subst
      (λ (k : QuoteCache).
        AreQuoted s.pool Side.buy k.best_asks × AreQuoted s.pool Side.sell k.best_bids)
      (ok_injective h2) (quoted_cache s.pool Side.buy asks a, quoted_cache s.pool Side.sell bids b)

-- Each ask of a synthesised cache is empty or a price at which the pool sells that quantity, and each
-- bid is empty or a price at which it buys that quantity.
synthesize-AreQuoted :
    (s : AmmState) (c : QuoteCache)
    → synthesize_quote_cache s ≡ ok c
    → AreQuoted s.pool Side.buy c.best_asks × AreQuoted s.pool Side.sell c.best_bids
unfolding synthesize_quote_cache
synthesize-AreQuoted s c h = elim (Bool-cases (spot_price s.pool ==ℤ pos 0)) [
  | inl no_price ↦
      let same : new_cache ≡ c = ground arith in
      subst
        (λ (k : QuoteCache).
          AreQuoted s.pool Side.buy k.best_asks × AreQuoted s.pool Side.sell k.best_bids)
        same (none-AreQuoted s.pool Side.buy, none-AreQuoted s.pool Side.sell)
  | inr priced ↦ sample_cache-AreQuoted s c (ground arith)
]
