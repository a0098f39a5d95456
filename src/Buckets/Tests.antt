-- ===== src/Buckets/Tests.antt =====
-- Runs of crates/model_safety/src/lp_bucket.rs on two venues.
use barista_dex_perc.Prelude.{◌≡◌, refl, some, List, [], ◌∷◌, get_elem?, arith}
use barista_dex_perc.Buckets.{LpBucket, Portfolio, new_portfolio, minted, burned}
use barista_dex_perc.Buckets.Isolation.{Op, run, run-isolated}

abbrev fresh : Portfolio
fresh = new_portfolio 500

abbrev venues : List Op
venues = Op.mints 0 70 ∷ Op.places 1 40 9 ∷ Op.burns 0 30 ∷ Op.mints 1 5 ∷ Op.cancels 1 15 9 ∷ []

run-isolated_example :
    (get_elem? (run fresh venues).lp_buckets 0 ≡ some (LpBucket.amm (record { lp_shares = 40 })))
    × ((run fresh venues).principal ≡ 500)
unfolding minted burned
run-isolated_example = run-isolated fresh 0 LpBucket.empty venues (omega arith) refl

abbrev provider : Portfolio
provider = record fresh {
  lp_buckets =
      LpBucket.amm (record { lp_shares = 70 })
      ∷ LpBucket.empty
      ∷ LpBucket.empty
      ∷ LpBucket.empty
      ∷ [];
}
