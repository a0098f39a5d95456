-- ===== src/Router/Vault/Escrow.antt =====
-- The vault of programs/router/src/state/vault.rs against an account of free and pledged funds.
use barista_dex_perc.Prelude.{
  ℕ, ◌+◌, ◌-◌, ◌≤◌, ◌≡◌, refl, ap, ◌∙◌, Option, none, some, List, [], ◌∷◌, arith, leb,
  if◌then◌else◌,
}
use barista_dex_perc.Math.{u128_max}
use barista_dex_perc.Math.Bounds.{add_u128_lem, sub_u128_lem}
use barista_dex_perc.Router.Vault.{Vault, available, pledge, unpledge, deposit, withdraw}

pub data Call : Type 0 where
  pledges unpledges deposits withdraws : ℕ → Call

abbrev or_same : Vault → Option Vault → Vault
or_same v none = v
or_same v (some w) = w

-- A call that fails leaves the vault as it was.
pub apply : Vault → Call → Vault
apply v (Call.pledges a) = or_same v (pledge v a)
apply v (Call.unpledges a) = unpledge v a
apply v (Call.deposits a) = deposit v a
apply v (Call.withdraws a) = or_same v (withdraw v a)

pub run : Vault → List Call → Vault
run v [] = v
run v (c ∷ cs) = run (apply v c) cs

-- The contract: funds are free or pledged, and each call moves them between the two or in and out.
pub record Escrow : Type 0 where
  pub free : ℕ
  pub pledged : ℕ

abbrev pub spec : Escrow → Call → Escrow
spec e (Call.pledges a) =
    if leb a e.free then record { free = e.free - a; pledged = e.pledged + a } else e
spec e (Call.unpledges a) =
    if leb a e.pledged
    then record { free = e.free + a; pledged = e.pledged - a }
    else record { free = e.free + e.pledged; pledged = 0 }
spec e (Call.deposits a) = record e { free = e.free + a }
spec e (Call.withdraws a) = if leb a e.free then record e { free = e.free - a } else e

abbrev pub spec_run : Escrow → List Call → Escrow
spec_run e [] = e
spec_run e (c ∷ cs) = spec_run (spec e c) cs

abbrev pub view : Vault → Escrow
view v = record { free = v.balance - v.total_pledged; pledged = v.total_pledged }

-- Pledges are covered, and the balance is a u128.
pub record IsCovered (v : Vault) : Type 0 where
  pub covered : v.total_pledged ≤ v.balance
  pub fits : v.balance ≤ u128_max

-- What a list of calls pays in.
abbrev pub paid_in : List Call → ℕ
paid_in [] = 0
paid_in (Call.deposits a ∷ cs) = a + paid_in cs
paid_in (_ ∷ cs) = paid_in cs

apply-spec :
    (v : Vault) (c : Call)
    → IsCovered v
    → v.balance + paid_in (c ∷ []) ≤ u128_max
    → IsCovered (apply v c)
      × (view (apply v c) ≡ spec (view v) c)
      × ((apply v c).balance ≤ v.balance + paid_in (c ∷ []))
unfolding apply available pledge unpledge deposit withdraw
apply-spec v (Call.pledges a) i h =
    ground (arith, sub_u128_lem v.balance v.total_pledged, add_u128_lem v.total_pledged a)
apply-spec v (Call.unpledges a) i h = ground (arith, sub_u128_lem v.total_pledged a)
apply-spec v (Call.deposits a) i h = ground (arith, add_u128_lem v.balance a)
apply-spec v (Call.withdraws a) i h =
    ground (arith, sub_u128_lem v.balance v.total_pledged, sub_u128_lem v.balance a)

paid_in-cons : (c : Call) (cs : List Call) → paid_in (c ∷ cs) ≡ paid_in (c ∷ []) + paid_in cs
paid_in-cons (Call.deposits a) cs = omega arith
paid_in-cons c cs = omega arith

-- Any history of calls keeps every pledge covered and moves free and pledged funds as the contract
-- says, as long as what is paid in fits a u128.
pub run-spec :
    (v : Vault) (cs : List Call)
    → IsCovered v
    → v.balance + paid_in cs ≤ u128_max
    → IsCovered (run v cs) × (view (run v cs) ≡ spec_run (view v) cs)
unfolding run
run-spec v [] i h = (i, refl)
run-spec v (c ∷ cs) i h =
    let (j, e, b) = apply-spec v c i (omega (arith, paid_in-cons c cs)) in
    let (k, f) = run-spec (apply v c) cs j (omega (arith, b, paid_in-cons c cs)) in
    (k, f ∙ ap (λ x. spec_run x cs) e)
