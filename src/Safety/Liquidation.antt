-- ===== src/Safety/Liquidation.antt =====
-- Liquidation in crates/model_safety/src/transitions.rs and helpers.rs: who is chosen, and that a
-- router which goes on liquidating comes to an end.
use barista_dex_perc.Prelude.{
  ℕ, zero, suc, ◌+◌, ◌≤◌, ◌<◌, min, ◌≡◌, refl, sym, subst, ◌∙◌, true, false, some, inl, inr, List,
  [], ◌∷◌, arith, get_elem?, sum_by, sum_by-set, le-sum_by, dec_lt, Bool-cases, if◌then◌else◌,
  replicate,
}
use barista_dex_perc.Safety.State.{Account, Params, State}
use barista_dex_perc.Safety.Helpers.{
  is_liquidatable, count_liquidatable, liquidatable_count, first_liquidatable,
  choose_liquidatable_index,
}
use barista_dex_perc.Safety.Transitions.{cover_loss, liquidate_account, liquidate_one}
use barista_dex_perc.Safety.Step.{Op, step, run, on_user_cases}

abbrev flag : Params → Account → ℕ
flag p u = if is_liquidatable u p then 1 else 0

-- How many accounts are below their maintenance margin.
abbrev pub liquidatable : State → ℕ
liquidatable s = sum_by (flag s.params) s.users

count_liquidatable-eq :
    (p : Params) (c : ℕ) (us : List Account)
    → c ≤ 255
    → count_liquidatable p c us ≡ min (c + sum_by (flag p) us) 255
unfolding count_liquidatable
count_liquidatable-eq p c [] h = omega arith
count_liquidatable-eq p c (u ∷ us) h =
    ground (arith, count_liquidatable-eq p (if is_liquidatable u p then min (c + 1) 255 else c) us)

-- The u8 counter of the source is the number of liquidatable accounts, up to 255.
pub liquidatable_count-eq : (s : State) → liquidatable_count s ≡ min (liquidatable s) 255
unfolding liquidatable_count
liquidatable_count-eq s = count_liquidatable-eq s.params 0 s.users (omega arith) ∙ omega arith

-- The choice finds a liquidatable account if there is one.
first_liquidatable-found :
    (p : Params) (i : ℕ) (us : List Account)
    → 0 < sum_by (flag p) us
    → (k : ℕ) × (u : Account) × (first_liquidatable p i us ≡ i + k)
      × (get_elem? us k ≡ some u)
      × (is_liquidatable u p ≡ true)
unfolding first_liquidatable
first_liquidatable-found p i [] h = absurd (omega arith)
first_liquidatable-found p i (u ∷ us) h = elim (Bool-cases (is_liquidatable u p)) [
  | inl y ↦ (0, u, rw (y, first_liquidatable) (omega arith), refl, y)
  | inr n ↦
      let (k, w, a, b, c) = first_liquidatable-found p (i + 1) us (ground arith) in
      (suc k, w, rw (n, first_liquidatable) (omega (arith, a)), b, c)
]

cover_loss-safe : (f : ℕ) (u : Account) (p : Params) → is_liquidatable (cover_loss f u).0 p ≡ false
unfolding cover_loss is_liquidatable
cover_loss-safe f u p = ground arith

-- A liquidation at a liquidatable account takes just that account off the list.
liquidate_account-counts :
    (s : State) (uid : ℕ) (u : Account)
    → s.authorized_router ≡ true
    → get_elem? s.users uid ≡ some u
    → is_liquidatable u s.params ≡ true
    → (liquidatable (liquidate_account s uid) + 1 ≡ liquidatable s)
      × ((liquidate_account s uid).authorized_router ≡ true)
unfolding liquidate_account
liquidate_account-counts s uid u a e l = ground (
  arith,
  sum_by-set (flag s.params) s.users uid (cover_loss s.insurance_fund u).0 e,
  cover_loss-safe s.insurance_fund u s.params,
)

pub liquidate_one-counts :
    (s : State)
    → s.authorized_router ≡ true
    → 0 < liquidatable s
    → (liquidatable (liquidate_one s) + 1 ≡ liquidatable s)
      × ((liquidate_one s).authorized_router ≡ true)
unfolding liquidate_one choose_liquidatable_index
liquidate_one-counts s a h =
    let (k, u, e, g, l) = first_liquidatable-found s.params 0 s.users h in
    let e' : first_liquidatable s.params 0 s.users ≡ k = omega (arith, e) in
    rw e' (ground (arith, liquidate_account-counts s k u a g l))

liquidate_one-none : (s : State) → liquidatable s ≡ 0 → liquidate_one s ≡ s
unfolding liquidate_one
liquidate_one-none s h =
    on_user_cases (λ t. t ≡ s) s (choose_liquidatable_index s) _ refl
      λ u e. ground (arith, le-sum_by (flag s.params) s.users (choose_liquidatable_index s) e)

-- An authorised router that liquidates as many times as there are liquidatable accounts leaves none,
-- and further rounds change nothing.
pub liquidate_one-drains :
    (s : State) (n : ℕ)
    → s.authorized_router ≡ true
    → liquidatable s ≤ n
    → liquidatable (run s (replicate n Op.liquidates_one)) ≡ 0
unfolding run step
liquidate_one-drains s zero a h = omega arith
liquidate_one-drains s (suc n) a h = elim (dec_lt 0 (liquidatable s)) [
  | yes p ↦
      let c = liquidate_one-counts s a p in
      liquidate_one-drains (liquidate_one s) n c.1 (omega (arith, c.0))
  | no p ↦
      let z : liquidatable s ≡ 0 = omega arith in
      subst (λ t. liquidatable (run t (replicate n Op.liquidates_one)) ≡ 0)
        (sym (liquidate_one-none s z)) (liquidate_one-drains s n a (omega arith))
]
