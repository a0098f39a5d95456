-- ===== src/Router/CrossSlab/Settle.antt =====
-- What a fill of programs/router/src/instructions/execute_cross_slab.rs makes of the accounts and of the
-- position at hand, in each of its three cases.
use barista_dex_perc.Prelude.{ℕ, ◌≡◌, refl, subst, ◌∙◌, Bool, true, some, arith, if◌then◌else◌}
use barista_dex_perc.Prelude.Int.{ℤ, pos, neg_ℤ, ◌==ℤ◌}
use barista_dex_perc.Prelude.Outcome.{
  ok, or_abort, >>=-eq-ok, >>-eq-ok, or_abort-eq-ok, ok_injective,
}
use barista_dex_perc.Matcher.{FillReceipt}
use barista_dex_perc.Router.Position.{
  PositionDetails, new_position, abs_i64, add_to_position, reduce_position,
}
use barista_dex_perc.Router.Position.Average.{Grown, add_to_position-Grown}
use barista_dex_perc.Router.Funds.{
  PositionAccount, Accounts, transfer_collateral_margin, return_margin_to_user,
}
use barista_dex_perc.Router.Funds.Conserve.{all_lamports, Moves, transfer-Moves, return-Moves}
use barista_dex_perc.Router.Order.{Vacancy, Order, trade_margin, create_position}
use barista_dex_perc.Router.CrossSlab.{FillEffect, add_fill, reduce_fill, reverse_fill}

-- What holds of the accounts whatever becomes of the position's.
pub record Shifts (s t : Accounts) : Type 0 where
  pub lamports : all_lamports t ≡ all_lamports s
  pub exposures : t.user.exposures ≡ s.user.exposures
  pub key : t.user_key ≡ s.user_key
  pub registry : t.registry ≡ s.registry
  pub address : t.position_at ≡ s.position_at

Moves-Shifts : (s t : Accounts) → Moves s t → Shifts s t
Moves-Shifts s t m = record {
  lamports = m.lamports;
  exposures = m.exposures;
  key = m.key;
  registry = m.registry;
  address = m.address;
}

create_position-can :
    (s : Accounts) (o : Order) (idx : ℕ) (v : Vacancy)
    → create_position s o idx v ≡ ok tt
    → o.can_create v ≡ true
unfolding create_position
create_position-can s o idx v h = ground arith

module _ (s : Accounts) (o : Order) (p : PositionDetails) (receipt : FillReceipt) where
  pub record Adds (e : FillEffect) : Type 0 where
    pub shifts : Shifts s e.accounts
    pub account : e.accounts.position ≡ s.position
    pub margin : ℕ
    pub grown : Grown p receipt.vwap_px receipt.filled_qty margin e.position
    pub no_pnl : e.pnl ≡ pos 0

  pub add_fill-Adds : (e : FillEffect) → add_fill s o p receipt ≡ ok e → Adds e
  unfolding add_fill
  add_fill-Adds e h =
      let (q, eq, h1) = >>=-eq-ok (or_abort (abs_i64 receipt.filled_qty)) _ h in
      let (m, em, h2) = >>=-eq-ok (or_abort (trade_margin q o.leverage)) _ h1 in
      let (g, eg, h3) =
        >>=-eq-ok
          (or_abort (add_to_position p receipt.vwap_px receipt.filled_qty (pos 0) o.timestamp m)) _
          h2 in
      let (t, et, h4) = >>=-eq-ok (transfer_collateral_margin s m) _ h3 in
      let moves = transfer-Moves s m t et in
      subst Adds (ok_injective h4) (record {
        shifts = Moves-Shifts s t moves;
        account = moves.position;
        margin = m;
        grown =
            add_to_position-Grown p receipt.vwap_px receipt.filled_qty (pos 0) o.timestamp m g
              (or_abort-eq-ok _ eg);
        no_pnl = refl;
      })

  module _ (oracle_px : ℤ) where
    pub record Cuts (e : FillEffect) : Type 0 where
      pub shifts : Shifts s e.accounts
      pub left : ℤ
      pub release : ℕ
      pub reduced :
          reduce_position p oracle_px receipt.filled_qty (pos 0) o.timestamp
          ≡ some (e.position, e.pnl, left, release)
      pub account :
          e.accounts.position
          ≡ (if left ==ℤ pos 0 then PositionAccount.unfunded else PositionAccount.holds e.position)

    pub reduce_fill-Cuts : (e : FillEffect) → reduce_fill s o p receipt oracle_px ≡ ok e → Cuts e
    unfolding reduce_fill
    reduce_fill-Cuts e h =
        let (q, eq, h1) =
          >>=-eq-ok (or_abort (reduce_position p oracle_px receipt.filled_qty (pos 0) o.timestamp))
            _ h in
        let (t, et, h2) = >>=-eq-ok (return_margin_to_user s q.3) _ h1 in
        let moves = return-Moves s q.3 t et in
        subst Cuts (ok_injective h2) (record {
          shifts = record {
            lamports = moves.lamports;
            exposures = moves.exposures;
            key = moves.key;
            registry = moves.registry;
            address = moves.address;
          };
          left = q.2;
          release = q.3;
          reduced = or_abort-eq-ok _ eq;
          account = refl;
        })

    module _ (idx : ℕ) (exposure : ℤ) (remaining : ℕ) (is_buy : Bool) where
      abbrev pub new_qty : ℤ
      new_qty = if is_buy then pos remaining else neg_ℤ (pos remaining)

      pub record Turns (e : FillEffect) : Type 0 where
        pub created_anew : o.can_create Vacancy.just_closed ≡ true
        pub shifts : Shifts s e.accounts
        pub margin : ℕ
        pub grown :
            Grown
              (new_position s.user_key idx 0 receipt.vwap_px new_qty o.timestamp 0 o.leverage)
              receipt.vwap_px
              new_qty
              margin
              e.position
        pub account : e.accounts.position ≡ PositionAccount.holds e.position

      pub reverse_fill-Turns :
          (e : FillEffect)
          → reverse_fill s o p receipt oracle_px idx exposure remaining is_buy ≡ ok e
          → Turns e
      unfolding reverse_fill
      reverse_fill-Turns e h =
          let opened =
            new_position s.user_key idx 0 receipt.vwap_px new_qty o.timestamp 0 o.leverage in
          let (q, eq, h1) =
            >>=-eq-ok (or_abort (reduce_position p oracle_px (neg_ℤ exposure) (pos 0) o.timestamp))
              _ h in
          let (t, et, h2) = >>=-eq-ok (return_margin_to_user s q.3) _ h1 in
          let (c, h3) = >>-eq-ok (create_position t o idx Vacancy.just_closed) _ h2 in
          let (m, em, h4) = >>=-eq-ok (or_abort (trade_margin remaining o.leverage)) _ h3 in
          let (g, eg, h5) =
            >>=-eq-ok
              (or_abort (add_to_position opened receipt.vwap_px new_qty (pos 0) o.timestamp m)) _
              h4 in
          let (u, eu, h6) = >>=-eq-ok (transfer_collateral_margin t m) _ h5 in
          let a = return-Moves s q.3 t et in
          let b = transfer-Moves t m u eu in
          subst Turns (ok_injective h6) (record {
            created_anew = create_position-can t o idx Vacancy.just_closed c;
            shifts = record {
              lamports = b.lamports ∙ a.lamports;
              exposures = b.exposures ∙ a.exposures;
              key = b.key ∙ a.key;
              registry = b.registry ∙ a.registry;
              address = b.address ∙ a.address;
            };
            margin = m;
            grown =
                add_to_position-Grown opened receipt.vwap_px new_qty (pos 0) o.timestamp m g
                  (or_abort-eq-ok _ eg);
            account = refl;
          })
