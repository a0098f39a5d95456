-- ===== src/Router/Vault.antt =====
-- programs/router/src/state/vault.rs. A key is a number, since keys are only compared; padding is
-- left out. `none` is Err(()), after which the vault is as it was.
pub mod Escrow
use barista_dex_perc.Prelude.{ℕ, Option, none, some, ltb, if◌then◌else◌}
use barista_dex_perc.Math.{add_u128, sub_u128}

pub record Vault : Type 0 where
  pub router_id : ℕ
  pub mint : ℕ
  pub token_account : ℕ
  pub balance : ℕ
  pub total_pledged : ℕ
  pub bump : ℕ

unfoldable pub available : Vault → ℕ
available v = sub_u128 v.balance v.total_pledged

unfoldable pub pledge : Vault → ℕ → Option Vault
pledge v amount =
    if ltb (available v) amount
    then none
    else some (record v { total_pledged = add_u128 v.total_pledged amount })

unfoldable pub unpledge : Vault → ℕ → Vault
unpledge v amount = record v { total_pledged = sub_u128 v.total_pledged amount }

unfoldable pub deposit : Vault → ℕ → Vault
deposit v amount = record v { balance = add_u128 v.balance amount }

unfoldable pub withdraw : Vault → ℕ → Option Vault
withdraw v amount =
    if ltb (available v) amount
    then none
    else some (record v { balance = sub_u128 v.balance amount })
