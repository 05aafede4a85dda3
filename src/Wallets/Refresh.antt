-- ===== src/Wallets/Refresh.antt =====
-- freqtrade/wallets.py: what a refresh of the wallets depends on, and the stake currency after it.
use freqtrade_llm.Base.{
  ℕ, ◌≡◌, refl, Bool, true, false, not, Option, some, String, Bool-cases, if_cases, if◌then◌else◌,
  List, [], map, ◌∷◌, ◌||◌, arith, eq_iff, is_some, ◌+◌, inl, inr, not_lt→ltb,
}
use freqtrade_llm.Base.Float.{Float, Precise}
use freqtrade_llm.Base.Float
use freqtrade_llm.Wallets.{
  Wallet, Wallets, Config, Books, Exchange, put, put_start_cap, amount_of, total_open_trades_stakes,
}
use freqtrade_llm.Wallets.Balances.{update, update_dry, update_live}

-- The start capital never takes the place of a balance.
put_start_cap_keeps :
    {F : Type 0} ⦃f : Float F⦄ (start_cap : List (String × F)) (d : String → Option (Wallet F))
    (key : String) (v : Wallet F)
    → d key ≡ some v
    → put_start_cap start_cap d key ≡ some v
unfolding put_start_cap put
put_start_cap_keeps [] d key v h = h
put_start_cap_keeps ⦃f⦄ ((currency, balance) ∷ rest) d key v h =
    put_start_cap_keeps rest
      (if is_some (d currency)
        then d
        else put currency record { free = balance; used = f.zero; total = balance } d)
      key v
      (if_cases (λ (m : String → Option (Wallet _)). m key ≡ some v) (is_some (d currency)) d
        (put currency record { free = balance; used = f.zero; total = balance } d) (λ e. h)
        (λ e. ground (arith, eq_iff key currency)))

put_start_cap-put :
    {F : Type 0} ⦃f : Float F⦄ (start_cap : List (String × F)) (d : String → Option (Wallet F))
    (key : String) (v : Wallet F)
    → put_start_cap start_cap (put key v d) key ≡ some v
unfolding put
put_start_cap-put start_cap d key v =
    put_start_cap_keeps start_cap (put key v d) key v (ground (arith, eq_iff key key))

module _ {F P : Type 0} ⦃f : Float F⦄ (pr : Precise F P) (x : Exchange F) where
  open f use {add, sub}

  -- A second refresh at the same time changes nothing: a refresh depends on the start capital, the
  -- trades and the exchange, never on the balances before it, and it is skipped where it may be.
  update-update :
      (c : Config F) (b : Books F) (require_update : Bool) (now : ℕ) (w : Wallets F)
      → update pr x c b require_update now (update pr x c b true now w) ≡ update pr x c b true now w
  unfolding update update_dry update_live
  update-update c b true now w = elim (Bool-cases (not c.dry_run || c.runmode_live)) [
    | inl e ↦ rw e refl
    | inr e ↦ rw e refl
  ]
  update-update c b false now w = rw (not_lt→ltb (now + 3_600_000_000) now (ground arith)) refl

  -- After a dry refresh the wallets hold a balance in the stake currency. What
  -- is used and a current stake add up to its total, and the current stake is the start capital and
  -- all profits without what is tied up in open trades, whatever their currencies are.
  update_dry-stake_currency :
      (c : Config F) (b : Books F) (w : Wallets F)
      → (v : Wallet F) × ((update_dry pr x c b w).wallets w.stake_currency ≡ some v)
        × (v.total
            ≡ add
                (sub
                  (add (amount_of w.stake_currency w.start_cap) (
                    add b.total_closed_profit
                      (Float.sum (map (λ t. t.realized_profit) b.open_trades))))
                  (total_open_trades_stakes b))
                v.used)
  unfolding update_dry total_open_trades_stakes
  update_dry-stake_currency c b w = (_, put_start_cap-put w.start_cap _ w.stake_currency _, refl)
