-- ===== src/Relayer/Wait.antt =====
-- relayer/relayer.go: `waitForTransactionAndRetryIfNeeded` and the transactions it makes.
pub mod Original
use orchestrator_relayer.Prelude.{
  ℕ, zero, suc, ◌+◌, ◌*◌, Bool, true, false, Option, none, some, Bytes, leb, ltb, if◌then◌else◌,
}
use orchestrator_relayer.Effect.{
  Error, foreign, is_deadline_exceeded, transaction_still_pending, panicked, send_transaction,
  Result, ok, err, World, Go, pure, fail, query, call, attempt, ◌>>=◌, ◌>>◌,
}
use orchestrator_relayer.Evm.Client.{Tx, wait_for_transaction}

-- The EVM node, the account's signer and geth's transactions: a legacy copy of a transaction at a
-- price, a dynamic copy at two caps, with no more than the prices changed. The base fee is nil
-- where the chain is not London ready.
pub record EthClient (W : Type 0) : Type 0 where
  pub mined : Tx → W → Result ℕ × W
  pub suggest_gas_price : W → Result ℕ × W
  pub suggest_gas_tip_cap : W → Result ℕ × W
  pub header_base_fee : W → Result (Option ℕ) × W
  pub new_legacy_tx : Tx → ℕ → Tx
  pub new_dynamic_tx : Tx → ℕ → ℕ → Tx
  pub signer : Tx → W → Result Tx × W
  pub send : Tx → W → Result (Unit {0}) × W

-- `params.DefaultElasticityMultiplier` of go-ethereum
abbrev pub default_elasticity_multiplier : ℕ
default_elasticity_multiplier = 2

-- `fmt.Errorf("maxFeePerGas (%v) < maxPriorityFeePerGas (%v)", …)`
abbrev fee_below_tip : Error
fee_below_tip = foreign 1

module _ {W : Type 0} (client : EthClient W) where
  -- `Add` and `Mul` on a nil base fee panic
  base_fee_of : Option ℕ → Go W ℕ
  base_fee_of none = fail panicked
  base_fee_of (some base_fee) = pure base_fee

  pub create_speeded_up_dynamic_transaction : Tx → Go W Tx
  unfolding base_fee_of
  create_speeded_up_dynamic_transaction new_tx = do
    gas_tip_cap ← query client.suggest_gas_tip_cap
    header ← query client.header_base_fee
    base_fee ← base_fee_of header
    let gas_fee_cap = gas_tip_cap + base_fee * default_elasticity_multiplier
    (if ltb gas_fee_cap gas_tip_cap
        then fail fee_below_tip
        else pure (client.new_dynamic_tx new_tx gas_tip_cap gas_fee_cap))

  unfoldable pub create_speeded_up_legacy_transaction : Tx → Go W Tx
  create_speeded_up_legacy_transaction new_tx = do
    new_gas_price ← query client.suggest_gas_price
    pure (client.new_legacy_tx new_tx new_gas_price)

  -- `raw.Cmp(old) <= 0`, on prices that may be nil: then it panics
  unfoldable pub if_higher : Option ℕ → Option ℕ → Tx → Go W (Option Tx)
  if_higher none old raw_tx = fail panicked
  if_higher (some new) none raw_tx = fail panicked
  if_higher (some new) (some old) raw_tx = pure (if leb new old then none else some raw_tx)

  unfoldable pub speed_up_legacy : Tx → Go W (Option Tx)
  unfolding if_higher
  speed_up_legacy new_tx = do
    raw_tx ← create_speeded_up_legacy_transaction new_tx
    if_higher raw_tx.gas_price new_tx.gas_price raw_tx

  pub speed_up_dynamic : Tx → Go W (Option Tx)
  unfolding if_higher
  speed_up_dynamic new_tx = do
    raw_tx ← create_speeded_up_dynamic_transaction new_tx
    if_higher raw_tx.gas_fee_cap new_tx.gas_fee_cap raw_tx

  pub by_base_fee : Option ℕ → Tx → Go W (Option Tx)
  by_base_fee (some _) new_tx = speed_up_dynamic new_tx
  by_base_fee none new_tx = speed_up_legacy new_tx

  -- neither price is set: only then is the base fee asked for
  pub speed_up_unpriced : Tx → Go W (Option Tx)
  unfolding by_base_fee
  speed_up_unpriced new_tx = do head ← query client.header_base_fee; by_base_fee head new_tx

  -- the branches on the prices that the first transaction has; `none` is `continue`
  unfoldable pub speed_up_by : Option ℕ → Option ℕ → Option ℕ → Tx → Go W (Option Tx)
  speed_up_by (some _) tip fee new_tx = speed_up_legacy new_tx
  speed_up_by none (some _) (some _) new_tx = speed_up_dynamic new_tx
  speed_up_by none (some _) none new_tx = speed_up_unpriced new_tx
  speed_up_by none none fee new_tx = speed_up_unpriced new_tx

  -- `GasPrice().Uint64()`, in what is logged: a nil price panics
  unfoldable pub log_price : Option ℕ → Go W (Unit {0})
  log_price none = fail panicked
  log_price (some _) = pure tt

  -- an error of the sending is only logged
  unfoldable pub resend : Option Tx → Go W (Unit {0})
  unfolding log_price
  resend none = pure tt
  resend (some raw_tx) = do
    signed_tx ← query (client.signer raw_tx)
    attempt (call (send_transaction signed_tx.hash) (client.send signed_tx))
    log_price signed_tx.gas_price

  -- what a round does where the wait has timed out
  unfoldable pub speed_up : Tx → Tx → Go W (Unit {0})
  speed_up tx new_tx = do
    raw_tx ← speed_up_by tx.gas_price tx.gas_tip_cap tx.gas_fee_cap new_tx
    resend raw_tx

  -- The rounds left. `newTx` is set once, before the loop, to `tx`.
  unfoldable pub retry_loop : ℕ → Tx → Tx → Go W (Unit {0})
  retry_loop zero tx new_tx = fail transaction_still_pending
  retry_loop (suc k) tx new_tx = do
    r ← attempt (wait_for_transaction client.mined new_tx)
    elim r [
      | ok _ ↦ pure tt
      | err e ↦ elim (is_deadline_exceeded e) [
        | false ↦ fail e
        | true ↦ do speed_up tx new_tx; retry_loop k tx new_tx
      ]
    ]

  unfoldable pub wait_for_transaction_and_retry_if_needed : Tx → Go W (Unit {0})
  unfolding log_price
  wait_for_transaction_and_retry_if_needed tx = do log_price tx.gas_price; retry_loop 10 tx tx
