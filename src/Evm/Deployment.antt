-- ===== src/Evm/Deployment.antt =====
-- evm/evm_client.go and evm/evm_transaction_opts.go: dialling a node, the options of a transaction, and the
-- deployment of the contract.
use orchestrator_relayer.Prelude.{ℕ, ◌+◌, Bool, true, false, Option, none, some, Bytes}
use orchestrator_relayer.Effect.{
  deploy_contract, deploy_proxy, Result, and_then, ok, Go, pure, lift, query, call, ◌>>=◌, ◌>>◌,
}
use orchestrator_relayer.Types.Valsets.{Valset}
use orchestrator_relayer.Evm.Client.{Tx}

-- `bind.TransactOpts`: the sender, whose key store signs, and the fields that this program sets
pub record TransactOpts : Type 0 where
  pub from_account : Bytes
  pub tx_nonce : Option ℕ
  pub value : ℕ
  pub gas_limit : ℕ

-- `ethclient.Dial`, `PendingNonceAt` and `ChainID` of a dialled node, and whether
-- `NewKeyStoreTransactorWithChainID` makes the options of an account
pub record Node (W E : Type 0) : Type 0 where
  pub dial : Bytes → W → Result E × W
  pub pending_nonce_at : E → Bytes → W → Result ℕ × W
  pub chain_id : E → W → Result ℕ × W
  pub new_transactor : Bytes → ℕ → Result (Unit {0})

-- the fields of `Client` that are fixed: the account's address, `EvmRPC` and `GasLimit`
pub record ClientConfig : Type 0 where
  pub acc : Bytes
  pub evm_rpc : Bytes
  pub gas_limit : ℕ

module _ {W E : Type 0} (node : Node W E) where
  new_transact_opts_builder : Bytes → E → ℕ → Go W TransactOpts
  new_transact_opts_builder acc client gas_lim = do
    pending ← query (node.pending_nonce_at client acc)
    eth_chain_id ← query (node.chain_id client)
    lift (node.new_transactor acc eth_chain_id)
    pure (record { from_account = acc; tx_nonce = some pending; value = 0; gas_limit = gas_lim })

  pub new_eth_client : ClientConfig → Go W E
  new_eth_client ec = query (node.dial ec.evm_rpc)

  -- the node that is dialled here is not closed
  unfoldable pub new_transaction_opts : ClientConfig → Go W TransactOpts
  unfolding new_transact_opts_builder
  new_transaction_opts ec = do
    eth_client ← query (node.dial ec.evm_rpc)
    new_transact_opts_builder ec.acc eth_client ec.gas_limit

-- The generated deployments, which give the address and the transaction; celestia-app's `SignBytes` and
-- `TwoThirdsThreshold` of a valset; `GetAbi` and packing the call of `initialize`, whose numbers are
-- handed over as int64 with the same bits; and `NewWrappers`.
pub record Deployer (W B : Type 0) : Type 0 where
  pub deploy_wrappers : TransactOpts → W → Result (Bytes × Tx) × W
  pub deploy_erc1967 : TransactOpts → Bytes → Bytes → W → Result (Bytes × Tx) × W
  pub sign_bytes : Valset → Result Bytes
  pub two_thirds_threshold : Valset → ℕ
  pub get_abi : Result (Unit {0})
  pub pack_initialize : ℕ → ℕ → Bytes → Result Bytes
  pub new_wrappers : Bytes → Result B

-- What the deployment changes besides the chain: `ec.Wrapper`, and the caller's options.
pub record Deploying (B : Type 0) : Type 0 where
  pub wrapper : Option B
  pub opts : TransactOpts

module _ {W B : Type 0} (deployer : Deployer W B) where
  deploy_implementation : Go (Deploying B × W) (Bytes × Tx)
  deploy_implementation s =
      call (deploy_contract s.ext.0.opts.tx_nonce)
        (λ (d, w). let (r, w') = deployer.deploy_wrappers d.opts w in (r, (d, w'))) s

  deploy_erc1867_proxy : Bytes → Bytes → Go (Deploying B × W) (Bytes × Tx)
  deploy_erc1867_proxy implementation_address call_data s =
      call (deploy_proxy s.ext.0.opts.tx_nonce implementation_address call_data)
        (λ (d, w).
          let (r, w') = deployer.deploy_erc1967 d.opts implementation_address call_data w in
          (r, (d, w')))
        s

  -- `opts.Nonce.Add(opts.Nonce, 1)`, on an unbounded number, where there is one
  bumped : TransactOpts → TransactOpts
  bumped opts = record opts {
    tx_nonce = elim opts.tx_nonce [ none ↦ none | some n ↦ some (n + 1) ];
  }

  bump_nonce : Go (Deploying B × W) (Unit {0})
  unfolding bumped
  bump_nonce s =
      let (d, w) = s.ext in (ok tt, record s { ext = (record d { opts = bumped d.opts }, w) })

  if_init_bridge : Bool → B → Go (Deploying B × W) (Unit {0})
  if_init_bridge false bridge s = (ok tt, s)
  if_init_bridge true bridge s =
      let (d, w) = s.ext in (ok tt, record s { ext = (record d { wrapper = some bridge }, w) })

  -- the data of the call that initializes the proxy
  init_data : Valset → ℕ → Result Bytes
  init_data contract_init_valset contract_init_nonce =
      and_then (deployer.sign_bytes contract_init_valset) λ eth_vs_checkpoint.
        and_then deployer.get_abi λ _.
          deployer.pack_initialize contract_init_nonce
            (deployer.two_thirds_threshold contract_init_valset) eth_vs_checkpoint

  unfoldable pub deploy_blobstream_contract :
      Valset → ℕ → Bool → Go (Deploying B × W) (Bytes × Tx × B)
  unfolding deploy_implementation init_data bump_nonce deploy_erc1867_proxy if_init_bridge
  deploy_blobstream_contract contract_init_valset contract_init_nonce init_bridge = do
    imp ← deploy_implementation
    call_data ← lift (init_data contract_init_valset contract_init_nonce)
    bump_nonce
    proxy ← deploy_erc1867_proxy imp.0 call_data
    bridge ← lift (deployer.new_wrappers proxy.0)
    if_init_bridge init_bridge bridge
    pure (proxy.0, proxy.1, bridge)
