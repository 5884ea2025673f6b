-- ===== src/Tests/Deploying.antt =====
-- The deployment of the contract, and the prompts for passphrases, at concrete inputs.
use orchestrator_relayer.Prelude.{ℕ, ◌≡◌, refl, [], ◌∷◌, true, none, some, codes, str_eq}
use orchestrator_relayer.Effect.{deploy_contract, deploy_proxy, invalid, ok, err}
use orchestrator_relayer.Evm.Client.{Tx}
use orchestrator_relayer.Evm.Deployment.{TransactOpts, Deployer, deploy_blobstream_contract}
use orchestrator_relayer.Cmd.Accounts.{get_new_passphrase, get_bip39_passphrase}
use orchestrator_relayer.Tests.Fixtures.{valset_of}

abbrev tx : Tx
tx = record { hash = 1 ∷ []; gas_price = none; gas_tip_cap = none; gas_fee_cap = none }

abbrev deployer : Deployer (Unit {0}) ℕ
deployer = record {
  deploy_wrappers = λ _ w. (ok (2 ∷ [], tx), w);
  deploy_erc1967 = λ _ _ _ w. (ok (3 ∷ [], tx), w);
  sign_bytes = λ _. ok (4 ∷ []);
  two_thirds_threshold = λ _. 7;
  get_abi = ok tt;
  pack_initialize = λ nonce threshold checkpoint. ok (nonce ∷ threshold ∷ checkpoint);
  new_wrappers = λ _. ok 5;
}

abbrev opts : TransactOpts
opts = record { from_account = 9 ∷ []; tx_nonce = some 11; value = 0; gas_limit = 100 }

-- the proxy's transaction has the nonce behind the implementation's
deploys :
    deploy_blobstream_contract deployer
      (valset_of 1)
      1
      true
      (record { ext = (record { wrapper = none; opts = opts }, tt); calls = [] })
    ≡ (
      ok (3 ∷ [], tx, 5),
      record {
        ext = (record { wrapper = some 5; opts = record opts { tx_nonce = some 12 } }, tt);
        calls = deploy_proxy (some 12) (2 ∷ []) (1 ∷ 7 ∷ 4 ∷ []) ∷ deploy_contract (some 11) ∷ [];
      },
    )
unfolding deploy_blobstream_contract
deploys = refl

asks_again :
    get_new_passphrase (ok (codes "a") ∷ ok (codes "b") ∷ ok (codes "c") ∷ ok (codes "c") ∷ [])
    ≡ some (ok (codes "c"))
unfolding get_new_passphrase str_eq
asks_again = refl

prompt_fails : get_bip39_passphrase (ok (codes "a") ∷ err invalid ∷ []) ≡ some (err invalid)
unfolding get_bip39_passphrase
prompt_fails = refl
