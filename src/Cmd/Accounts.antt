-- ===== src/Cmd/Accounts.antt =====
-- cmd/blobstream/keys/evm/evm.go: the prompts for passphrases, and the account of a key store.
use orchestrator_relayer.Prelude.{
  Bool, true, false, not, List, [], ◌∷◌, Option, none, some, Bytes, str_eq, ltb, length, replicate,
  if◌then◌else◌,
}
use orchestrator_relayer.Effect.{
  not_a_correct_evm_address, account_not_found, unable_to_unlock, Result, ok, err, Go, pure, fail,
  query, attempt, ◌>>=◌,
}
use orchestrator_relayer.Evm.Geth.{Geth}

-- What `term.ReadPassword` gives is handed in, in order; `none`: a prompt still waits.
unfoldable pub get_new_passphrase : List (Result Bytes) → Option (Result Bytes)
get_new_passphrase [] = none
get_new_passphrase (err e ∷ _) = some (err e)
get_new_passphrase (ok p ∷ []) = none
get_new_passphrase (ok p ∷ err e ∷ _) = some (err e)
get_new_passphrase (ok p ∷ ok confirm ∷ reads) = elim (str_eq p confirm) [
  | true ↦ some (ok p)
  | false ↦ get_new_passphrase reads
]

too_long : Bytes → Bool
too_long p = ltb 100 (length p)

-- a passphrase above a hundred bytes is asked for again, before its confirmation
unfoldable pub get_bip39_passphrase : List (Result Bytes) → Option (Result Bytes)
unfolding too_long
get_bip39_passphrase [] = none
get_bip39_passphrase (err e ∷ _) = some (err e)
get_bip39_passphrase (ok p ∷ []) = none
get_bip39_passphrase (ok p ∷ err e ∷ _) = some (err e)
get_bip39_passphrase (ok p ∷ ok q ∷ reads) = elim (too_long p) [
  | true ↦ get_bip39_passphrase (ok q ∷ reads)
  | false ↦ elim (str_eq p q) [ true ↦ some (ok p) | false ↦ get_bip39_passphrase reads ]
]

-- go-ethereum's key store, and reading from the terminal; an account is its address
pub record EvmKeyStore (W : Type 0) : Type 0 where
  pub has_address : Bytes → W → Bool × W
  pub accounts : W → List Bytes × W
  pub unlock : Bytes → Bytes → W → Result (Unit {0}) × W
  pub read_password : W → Result Bytes × W

module _ {W : Type 0} (geth : Geth) (ks : EvmKeyStore W) where
  -- the loop over the accounts: the last one of that address, else the zero account
  unfoldable pub find_account : Bytes → Bytes → List Bytes → Bytes
  find_account addr acc [] = acc
  find_account addr acc (stored ∷ accounts) =
      find_account addr
        (if str_eq (geth.address_hex stored) (geth.address_hex addr) then stored else acc) accounts

  unfoldable pub account_if : Bool → Bytes → Go W Bytes
  account_if false addr = fail account_not_found
  account_if true addr = do
    stored ← query (λ w. let (found, w') = ks.accounts w in (ok found, w'))
    pure (find_account addr (replicate 20 0) stored)

  unfoldable pub get_account_from_store : Bytes → Go W Bytes
  get_account_from_store evm_addr =
      if not (geth.is_hex_address evm_addr) then fail not_a_correct_evm_address else (do
        let addr = geth.hex_to_address evm_addr
        there ← query (λ w. let (b, w') = ks.has_address addr w in (ok b, w'))
        account_if there addr)

  unfoldable pub get_passphrase : Go W Bytes
  get_passphrase = query ks.read_password

  unfoldable pub passphrase_or_ask : Bytes → Go W Bytes
  passphrase_or_ask passphrase = if str_eq passphrase [] then get_passphrase else pure passphrase

  -- the error of `Unlock` is only printed into the new one
  unfoldable pub unlocked : Bytes → Bytes → Go W Bytes
  unlocked acc passphrase = do
    r ← attempt (query (ks.unlock acc passphrase))
    elim r [ err _ ↦ fail unable_to_unlock | ok _ ↦ pure acc ]

  unfoldable pub get_account_from_store_and_unlock_it : Bytes → Bytes → Go W Bytes
  get_account_from_store_and_unlock_it evm_addr evm_passphrase = do
    acc ← get_account_from_store evm_addr
    passphrase ← passphrase_or_ask evm_passphrase
    unlocked acc passphrase
