-- ===== src/Store/Open.antt =====
-- store/store.go: opening and closing a store. Badger and the key stores are parameters.
use orchestrator_relayer.Prelude.{
  ℕ, Bool, true, false, ◌||◌, Option, none, some, Bytes, if◌then◌else◌,
}
use orchestrator_relayer.Effect.{
  Error, not_inited, badger_options_needed, Result, ok, err, World, Go, pure, fail, lift, query,
  attempt, continue, ◌>>=◌, ◌>>◌,
}
use orchestrator_relayer.Store.Lock.{Locker, unlock, unlock_once}
use orchestrator_relayer.Store.Init.{
  FileCalls, InitOptions, data_path, signature_path, evm_key_store_path, p2p_key_store_path,
  lock_store, is_init,
}

-- `badger.NewDatastore` and `Close`, at a type of options, and `NewFSKeystore`; an open
-- datastore or key store is a number. `NewKeyStore` cannot fail.
pub record StoreCalls (W O : Type 0) : Type 0 where
  pub new_datastore : Bytes → O → W → Result ℕ × W
  pub close_datastore : ℕ → W → Result (Unit {0}) × W
  pub new_key_store : Bytes → ℕ
  pub new_fs_keystore : Bytes → W → Result ℕ × W

pub record OpenOptions (O : Type 0) : Type 0 where
  pub has_data_store : Bool
  pub badger_options : Option O
  pub has_signature_store : Bool
  pub has_evm_key_store : Bool
  pub has_p2p_key_store : Bool

pub record Store : Type 0 where
  pub data_store : Option ℕ
  pub signature_store : Option ℕ
  pub evm_key_store : Option ℕ
  pub p2p_key_store : Option ℕ
  pub path : Bytes
  pub store_lock : Option Locker

module _ {W O : Type 0} (fs : FileCalls W) (calls : StoreCalls W O) where
  -- `if err != nil { flock.Unlock(); return nil, err }`, in which the unlocking's error is passed over
  unfoldable pub or_unlock : {A : Type 0} → Locker → Result A → Go W A
  or_unlock flock (ok a) = pure a
  or_unlock flock (err e) = do attempt (unlock_once fs.lock_calls flock); fail e

  unfoldable pub needed_options : Locker → Option O → Go W O
  needed_options flock none = or_unlock flock (err badger_options_needed)
  needed_options flock (some options) = pure options

  unfoldable pub open_datastore : Bool → Locker → Bytes → O → Go W (Option ℕ)
  open_datastore false flock path options = pure none
  open_datastore true flock path options = do
    r ← attempt (query (calls.new_datastore path options))
    ds ← or_unlock flock r
    pure (some ds)

  -- the lock and the stores that are under it, where there is one at least
  unfoldable pub open_locked :
      Bool → Bytes → OpenOptions O → Go W (Option Locker × Option ℕ × Option ℕ)
  open_locked false path options = pure (none, none, none)
  open_locked true path options = do
    flock ← lock_store fs path
    badger ← needed_options flock options.badger_options
    ds ← open_datastore options.has_data_store flock (data_path fs path) badger
    sig_store ← open_datastore options.has_signature_store flock (signature_path fs path) badger
    pure (some flock, ds, sig_store)

  unfoldable pub open_p2p_key_store : Bool → Bytes → Go W (Option ℕ)
  open_p2p_key_store false path = pure none
  open_p2p_key_store true path = do ks ← query (calls.new_fs_keystore path); pure (some ks)

  unfoldable pub init_options : OpenOptions O → InitOptions
  init_options options = record {
    need_data_store = options.has_data_store;
    need_signature_store = options.has_signature_store;
    need_evm_key_store = options.has_evm_key_store;
    need_p2p_key_store = options.has_p2p_key_store;
  }

  unfoldable pub needs_lock : OpenOptions O → Bool
  needs_lock options = options.has_data_store || options.has_signature_store

  unfoldable pub if_inited : Bool → Go W (Unit {0})
  if_inited true = pure tt
  if_inited false = fail not_inited

  unfoldable pub open_key_stores :
      Bytes → OpenOptions O → Option Locker × Option ℕ × Option ℕ → Go W Store
  open_key_stores path options (flock, ds, sig_store) = do
    p2p_ks ← open_p2p_key_store options.has_p2p_key_store (p2p_key_store_path fs path)
    pure (record {
      data_store = ds;
      signature_store = sig_store;
      evm_key_store =
          if options.has_evm_key_store
          then some (calls.new_key_store (evm_key_store_path fs path))
          else none;
      p2p_key_store = p2p_ks;
      path = path;
      store_lock = flock;
    })

  unfoldable pub open_inited : Bytes → OpenOptions O → Go W Store
  open_inited path options = do
    under_lock ← open_locked (needs_lock options) path options
    open_key_stores path options under_lock

  unfoldable pub open_at : Bytes → OpenOptions O → Go W Store
  open_at path options = do
    inited ← is_init fs path (init_options options)
    if_inited inited
    open_inited path options

  unfoldable pub open_store : Bytes → OpenOptions O → Go W Store
  open_store given options = do path ← lift (fs.store_path given); open_at path options

  -- closing a datastore that was not opened is a call on a nil pointer
  unfoldable pub close_one : Bool → Option ℕ → Go W (Unit {0})
  close_one false ds = pure tt
  close_one true none = fail Error.panicked
  close_one true (some ds) = query (calls.close_datastore ds)

  unfoldable pub close_stores : Store → OpenOptions O → Go W (Unit {0})
  close_stores store options = do
    close_one options.has_data_store store.data_store
    close_one options.has_signature_store store.signature_store

  -- The lock is a pointer: the store after it has the lock as `Unlock` leaves it.
  unfoldable pub close : Store → OpenOptions O → World W → (Result (Unit {0}) × Store) × World W
  close store options s = elim (needs_lock options) [
    | false ↦ let (r, s') = close_stores store options s in ((r, store), s')
    | true ↦
        let ((r, l), t) = unlock fs.lock_calls store.store_lock s in
        let store' : Store = record store { store_lock = l } in
        let (r', s') = continue r (λ _. close_stores store' options) t in ((r', store'), s')
  ]
