-- ===== src/Store/Init.antt =====
-- store/init.go. The file system's calls are parameters.
use orchestrator_relayer.Prelude.{ℕ, Bool, true, false, Bytes, codes, if◌then◌else◌}
use orchestrator_relayer.Effect.{
  Error, locked, opened, Result, ok, err, Go, pure, fail, lift, query, attempt, ◌>>=◌, ◌>>◌,
}
use orchestrator_relayer.Store.Lock.{LockCalls, Locker, lock, unlock_once}

-- `homedir.Expand(filepath.Clean(path))`, `filepath.Join`, whether `os.Stat` does not fail with
-- `IsNotExist`, `os.MkdirAll`, `os.Create`; the calls of the lock serve for the other files.
pub record FileCalls (W : Type 0) : Type 0 where
  pub lock_calls : LockCalls W
  pub store_path : Bytes → Result Bytes
  pub join : Bytes → Bytes → Bytes
  pub stat : Bytes → W → Bool × W
  pub make_dir : Bytes → W → Result (Unit {0}) × W
  pub create : Bytes → W → Result ℕ × W

pub record InitOptions : Type 0 where
  pub need_data_store : Bool
  pub need_signature_store : Bool
  pub need_evm_key_store : Bool
  pub need_p2p_key_store : Bool

-- `errors.Is(err, fslock.ErrLocked)`
unfoldable pub opened_if_locked : Error → Error
opened_if_locked locked = opened
opened_if_locked e = e

module _ {W : Type 0} (fs : FileCalls W) where
  unfoldable pub lock_path : Bytes → Bytes
  lock_path base = fs.join base (codes "lock")

  unfoldable pub data_path : Bytes → Bytes
  data_path base = fs.join base (codes "data")

  unfoldable pub signature_path : Bytes → Bytes
  signature_path base = fs.join base (codes "signatures")

  unfoldable pub evm_key_store_path : Bytes → Bytes
  evm_key_store_path base = fs.join base (codes "keystore/evm")

  unfoldable pub p2p_key_store_path : Bytes → Bytes
  p2p_key_store_path base = fs.join base (codes "keystore/p2p")

  unfoldable pub exists : Bytes → Go W Bool
  exists path = query λ w. let (b, w') = fs.stat path w in (ok b, w')

  unfoldable pub init_dir : Bytes → Go W (Unit {0})
  init_dir path = do there ← exists path; if there then pure tt else query (fs.make_dir path)

  -- checks for writing permissions
  unfoldable pub check_writable : Bytes → Go W (Unit {0})
  check_writable path = do
    f ← query (fs.create (fs.join path (codes ".check")))
    query (fs.lock_calls.close f)
    query (fs.lock_calls.remove (fs.join path (codes ".check")))

  unfoldable pub init_root : Bytes → Go W (Unit {0})
  init_root path = do init_dir path; check_writable path

  unfoldable pub locked_or_opened : Result Locker → Go W Locker
  locked_or_opened (ok flock) = pure flock
  locked_or_opened (err e) = fail (opened_if_locked e)

  unfoldable pub lock_store : Bytes → Go W Locker
  lock_store path = do r ← attempt (lock fs.lock_calls (lock_path path)); locked_or_opened r

  unfoldable pub init_if : Bool → Bytes → Go W (Unit {0})
  init_if true path = init_dir path
  init_if false path = pure tt

  unfoldable pub init_dirs : Bytes → InitOptions → Go W (Unit {0})
  init_dirs path options = do
    init_if options.need_data_store (data_path path)
    init_if options.need_signature_store (signature_path path)
    init_if options.need_p2p_key_store (p2p_key_store_path path)
    init_if options.need_evm_key_store (evm_key_store_path path)

  -- An error in between returns without unlocking.
  unfoldable pub init_locked : Bytes → InitOptions → Locker → Go W (Unit {0})
  init_locked path options flock = do init_dirs path options; unlock_once fs.lock_calls flock

  unfoldable pub init_at : Bytes → InitOptions → Go W (Unit {0})
  init_at path options = do init_root path; flock ← lock_store path; init_locked path options flock

  unfoldable pub init : Bytes → InitOptions → Go W (Unit {0})
  init given options = do path ← lift (fs.store_path given); init_at path options

  -- `needed && !Exists(path)` ends `IsInit` with false
  unfoldable pub unless_missing : Bool → Bytes → Go W Bool → Go W Bool
  unless_missing false path rest = rest
  unless_missing true path rest = do there ← exists path; if there then rest else pure false

  unfoldable pub all_exist : InitOptions → Result Bytes → Go W Bool
  all_exist options (err _) = pure false
  all_exist options (ok path) = unless_missing true path (
      unless_missing options.need_data_store (data_path path) (
        unless_missing options.need_signature_store (signature_path path) (
          unless_missing options.need_p2p_key_store (p2p_key_store_path path)
            (unless_missing options.need_evm_key_store (evm_key_store_path path) (pure true)))))

  unfoldable pub is_init : Bytes → InitOptions → Go W Bool
  is_init given options = all_exist options (fs.store_path given)
