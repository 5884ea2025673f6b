-- ===== src/Store/Lock.antt =====
-- store/fslock: a lock file. The system calls are parameters.
use orchestrator_relayer.Prelude.{ℕ, Option, none, some, Bytes}
use orchestrator_relayer.Effect.{
  Error, locked, resource_temporarily_unavailable, Result, ok, err, World, Go, pure, fail, query,
  attempt, ◌>>=◌, ◌>>◌,
}

-- Opening or creating a file, writing the process id to it, the two uses of `flock`, closing and
-- removing; an open file is a number.
pub record LockCalls (W : Type 0) : Type 0 where
  pub open_file : Bytes → W → Result ℕ × W
  pub write_pid : ℕ → W → Result (Unit {0}) × W
  pub flock_ex : ℕ → W → Result (Unit {0}) × W
  pub flock_un : ℕ → W → Result (Unit {0}) × W
  pub close : ℕ → W → Result (Unit {0}) × W
  pub remove : Bytes → W → Result (Unit {0}) × W

pub record Locker : Type 0 where
  pub file : Option ℕ
  pub path : Bytes

unfoldable pub new : Bytes → Locker
new path = record { file = none; path = path }

-- `err.Error() == "resource temporarily unavailable"`
unfoldable pub flock_error : Error → Error
flock_error resource_temporarily_unavailable = locked
flock_error e = e

module _ {W : Type 0} (os : LockCalls W) where
  unfoldable pub flocked : Locker → ℕ → Result (Unit {0}) → Go W Locker
  flocked l file (ok _) = pure (record { file = some file; path = l.path })
  flocked l file (err e) = fail (flock_error e)

  -- After an error the locker is not used: `Lock` below drops it.
  unfoldable pub lock_locker : Locker → Go W Locker
  lock_locker l = do
    file ← query (os.open_file l.path)
    query (os.write_pid file)
    r ← attempt (query (os.flock_ex file))
    flocked l file r

  unfoldable pub lock : Bytes → Go W Locker
  lock path = lock_locker (new path)

  unfoldable pub close_and_remove : ℕ → Bytes → Go W (Unit {0})
  close_and_remove file path = do query (os.close file); query (os.remove path)

  -- the result, and the locker after it
  unfoldable pub after_unflock :
      ℕ → Locker → Result (Unit {0}) → World W → (Result (Unit {0}) × Locker) × World W
  after_unflock file l (err e) t = ((err e, l), t)
  after_unflock file l (ok _) t =
      let (r, s') = close_and_remove file l.path t in
      ((r, record { file = none; path = l.path }), s')

  unfoldable pub unlock_file : ℕ → Locker → World W → (Result (Unit {0}) × Locker) × World W
  unlock_file file l s = let (r, t) = query (os.flock_un file) s in after_unflock file l r t

  unfoldable pub unlock_open :
      Option ℕ → Locker → World W → (Result (Unit {0}) × Option Locker) × World W
  unlock_open none l s = ((ok tt, some l), s)
  unlock_open (some file) l s = let ((r, l'), s') = unlock_file file l s in ((r, some l'), s')

  unfoldable pub unlock : Option Locker → World W → (Result (Unit {0}) × Option Locker) × World W
  unlock none s = ((ok tt, none), s)
  unlock (some l) s = unlock_open l.file l s

  -- where the locker is not used again
  unfoldable pub unlock_once : Locker → Go W (Unit {0})
  unlock_once l s = let ((r, _), s') = unlock (some l) s in (r, s')
