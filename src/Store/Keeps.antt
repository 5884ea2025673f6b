-- ===== src/Store/Keeps.antt =====
-- What taking the lock keeps true of the file system.
use orchestrator_relayer.Prelude.{ℕ, ◌≡◌, Bytes, none, arith, inl, inr}
use orchestrator_relayer.Effect.{
  Result, ok, err, World, query, attempt, bind-inv, outcome-cases, ◌>>=◌, ◌>>◌,
}
use orchestrator_relayer.Effect.Keeps.{KeptBy, Keeps, bind-Keeps}
use orchestrator_relayer.Store.Lock.{Locker, new, flocked, lock_locker, lock}
use orchestrator_relayer.Store.Init.{FileCalls, lock_path, locked_or_opened, lock_store}

module _ {W : Type 0} (fs : FileCalls W) (P : W → Type 0) where
  -- `P` is kept by opening the lock file, writing to it and locking it.
  pub record KeptByLock : Type 0 where
    pub by_open : (q : Bytes) → KeptBy P (fs.lock_calls.open_file q)
    pub by_write : (f : ℕ) → KeptBy P (fs.lock_calls.write_pid f)
    pub by_flock : (f : ℕ) → KeptBy P (fs.lock_calls.flock_ex f)

  flocked-Keeps :
      (l : Locker) (file : ℕ) (r : Result (Unit {0})) → Keeps P (flocked fs.lock_calls l file r)
  unfolding flocked
  flocked-Keeps l file (ok _) s h = h
  flocked-Keeps l file (err e) s h = h

  locked_or_opened-Keeps : (r : Result Locker) → Keeps P (locked_or_opened fs r)
  unfolding locked_or_opened
  locked_or_opened-Keeps (ok l) s h = h
  locked_or_opened-Keeps (err e) s h = h

  module _ (kept : KeptByLock) where
    flock-Keeps :
        (l : Locker) (file : ℕ)
        → Keeps P (attempt (query (fs.lock_calls.flock_ex file)) >>= flocked fs.lock_calls l file)
    flock-Keeps l file =
        bind-Keeps P (attempt (query (fs.lock_calls.flock_ex file))) (flocked fs.lock_calls l file)
          (λ s. kept.by_flock file s.ext) (flocked-Keeps l file)

    write-Keeps :
        (l : Locker) (file : ℕ)
        → Keeps P (
            query (fs.lock_calls.write_pid file)
            >> (attempt (query (fs.lock_calls.flock_ex file)) >>= flocked fs.lock_calls l file))
    write-Keeps l file =
        bind-Keeps P (query (fs.lock_calls.write_pid file))
          (λ _. attempt (query (fs.lock_calls.flock_ex file)) >>= flocked fs.lock_calls l file)
          (λ s. kept.by_write file s.ext) (λ _. flock-Keeps l file)

    lock_locker-Keeps : (l : Locker) → Keeps P (lock_locker fs.lock_calls l)
    unfolding lock_locker
    lock_locker-Keeps l =
        bind-Keeps P (query (fs.lock_calls.open_file l.path))
          (λ file.
            query (fs.lock_calls.write_pid file)
            >> (attempt (query (fs.lock_calls.flock_ex file)) >>= flocked fs.lock_calls l file))
          (λ s. kept.by_open l.path s.ext) (write-Keeps l)

    pub lock_store-Keeps : (base : Bytes) → Keeps P (lock_store fs base)
    unfolding lock_store lock
    lock_store-Keeps base =
        bind-Keeps P (attempt (lock fs.lock_calls (lock_path fs base))) (locked_or_opened fs)
          (lock_locker-Keeps (new (lock_path fs base))) locked_or_opened-Keeps

-- The locker has the path of the lock file.
module _ {W : Type 0} (fs : FileCalls W) where
  flocked-path :
      (l : Locker) (file : ℕ) (r : Result (Unit {0})) (s s' : World W) (l' : Locker)
      → flocked fs.lock_calls l file r s ≡ (ok l', s')
      → l'.path ≡ l.path
  unfolding flocked
  flocked-path l file (ok _) s s' l' h = ground (arith, h)
  flocked-path l file (err e) s s' l' h = absurd (ground (arith, h))

  lock-path :
      (path : Bytes) (s s' : World W) (l : Locker)
      → lock fs.lock_calls path s ≡ (ok l, s')
      → l.path ≡ path
  unfolding lock lock_locker new
  lock-path path s s' l h =
      let (file, t, _, h1) =
        bind-inv (query (fs.lock_calls.open_file path))
          (λ file.
            query (fs.lock_calls.write_pid file)
            >> (attempt (query (fs.lock_calls.flock_ex file))
                >>= flocked fs.lock_calls (record { file = none; path = path }) file))
          s s' l h in
      let (_, u, _, h2) =
        bind-inv (query (fs.lock_calls.write_pid file))
          (λ _.
            attempt (query (fs.lock_calls.flock_ex file))
            >>= flocked fs.lock_calls (record { file = none; path = path }) file)
          t s' l h1 in
      let (r, v, _, h3) =
        bind-inv (attempt (query (fs.lock_calls.flock_ex file)))
          (flocked fs.lock_calls (record { file = none; path = path }) file) u s' l h2 in
      flocked-path _ file r v s' l h3

  -- the three calls behind a lock that was taken
  pub lock-inv :
      (path : Bytes) (s s' : World W) (l : Locker)
      → lock fs.lock_calls path s ≡ (ok l, s')
      → (file : ℕ) × (t u : W) × (fs.lock_calls.open_file path s.ext ≡ (ok file, t))
        × (fs.lock_calls.write_pid file t ≡ (ok tt, u))
        × (fs.lock_calls.flock_ex file u ≡ (ok tt, s'.ext))
  unfolding lock lock_locker new flocked
  lock-inv path s s' l h = elim (outcome-cases (fs.lock_calls.open_file path s.ext)) [
    | inr (e, t, p) ↦ absurd (ground (arith, p, h))
    | inl (file, t, p) ↦ elim (outcome-cases (fs.lock_calls.write_pid file t)) [
      | inr (e, u, q) ↦ absurd (ground (arith, p, q, h))
      | inl (_, u, q) ↦ elim (outcome-cases (fs.lock_calls.flock_ex file u)) [
        | inr (e, v, r) ↦ absurd (ground (arith, p, q, r, h))
        | inl (_, v, r) ↦ (file, t, u, p, q, ground (arith, p, q, r, h))
      ]
    ]
  ]

  pub lock_store-inv :
      (base : Bytes) (s s' : World W) (l : Locker)
      → lock_store fs base s ≡ (ok l, s')
      → lock fs.lock_calls (lock_path fs base) s ≡ (ok l, s')
  unfolding lock_store locked_or_opened
  lock_store-inv base s s' l h = elim (outcome-cases (lock fs.lock_calls (lock_path fs base) s)) [
    | inl (l', t, p) ↦ ground (arith, p, h)
    | inr (e, t, p) ↦ absurd (ground (arith, p, h))
  ]

  pub lock_store-path :
      (base : Bytes) (s s' : World W) (l : Locker)
      → lock_store fs base s ≡ (ok l, s')
      → l.path ≡ lock_path fs base
  lock_store-path base s s' l h =
      lock-path (lock_path fs base) s s' l (lock_store-inv base s s' l h)
