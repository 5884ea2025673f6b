-- ===== src/Store/Files.antt =====
-- The file system's behaviour, and what the steps of `Init` keep there.
use orchestrator_relayer.Prelude.{
  ℕ, ◌≡◌, ◌≢◌, Bool, true, false, Option, none, some, Bytes, codes, if◌then◌else◌,
}
use orchestrator_relayer.Effect.{Result, ok, err, World, pure, query, ◌>>◌}
use orchestrator_relayer.Effect.Keeps.{KeptBy, Keeps, bind-Keeps}
use orchestrator_relayer.Store.Lock.{
  Locker, close_and_remove, after_unflock, unlock_file, unlock_open, unlock, unlock_once,
}
use orchestrator_relayer.Store.Keeps.{KeptByLock}
use orchestrator_relayer.Store.Init.{
  FileCalls, lock_path, exists, init_dir, check_writable, init_if,
}

module _ {W : Type 0} (fs : FileCalls W) where
  abbrev pub There : Bytes → W → Type 0
  There path w = (fs.stat path w).0 ≡ true

  -- The file system's documented behaviour: `os.Stat` changes nothing, a directory that was made is there, and
  -- what is there stays there, except for what is removed.
  pub record FileLaws : Type 0 where
    pub stat_reads : (p : Bytes) (w : W) → (fs.stat p w).1 ≡ w
    pub made : (p : Bytes) (w : W) → (fs.make_dir p w).0 ≡ ok tt → There p (fs.make_dir p w).1
    pub kept_by_make_dir : (p q : Bytes) → KeptBy (There p) (fs.make_dir q)
    pub kept_by_create : (p q : Bytes) → KeptBy (There p) (fs.create q)
    pub kept_by_open : (p q : Bytes) → KeptBy (There p) (fs.lock_calls.open_file q)
    pub kept_by_write : (p : Bytes) (f : ℕ) → KeptBy (There p) (fs.lock_calls.write_pid f)
    pub kept_by_flock : (p : Bytes) (f : ℕ) → KeptBy (There p) (fs.lock_calls.flock_ex f)
    pub kept_by_unflock : (p : Bytes) (f : ℕ) → KeptBy (There p) (fs.lock_calls.flock_un f)
    pub kept_by_close : (p : Bytes) (f : ℕ) → KeptBy (There p) (fs.lock_calls.close f)
    pub kept_by_remove : (p q : Bytes) → p ≢ q → KeptBy (There p) (fs.lock_calls.remove q)

  -- a path that is neither the lock file nor the file that tests the permissions
  abbrev pub Lasting : Bytes → Bytes → Type 0
  Lasting base p = (p ≢ lock_path fs base) × (p ≢ fs.join base (codes ".check"))

  module _ (laws : FileLaws) (base p : Bytes) (lasting : Lasting base p) where
    pub kept_by_lock : KeptByLock fs (There p)
    kept_by_lock = record {
      by_open = laws.kept_by_open p;
      by_write = laws.kept_by_write p;
      by_flock = laws.kept_by_flock p;
    }

    exists-Keeps : (q : Bytes) → Keeps (There p) (exists fs q)
    unfolding exists
    exists-Keeps q s h = rw (laws.stat_reads q s.ext) h

    made_if_missing-Keeps :
        (q : Bytes) (there : Bool)
        → Keeps (There p) (if there then pure tt else query (fs.make_dir q))
    made_if_missing-Keeps q true s h = h
    made_if_missing-Keeps q false s h = laws.kept_by_make_dir p q s.ext h

    init_dir-Keeps : (q : Bytes) → Keeps (There p) (init_dir fs q)
    unfolding init_dir
    init_dir-Keeps q =
        bind-Keeps (There p) (exists fs q)
          (λ there. if there then pure tt else query (fs.make_dir q)) (exists-Keeps q)
          (made_if_missing-Keeps q)

    pub init_if-Keeps : (needed : Bool) (q : Bytes) → Keeps (There p) (init_if fs needed q)
    unfolding init_if
    init_if-Keeps true q s h = init_dir-Keeps q s h
    init_if-Keeps false q s h = h

    close_check-Keeps :
        (f : ℕ)
        → Keeps (There p) (
            query (fs.lock_calls.close f)
            >> query (fs.lock_calls.remove (fs.join base (codes ".check"))))
    close_check-Keeps f =
        bind-Keeps (There p) (query (fs.lock_calls.close f))
          (λ _. query (fs.lock_calls.remove (fs.join base (codes ".check"))))
          (λ s. laws.kept_by_close p f s.ext)
          (λ _ s. laws.kept_by_remove p (fs.join base (codes ".check")) lasting.1 s.ext)

    pub check_writable-Keeps : Keeps (There p) (check_writable fs base)
    unfolding check_writable
    check_writable-Keeps =
        bind-Keeps (There p) (query (fs.create (fs.join base (codes ".check"))))
          (λ f.
            query (fs.lock_calls.close f)
            >> query (fs.lock_calls.remove (fs.join base (codes ".check"))))
          (λ s. laws.kept_by_create p (fs.join base (codes ".check")) s.ext) close_check-Keeps

    remove-Keeps :
        (file : ℕ) → Keeps (There p) (close_and_remove fs.lock_calls file (lock_path fs base))
    unfolding close_and_remove
    remove-Keeps file =
        bind-Keeps (There p) (query (fs.lock_calls.close file))
          (λ _. query (fs.lock_calls.remove (lock_path fs base)))
          (λ s. laws.kept_by_close p file s.ext)
          (λ _ s. laws.kept_by_remove p (lock_path fs base) lasting.0 s.ext)

    after_unflock-There :
        (file : ℕ) (l : Locker) (r : Result (Unit {0})) (t : World W)
        → l.path ≡ lock_path fs base
        → There p t.ext
        → There p (after_unflock fs.lock_calls file l r t).1.ext
    unfolding after_unflock
    after_unflock-There file l (err e) t same h = h
    after_unflock-There file l (ok _) t same h = rw same (remove-Keeps file t h)

    unlock_open-There :
        (file : Option ℕ) (l : Locker) (s : World W)
        → l.path ≡ lock_path fs base
        → There p s.ext
        → There p (unlock_open fs.lock_calls file l s).1.ext
    unfolding unlock_open unlock_file
    unlock_open-There none l s same h = h
    unlock_open-There (some file) l s same h =
        after_unflock-There file l (fs.lock_calls.flock_un file s.ext).0 _ same
          (laws.kept_by_unflock p file s.ext h)

    pub unlock_once-Keeps :
        (l : Locker) → l.path ≡ lock_path fs base → Keeps (There p) (unlock_once fs.lock_calls l)
    unfolding unlock_once unlock
    unlock_once-Keeps l same s h = unlock_open-There l.file l s same h
