-- ===== src/Store/Initialised.antt =====
-- What `Init` leaves behind.
use mathlib.Core.Path.{subst}
use orchestrator_relayer.Prelude.{◌≡◌, refl, ap, Bool, true, false, Bytes, arith, if◌then◌else◌}
use orchestrator_relayer.Effect.{ok, World, Go, pure, query, bind-inv, ◌>>=◌, ◌>>◌}
use orchestrator_relayer.Effect.Keeps.{kept_after}
use orchestrator_relayer.Store.Lock.{Locker, unlock_once}
use orchestrator_relayer.Store.Keeps.{lock_store-Keeps, lock_store-path}
use orchestrator_relayer.Store.Files.{
  There, FileLaws, Lasting, kept_by_lock, check_writable-Keeps, init_if-Keeps, unlock_once-Keeps,
}
use orchestrator_relayer.Store.Init.{
  FileCalls, InitOptions, lock_path, data_path, signature_path, evm_key_store_path,
  p2p_key_store_path, exists, init_dir, check_writable, init_root, lock_store, init_if, init_dirs,
  init_locked, init_at, init, unless_missing, all_exist, is_init,
}

module _ {W : Type 0} (fs : FileCalls W) where
  module _ (laws : FileLaws fs) where
    made-There :
        (q : Bytes) (there : Bool) (t s' : World W)
        → (fs.stat q t.ext).0 ≡ there
        → (if there then pure tt else query (fs.make_dir q)) t ≡ (ok tt, s')
        → There fs q s'.ext
    made-There q true t s' e h = subst (λ u. There fs q u.ext) (ap (λ x. x.1) h) e
    made-There q false t s' e h =
        subst (λ u. There fs q u.ext) (ap (λ x. x.1) h) (laws.made q t.ext (ap (λ x. x.0) h))

    init_dir-There :
        (q : Bytes) (s s' : World W) → init_dir fs q s ≡ (ok tt, s') → There fs q s'.ext
    unfolding init_dir exists
    init_dir-There q s s' h =
        made-There q (fs.stat q s.ext).0 (record s { ext = (fs.stat q s.ext).1 }) s'
          (ap (λ w. (fs.stat q w).0) (laws.stat_reads q s.ext)) h

    init_if-There :
        (needed : Bool) (q : Bytes) (s s' : World W)
        → init_if fs needed q s ≡ (ok tt, s')
        → needed ≡ true
        → There fs q s'.ext
    unfolding init_if
    init_if-There true q s s' h n = init_dir-There q s s' h
    init_if-There false q s s' h n = absurd (ground (arith, n))

    init_root-There :
        (base : Bytes) (s s' : World W)
        → Lasting fs base base
        → init_root fs base s ≡ (ok tt, s')
        → There fs base s'.ext
    unfolding init_root
    init_root-There base s s' lasting h =
        let (_, t, made, rest) =
          bind-inv (init_dir fs base) (λ _. check_writable fs base) s s' tt h in
        kept_after (There fs base) (check_writable fs base) (ok tt) t s'
          (check_writable-Keeps fs laws base base lasting) rest (init_dir-There base s t made)

    -- a directory that is there, or not needed
    unfoldable pub Present : Bool → Bytes → World W → Type 0
    Present needed q s = needed ≡ true → There fs q s.ext

    unless_missing-Present :
        (needed : Bool) (q : Bytes) (rest : Go W Bool) (s : World W)
        → Present needed q s
        → unless_missing fs needed q rest s ≡ rest s
    unfolding Present unless_missing exists
    unless_missing-Present false q rest s h = refl
    unless_missing-Present true q rest s h = rw (h refl, laws.stat_reads q s.ext) refl

    -- What `IsInit` looks for: the root, and the directories that are needed.
    pub record AllPresent (base : Bytes) (options : InitOptions) (s : World W) : Type 0 where
      pub root : There fs base s.ext
      pub data_store : Present options.need_data_store (data_path fs base) s
      pub signature_store : Present options.need_signature_store (signature_path fs base) s
      pub p2p_key_store : Present options.need_p2p_key_store (p2p_key_store_path fs base) s
      pub evm_key_store : Present options.need_evm_key_store (evm_key_store_path fs base) s

    is_init-AllPresent :
        (given base : Bytes) (options : InitOptions) (s : World W)
        → fs.store_path given ≡ ok base
        → AllPresent base options s
        → is_init fs given options s ≡ (ok true, s)
    unfolding is_init all_exist
    is_init-AllPresent given base options s clean h =
        rw
          (
            clean,
            unless_missing-Present true base _ s (unfold Present in λ _. h.root),
            unless_missing-Present options.need_data_store (data_path fs base) _ s h.data_store,
            unless_missing-Present options.need_signature_store (signature_path fs base) _ s
                h.signature_store,
            unless_missing-Present options.need_p2p_key_store (p2p_key_store_path fs base) _ s
                h.p2p_key_store,
            unless_missing-Present options.need_evm_key_store (evm_key_store_path fs base) _ s
                h.evm_key_store,
          )
          refl

    module _ (base : Bytes) (options : InitOptions) where
      -- none of the store's directories is the lock file or the file that tests the permissions
      pub record AllLasting : Type 0 where
        pub root : Lasting fs base base
        pub data_store : Lasting fs base (data_path fs base)
        pub signature_store : Lasting fs base (signature_path fs base)
        pub p2p_key_store : Lasting fs base (p2p_key_store_path fs base)
        pub evm_key_store : Lasting fs base (evm_key_store_path fs base)

      init_dirs-There :
          (s s' : World W)
          → init_dirs fs base options s ≡ (ok tt, s')
          → AllLasting
          → There fs base s.ext
          → AllPresent base options s'
      unfolding init_dirs Present
      init_dirs-There s s' h lasting root =
          let store = data_path fs base in
          let sigs = signature_path fs base in
          let p2p = p2p_key_store_path fs base in
          let evm = evm_key_store_path fs base in
          let (_, t, m1, h1) =
            bind-inv (init_if fs options.need_data_store store)
              (λ _.
                init_if fs options.need_signature_store sigs
                >> (init_if fs options.need_p2p_key_store p2p
                    >> init_if fs options.need_evm_key_store evm))
              s s' tt h in
          let (_, u, m2, h2) =
            bind-inv (init_if fs options.need_signature_store sigs)
              (λ _.
                init_if fs options.need_p2p_key_store p2p
                >> init_if fs options.need_evm_key_store evm)
              t s' tt h1 in
          let (_, v, m3, m4) =
            bind-inv (init_if fs options.need_p2p_key_store p2p)
              (λ _. init_if fs options.need_evm_key_store evm) u s' tt h2 in
          let k1 = λ (q : Bytes) (l : Lasting fs base q).
            kept_by_init_if q l options.need_data_store store s t m1 in
          let k2 = λ (q : Bytes) (l : Lasting fs base q).
            kept_by_init_if q l options.need_signature_store sigs t u m2 in
          let k3 = λ (q : Bytes) (l : Lasting fs base q).
            kept_by_init_if q l options.need_p2p_key_store p2p u v m3 in
          let k4 = λ (q : Bytes) (l : Lasting fs base q).
            kept_by_init_if q l options.need_evm_key_store evm v s' m4 in
          record {
            root =
                k4 base lasting.root
                  (k3 base lasting.root (k2 base lasting.root (k1 base lasting.root root)));
            data_store = λ n. k4 store lasting.data_store (
                k3 store lasting.data_store (
                  k2 store lasting.data_store
                    (init_if-There options.need_data_store store s t m1 n)));
            signature_store = λ n. k4 sigs lasting.signature_store (
                k3 sigs lasting.signature_store
                  (init_if-There options.need_signature_store sigs t u m2 n));
            p2p_key_store = λ n.
                k4 p2p lasting.p2p_key_store
                  (init_if-There options.need_p2p_key_store p2p u v m3 n);
            evm_key_store = λ n. init_if-There options.need_evm_key_store evm v s' m4 n;
          }
        where
          kept_by_init_if :
              (q : Bytes)
              → Lasting fs base q
              → (needed : Bool) (r : Bytes) (x y : World W) → init_if fs needed r x ≡ (ok tt, y)
              → There fs q x.ext
              → There fs q y.ext
          kept_by_init_if q l needed r x y e =
              kept_after (There fs q) (init_if fs needed r) (ok tt) x y
                (init_if-Keeps fs laws base q l needed r) e

      unlocked-AllPresent :
          (flock : Locker) (s s' : World W)
          → flock.path ≡ lock_path fs base
          → unlock_once fs.lock_calls flock s ≡ (ok tt, s')
          → AllLasting
          → AllPresent base options s
          → AllPresent base options s'
      unfolding Present
      unlocked-AllPresent flock s s' same h lasting there = record {
        root = still base lasting.root there.root;
        data_store = λ n. still _ lasting.data_store (there.data_store n);
        signature_store = λ n. still _ lasting.signature_store (there.signature_store n);
        p2p_key_store = λ n. still _ lasting.p2p_key_store (there.p2p_key_store n);
        evm_key_store = λ n. still _ lasting.evm_key_store (there.evm_key_store n);
      }
        where
          still : (q : Bytes) → Lasting fs base q → There fs q s.ext → There fs q s'.ext
          still q l =
              kept_after (There fs q) (unlock_once fs.lock_calls flock) (ok tt) s s'
                (unlock_once-Keeps fs laws base q l flock same) h

      init_at-AllPresent :
          (s s' : World W)
          → init_at fs base options s ≡ (ok tt, s')
          → AllLasting
          → AllPresent base options s'
      unfolding init_at init_locked
      init_at-AllPresent s s' h lasting =
          let (_, t, m1, h1) =
            bind-inv (init_root fs base) (λ _. lock_store fs base >>= init_locked fs base options) s
              s' tt h in
          let (flock, u, m2, h2) =
            bind-inv (lock_store fs base) (init_locked fs base options) t s' tt h1 in
          let (_, v, m3, m4) =
            bind-inv (init_dirs fs base options) (λ _. unlock_once fs.lock_calls flock) u s' tt
              h2 in
          let root =
            kept_after (There fs base) (lock_store fs base) (ok flock) t u
              (lock_store-Keeps fs (There fs base) (kept_by_lock fs laws base base lasting.root)
                base)
              m2 (init_root-There base s t lasting.root m1) in
          unlocked-AllPresent flock v s' (lock_store-path fs base t u flock m2) m4 lasting
            (init_dirs-There u v m3 lasting root)

      -- After `Init` has succeeded at a path, `IsInit` finds it initialised, for the same options. That
      -- is, in a file system in which what was made is there and stays there until it is removed, and
      -- where none of the store's directories is named as its lock file or as the file that tests the permissions.
      pub is_init-init :
          (given : Bytes) (s s' : World W)
          → fs.store_path given ≡ ok base
          → AllLasting
          → init fs given options s ≡ (ok tt, s')
          → is_init fs given options s' ≡ (ok true, s')
      unfolding init
      is_init-init given s s' clean lasting h =
          is_init-AllPresent given base options s' clean
            (init_at-AllPresent s s' (ground (arith, clean, h)) lasting)
