-- ===== src/Store/Exclusive.antt =====
-- At most one process opens a store.
use mathlib.Core.Path.{subst}
use orchestrator_relayer.Prelude.{
  ℕ, ◌≡◌, ◌≢◌, ap, ◌∙◌, Bool, true, false, Option, some, Bytes, arith, inl, inr, if◌then◌else◌,
}
use orchestrator_relayer.Effect.{
  Result, ok, err, World, Go, pure, query, bind-inv, outcome-cases, ◌>>◌,
}
use orchestrator_relayer.Effect.Keeps.{Keeps, bind-Keeps, kept_after}
use orchestrator_relayer.Store.Lock.{Locker}
use orchestrator_relayer.Store.Init.{
  FileCalls, InitOptions, lock_path, p2p_key_store_path, evm_key_store_path, data_path,
  signature_path, exists, unless_missing, all_exist, is_init,
}
use orchestrator_relayer.Store.Keeps.{lock_store-inv}
use orchestrator_relayer.Store.Open.{
  StoreCalls, OpenOptions, Store, open_locked, open_p2p_key_store, open_key_stores, open_inited,
  open_at, init_options, needs_lock, if_inited, open_store,
}
use orchestrator_relayer.Store.Locked.{LockLaws, lock_fails, open_locked-Held}

module _ {W O : Type 0} (fs : FileCalls W) (calls : StoreCalls W O) (path : Bytes)
    (Held : W → Type 0) (laws : LockLaws fs calls (lock_path fs path) Held) where
  unless_missing-Keeps :
      (needed : Bool) (q : Bytes) (rest : Go W Bool)
      → Keeps Held rest
      → Keeps Held (unless_missing fs needed q rest)
  unfolding unless_missing exists
  unless_missing-Keeps false q rest k = k
  unless_missing-Keeps true q rest k =
      bind-Keeps Held (exists fs q) (λ there. if there then rest else pure false)
        (λ s h. laws.kept_by_stat q s.ext h) go
    where
      go : (there : Bool) → Keeps Held (if there then rest else pure false)
      go true s h = k s h
      go false s h = h

  is_init-Keeps : (given : Bytes) (options : InitOptions) → Keeps Held (is_init fs given options)
  unfolding is_init all_exist
  is_init-Keeps given options = go (fs.store_path given)
    where
      go : (r : Result Bytes) → Keeps Held (all_exist fs options r)
      go (err e) s h = h
      go (ok base) s h =
          unless_missing-Keeps true base _
            (unless_missing-Keeps options.need_data_store (data_path fs base) _ (
              unless_missing-Keeps options.need_signature_store (signature_path fs base) _ (
                unless_missing-Keeps options.need_p2p_key_store (p2p_key_store_path fs base) _ (
                  unless_missing-Keeps options.need_evm_key_store (evm_key_store_path fs base)
                    (pure true) (λ _ k. k)))))
            s h

  open_p2p_key_store-Keeps :
      (has : Bool) (q : Bytes) → Keeps Held (open_p2p_key_store fs calls has q)
  unfolding open_p2p_key_store
  open_p2p_key_store-Keeps false q s h = h
  open_p2p_key_store-Keeps true q s h =
      bind-Keeps Held (query (calls.new_fs_keystore q)) (λ ks. pure (some ks))
        (λ t k. laws.kept_by_keystore q t.ext k) (λ _ _ k. k) s h

  if_inited-same :
      (inited : Bool) (s s' : World W) → if_inited fs calls inited s ≡ (ok tt, s') → s ≡ s'
  unfolding if_inited
  if_inited-same true s s' h = ap (λ x. x.1) h
  if_inited-same false s s' h = absurd (cc (ap (λ x. x.0) h))

  -- the steps of an `OpenStore` that succeeded with a lock
  record Opening (options : OpenOptions O) (s s' : World W) : Type 0 where
    start : World W
    middle : World W
    inited : Bool
    parts : Option Locker × Option ℕ × Option ℕ
    key_store : Option ℕ
    initialised : is_init fs path (init_options fs calls options) s ≡ (ok inited, start)
    under_lock : open_locked fs calls true path options start ≡ (ok parts, middle)
    then_keys :
        open_p2p_key_store fs calls options.has_p2p_key_store (p2p_key_store_path fs path) middle
        ≡ (ok key_store, s')

  open_key_stores-then_keys :
      (options : OpenOptions O) (parts : Option Locker × Option ℕ × Option ℕ)
      → (s s' : World W) (store : Store)
      → open_key_stores fs calls path options parts s ≡ (ok store, s')
      → (k : Option ℕ) × (open_p2p_key_store fs calls options.has_p2p_key_store
            (p2p_key_store_path fs path)
            s
          ≡ (ok k, s'))
  unfolding open_key_stores
  open_key_stores-then_keys options (flock, ds, sigs) s s' store h =
      elim (outcome-cases
        (open_p2p_key_store fs calls options.has_p2p_key_store (p2p_key_store_path fs path) s)) [
          | inl (k, t, p) ↦ (k, ground (arith, p, h))
          | inr (e, t, p) ↦ absurd (ground (arith, p, h))
        ]

  open_at-Opening :
      (options : OpenOptions O) (s s' : World W) (store : Store)
      → needs_lock fs calls options ≡ true
      → open_at fs calls path options s ≡ (ok store, s')
      → Opening options s s'
  unfolding open_at open_inited
  open_at-Opening options s s' store needs h =
      let (inited, t, m1, h1) =
        bind-inv (is_init fs path (init_options fs calls options))
          (λ inited. if_inited fs calls inited >> open_inited fs calls path options) s s' store h in
      let (_, u, m2, h2) =
        bind-inv (if_inited fs calls inited) (λ _. open_inited fs calls path options) t s' store
          h1 in
      let (parts, v, m3, h3) =
        bind-inv (open_locked fs calls (needs_lock fs calls options) path options)
          (open_key_stores fs calls path options) u s' store h2 in
      let (k, m4) = open_key_stores-then_keys options parts v s' store h3 in
      record {
        start = u;
        middle = v;
        inited = inited;
        parts = parts;
        key_store = k;
        initialised = m1 ∙ ap (λ z. (ok inited, z)) (if_inited-same inited t u m2);
        under_lock = subst (λ b. open_locked fs calls b path options u ≡ (ok parts, v)) needs m3;
        then_keys = m4;
      }

  Opening-Held : (options : OpenOptions O) (s s' : World W) → Opening options s s' → Held s'.ext
  Opening-Held options s s' o =
      let (_, held) =
        open_locked-Held fs calls path Held laws options o.start o.middle o.parts o.under_lock in
      kept_after Held
        (open_p2p_key_store fs calls options.has_p2p_key_store (p2p_key_store_path fs path))
        (ok o.key_store) o.middle s'
        (open_p2p_key_store-Keeps options.has_p2p_key_store (p2p_key_store_path fs path))
        o.then_keys held

  no_second : (options : OpenOptions O) (s s' : World W) → Held s.ext → Opening options s s' → ⊥
  no_second options s s' held o =
      let ((l, u, taken), _) =
        open_locked-Held fs calls path Held laws options o.start o.middle o.parts o.under_lock in
      let before =
        kept_after Held (is_init fs path (init_options fs calls options)) (ok o.inited) s o.start
          (is_init-Keeps path (init_options fs calls options)) o.initialised held in
      lock_fails fs calls path Held laws o.start u l before
        (lock_store-inv fs path o.start u l taken)

  -- Once `OpenStore` has returned a store with a datastore or a signature store, and as long as the lock that
  -- it holds then is held, no `OpenStore` at the same path with either of them succeeds; provided that
  -- the lock file is not removed and made anew meanwhile, as the laws of the lock require.
  pub open_store_exclusive :
      (given : Bytes) (options others : OpenOptions O)
      → (s s' t t' : World W) (store other : Store) → fs.store_path given ≡ ok path
      → needs_lock fs calls options ≡ true
      → needs_lock fs calls others ≡ true
      → open_store fs calls given options s ≡ (ok store, s')
      → (Held s'.ext → Held t.ext)
      → open_store fs calls given others t ≢ (ok other, t')
  unfolding open_store
  open_store_exclusive given options others s s' t t' store other clean needs need first still
        second =
      no_second others t t'
        (still (
          Opening-Held options s s'
            (open_at-Opening options s s' store needs (ground (arith, clean, first)))))
        (open_at-Opening others t t' other need (ground (arith, clean, second)))
