-- ===== src/Store/Locked.antt =====
-- The lock of an open store.
use mathlib.Core.Path.{subst}
use orchestrator_relayer.Prelude.{
  ℕ, ◌≡◌, ◌≢◌, ap, ◌∙◌, Bool, true, false, Option, none, some, Bytes,
}
use orchestrator_relayer.Effect.{
  resource_temporarily_unavailable, Result, ok, err, World, pure, query, attempt, bind-inv, ◌>>=◌,
}
use orchestrator_relayer.Effect.Keeps.{KeptBy}
use orchestrator_relayer.Store.Lock.{Locker, lock}
use orchestrator_relayer.Store.Init.{FileCalls, lock_path, data_path, signature_path, lock_store}
use orchestrator_relayer.Store.Keeps.{KeptByLock, lock-inv, lock_store-inv}
use orchestrator_relayer.Store.Open.{
  StoreCalls, OpenOptions, or_unlock, needed_options, open_datastore, open_locked,
}

module _ {W O : Type 0} (fs : FileCalls W) (calls : StoreCalls W O) where
  -- flock's documented behaviour, for one lock file and the predicate that someone holds its lock: locking an
  -- open file of it succeeds only where no one holds the lock, and gives it to the caller; and no
  -- other call but unlocking releases it. That is so as long as the file is not removed and made anew.
  pub record LockLaws (path : Bytes) (Held : W → Type 0) : Type 0 where
    pub of_lock : ℕ → Bool
    pub opens : (f : ℕ) (w : W) → (fs.lock_calls.open_file path w).0 ≡ ok f → of_lock f ≡ true
    pub takes :
        (f : ℕ) (w : W)
        → of_lock f ≡ true
        → (fs.lock_calls.flock_ex f w).0 ≡ ok tt
        → Held (fs.lock_calls.flock_ex f w).1
    pub blocks :
        (f : ℕ) (w : W)
        → of_lock f ≡ true
        → Held w
        → (fs.lock_calls.flock_ex f w).0 ≡ err resource_temporarily_unavailable
    pub kept_by_lock : KeptByLock fs Held
    pub kept_by_datastore : (q : Bytes) (o : O) → KeptBy Held (calls.new_datastore q o)
    pub kept_by_keystore : (q : Bytes) → KeptBy Held (calls.new_fs_keystore q)
    pub kept_by_stat : (q : Bytes) (w : W) → Held w → Held (fs.stat q w).1

  module _ (path : Bytes) (Held : W → Type 0) (laws : LockLaws (lock_path fs path) Held) where
    -- what a successful lock gives, and when there is none
    lock-Held :
        (s s' : World W) (l : Locker)
        → lock fs.lock_calls (lock_path fs path) s ≡ (ok l, s')
        → Held s'.ext
    lock-Held s s' l h =
        let (file, t, u, o, w, f) = lock-inv fs (lock_path fs path) s s' l h in
        subst Held (ap (λ x. x.1) f)
          (laws.takes file u (laws.opens file s.ext (ap (λ x. x.0) o)) (ap (λ x. x.0) f))

    pub lock_fails :
        (s s' : World W) (l : Locker)
        → Held s.ext
        → lock fs.lock_calls (lock_path fs path) s ≢ (ok l, s')
    lock_fails s s' l held h =
        let (file, t, u, o, w, f) = lock-inv fs (lock_path fs path) s s' l h in
        let kept = laws.kept_by_lock in
        let opened : Held t =
          subst Held (ap (λ x. x.1) o) (kept.by_open (lock_path fs path) s.ext held) in
        let written : Held u = subst Held (ap (λ x. x.1) w) (kept.by_write file t opened) in
        let refused = laws.blocks file u (laws.opens file s.ext (ap (λ x. x.0) o)) written in
        absurd (cc (refused, ap (λ x. x.0) f))

    or_unlock-ok :
        {A : Type 0} (l : Locker) (r : Result A) (s s' : World W) (a : A)
        → or_unlock fs calls l r s ≡ (ok a, s')
        → s ≡ s'
    unfolding or_unlock
    or_unlock-ok l (ok b) s s' a h = ap (λ x. x.1) h
    or_unlock-ok l (err e) s s' a h = absurd (cc (ap (λ x. x.0) h))

    open_datastore-Held :
        (has : Bool) (l : Locker) (q : Bytes) (o : O) (s s' : World W) (d : Option ℕ)
        → open_datastore fs calls has l q o s ≡ (ok d, s')
        → Held s.ext
        → Held s'.ext
    unfolding open_datastore
    open_datastore-Held false l q o s s' d h held = subst (λ u. Held u.ext) (ap (λ x. x.1) h) held
    open_datastore-Held true l q o s s' d h held =
        let (r, t, opened, h1) =
          bind-inv (attempt (query (calls.new_datastore q o)))
            (λ r. or_unlock fs calls l r >>= λ ds. pure (some ds)) s s' d h in
        let (ds, u, kept, h2) =
          bind-inv (or_unlock fs calls l r) (λ ds. pure (some ds)) t s' d h1 in
        subst (λ u. Held u.ext)
          (ap (λ x. x.1) opened ∙ or_unlock-ok l r t u ds kept ∙ ap (λ x. x.1) h2)
          (laws.kept_by_datastore q o s.ext held)

    needed_options-same :
        (l : Locker) (options : Option O) (s s' : World W) (o : O)
        → needed_options fs calls l options s ≡ (ok o, s')
        → s ≡ s'
    unfolding needed_options
    needed_options-same l none s s' o h = or_unlock-ok l _ s s' o h
    needed_options-same l (some b) s s' o h = ap (λ x. x.1) h

    pub open_locked-Held :
        (options : OpenOptions O) (s s' : World W)
        → (x : Option Locker × Option ℕ × Option ℕ)
        → open_locked fs calls true path options s ≡ (ok x, s')
        → ((l : Locker) × (t : World W) × (lock_store fs path s ≡ (ok l, t))) × Held s'.ext
    unfolding open_locked
    open_locked-Held options s s' x h =
        let data_dir = data_path fs path in
        let sig_dir = signature_path fs path in
        let after_first = λ (flock : Locker) (badger : O) (ds : Option ℕ).
          open_datastore fs calls options.has_signature_store flock sig_dir badger >>= λ sig_store.
          pure (some flock, ds, sig_store) in
        let after_options = λ (flock : Locker) (badger : O).
          open_datastore fs calls options.has_data_store flock data_dir badger
          >>= after_first flock badger in
        let (flock, t, m1, h1) =
          bind-inv (lock_store fs path)
            (λ flock. needed_options fs calls flock options.badger_options >>= after_options flock)
            s s' x h in
        let (badger, u, m2, h2) =
          bind-inv (needed_options fs calls flock options.badger_options) (after_options flock) t s'
            x h1 in
        let (ds, v, m3, h3) =
          bind-inv (open_datastore fs calls options.has_data_store flock data_dir badger)
            (after_first flock badger) u s' x h2 in
        let (sigs, w, m4, h4) =
          bind-inv (open_datastore fs calls options.has_signature_store flock sig_dir badger)
            (λ sig_store. pure (some flock, ds, sig_store)) v s' x h3 in
        let at_lock = lock-Held s t flock (lock_store-inv fs path s t flock m1) in
        let at_options =
          subst (λ z. Held z.ext) (needed_options-same flock options.badger_options t u badger m2)
            at_lock in
        let at_data =
          open_datastore-Held options.has_data_store flock data_dir badger u v ds m3 at_options in
        let at_sigs =
          open_datastore-Held options.has_signature_store flock sig_dir badger v w sigs m4
            at_data in
        ((flock, t, m1), subst (λ z. Held z.ext) (ap (λ y. y.1) h4) at_sigs)
