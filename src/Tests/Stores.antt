-- ===== src/Tests/Stores.antt =====
-- store at concrete inputs.
use orchestrator_relayer.Prelude.{
  ◌≡◌, ◌≢◌, refl, sym, ◌∙◌, Bool, true, false, ◌||◌, List, [], ◌∷◌, ◌++◌, some, none, Bytes, codes,
  str_eq, str_eq→eq, str_eq_refl, if◌then◌else◌, arith, Bool-cases, inl, inr,
}
use orchestrator_relayer.Effect.{resource_temporarily_unavailable, Result, ok, err, World}
use orchestrator_relayer.Store.Lock.{
  new, flocked, lock_locker, lock, close_and_remove, after_unflock, unlock_file, unlock_open,
  unlock, unlock_once,
}
use orchestrator_relayer.Store.Init.{
  FileCalls, InitOptions, lock_path, data_path, signature_path, evm_key_store_path,
  p2p_key_store_path, exists, init_dir, check_writable, init_root, locked_or_opened, lock_store,
  init_if, init_dirs, init_locked, init_at, init, unless_missing, all_exist, is_init,
}
use orchestrator_relayer.Store.Files.{FileLaws}
use orchestrator_relayer.Store.Initialised.{AllLasting, is_init-init}
use orchestrator_relayer.Store.Open.{
  StoreCalls, OpenOptions, Store, or_unlock, needed_options, open_datastore, open_locked,
  open_p2p_key_store, init_options, needs_lock, if_inited, open_key_stores, open_inited, open_at,
  open_store,
}
use orchestrator_relayer.Store.Locked.{LockLaws}
use orchestrator_relayer.Store.Exclusive.{open_store_exclusive}

-- the paths that are there
unfoldable is_in : Bytes → List Bytes → Bool
is_in p [] = false
is_in p (q ∷ qs) = str_eq q p || is_in p qs

unfoldable without : Bytes → List Bytes → List Bytes
without p [] = []
without p (q ∷ qs) = let rest = without p qs in if str_eq q p then rest else q ∷ rest

is_in-without :
    (p q : Bytes) (w : List Bytes) → p ≢ q → is_in p w ≡ true → is_in p (without q w) ≡ true
unfolding is_in without
is_in-without p q [] n h = h
is_in-without p q (r ∷ rs) n h = elim (Bool-cases (str_eq r q)) [
  | inr other ↦ ground (arith, other, h, is_in-without p q rs n)
  | inl same ↦ elim (Bool-cases (str_eq r p)) [
    | inl both ↦ absurd (n (sym (str_eq→eq r p both) ∙ str_eq→eq r q same))
    | inr apart ↦ ground (arith, same, apart, h, is_in-without p q rs n)
  ]
]

abbrev disk : FileCalls (List Bytes)
disk = record {
  lock_calls = record {
    open_file = λ p w. (ok 0, p ∷ w);
    write_pid = λ _ w. (ok tt, w);
    flock_ex = λ _ w. (ok tt, w);
    flock_un = λ _ w. (ok tt, w);
    close = λ _ w. (ok tt, w);
    remove = λ p w. (ok tt, without p w);
  };
  store_path = λ p. ok p;
  join = λ base name. base ++ (b'/' ∷ name);
  stat = λ p w. (is_in p w, w);
  make_dir = λ p w. (ok tt, p ∷ w);
  create = λ p w. (ok 1, p ∷ w);
}

is_in_more : (p q : Bytes) (w : List Bytes) → is_in p w ≡ true → is_in p (q ∷ w) ≡ true
unfolding is_in
is_in_more p q w h = ground (arith, h)

disk-FileLaws : FileLaws disk
disk-FileLaws = record {
  stat_reads = λ _ _. refl;
  made = λ p w _. unfold is_in in ground (arith, str_eq_refl p);
  kept_by_make_dir = λ p q w h. is_in_more p q w h;
  kept_by_create = λ p q w h. is_in_more p q w h;
  kept_by_open = λ p q w h. is_in_more p q w h;
  kept_by_write = λ _ _ _ h. h;
  kept_by_flock = λ _ _ _ h. h;
  kept_by_unflock = λ _ _ _ h. h;
  kept_by_close = λ _ _ _ h. h;
  kept_by_remove = λ p q n w h. is_in-without p q w n h;
}

abbrev home : Bytes
home = codes "/r"

abbrev everything : InitOptions
everything = record {
  need_data_store = true;
  need_signature_store = true;
  need_evm_key_store = true;
  need_p2p_key_store = true;
}

apart : (p q : Bytes) → str_eq p q ≡ false → p ≢ q
apart p q h e = ground (arith, h, str_eq_refl p, e)

everything-AllLasting : AllLasting disk disk-FileLaws home everything
unfolding lock_path data_path signature_path p2p_key_store_path evm_key_store_path str_eq
everything-AllLasting = record {
  root = (apart _ _ refl, apart _ _ refl);
  data_store = (apart _ _ refl, apart _ _ refl);
  signature_store = (apart _ _ refl, apart _ _ refl);
  p2p_key_store = (apart _ _ refl, apart _ _ refl);
  evm_key_store = (apart _ _ refl, apart _ _ refl);
}

abbrev empty_disk : World (List Bytes)
empty_disk = record { ext = []; calls = [] }

abbrev filled_disk : World (List Bytes)
filled_disk = (init disk home everything empty_disk).1

inits : init disk home everything empty_disk ≡ (ok tt, filled_disk)
unfolding init init_at init_root init_dir exists check_writable lock_store locked_or_opened lock
    lock_locker new flocked init_locked init_dirs init_if unlock_once unlock unlock_open unlock_file
    after_unflock close_and_remove is_in without lock_path data_path signature_path
    p2p_key_store_path evm_key_store_path str_eq
inits = refl

is_init-init_example : is_init disk home everything filled_disk ≡ (ok true, filled_disk)
is_init-init_example =
    is_init-init disk disk-FileLaws home everything home empty_disk filled_disk refl
      everything-AllLasting inits

-- whether the lock is held
unfoldable take_lock : Bool → Result (Unit {0}) × Bool
take_lock true = (err resource_temporarily_unavailable, true)
take_lock false = (ok tt, true)

abbrev shared : FileCalls Bool
shared = record {
  lock_calls = record {
    open_file = λ _ w. (ok 0, w);
    write_pid = λ _ w. (ok tt, w);
    flock_ex = λ _ w. take_lock w;
    flock_un = λ _ w. (ok tt, false);
    close = λ _ w. (ok tt, w);
    remove = λ _ w. (ok tt, w);
  };
  store_path = λ p. ok p;
  join = λ base name. base ++ (b'/' ∷ name);
  stat = λ _ w. (true, w);
  make_dir = λ _ w. (ok tt, w);
  create = λ _ w. (ok 1, w);
}

abbrev badger : StoreCalls Bool (Unit {0})
badger = record {
  new_datastore = λ _ _ w. (ok 3, w);
  close_datastore = λ _ w. (ok tt, w);
  new_key_store = λ _. 4;
  new_fs_keystore = λ _ w. (ok 5, w);
}

abbrev Held : Bool → Type 0
Held w = w ≡ true

shared-LockLaws : LockLaws shared badger (lock_path shared home) Held
shared-LockLaws = record {
  of_lock = λ _. true;
  opens = λ _ _ _. refl;
  takes = λ _ w _ _. taken w;
  blocks = λ _ w _ h. blocked w h;
  kept_by_lock = record {
    by_open = λ _ _ h. h;
    by_write = λ _ _ h. h;
    by_flock = λ _ w _. taken w;
  };
  kept_by_datastore = λ _ _ _ h. h;
  kept_by_keystore = λ _ _ h. h;
  kept_by_stat = λ _ _ h. h;
}
  where
    taken : (w : Bool) → (take_lock w).1 ≡ true
    taken true = unfold take_lock in refl
    taken false = unfold take_lock in refl

    blocked : (w : Bool) → w ≡ true → (take_lock w).0 ≡ err resource_temporarily_unavailable
    blocked true h = unfold take_lock in refl
    blocked false h = absurd (ground (arith, h))

abbrev with_data : OpenOptions (Unit {0})
with_data = record {
  has_data_store = true;
  badger_options = some tt;
  has_signature_store = false;
  has_evm_key_store = true;
  has_p2p_key_store = true;
}

abbrev free : World Bool
free = record { ext = false; calls = [] }

abbrev taken_world : World Bool
taken_world = record { ext = true; calls = [] }

abbrev the_store : Store
the_store = record {
  data_store = some 3;
  signature_store = none;
  evm_key_store = some 4;
  p2p_key_store = some 5;
  path = home;
  store_lock = some (record { file = some 0; path = lock_path shared home });
}

opens : open_store shared badger home with_data free ≡ (ok the_store, taken_world)
unfolding open_store open_at is_init all_exist unless_missing exists init_options if_inited
    open_inited needs_lock open_locked lock_store locked_or_opened lock lock_locker new flocked
    take_lock needed_options open_datastore or_unlock open_key_stores open_p2p_key_store
opens = refl

open_store_exclusive_example :
    open_store shared badger home with_data taken_world ≢ (ok the_store, taken_world)
unfolding needs_lock
open_store_exclusive_example =
    open_store_exclusive shared badger home Held shared-LockLaws home with_data with_data free
      taken_world taken_world taken_world the_store the_store refl refl refl opens (λ h. h)
