-- ===== src/Relayer/Loop/Rounds.antt =====
-- What the rounds of `processFunc` have done when it returns.
use mathlib.Core.Path.{subst, subst₂}
use orchestrator_relayer.Prelude.{
  ℕ, zero, suc, ◌+◌, ◌≤◌, ◌<◌, ◌≡◌, refl, sym, ap, ◌⊎◌, inl, inr, Bool, true, false, not, ◌&&◌,
  List, [], ◌∷◌, Option, none, some, leb, Bool-cases, arith, if◌then◌else◌,
}
use orchestrator_relayer.Effect.{Error, Result, ok, err, World}
use orchestrator_relayer.P2p.Dht.{Event}
use orchestrator_relayer.Relayer.Loop.{
  RoundEnd, returned, again, waiting, Starting, relay_next, after_relay, slept, query_nonces,
  after_nonces, unless_done, process_round, process_func,
}

module _ {W : Type 0} (start : Starting W) where
  open start use {relayer, is_backup_relayer}

  -- The nonces that a round works with, read after the context was found not to be done: the
  -- contract's is below the application's latest.
  pub record Behind (s : World W) (last : ℕ) (t : World W) : Type 0 where
    pub now : W
    pub latest : ℕ
    pub not_done : relayer.app_querier.ctx_err s.ext ≡ (none, now)
    pub queried : query_nonces start (record s { ext = now }) ≡ (ok (last, latest), t)
    pub behind : last < latest

  -- A round in which a backup relayer sleeps, with the flag down before and up after it.
  pub data Sleeps (flag : Bool) (s : World W) (flag' : Bool) (s' : World W) : Type 0 where
    sleeps :
        (last : ℕ) (t : World W)
        → Behind s last t
        → is_backup_relayer ≡ true
        → flag ≡ false
        → flag' ≡ true
        → s' ≡ slept start t
        → Sleeps flag s flag' s'

  -- A round in which the attestation behind the contract's nonce is relayed and its transaction waited
  -- for: a backup relayer has the flag up before and down after it.
  pub data Relays (flag : Bool) (s : World W) (flag' : Bool) (s' : World W) : Type 0 where
    relays :
        (last : ℕ) (events : List Event) (t : World W)
        → Behind s last t
        → (is_backup_relayer && not flag) ≡ false
        → relay_next start last events t ≡ (some (ok tt), s')
        → flag' ≡ (if is_backup_relayer then false else flag)
        → Relays flag s flag' s'

  -- The round in which `processFunc` returns.
  pub data Last (flag : Bool) (s : World W) (r : Result (Unit {0})) (s' : World W) : Type 0 where
    cancelled :
        (e : Error) (w : W)
        → relayer.app_querier.ctx_err s.ext ≡ (some e, w)
        → r ≡ err e
        → s' ≡ record s { ext = w }
        → Last flag s r s'
    not_queried :
        (e : Error) (w : W)
        → relayer.app_querier.ctx_err s.ext ≡ (none, w)
        → query_nonces start (record s { ext = w }) ≡ (err e, s')
        → r ≡ err e
        → Last flag s r s'
    up_to_date :
        (last latest : ℕ) (w : W)
        → relayer.app_querier.ctx_err s.ext ≡ (none, w)
        → query_nonces start (record s { ext = w }) ≡ (ok (last, latest), s')
        → latest ≤ last
        → r ≡ ok tt
        → Last flag s r s'
    not_relayed :
        (e : Error) (last : ℕ) (events : List Event) (t : World W)
        → Behind s last t
        → (is_backup_relayer && not flag) ≡ false
        → relay_next start last events t ≡ (some (err e), s')
        → r ≡ err e
        → Last flag s r s'

  -- the rounds before it, with the number of sleeps and of relayed attestations
  pub data Rounds : Bool → World W → ℕ → ℕ → Bool → World W → Type 0 where
    no_round : {flag : Bool} {s : World W} → Rounds flag s zero zero flag s
    sleep_round :
        {flag flag' : Bool} {s s' : World W} {k n : ℕ} (f : Bool) (t : World W)
        → Sleeps flag s f t
        → Rounds f t k n flag' s'
        → Rounds flag s (suc k) n flag' s'
    relay_round :
        {flag flag' : Bool} {s s' : World W} {k n : ℕ} (f : Bool) (t : World W)
        → Relays flag s f t
        → Rounds f t k n flag' s'
        → Rounds flag s k (suc n) flag' s'

  -- what a round has done, by how it ends
  abbrev Ends : Bool → World W → RoundEnd → World W → Type 0
  Ends flag s waiting s' = Unit
  Ends flag s (again flag') s' = Sleeps flag s flag' s' ⊎ Relays flag s flag' s'
  Ends flag s (returned r flag') s' = (flag' ≡ flag) × Last flag s r s'

  moved :
      (flag : Bool) (s u s' : World W) (x end : RoundEnd)
      → ◌≡◌ {A = RoundEnd × World W} (x, u) (end, s')
      → Ends flag s x u
      → Ends flag s end s'
  moved flag s u s' x end h e =
      subst₂ (λ a b. Ends flag s a b) (ap (λ p. p.0) h) (ap (λ p. p.1) h) e

  relay_cases :
      (p : Option (Result (Unit {0})) × World W)
      → ((t : World W) × (p ≡ (none, t)))
        ⊎ ((t : World W) × (p ≡ (some (ok tt), t)))
        ⊎ ((e : Error) × (t : World W) × (p ≡ (some (err e), t)))
  relay_cases (none, t) = inl (t, refl)
  relay_cases (some (ok _), t) = inr (inl (t, refl))
  relay_cases (some (err e), t) = inr (inr (e, t, refl))

  relay-Ends :
      (flag : Bool) (events : List Event) (s t : World W) (last : ℕ)
      → Behind s last t
      → (is_backup_relayer && not flag) ≡ false
      → let (end, s') = after_relay start flag (relay_next start last events t) in
        Ends flag s end s'
  unfolding after_relay
  relay-Ends flag events s t last b awake = elim (relay_cases (relay_next start last events t)) [
    | inl (u, p) ↦ rw p tt
    | inr (inl (u, p)) ↦ rw p (inr (relays last events t b awake p refl))
    | inr (inr (e, u, p)) ↦ rw p (refl, not_relayed e last events t b awake p refl)
  ]

  backup_of : (flag backup : Bool) → (backup && not flag) ≡ true → (backup ≡ true) × (flag ≡ false)
  backup_of flag backup h = ground (arith, h)

  after_nonces-Ends :
      (flag : Bool) (events : List Event) (s t : World W) (now : W) (r : Result (ℕ × ℕ))
      → relayer.app_querier.ctx_err s.ext ≡ (none, now)
      → query_nonces start (record s { ext = now }) ≡ (r, t)
      → let (end, s') = after_nonces start flag events (r, t) in Ends flag s end s'
  unfolding after_nonces
  after_nonces-Ends flag events s t now (err e) not_done q =
      (refl, not_queried e now not_done q refl)
  after_nonces-Ends flag events s t now (ok (last, latest)) not_done q =
      elim (Bool-cases (leb latest last)) [
        | inl up ↦ rw up (refl, up_to_date last latest now not_done q (ground arith) refl)
        | inr below ↦
            let b : Behind s last t = record {
              now = now;
              latest = latest;
              not_done = not_done;
              queried = q;
              behind = ground arith;
            } in
            rw below (elim (Bool-cases (is_backup_relayer && not flag)) [
              | inl asleep ↦ rw asleep (
                  inl (
                    sleeps last t b (backup_of flag _ asleep).0 (backup_of flag _ asleep).1 refl
                      refl))
              | inr awake ↦ rw awake (relay-Ends flag events s t last b awake)
            ])
      ]

  unless_done-Ends :
      (flag : Bool) (events : List Event) (s : World W) (p : Option Error × W)
      → relayer.app_querier.ctx_err s.ext ≡ p
      → let (end, s') = unless_done start flag events s p in Ends flag s end s'
  unfolding unless_done
  unless_done-Ends flag events s (none, w) p =
      after_nonces-Ends flag events s _ w (query_nonces start (record s { ext = w })).0 p refl
  unless_done-Ends flag events s (some e, w) p = (refl, cancelled e w p refl refl)

  process_round-Ends :
      (flag : Bool) (events : List Event) (s : World W) (end : RoundEnd) (s' : World W)
      → process_round start flag events s ≡ (end, s')
      → Ends flag s end s'
  unfolding process_round
  process_round-Ends flag events s end s' h =
      moved flag s _ s' _ end h
        (unless_done-Ends flag events s (relayer.app_querier.ctx_err s.ext) refl)

  round_cases :
      (p : RoundEnd × World W)
      → ((t : World W) × (p ≡ (waiting, t)))
        ⊎ ((f : Bool) × (t : World W) × (p ≡ (again f, t)))
        ⊎ ((r : Result (Unit {0})) × (f : Bool) × (t : World W) × (p ≡ (returned r f, t)))
  round_cases (waiting, t) = inl (t, refl)
  round_cases (again f, t) = inr (inl (f, t, refl))
  round_cases (returned r f, t) = inr (inr (r, f, t, refl))

  -- What `processFunc` has done when it returns.
  abbrev pub Returned : Bool → World W → Result (Unit {0}) → Bool → World W → Type 0
  Returned flag s r flag' s' =
      (k n : ℕ) × (t : World W) × Rounds flag s k n flag' t × Last flag' t r s'

  after_round :
      (flag f : Bool) (s t : World W) (r : Result (Unit {0})) (flag' : Bool) (s' : World W)
      → Sleeps flag s f t ⊎ Relays flag s f t
      → Returned f t r flag' s'
      → Returned flag s r flag' s'
  after_round flag f s t r flag' s' (inl d) (k, n, u, before, last) =
      (suc k, n, u, sleep_round f t d before, last)
  after_round flag f s t r flag' s' (inr d) (k, n, u, before, last) =
      (k, suc n, u, relay_round f t d before, last)

  at_once :
      (flag : Bool) (s : World W) (r : Result (Unit {0})) (flag' : Bool) (s' : World W)
      → (flag' ≡ flag) × Last flag s r s'
      → Returned flag s r flag' s'
  at_once flag s r flag' s' (same, last) = (
    zero,
    zero,
    s,
    subst (λ f. Rounds flag s zero zero f s) (sym same) no_round,
    subst (λ f. Last f s r s') (sym same) last,
  )

  process_func-Returned :
      (flag : Bool) (rounds : List (List Event)) (s : World W)
      → (r : Result (Unit {0})) (flag' : Bool) (s' : World W)
      → process_func start flag rounds s ≡ (some (r, flag'), s')
      → Returned flag s r flag' s'
  unfolding process_func
  process_func-Returned flag [] s r flag' s' h = absurd (ground (arith, h))
  process_func-Returned flag (events ∷ rounds) s r flag' s' h =
      elim (round_cases (process_round start flag events s)) [
        | inl (t, p) ↦ absurd (ground (arith, p, h))
        | inr (inl (f, t, p)) ↦
            after_round flag f s t r flag' s' (process_round-Ends flag events s (again f) t p)
              (process_func-Returned f rounds t r flag' s' (ground (arith, p, h)))
        | inr (inr (r', f, t, p)) ↦
            at_once flag s r flag' s'
              (process_round-Ends flag events s (returned r flag') s' (ground (arith, p, h)))
      ]

  -- What it has done when it has not returned after so many rounds: all of them went on, or one
  -- still waits for confirms.
  abbrev pub Unreturned : Bool → World W → ℕ → World W → Type 0
  Unreturned flag s count s' =
      (k n : ℕ) × (f : Bool) × (t : World W) × Rounds flag s k n f t
      × (((k + n ≡ count) × (t ≡ s'))
          ⊎ ((k + n < count)
              × ((events : List Event) × (process_round start f events t ≡ (waiting, s')))))

  abbrev pub Did : Bool → World W → ℕ → Option (Result (Unit {0}) × Bool) → World W → Type 0
  Did flag s count (some (r, flag')) s' = Returned flag s r flag' s'
  Did flag s count none s' = Unreturned flag s count s'

  abbrev pub bit : Bool → ℕ
  bit true = 1
  bit false = 0

  pub Rounds-sleeps :
      is_backup_relayer ≡ true
      → {flag flag' : Bool} {s s' : World W} {k n : ℕ} → Rounds flag s k n flag' s'
      → n + bit flag' ≡ k + bit flag
  Rounds-sleeps backup no_round = refl
  Rounds-sleeps backup (sleep_round f t (sleeps last u b _ down up moved) rest) =
      ground (arith, Rounds-sleeps backup rest, down, up)
  Rounds-sleeps backup (relay_round f t (relays last events u b awake relayed down) rest) =
      ground (arith, Rounds-sleeps backup rest, awake, down, backup)

  -- A backup relayer that starts with the flag down and returns from `processFunc` has slept
  -- once for each attestation it relayed, before it, and once more exactly when the flag is left up.
  pub process_func-backup_sleeps :
      (rounds : List (List Event)) (s : World W)
      → (r : Result (Unit {0})) (flag' : Bool) (s' : World W) → is_backup_relayer ≡ true
      → process_func start false rounds s ≡ (some (r, flag'), s')
      → (k n : ℕ) × (t : World W) × Rounds false s k n flag' t
        × Last flag' t r s'
        × (k ≡ n + bit flag')
  process_func-backup_sleeps rounds s r flag' s' backup h =
      let (k, n, t, before, last) = process_func-Returned false rounds s r flag' s' h in
      (k, n, t, before, last, omega (arith, Rounds-sleeps backup before))
