-- ===== src/Orchestrator/Listener/Order.antt =====
-- What the listener to new attestations puts in the queue.
use orchestrator_relayer.Prelude.{
  ℕ, ◌≤◌, ◌≡◌, refl, sym, ap, ◌∙◌, ◌⊎◌, inl, inr, true, false, Bool-cases, List, [], ◌∷◌, ◌++◌,
  Option, none, some, Bytes, codes, str_eq, arith, length, append_assoc, append-nil,
}
use orchestrator_relayer.Effect.{panicked, signal_chan_notif, Result, ok, err, World, Result-cases}
use orchestrator_relayer.Std.Strconv.{atoi}
use orchestrator_relayer.Helpers.Retrier.{Wait, Retrier}
use orchestrator_relayer.Rpc.TmQuerier.{EventNames}
use orchestrator_relayer.Rpc.TmQuerier.Connection.{Connections, TmQuerier}
use orchestrator_relayer.Orchestrator.Listener.{
  ResultEvent, must_get_event, Pick, enqueued, inner_signal, inner_done, ListenEvent, signalled,
  ticked, done, received, go_on, returned, enqueue_nonces, is_block, handle_result, done_result,
  subscribe, check_health, listen, deferred_unsubscribe, start_new_events_listener,
}

-- the nonces that a list of event values spells, up to the first value that is no number
abbrev pub numbers : List Bytes → List ℕ
numbers [] = []
numbers (ev ∷ evs) = elim (atoi ev) [ err _ ↦ [] | ok n ↦ n ∷ numbers evs ]

-- the attestation events of a result, which count where it is a new block's
abbrev pub news : EventNames → ResultEvent → List Bytes
news names result = elim (result names.event_type_key) [
  | [] ↦ []
  | v ∷ _ ↦ elim (str_eq v names.event_new_block) [
    | true ↦ result (names.attestation_request ++ codes "." ++ names.nonce_key)
    | false ↦ []
  ]
]

abbrev pub announced : EventNames → List ListenEvent → List ℕ
announced names [] = []
announced names (received result _ ∷ events) = numbers (news names result) ++ announced names events
announced names (signalled ∷ events) = announced names events
announced names (ticked ∷ events) = announced names events
announced names (done _ ∷ events) = announced names events

-- the `select` has picked for each nonce that was announced
abbrev pub Picked : EventNames → List ListenEvent → Type 0
Picked names [] = Unit
Picked names (received result picks ∷ events) =
    (length (news names result) ≤ length picks) × Picked names events
Picked names (signalled ∷ events) = Picked names events
Picked names (ticked ∷ events) = Picked names events
Picked names (done _ ∷ events) = Picked names events

-- The queue gets all that was announced, or it stops with a result and the queue has the first part of it.
abbrev pub Takes :
    {H : Type 0} → H → (Result (Unit {0}) → H) → List ℕ → List ℕ → H × List ℕ → Type 0
Takes go stop nonces queue out =
    (out ≡ (go, queue ++ nonces))
    ⊎ ((r : Result (Unit {0})) × (taken : List ℕ) × (rest : List ℕ) × (out
          ≡ (stop r, queue ++ taken))
        × (nonces ≡ taken ++ rest))

module _ {H : Type 0} (go : H) (stop : Result (Unit {0}) → H) where
  Takes-none :
      (nonces queue : List ℕ) (r : Result (Unit {0})) → Takes go stop nonces queue (stop r, queue)
  Takes-none nonces queue r =
      inr (r, [], nonces, ap (λ q. (stop r, q)) (sym (append-nil queue)), refl)

  Takes-onward :
      (a b queue : List ℕ) (out : H × List ℕ)
      → Takes go stop b (queue ++ a) out
      → Takes go stop (a ++ b) queue out
  Takes-onward a b queue out (inl p) = inl (p ∙ ap (λ q. (go, q)) (append_assoc queue a b))
  Takes-onward a b queue out (inr (r, taken, rest, p, q)) = inr (
    r,
    a ++ taken,
    rest,
    p ∙ ap (λ x. (stop r, x)) (append_assoc queue a taken),
    ap (λ x. a ++ x) q ∙ sym (append_assoc a taken rest),
  )

list-cases : {A : Type 0} (xs : List A) → (xs ≡ []) ⊎ ((y : A) × (ys : List A) × (xs ≡ y ∷ ys))
list-cases [] = inl refl
list-cases (y ∷ ys) = inr (y, ys, refl)

enqueue_nonces-Takes :
    (evs : List Bytes) (picks : List Pick) (queue : List ℕ)
    → length evs ≤ length picks
    → Takes go_on returned (numbers evs) queue (enqueue_nonces evs picks queue)
unfolding enqueue_nonces
enqueue_nonces-Takes [] picks queue h = inl (ap (λ q. (go_on, q)) (sym (append-nil queue)))
enqueue_nonces-Takes (ev ∷ evs) [] queue h = absurd (omega arith)
enqueue_nonces-Takes (ev ∷ evs) (inner_done e ∷ picks) queue h = elim (Result-cases (atoi ev)) [
  | inr (x, p) ↦ rw (enqueue_nonces, numbers, p) (Takes-none go_on returned [] queue (err x))
  | inl (n, p) ↦
      rw (enqueue_nonces, numbers, p) (Takes-none go_on returned (n ∷ numbers evs) queue (err e))
]
enqueue_nonces-Takes (ev ∷ evs) (inner_signal ∷ picks) queue h = elim (Result-cases (atoi ev)) [
  | inr (x, p) ↦ rw (enqueue_nonces, numbers, p) (Takes-none go_on returned [] queue (err x))
  | inl (n, p) ↦
      rw (enqueue_nonces, numbers, p)
        (Takes-none go_on returned (n ∷ numbers evs) queue (err signal_chan_notif))
]
enqueue_nonces-Takes (ev ∷ evs) (enqueued ∷ picks) queue h = elim (Result-cases (atoi ev)) [
  | inr (x, p) ↦ rw (enqueue_nonces, numbers, p) (Takes-none go_on returned [] queue (err x))
  | inl (n, p) ↦
      let rest = enqueue_nonces-Takes evs picks (queue ++ n ∷ []) (omega arith) in
      rw (enqueue_nonces, numbers, p)
        (Takes-onward go_on returned (n ∷ []) (numbers evs) queue
          (enqueue_nonces evs picks (queue ++ n ∷ [])) rest)
]

handle_result-Takes :
    (names : EventNames) (result : ResultEvent) (picks : List Pick) (queue : List ℕ)
    → length (news names result) ≤ length picks
    → Takes go_on returned
        (numbers (news names result))
        queue
        (handle_result names result picks queue)
unfolding handle_result must_get_event is_block
handle_result-Takes names result picks queue h = elim (list-cases (result names.event_type_key)) [
  | inl p ↦
      rw (handle_result, must_get_event, news, p)
        (Takes-none go_on returned [] queue (err panicked))
  | inr (v, vs, p) ↦ elim (Bool-cases (str_eq v names.event_new_block)) [
    | inr q ↦
        rw (handle_result, must_get_event, news, is_block, p, q)
          (inl (ap (λ x. (go_on, x)) (sym (append-nil queue))))
    | inl q ↦
        elim (list-cases (result (names.attestation_request ++ codes "." ++ names.nonce_key))) [
          | inl r ↦
              rw (handle_result, must_get_event, news, is_block, p, q, r)
                (Takes-none go_on returned [] queue (err panicked))
          | inr (ev, evs, r) ↦
              rw (handle_result, must_get_event, news, is_block, p, q, r)
                (enqueue_nonces-Takes (ev ∷ evs) picks queue (rw (news, p, q, r) at h))
        ]
  ]
]

-- the outcome and the queue, without the world
abbrev pub listened : {A B S : Type 0} → A × B × S → A × B
listened (o, q, _) = (o, q)

module _ {W C : Type 0} (connections : Connections W C) (names : EventNames) (retrier : Retrier)
    (wait : Wait W) where
  listen-Takes :
      (events : List ListenEvent) (queue : List ℕ) (s : World (TmQuerier C × W))
      → Picked names events
      → Takes none some
          (announced names events)
          queue
          (listened (listen connections names retrier wait events queue s))
  unfolding listen
  listen-Takes [] queue s h = inl (ap (λ q. (none, q)) (sym (append-nil queue)))
  listen-Takes (signalled ∷ events) queue s h =
      Takes-none none some (announced names events) queue (ok tt)
  listen-Takes (done e ∷ events) queue s h =
      Takes-none none some (announced names events) queue (done_result e)
  listen-Takes (ticked ∷ events) queue s h =
      let (r, t) = check_health connections names retrier wait s in
      elim (Result-cases r) [
        | inr (e, p) ↦ rw (listen, p) (Takes-none none some (announced names events) queue (err e))
        | inl (_, p) ↦ rw (listen, p) (listen-Takes events queue t h)
      ]
  listen-Takes (received result picks ∷ events) queue s (h, hs) =
      let now = numbers (news names result) in
      elim (handle_result-Takes names result picks queue h) [
        | inl p ↦
            rw (listen, ap (λ x. x.0) p, ap (λ x. x.1) p)
              (Takes-onward none some now (announced names events) queue
                (listened (listen connections names retrier wait events (queue ++ now) s))
                (listen-Takes events (queue ++ now) s hs))
        | inr (r, taken, rest, p, q) ↦
            rw (listen, p)
              (inr (
                r,
                taken,
                rest ++ announced names events,
                ap (λ x. (some r, x.1)) p,
                ap (λ x. x ++ announced names events) q
                    ∙ append_assoc taken rest (announced names events),
              ))
      ]

  listened-deferred_unsubscribe :
      (out : Option (Result (Unit {0})) × List ℕ × World (TmQuerier C × W))
      → listened (deferred_unsubscribe connections names retrier wait out) ≡ listened out
  unfolding deferred_unsubscribe
  listened-deferred_unsubscribe (none, _, _) = refl
  listened-deferred_unsubscribe (some _, _, _) = refl

  -- Where a pick is given for each nonce that is announced: as long as the listener to new attestations has
  -- not returned, it has put at the end of the queue exactly the nonces of the attestation events of
  -- the new blocks, in their order; when it returned, it has put there the first part of them. So also when the
  -- node went away and was connected to anew between them.
  pub start_new_events_listener-Takes :
      (events : List ListenEvent) (queue : List ℕ) (s : World (TmQuerier C × W))
      → Picked names events
      → Takes none some
          (announced names events)
          queue
          (listened (start_new_events_listener connections names retrier wait events queue s))
  unfolding start_new_events_listener
  start_new_events_listener-Takes events queue s h =
      let (r, t) = subscribe connections names retrier wait s in
      elim (Result-cases r) [
        | inr (e, p) ↦
            rw (start_new_events_listener, p)
              (Takes-none none some (announced names events) queue (err e))
        | inl (_, p) ↦
            rw
              (
                start_new_events_listener,
                p,
                listened-deferred_unsubscribe
                    (listen connections names retrier wait events queue t),
              )
              (listen-Takes events queue t h)
      ]
