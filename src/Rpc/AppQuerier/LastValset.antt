-- ===== src/Rpc/AppQuerier/LastValset.antt =====
-- The search for the last valset before a nonce, through the history of the chain.
use orchestrator_relayer.Prelude.{
  ℕ, zero, suc, ◌+◌, ◌-◌, ◌%◌, ◌^◌, ◌<◌, ◌≡◌, sym, ◌∙◌, Option, none, some, arith, inl, inr, ◌⊎◌,
  Option-cases,
}
use orchestrator_relayer.Effect.{Error, ok, err, World, outcome-cases, reading-cases}
use orchestrator_relayer.Types.Valsets.{Valset, Attestation}
use orchestrator_relayer.Rpc.AppQuerier.{
  QueryClient, as_valset, query_recursive_historical_attestation_by_nonce, last_valset_loop,
  query_recursive_historical_last_valset_before_nonce,
}
use orchestrator_relayer.Rpc.AppQuerier.Recursive.{
  Answers, IsVisited, query_recursive_historical_attestation_by_nonce-Answers,
}

module _ {W : Type 0} (client : QueryClient W) (height : ℕ) where
  -- the node answers `att` for the nonce at one of the heights that the search visits
  abbrev pub AnswersBelow : ℕ → Option Attestation → Type 0
  AnswersBelow nonce att = (h : ℕ) × IsVisited client height h × Answers client nonce h att

  -- `vs` is the valset of the highest nonce up to `n` at which the node's answer is a valset.
  pub data IsLastValset : ℕ → Valset → Type 0 where
    here :
        (n : ℕ) (att : Option Attestation) (vs : Valset)
        → AnswersBelow (suc n) att
        → as_valset att ≡ some vs
        → IsLastValset (suc n) vs
    below :
        (n : ℕ) (att : Option Attestation) (vs : Valset)
        → AnswersBelow (suc n) att
        → as_valset att ≡ none
        → IsLastValset n vs
        → IsLastValset (suc n) vs

  abbrev Round : ℕ → World W → Type 0
  Round n s =
      ((e : Error) × (s' : World W) × (last_valset_loop client height (suc n) s ≡ (err e, s')))
      ⊎ ((att : Option Attestation) × (vs : Valset) × (s' : World W) × AnswersBelow (suc n) att
          × (as_valset att ≡ some vs)
          × (last_valset_loop client height (suc n) s ≡ (ok (some vs), s')))
      ⊎ ((att : Option Attestation) × (s' : World W) × AnswersBelow (suc n) att
          × (as_valset att ≡ none)
          × (last_valset_loop client height (suc n) s ≡ last_valset_loop client height n s'))

  last_valset_loop-Round : (n : ℕ) (s : World W) → 0 < client.blocks → Round n s
  unfolding last_valset_loop
  last_valset_loop-Round n s b = elim (reading-cases (client.ctx_err s.ext)) [
    | inr (e, w, p) ↦ inl (e, record s { ext = w }, ground (arith, p))
    | inl (w, p) ↦
        elim (outcome-cases (
          query_recursive_historical_attestation_by_nonce client (suc n) height
            (record s { ext = w }))) [
              | inr (e, t, q) ↦ inl (e, t, ground (arith, p, q))
              | inl (r, t, q) ↦
                  let (att, some_att, ans) =
                    query_recursive_historical_attestation_by_nonce-Answers client (suc n) height _
                      t r b q in
                  elim (Option-cases (as_valset att)) [
                    | inr (vs, v) ↦
                        inr (inl (att, vs, t, ans, v, ground (arith, p, q, some_att, v)))
                    | inl v ↦ inr (inr (att, t, ans, v, ground (arith, p, q, some_att, v)))
                  ]
            ]
  ]

  last_valset_loop-IsLastValset :
      (n : ℕ) (s s' : World W) (r : Option Valset)
      → 0 < client.blocks
      → last_valset_loop client height n s ≡ (ok r, s')
      → (vs : Valset) × (r ≡ some vs) × IsLastValset n vs
  last_valset_loop-IsLastValset zero s s' r b e = elim (reading-cases (client.ctx_err s.ext)) [
    | inr (x, w, p) ↦ unfold last_valset_loop in ground (arith, p, e)
    | inl (w, p) ↦ unfold last_valset_loop in ground (arith, p, e)
  ]
  last_valset_loop-IsLastValset (suc n) s s' r b e = elim (last_valset_loop-Round n s b) [
    | inl (x, t, p) ↦ cc (e, p)
    | inr (inl (att, vs, t, ans, v, p)) ↦ (vs, cc (e, p), here n att vs ans v)
    | inr (inr (att, t, ans, v, p)) ↦
        let (vs, q, last) = last_valset_loop-IsLastValset n t s' r b (sym p ∙ e) in
        (vs, q, below n att vs ans v last)
  ]

  -- For a nonce of 64 bits that is not 0, and where a period has a block, the search for the last
  -- valset before the nonce ends; what it returns is the valset of the highest lower nonce at which the
  -- node's answer, at a visited height, is a valset.
  pub query_recursive_historical_last_valset_before_nonce-IsLastValset :
      (n : ℕ) (s s' : World W) (r : Option Valset)
      → 0 < client.blocks
      → suc n < 2 ^ 64
      → query_recursive_historical_last_valset_before_nonce client (suc n) height s ≡ (ok r, s')
      → (vs : Valset) × (r ≡ some vs) × IsLastValset n vs
  unfolding query_recursive_historical_last_valset_before_nonce
  query_recursive_historical_last_valset_before_nonce-IsLastValset n s s' r b fits e =
      let wrap : (suc n + 2 ^ 64 - 1) % 2 ^ 64 ≡ n = omega arith in
      last_valset_loop-IsLastValset n s s' r b (rw wrap at e)
