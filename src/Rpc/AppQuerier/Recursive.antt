-- ===== src/Rpc/AppQuerier/Recursive.antt =====
-- The searches through the history of the chain: that they end, and what they find.
use mathlib.Core.Path.{subst}
use orchestrator_relayer.Prelude.{
  ℕ, zero, suc, ◌+◌, ◌-◌, ◌*◌, ◌≤◌, ◌<◌, ◌≡◌, ◌≢◌, refl, sym, ◌∙◌, Option, none, some, arith, Bytes,
  leb, Bool-cases, inl, inr, leb→le, ◌⊎◌,
}
use orchestrator_relayer.Effect.{
  Error, ok, err, World, outcome-cases, Result-cases, reading-cases, not_found,
}
use orchestrator_relayer.Types.Valsets.{Attestation}
use orchestrator_relayer.Rpc.AppQuerier.{
  QueryClient, historical_attestation_loop, query_recursive_historical_attestation_by_nonce,
}

module _ {W : Type 0} (client : QueryClient W) where
  -- The node, asked at some time for the attestation `nonce` at `height`, answers `att`.
  pub record Answers (nonce height : ℕ) (att : Option Attestation) : Type 0 where
    pub before : W
    pub after : W
    pub response : Option Bytes
    pub answered :
        client.attestation_request_by_nonce (some height) nonce before ≡ (ok response, after)
    pub unpacked : client.unpack response ≡ ok att

  -- `height` minus some number of periods, and not below 1
  pub record IsVisited (height h : ℕ) : Type 0 where
    pub periods : ℕ
    pub height_eq : h + periods * client.blocks ≡ height
    pub positive : 1 ≤ h

  -- One round fails, finds the attestation at this height, or goes on one period below, without
  -- passing 1.
  abbrev Round : ℕ → ℕ → ℕ → World W → Type 0
  Round f nonce h s =
      ((e : Error) × (s' : World W) × (historical_attestation_loop client (suc f) nonce h s
          ≡ (err e, s')))
      ⊎ ((att : Option Attestation) × (s' : World W) × (historical_attestation_loop client (suc f)
              nonce h s
            ≡ (ok (some att), s'))
          × (1 ≤ h)
          × Answers nonce h att)
      ⊎ ((s' : World W) × (client.blocks < h)
          × (historical_attestation_loop client (suc f) nonce h s
              ≡ historical_attestation_loop client f nonce (h - client.blocks) s'))

  historical_attestation_loop-Round : (f nonce h : ℕ) (s : World W) → Round f nonce h s
  unfolding historical_attestation_loop
  historical_attestation_loop-Round f nonce h s = elim (Bool-cases (leb 1 h)) [
    | inr low ↦ inl (not_found, s, ground (arith, low))
    | inl high ↦ elim (reading-cases (client.ctx_err s.ext)) [
      | inr (e, w, p) ↦ inl (e, record s { ext = w }, ground (arith, high, p))
      | inl (w, p) ↦ elim (outcome-cases (client.attestation_request_by_nonce (some h) nonce w)) [
        | inl (resp, w', q) ↦ elim (Result-cases (client.unpack resp)) [
          | inl (att, u) ↦ inr (
              inl (
                att,
                record s { ext = w' },
                ground (arith, high, p, q, u),
                leb→le 1 h high,
                record { before = w; after = w'; response = resp; answered = q; unpacked = u },
              ))
          | inr (e, u) ↦ inl (e, record s { ext = w' }, ground (arith, high, p, q, u))
        ]
        | inr (e, w', q) ↦ elim (Bool-cases (leb h client.blocks)) [
          | inl last ↦ inl (not_found, record s { ext = w' }, ground (arith, high, p, q, last))
          | inr more ↦
              inr (
                inr (record s { ext = w' }, ground (arith, more), ground (arith, high, p, q, more)))
        ]
      ]
    ]
  ]

  historical_attestation_loop-ne-none :
      (f nonce h : ℕ) (s s' : World W)
      → 0 < client.blocks
      → h < f
      → historical_attestation_loop client f nonce h s ≢ (ok none, s')
  historical_attestation_loop-ne-none zero nonce h s s' b lt e = absurd (omega arith)
  historical_attestation_loop-ne-none (suc f) nonce h s s' b lt e =
      elim (historical_attestation_loop-Round f nonce h s) [
        | inl (x, t, p) ↦ cc (e, p)
        | inr (inl (att, t, p, _, _)) ↦ cc (e, p)
        | inr (inr (t, more, p)) ↦
            historical_attestation_loop-ne-none f nonce (h - client.blocks) t s' b (omega arith)
              (sym p ∙ e)
      ]

  historical_attestation_loop-Answers :
      (f nonce h : ℕ) (s s' : World W) (att : Option Attestation)
      → historical_attestation_loop client f nonce h s ≡ (ok (some att), s')
      → (k : ℕ) × IsVisited h k × Answers nonce k att
  historical_attestation_loop-Answers zero nonce h s s' att e =
      unfold historical_attestation_loop in cc
  historical_attestation_loop-Answers (suc f) nonce h s s' att e =
      elim (historical_attestation_loop-Round f nonce h s) [
        | inl (x, t, p) ↦ cc (e, p)
        | inr (inl (a, t, p, pos, ans)) ↦
            let same : a ≡ att = cc (e, p) in
            (
              h,
              record { periods = 0; height_eq = omega arith; positive = pos },
              subst (Answers nonce h) same ans,
            )
        | inr (inr (t, more, p)) ↦
            let (k, v, ans) =
              historical_attestation_loop-Answers f nonce (h - client.blocks) t s' att
                (sym p ∙ e) in
            (
              k,
              record {
                periods = suc v.periods;
                height_eq = omega (arith, v.height_eq, more);
                positive = v.positive;
              },
              ans,
            )
      ]

  -- The search for an attestation from a height down ends, where a period has a block: it fails, or
  -- it returns what the node answered at a height that is the first one less some periods, and not 0.
  pub query_recursive_historical_attestation_by_nonce-Answers :
      (nonce height : ℕ) (s s' : World W) (r : Option (Option Attestation))
      → 0 < client.blocks
      → query_recursive_historical_attestation_by_nonce client nonce height s ≡ (ok r, s')
      → (att : Option Attestation) × (r ≡ some att)
        × ((h : ℕ) × IsVisited height h × Answers nonce h att)
  unfolding query_recursive_historical_attestation_by_nonce
  query_recursive_historical_attestation_by_nonce-Answers nonce height s s' none b e =
      absurd (historical_attestation_loop-ne-none (suc height) nonce height s s' b (omega arith) e)
  query_recursive_historical_attestation_by_nonce-Answers nonce height s s' (some att) b e =
      (att, refl, historical_attestation_loop-Answers (suc height) nonce height s s' att e)
