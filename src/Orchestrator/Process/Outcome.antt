-- ===== src/Orchestrator/Process/Outcome.antt =====
-- `Process` as a whole: when it signs, and what its success means.
use orchestrator_relayer.Prelude.{
  ℕ, ◌≡◌, refl, sym, ap, ◌∙◌, inl, inr, true, false, Option, none, some, arith, Bool-cases, ◌==◌,
  ==_iff, ◌≢◌,
}
use orchestrator_relayer.Effect.{
  Error, attestation_not_found, Result, ok, err, World, Go, bind-inv, outcome-cases, attempt, ◌>>=◌,
  ◌>>◌,
}
use orchestrator_relayer.Types.Valsets.{Valset, Attestation, get_nonce, to_latest_valset}
use orchestrator_relayer.P2p.Keys.{get_latest_valset_key}
use orchestrator_relayer.Rpc.AppQuerier.{query_attestation_by_nonce, query_last_valset_before_nonce}
use orchestrator_relayer.Orchestrator.Broadcaster.{provide_latest_valset}
use orchestrator_relayer.Orchestrator.Broadcaster.Provides.{
  PutOrNot, provide_latest_valset-PutOrNot,
}
use orchestrator_relayer.Orchestrator.Process.{
  Orchestrator, account_hex, validator_part_of_valset, sign_attestation, if_part_of_valset,
  check_and_sign, process,
}
use orchestrator_relayer.Orchestrator.Process.Signed.{Signed, sign_attestation-Signed}

module _ {W : Type 0} (orch : Orchestrator W) where
  open orch use {app_querier, dht, codecs}

  -- There is no need to sign: the nonce is that of the first valset, which the contract trusts, or the
  -- app answers with a valset before the attestation's nonce that the account is no member of.
  pub data NoNeed (nonce : ℕ) (s : World W) : Type 0 where
    genesis : nonce ≡ 1 → NoNeed nonce s
    not_part :
        (att : Attestation) (previous : Valset) (t u : World W)
        → query_attestation_by_nonce app_querier nonce s ≡ (ok (some att), t)
        → query_last_valset_before_nonce app_querier (get_nonce att) t ≡ (ok previous, u)
        → validator_part_of_valset previous.members (account_hex orch) ≡ false
        → NoNeed nonce s

  -- Success means that there was no need to sign, and nothing was called; or that the attestation that
  -- the app answers with was signed, unchecked only where the app did not answer with a valset before
  -- it, and else by a member of that valset, after the valset may have been provided to the network.
  pub data Processed (nonce : ℕ) (s s' : World W) : Type 0 where
    skipped :
        (att : Attestation) (t : World W)
        → query_attestation_by_nonce app_querier nonce s ≡ (ok (some att), t)
        → NoNeed nonce s
        → s'.calls ≡ s.calls
        → Processed nonce s s'
    signed_unchecked :
        (att : Attestation) (e : Error) (t u : World W)
        → nonce ≢ 1
        → query_attestation_by_nonce app_querier nonce s ≡ (ok (some att), t)
        → query_last_valset_before_nonce app_querier (get_nonce att) t ≡ (err e, u)
        → u.calls ≡ s.calls
        → Signed orch nonce att u s'
        → Processed nonce s s'
    signed :
        (att : Attestation) (previous : Valset) (t u v : World W)
        → nonce ≢ 1
        → query_attestation_by_nonce app_querier nonce s ≡ (ok (some att), t)
        → query_last_valset_before_nonce app_querier (get_nonce att) t ≡ (ok previous, u)
        → u.calls ≡ s.calls
        → validator_part_of_valset previous.members (account_hex orch) ≡ true
        → PutOrNot dht codecs.latest_valset get_latest_valset_key (to_latest_valset previous) u v
        → Signed orch nonce att v s'
        → Processed nonce s s'

  query_attestation_by_nonce-calls :
      (nonce : ℕ) (s t : World W) (r : Result (Option Attestation))
      → query_attestation_by_nonce app_querier nonce s ≡ (r, t)
      → t.calls ≡ s.calls
  unfolding query_attestation_by_nonce
  query_attestation_by_nonce-calls nonce s t r h =
      elim (outcome-cases (app_querier.attestation_request_by_nonce none nonce s.ext)) [
        | inl (none, w, p) ↦ ground (arith, p, h)
        | inl (some any, w, p) ↦ ground (arith, p, h)
        | inr (e, w, p) ↦ ground (arith, p, h)
      ]

  query_last_valset_before_nonce-calls :
      (nonce : ℕ) (s t : World W) (r : Result Valset)
      → query_last_valset_before_nonce app_querier nonce s ≡ (r, t)
      → t.calls ≡ s.calls
  unfolding query_last_valset_before_nonce
  query_last_valset_before_nonce-calls nonce s t r h = ap (λ p. p.1.calls) (sym h)

  abbrev query_previous : Attestation → Go W Valset
  query_previous att = query_last_valset_before_nonce app_querier (get_nonce att)

  if_part_of_valset_no :
      (nonce : ℕ) (att : Attestation) (previous : Valset) (u : World W)
      → validator_part_of_valset previous.members (account_hex orch) ≡ false
      → if_part_of_valset orch nonce att (ok previous) u ≡ (ok tt, u)
  unfolding if_part_of_valset
  if_part_of_valset_no nonce att previous u h = rw h

  abbrev provide_and_sign : ℕ → Attestation → Valset → Go W (Unit {0})
  provide_and_sign nonce att previous =
      attempt (provide_latest_valset dht codecs (to_latest_valset previous))
      >> sign_attestation orch nonce att

  if_part_of_valset_yes :
      (nonce : ℕ) (att : Attestation) (previous : Valset) (u : World W)
      → validator_part_of_valset previous.members (account_hex orch) ≡ true
      → if_part_of_valset orch nonce att (ok previous) u ≡ provide_and_sign nonce att previous u
  unfolding if_part_of_valset
  if_part_of_valset_yes nonce att previous u h = rw h

  if_part_of_valset-Processed :
      (nonce : ℕ) (att : Attestation) (r : Result Valset) (s t u s' : World W)
      → nonce ≢ 1
      → query_attestation_by_nonce app_querier nonce s ≡ (ok (some att), t)
      → query_previous att t ≡ (r, u)
      → if_part_of_valset orch nonce att r u ≡ (ok tt, s')
      → Processed nonce s s'
  if_part_of_valset-Processed nonce att (err e) s t u s' later p q h =
      signed_unchecked att e t u later p q
        (query_last_valset_before_nonce-calls _ t u (err e) q
          ∙ query_attestation_by_nonce-calls nonce s t _ p)
        (sign_attestation-Signed orch nonce att u s' (unfold if_part_of_valset in h))
  if_part_of_valset-Processed nonce att (ok previous) s t u s' later p q h =
      let calls : u.calls ≡ s.calls =
        query_last_valset_before_nonce-calls _ t u (ok previous) q
        ∙ query_attestation_by_nonce-calls nonce s t _ p in
      elim (Bool-cases (validator_part_of_valset previous.members (account_hex orch))) [
        | inr no_part ↦ skipped att t p (not_part att previous t u p q no_part) (
            ap (λ x. x.1.calls) (sym h ∙ if_part_of_valset_no nonce att previous u no_part) ∙ calls)
        | inl part ↦
            let (r, v, pv, h1) =
              bind-inv (attempt (provide_latest_valset dht codecs (to_latest_valset previous)))
                (λ _. sign_attestation orch nonce att) u s' tt
                (sym (if_part_of_valset_yes nonce att previous u part) ∙ h) in
            signed att previous t u v later p q calls part
              (provide_latest_valset-PutOrNot dht codecs (to_latest_valset previous) u v r
                (ground (arith, pv)))
              (sign_attestation-Signed orch nonce att v s' h1)
      ]

  check_and_sign_genesis :
      (nonce : ℕ) (att : Attestation) (t : World W)
      → nonce ≡ 1
      → check_and_sign orch nonce (some att) t ≡ (ok tt, t)
  unfolding check_and_sign
  check_and_sign_genesis nonce att t h = rw ((==_iff nonce 1).1 h)

  check_and_sign_later :
      (nonce : ℕ) (att : Attestation) (t : World W)
      → (nonce == 1) ≡ false
      → check_and_sign orch nonce (some att) t
        ≡ (attempt (query_previous att) >>= if_part_of_valset orch nonce att) t
  unfolding check_and_sign
  check_and_sign_later nonce att t h = rw h

  -- For every nonce and world, where `Process` succeeds, the app has answered with an attestation for the
  -- nonce, and either there was no need to sign (nonce 1, or
  -- the account is no member of the previous valset) and no call was made; or the nonce is not 1 and that
  -- attestation was signed and published, or had been before. It was so
  -- unchecked only where the query for the valset before the attestation's nonce failed; else the account is
  -- a member of that valset, which may have been provided first.
  pub process-Processed :
      (nonce : ℕ) (s s' : World W) → process orch nonce s ≡ (ok tt, s') → Processed nonce s s'
  unfolding process
  process-Processed nonce s s' h =
      let (o, t, p, h1) =
        bind-inv (query_attestation_by_nonce app_querier nonce) (check_and_sign orch nonce) s s' tt
          h in
      go o t p h1
    where
      go :
          (o : Option Attestation) (t : World W)
          → query_attestation_by_nonce app_querier nonce s ≡ (ok o, t)
          → check_and_sign orch nonce o t ≡ (ok tt, s')
          → Processed nonce s s'
      go none t p h1 = cc
      go (some att) t p h1 = elim (Bool-cases (nonce == 1)) [
        | inl one ↦
            let first : nonce ≡ 1 = (==_iff nonce 1).0 one in
            skipped att t p (genesis first) (
              ap (λ x. x.1.calls) (sym h1 ∙ check_and_sign_genesis nonce att t first)
              ∙ query_attestation_by_nonce-calls nonce s t _ p)
        | inr later ↦
            let (r, u, q, h2) =
              bind-inv (attempt (query_previous att)) (if_part_of_valset orch nonce att) t s' tt
                (sym (check_and_sign_later nonce att t later) ∙ h1) in
            if_part_of_valset-Processed nonce att r s t u s' (ground (arith, later)) p
              (ground (arith, q)) h2
      ]

  process_failed :
      (nonce : ℕ) (e : Error) (s t : World W)
      → query_attestation_by_nonce app_querier nonce s ≡ (err e, t)
      → process orch nonce s ≡ (err e, t)
  process_failed nonce e s t p = unfold process in rw p

  process_answered :
      (nonce : ℕ) (o : Option Attestation) (s t : World W)
      → query_attestation_by_nonce app_querier nonce s ≡ (ok o, t)
      → process orch nonce s ≡ check_and_sign orch nonce o t
  process_answered nonce o s t p = unfold process in rw p

  check_and_sign_not_part :
      (nonce : ℕ) (att : Attestation) (previous : Valset) (t u : World W)
      → query_previous att t ≡ (ok previous, u)
      → validator_part_of_valset previous.members (account_hex orch) ≡ false
      → (check_and_sign orch nonce (some att) t).1.calls ≡ t.calls
  check_and_sign_not_part nonce att previous t u q no_part = elim (Bool-cases (nonce == 1)) [
    | inl one ↦ rw (check_and_sign_genesis nonce att t ((==_iff nonce 1).0 one))
    | inr later ↦
        let eq : check_and_sign orch nonce (some att) t ≡ (ok tt, u) =
          check_and_sign_later nonce att t later
          ∙ rw q (if_part_of_valset_no nonce att previous u no_part) in
        ap (λ x. x.1.calls) eq ∙ query_last_valset_before_nonce-calls _ t u (ok previous) q
  ]

  -- Where there is no need to sign, `Process` makes no call, also where it fails.
  pub process_silent :
      (nonce : ℕ) (s s' : World W) (r : Result (Unit {0}))
      → NoNeed nonce s
      → process orch nonce s ≡ (r, s')
      → s'.calls ≡ s.calls
  process_silent nonce s s' r (genesis one) h =
      elim (outcome-cases (query_attestation_by_nonce app_querier nonce s)) [
        | inl (none, t, p) ↦
            let eq : process orch nonce s ≡ (err attestation_not_found, t) =
              process_answered nonce none s t p ∙ unfold check_and_sign in refl in
            ap (λ x. x.1.calls) (sym h ∙ eq) ∙ query_attestation_by_nonce-calls nonce s t _ p
        | inl (some att, t, p) ↦
            ap (λ x. x.1.calls)
              (sym h
                ∙ process_answered nonce (some att) s t p
                ∙ check_and_sign_genesis nonce att t one)
            ∙ query_attestation_by_nonce-calls nonce s t _ p
        | inr (e, t, p) ↦
            ap (λ x. x.1.calls) (sym h ∙ process_failed nonce e s t p)
            ∙ query_attestation_by_nonce-calls nonce s t _ p
      ]
  process_silent nonce s s' r (not_part att previous t u p q no_part) h =
      ap (λ x. x.1.calls) (sym h ∙ process_answered nonce (some att) s t p)
      ∙ check_and_sign_not_part nonce att previous t u q no_part
      ∙ query_attestation_by_nonce-calls nonce s t _ p
