-- ===== src/Cmd/QueryOutput/Agrees.antt =====
-- The queries of signers and the relayer agree on when an attestation can be relayed.
use orchestrator_relayer.Prelude.{
  ℕ, ◌+◌, ◌%◌, ◌^◌, ◌<◌, ◌≡◌, refl, sym, ap, ◌∙◌, Bool, true, false, ◌||◌, List, [], ◌∷◌, Option,
  none, some, Bytes, map, arith, if◌then◌else◌, Map, lookup, put, Option-cases, inl, inr,
}
use orchestrator_relayer.Effect.{ok, World, Go}
use orchestrator_relayer.Types.Valsets.{BridgeValidator, Valset}
use orchestrator_relayer.P2p.Querier.{members_map, current_threshold, collect, query_func}
use orchestrator_relayer.P2p.Querier.Powers.{
  among, AllDistinct, addresses, power_where, power_where_same, current_threshold_power,
  power_of_members,
}
use orchestrator_relayer.Cmd.QueryOutput.{
  ValidatorInfo, fill_confirms_map, add_power, fill_signatures, to_query_output,
}

abbrev is_some {ℓ} : {A : Type ℓ} → Option A → Bool
is_some none = false
is_some (some _) = true

is_some-lookup :
    {C : Type 0} (eth_address signature : C → Bytes) (a : Bytes) (cs : List C) (m : Map Bytes)
    → is_some (lookup a (fill_confirms_map eth_address signature cs m))
      ≡ among a (map eth_address cs) || is_some (lookup a m)
unfolding fill_confirms_map among lookup put
is_some-lookup eth_address signature a [] m = refl
is_some-lookup eth_address signature a (c ∷ cs) m =
    ground (arith, is_some-lookup eth_address signature a cs (put (eth_address c) (signature c) m))

fill_signatures_power :
    (confirms_map : Map Bytes) (infos : Map ValidatorInfo) (ms : List BridgeValidator) (curr : ℕ)
    → curr < 2 ^ 64
    → (fill_signatures confirms_map infos ms curr).1
      ≡ (curr + power_where (λ a. is_some (lookup a confirms_map)) ms) % 2 ^ 64
unfolding fill_signatures power_where add_power
fill_signatures_power confirms_map infos [] curr small = omega (arith, small)
fill_signatures_power confirms_map infos (m ∷ ms) curr small =
    elim (Option-cases (lookup m.evm_address confirms_map)) [
      | inl missed ↦
          rw missed (fill_signatures_power confirms_map infos ms curr small ∙ omega arith)
      | inr (sig, signed) ↦ rw signed (
          fill_signatures_power confirms_map infos ms ((curr + m.power) % 2 ^ 64) (omega arith)
          ∙ omega arith)
    ]

module _ {C : Type 0} (eth_address : C → Bytes) where
  agreed_threshold :
      (signature : C → Bytes) (infos : Map ValidatorInfo) (ms : List BridgeValidator) (cs : List C)
      → AllDistinct (addresses ms)
      → AllDistinct (map eth_address cs)
      → (fill_signatures (fill_confirms_map eth_address signature cs []) infos ms 0).1
        ≡ current_threshold eth_address (members_map ms []) cs 0
  agreed_threshold signature infos ms cs d e =
      fill_signatures_power (fill_confirms_map eth_address signature cs []) infos ms 0 (omega arith)
      ∙ ap (λ n. (0 + n) % 2 ^ 64)
          (power_where_same _ (λ a. among a (map eth_address cs)) ms
              (λ a. is_some-lookup eth_address signature a cs [] ∙ unfold lookup in ground arith)
            ∙ sym (power_of_members eth_address ms cs d e))
      ∙ sym (current_threshold_power eth_address (members_map ms []) cs 0 (omega arith))

  module _ (signature : C → Bytes) (infos : Map ValidatorInfo) {W : Type 0}
      (get : BridgeValidator → Go W C) (two_thirds_threshold : Valset → ℕ)
      (last_valset : Valset) where
    -- Where the members of the valset have different addresses, and so have the signers of the confirms
    -- that the network has for them, the relayer's query returns these confirms exactly when the output of
    -- the query of signers, made from them, says that the attestation can be relayed, and otherwise none.
    pub query_func-to_query_output :
        (nonce : ℕ) (confirms : List C) (s s' : World W)
        → AllDistinct (addresses last_valset.members)
        → AllDistinct (map eth_address confirms)
        → collect get last_valset.members [] s ≡ (ok confirms, s')
        → let o =
            to_query_output
              (fill_confirms_map eth_address signature confirms [])
              infos
              two_thirds_threshold
              nonce
              last_valset in
          query_func eth_address get last_valset.members (two_thirds_threshold last_valset) s
          ≡ (ok (if o.can_relay then confirms else []), s')
    unfolding query_func to_query_output
    query_func-to_query_output nonce confirms s s' d e h =
        rw (h, agreed_threshold signature infos last_valset.members confirms d e) refl
