-- ===== src/Tests/Collecting.antt =====
-- p2p/querier.go and helpers/retrier.go at concrete inputs.
use orchestrator_relayer.Prelude.{
  ℕ, zero, suc, pos, negsuc, ◌≡◌, ◌+◌, refl, arith, [], ◌∷◌, ◌++◌, Bytes, some, none, str_eq,
  lookup, put,
}
use orchestrator_relayer.Effect.{
  routing_not_found, invalid, peers_threshold_cannot_be_negative, not_enough_valset_confirms,
  Result, ok, err, World, Go,
}
use orchestrator_relayer.Std.Hex.{encode}
use orchestrator_relayer.Std.Strings.{split}
use orchestrator_relayer.Types.Confirms.{ValsetConfirm}
use orchestrator_relayer.Types.Valsets.{BridgeValidator}
use orchestrator_relayer.P2p.Keys.{get_valset_confirm_key}
use orchestrator_relayer.P2p.Dht.Peers
use orchestrator_relayer.P2p.Dht.Peers.{wait_for_peers-Outcome}
use orchestrator_relayer.P2p.Dht.{
  wait_loop, wait_for_peers, tick, IpfsDht, get_valset_confirm, get_decoded, timed_out,
}
use orchestrator_relayer.P2p.Querier.{
  collect, members_map, current_threshold, query_func, await, two_thirds,
}
use orchestrator_relayer.P2p.Querier.TwoThirds.{Outcome, two_thirds-Outcome}
use orchestrator_relayer.P2p.Querier.Powers.{among, AllDistinct}
use orchestrator_relayer.P2p.Querier.Enough.{
  Answers, nobody, signed, silent, Short, no_round, short_round, two_thirds_when_enough,
}
use orchestrator_relayer.Helpers.Retrier.{Wait, Retrier, retry_loop, retry}
use orchestrator_relayer.Helpers.Retrier.Outcomes.{Ends, retry-Ends}
use orchestrator_relayer.Tests.Fixtures.{
  account_signature, member, codecs, empty_dht, start, two_lines, read_valset_confirm, print,
  account, digest,
}

abbrev pub confirm_value : Bytes
confirm_value = print account ++ (10 ∷ encode account_signature)

-- a network in which the confirm is stored under every key
abbrev pub full_dht : IpfsDht (Unit {0})
full_dht = record empty_dht { get_value = λ _ w. (ok confirm_value, w) }

abbrev pub get : BridgeValidator → Go (Unit {0}) ValsetConfirm
get m = get_valset_confirm full_dht codecs (get_valset_confirm_key 2 m.evm_address (print digest))

abbrev pub confirm : ValsetConfirm
confirm = record { eth_address = print account; signature = encode account_signature }

abbrev pub eth_address : ValsetConfirm → Bytes
eth_address c = c.eth_address

pub collected : collect get (member ∷ []) [] start ≡ (ok (confirm ∷ []), start)
unfolding collect get_valset_confirm get_decoded print encode split str_eq two_lines
    read_valset_confirm
collected = refl

two_thirds_ok :
    two_thirds eth_address get (member ∷ []) 10 not_enough_valset_confirms (timed_out ∷ []) start
    ≡ (some (ok (confirm ∷ [])), start)
unfolding two_thirds await query_func collect get_valset_confirm get_decoded members_map
    current_threshold lookup put print encode split str_eq two_lines read_valset_confirm
two_thirds_ok = refl

two_thirds-Outcome_example :
    Outcome eth_address get
      (member ∷ [])
      10
      not_enough_valset_confirms
      (timed_out ∷ [])
      (ok (confirm ∷ []))
two_thirds-Outcome_example =
    two_thirds-Outcome eth_address get (member ∷ []) 10 not_enough_valset_confirms (timed_out ∷ [])
      start start (ok (confirm ∷ [])) two_thirds_ok

-- a network in which the confirm appears after the first round
unfoldable appearing : ℕ → Result ValsetConfirm × World ℕ
appearing zero = (err routing_not_found, record { ext = 1; calls = [] })
appearing (suc n) = (ok confirm, record { ext = suc n; calls = [] })

abbrev get_later : BridgeValidator → Go ℕ ValsetConfirm
get_later _ s = appearing s.ext

abbrev at_round : ℕ → World ℕ
at_round n = record { ext = n; calls = [] }

asked : get_later member (at_round 0) ≡ (err routing_not_found, at_round 1)
unfolding appearing
asked = refl

asked_again : get_later member (at_round 1) ≡ (ok confirm, at_round 1)
unfolding appearing
asked_again = refl

one-Short : Short eth_address get_later (member ∷ []) 10 1 (at_round 0) (at_round 1)
one-Short =
    short_round 0 [] 0 (at_round 0) (at_round 1) (at_round 1)
      (silent member [] [] 0 routing_not_found (at_round 0) (at_round 1) (at_round 1) asked refl
        (nobody (at_round 1)))
      (omega arith) (omega arith) (no_round (at_round 1))

then_signed :
    Answers eth_address get_later
      (member ∷ [])
      (confirm ∷ [])
      (member.power + 0)
      (at_round 1)
      (at_round 1)
then_signed =
    signed member [] confirm [] 0 (at_round 1) (at_round 1) (at_round 1) asked_again refl
      (nobody (at_round 1))

two_thirds_when_enough_example :
    two_thirds eth_address get_later
      (member ∷ [])
      10
      not_enough_valset_confirms
      (tick ∷ timed_out ∷ [])
      (at_round 0)
    ≡ (some (ok (confirm ∷ [])), at_round 1)
unfolding AllDistinct among
two_thirds_when_enough_example =
    two_thirds_when_enough eth_address get_later (member ∷ []) 10 not_enough_valset_confirms 1
      (timed_out ∷ []) (confirm ∷ []) (member.power + 0) (at_round 0) (at_round 1) (at_round 1)
      (refl, tt) one-Short then_signed (omega arith) (omega arith) (omega arith)

-- a method that fails once, by a counter
unfoldable count_down : ℕ → Result (Unit {0}) × World ℕ
count_down zero = (ok tt, record { ext = 0; calls = [] })
count_down (suc n) = (err invalid, record { ext = n; calls = [] })

abbrev method : Go ℕ (Unit {0})
method s = count_down s.ext

abbrev no_wait : Wait ℕ
no_wait d w = (none, w)

abbrev three_times : Retrier
three_times = record { retries_number = 3; base_delay = 1000 }

abbrev world : ℕ → World ℕ
world n = record { ext = n; calls = [] }

retried : retry no_wait three_times method (world 1) ≡ (ok tt, world 0)
unfolding retry retry_loop count_down
retried = refl

retry-Ends_example : Ends no_wait three_times method 0 3 (world 1) (ok tt) (ok tt) (world 0)
retry-Ends_example = retry-Ends no_wait three_times method (world 1) (world 0) (ok tt) retried

-- a network that gets its first peer while the program waits
abbrev growing_dht : IpfsDht ℕ
growing_dht = record {
  put_value = λ _ _ w. (ok tt, w);
  get_value = λ _ w. (err invalid, w);
  list_peers = λ w. (w, suc w);
}

peers_found :
    wait_for_peers growing_dht (pos 1) (tick ∷ timed_out ∷ []) (world 0) ≡ (some (ok tt), world 2)
unfolding wait_for_peers wait_loop
peers_found = refl

negative_refused :
    wait_for_peers growing_dht (negsuc 3) [] (world 0)
    ≡ (some (err peers_threshold_cannot_be_negative), world 0)
unfolding wait_for_peers
negative_refused = refl

wait_for_peers-Outcome_example :
    Peers.Outcome growing_dht (pos 1) (tick ∷ timed_out ∷ []) (ok tt) (world 0) (world 2)
wait_for_peers-Outcome_example =
    wait_for_peers-Outcome growing_dht (pos 1) (tick ∷ timed_out ∷ []) (world 0) (world 2) (ok tt)
      peers_found
