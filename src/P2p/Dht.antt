-- ===== src/P2p/Dht.antt =====
-- p2p/dht.go: the DHT's wrapper. Storing, finding and listing peers are libp2p's, and parameters;
-- what `select` picks in a loop is handed in as a list of events.
pub mod Peers
use orchestrator_relayer.Prelude.{
  ℕ, List, [], ◌∷◌, Option, none, some, Bytes, ℤ, pos, ltb_ℤ, leb_ℤ, if◌then◌else◌, true, false,
}
use orchestrator_relayer.Effect.{
  Error, peers_timeout, peers_threshold_cannot_be_negative, put_value, Result, ok, err, World, Go,
  lift, query, call, ◌>>=◌,
}
use orchestrator_relayer.Types.Confirms.{ValsetConfirm, DataCommitmentConfirm, Codec}
use orchestrator_relayer.Types.Valsets.{LatestValset}
use orchestrator_relayer.P2p.Keys.{get_latest_valset_key}

-- `PutValue`, `GetValue` and the length of `RoutingTable().ListPeers()`
pub record IpfsDht (W : Type 0) : Type 0 where
  pub put_value : Bytes → Bytes → W → Result (Unit {0}) × W
  pub get_value : Bytes → W → Result Bytes × W
  pub list_peers : W → ℕ × W

pub record Codecs : Type 0 where
  pub valset_confirm : Codec ValsetConfirm
  pub data_commitment_confirm : Codec DataCommitmentConfirm
  pub latest_valset : Codec LatestValset

-- What a `select` over `ctx.Done()`, `time.After(timeout)` and `ticker.C` picks.
pub data Event : Type 0 where
  ctx_done : Error → Event
  timed_out tick : Event

module _ {W : Type 0} (dht : IpfsDht W) where
  -- `len(RoutingTable().ListPeers())`
  abbrev pub peers : Go W ℕ
  peers s = let (n, w) = dht.list_peers s.ext in (ok n, record s { ext = w })

  -- The loop of `WaitForPeers`, one event a round. `none`: it still waits.
  unfoldable pub wait_loop : ℤ → List Event → World W → Option (Result (Unit {0})) × World W
  wait_loop threshold [] s = (none, s)
  wait_loop threshold (ctx_done e ∷ events) s = (some (err e), s)
  wait_loop threshold (timed_out ∷ events) s = (some (err peers_timeout), s)
  wait_loop threshold (tick ∷ events) s =
      let (n, w) = dht.list_peers s.ext in
      let s' : World W = record s { ext = w } in
      elim (leb_ℤ threshold (pos n)) [
        | true ↦ (some (ok tt), s')
        | false ↦ wait_loop threshold events s'
      ]

  unfoldable pub wait_for_peers : ℤ → List Event → World W → Option (Result (Unit {0})) × World W
  unfolding wait_loop
  wait_for_peers threshold events s =
      if ltb_ℤ threshold (pos 1)
      then (some (err peers_threshold_cannot_be_negative), s)
      else let (n, w) = dht.list_peers s.ext in
        let s' : World W = record s { ext = w } in
        if leb_ℤ threshold (pos n) then (some (ok tt), s') else wait_loop threshold events s'

  abbrev pub put : Bytes → Bytes → Go W (Unit {0})
  put key value = call (put_value key value) (dht.put_value key value)

  module _ {T : Type 0} (codec : Codec T) where
    -- `PutDataCommitmentConfirm`, `PutValsetConfirm`
    unfoldable pub put_encoded : Bytes → T → Go W (Unit {0})
    put_encoded key t = do encoded ← lift (codec.marshal t); put key encoded

    -- `GetDataCommitmentConfirm`, `GetValsetConfirm`
    unfoldable pub get_decoded : Bytes → Go W T
    get_decoded key = do encoded ← query (dht.get_value key); lift (codec.unmarshal encoded)

  module _ (codecs : Codecs) where
    unfoldable pub put_data_commitment_confirm : Bytes → DataCommitmentConfirm → Go W (Unit {0})
    unfolding put_encoded
    put_data_commitment_confirm = put_encoded codecs.data_commitment_confirm

    unfoldable pub get_data_commitment_confirm : Bytes → Go W DataCommitmentConfirm
    unfolding get_decoded
    get_data_commitment_confirm = get_decoded codecs.data_commitment_confirm

    unfoldable pub put_valset_confirm : Bytes → ValsetConfirm → Go W (Unit {0})
    unfolding put_encoded
    put_valset_confirm = put_encoded codecs.valset_confirm

    unfoldable pub get_valset_confirm : Bytes → Go W ValsetConfirm
    unfolding get_decoded
    get_valset_confirm = get_decoded codecs.valset_confirm

    unfoldable pub put_latest_valset : LatestValset → Go W (Unit {0})
    unfolding put_encoded
    put_latest_valset = put_encoded codecs.latest_valset get_latest_valset_key

    unfoldable pub get_latest_valset : Go W LatestValset
    unfolding get_decoded
    get_latest_valset = get_decoded codecs.latest_valset get_latest_valset_key
