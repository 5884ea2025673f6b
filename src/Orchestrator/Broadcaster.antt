-- ===== src/Orchestrator/Broadcaster.antt =====
-- orchestrator/broadcaster.go: a value is provided only while there is a peer to give it to.
pub mod Provides
use orchestrator_relayer.Prelude.{ℕ, Bytes, ◌==◌, if◌then◌else◌}
use orchestrator_relayer.Effect.{empty_peers_table, Go, fail, ◌>>=◌}
use orchestrator_relayer.Types.Confirms.{ValsetConfirm, DataCommitmentConfirm}
use orchestrator_relayer.Types.Valsets.{LatestValset}
use orchestrator_relayer.P2p.Keys.{get_valset_confirm_key, get_data_commitment_confirm_key}
use orchestrator_relayer.P2p.Dht.{
  IpfsDht, Codecs, peers, put_valset_confirm, put_data_commitment_confirm, put_latest_valset,
}

unfoldable pub if_peers : {W : Type 0} → IpfsDht W → Go W (Unit {0}) → Go W (Unit {0})
if_peers dht provide = do n ← peers dht; if n == 0 then fail empty_peers_table else provide

module _ {W : Type 0} (dht : IpfsDht W) (codecs : Codecs) where
  unfoldable pub provide_data_commitment_confirm :
      ℕ → DataCommitmentConfirm → Bytes → Go W (Unit {0})
  unfolding if_peers
  provide_data_commitment_confirm nonce confirm data_root_tuple_root = if_peers dht (
      put_data_commitment_confirm dht codecs
        (get_data_commitment_confirm_key nonce confirm.eth_address data_root_tuple_root) confirm)

  unfoldable pub provide_valset_confirm : ℕ → ValsetConfirm → Bytes → Go W (Unit {0})
  unfolding if_peers
  provide_valset_confirm nonce confirm sign_bytes = if_peers dht (
      put_valset_confirm dht codecs (get_valset_confirm_key nonce confirm.eth_address sign_bytes)
        confirm)

  unfoldable pub provide_latest_valset : LatestValset → Go W (Unit {0})
  unfolding if_peers
  provide_latest_valset latest_valset = if_peers dht (put_latest_valset dht codecs latest_valset)
