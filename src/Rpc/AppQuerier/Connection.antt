-- ===== src/Rpc/AppQuerier/Connection.antt =====
-- rpc/app_querier.go: the connection to the application.
use orchestrator_relayer.Prelude.{ℕ, Bool, Bytes, Option, none, some}
use orchestrator_relayer.Effect.{Result, ok, err, Go}

-- `grpc.Dial`, with the insecure credentials or with TLS, and `Close`, also of a nil connection; a
-- connection is a number
pub record Grpc (W : Type 0) : Type 0 where
  pub dial : Bytes → Bool → W → Result ℕ × W
  pub close : Option ℕ → W → Result (Unit {0}) × W

-- `client_conn` is nil before `Start`
pub record AppQuerier : Type 0 where
  pub blobstream_rpc : Bytes
  pub client_conn : Option ℕ

pub new_app_querier : Bytes → AppQuerier
new_app_querier rpc = record { blobstream_rpc = rpc; client_conn = none }

module _ {W : Type 0} (grpc : Grpc W) where
  unfoldable pub start : Bool → Go (AppQuerier × W) (Unit {0})
  start grpc_insecure s =
      let (q, w) = s.ext in
      let (r, w1) = grpc.dial q.blobstream_rpc grpc_insecure w in
      elim r [
        | err e ↦ (err e, record s { ext = (q, w1) })
        | ok c ↦ (ok tt, record s { ext = (record q { client_conn = some c }, w1) })
      ]

  unfoldable pub stop : Go (AppQuerier × W) (Unit {0})
  stop s =
      let (q, w) = s.ext in
      let (r, w1) = grpc.close q.client_conn w in (r, record s { ext = (q, w1) })
