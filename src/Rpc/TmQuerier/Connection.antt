-- ===== src/Rpc/TmQuerier/Connection.antt =====
-- rpc/tm_querier.go: the connection to Tendermint, which is opened anew when the node went away.
use orchestrator_relayer.Prelude.{Bytes, codes, Option, none, some}
use orchestrator_relayer.Effect.{panicked, Result, ok, err, Go}
use orchestrator_relayer.Rpc.TmQuerier.{TmClient}

-- Tendermint's HTTP client: `http.New`, `Start`, `Stop`, and the calls on a connection
pub record Connections (W C : Type 0) : Type 0 where
  pub new : Bytes → Bytes → W → Result C × W
  pub start : C → W → Result (Unit {0}) × W
  pub stop : C → W → Result (Unit {0}) × W
  pub methods : C → TmClient W

-- `client_conn` is nil before `Start`
pub record TmQuerier (C : Type 0) : Type 0 where
  pub tendermint_rpc : Bytes
  pub client_conn : Option C

pub new_tm_querier : {C : Type 0} → Bytes → TmQuerier C
new_tm_querier rpc = record { tendermint_rpc = rpc; client_conn = none }

module _ {W C : Type 0} (connections : Connections W C) where
  -- a call on `clientConn`; on nil it panics
  unfoldable pub on_conn : {A : Type 0} → (TmClient W → Go W A) → Go (TmQuerier C × W) A
  on_conn f s =
      let (q, w) = s.ext in
      elim q.client_conn [
        | none ↦ (err panicked, s)
        | some c ↦
            let (r, t) = f (connections.methods c) (record { ext = w; calls = s.calls }) in
            (r, record { ext = (q, t.ext); calls = t.calls })
      ]

  -- `http.New` and its `Start`; `clientConn` is set only behind both
  unfoldable pub start : Go (TmQuerier C × W) (Unit {0})
  start s =
      let (q, w) = s.ext in
      let (made, w1) = connections.new q.tendermint_rpc (codes "/websocket") w in
      elim made [
        | err e ↦ (err e, record s { ext = (q, w1) })
        | ok c ↦
            let (r, w2) = connections.start c w1 in
            elim r [
              | err e ↦ (err e, record s { ext = (q, w2) })
              | ok _ ↦ (ok tt, record s { ext = (record q { client_conn = some c }, w2) })
            ]
      ]

  unfoldable pub stop : Go (TmQuerier C × W) (Unit {0})
  stop s =
      let (q, w) = s.ext in
      elim q.client_conn [
        | none ↦ (err panicked, s)
        | some c ↦ let (r, w1) = connections.stop c w in (r, record s { ext = (q, w1) })
      ]

  -- `Reconnect` stops the connection, whatever that gives, and then does what `Start` does
  unfoldable pub reconnect : Go (TmQuerier C × W) (Unit {0})
  unfolding start
  reconnect s =
      let (q, w) = s.ext in
      elim q.client_conn [
        | none ↦ (err panicked, s)
        | some c ↦ let (_, w1) = connections.stop c w in start (record s { ext = (q, w1) })
      ]
