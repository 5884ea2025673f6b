-- ===== src/Helpers/Ticker.antt =====
-- helpers/ticker.go: `ImmediateTicker`, over what its `select` picks in each round.
use orchestrator_relayer.Prelude.{List, [], ◌∷◌, Option, none, some}
use orchestrator_relayer.Effect.{Error, ok, err, World, Go}

pub data TickerEvent : Type 0 where
  ctx_done : Error → TickerEvent
  tick : TickerEvent

module _ {W : Type 0} (f : Go W (Unit {0})) where
  -- `none`: it still waits
  pub ticker_loop : List TickerEvent → World W → Option Error × World W
  ticker_loop [] s = (none, s)
  ticker_loop (ctx_done e ∷ events) s = (some e, s)
  ticker_loop (tick ∷ events) s =
      let (r, s') = f s in elim r [ err e ↦ (some e, s') | ok _ ↦ ticker_loop events s' ]

  -- It never returns without an error. The first call is made before any tick.
  unfoldable pub immediate_ticker : List TickerEvent → World W → Option Error × World W
  unfolding ticker_loop
  immediate_ticker events s =
      let (r, s') = f s in elim r [ err e ↦ (some e, s') | ok _ ↦ ticker_loop events s' ]
