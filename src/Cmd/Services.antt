-- ===== src/Cmd/Services.antt =====
-- cmd/blobstream/common/helpers.go: what the commands start, each with the functions that stop it.
use orchestrator_relayer.Prelude.{Bool, true, false, List, [], ◌∷◌, Bytes}
use orchestrator_relayer.Effect.{not_inited, Result, ok, err, World}
use orchestrator_relayer.Rpc.TmQuerier.Connection as TmConnection
use orchestrator_relayer.Rpc.TmQuerier.Connection.{Connections, TmQuerier, new_tm_querier}
use orchestrator_relayer.Rpc.AppQuerier.Connection as AppConnection
use orchestrator_relayer.Rpc.AppQuerier.Connection.{Grpc, AppQuerier, new_app_querier}
use orchestrator_relayer.Store.Init.{FileCalls, is_init}
use orchestrator_relayer.Store.Open.{StoreCalls, OpenOptions, Store, init_options}
use orchestrator_relayer.Store.Open

-- A stop function is a closure: its method, and what it holds.
pub data StopFunc (C O : Type 0) : Type 0 where
  stop_tm_querier : TmQuerier C → StopFunc C O
  stop_app_querier : AppQuerier → StopFunc C O
  close_store : Store → OpenOptions O → StopFunc C O

module _ {W C O : Type 0} (connections : Connections W C) (grpc : Grpc W) where
  -- the application's querier, behind a Tendermint querier that was started
  start_app_querier :
      TmQuerier C
      → Bytes
      → Bool
      → World W
      → (Result (TmQuerier C × AppQuerier) × List (StopFunc C O)) × World W
  unfolding AppConnection.start
  start_app_querier tm celes_grpc grpc_insecure s =
      let beside : World (AppQuerier × W) = record {
        ext = (new_app_querier celes_grpc, s.ext);
        calls = s.calls;
      } in
      let (r, t) = AppConnection.start grpc grpc_insecure beside in
      let s' : World W = record { ext = t.ext.1; calls = t.calls } in
      elim r [
        | err e ↦ ((err e, stop_tm_querier tm ∷ []), s')
        | ok _ ↦ ((ok (tm, t.ext.0), stop_tm_querier tm ∷ stop_app_querier t.ext.0 ∷ []), s')
      ]

  unfoldable pub new_tm_and_app_querier :
      Bytes
      → Bytes
      → Bool
      → World W
      → (Result (TmQuerier C × AppQuerier) × List (StopFunc C O)) × World W
  unfolding start_app_querier TmConnection.start
  new_tm_and_app_querier tendermint_rpc celes_grpc grpc_insecure s =
      let beside : World (TmQuerier C × W) = record {
        ext = (new_tm_querier tendermint_rpc, s.ext);
        calls = s.calls;
      } in
      let (r, t) = TmConnection.start connections beside in
      let s' : World W = record { ext = t.ext.1; calls = t.calls } in
      elim r [
        | err e ↦ ((err e, []), s')
        | ok _ ↦ start_app_querier t.ext.0 celes_grpc grpc_insecure s'
      ]

module _ {W C O : Type 0} (fs : FileCalls W) (calls : StoreCalls W O) where
  open_if_inited :
      Bytes → OpenOptions O → Result Bool × World W → (Result Store × List (StopFunc C O)) × World W
  open_if_inited home options (err e, s) = ((err e, []), s)
  open_if_inited home options (ok false, s) = ((err not_inited, []), s)
  open_if_inited home options (ok true, s) =
      let (r, t) = Open.open_store fs calls home options s in
      elim r [
        | err e ↦ ((err e, []), t)
        | ok store ↦ ((ok store, close_store store options ∷ []), t)
      ]

  unfoldable pub open_store :
      Bytes → OpenOptions O → World W → (Result Store × List (StopFunc C O)) × World W
  unfolding open_if_inited
  open_store home options s =
      open_if_inited home options (is_init fs home (init_options fs calls options) s)
