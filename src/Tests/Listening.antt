-- ===== src/Tests/Listening.antt =====
-- rpc/tm_querier.go and `StartNewEventsListener` at concrete inputs. A connection is its number, and what
-- is outside is the number of the next one; the node is down for the first connection.
use orchestrator_relayer.Prelude.{
  ℕ, suc, ◌==◌, ◌≡◌, refl, [], ◌∷◌, List, none, some, codes, arith, str_eq, if◌then◌else◌,
}
use orchestrator_relayer.Effect.{foreign, ok, err, World}
use orchestrator_relayer.Std.Strconv.{atoi}
use orchestrator_relayer.Helpers.Retrier.{Wait, Retrier}
use orchestrator_relayer.Rpc.TmQuerier.{TmClient, EventNames}
use orchestrator_relayer.Rpc.TmQuerier.Connection.{Connections, TmQuerier}
use orchestrator_relayer.Orchestrator.Listener.{
  ResultEvent, ListenEvent, ticked, received, enqueued, start_new_events_listener,
}
use orchestrator_relayer.Orchestrator.Listener.Order.{
  Takes, announced, listened, start_new_events_listener-Takes,
}

abbrev client : ℕ → TmClient ℕ
client c = record {
  data_commitment = λ _ _ w. (err (foreign 0), w);
  status = λ w. (if c == 0 then err (foreign 1) else ok 7, w);
  subscribe = λ _ _ w. (ok tt, w);
  unsubscribe = λ _ _ w. (ok tt, w);
}

abbrev connections : Connections ℕ ℕ
connections = record {
  new = λ _ _ w. (ok w, suc w);
  start = λ _ w. (ok tt, w);
  stop = λ _ w. (ok tt, w);
  methods = client;
}

abbrev names : EventNames
names = record {
  event_type_key = codes "tm.event";
  event_new_block = codes "NewBlock";
  attestation_request = codes "AttestationRequest";
  module_key = codes "module";
  module_name = codes "blobstream";
  nonce_key = codes "nonce";
}

abbrev no_wait : Wait ℕ
no_wait _ w = (none, w)

abbrev thrice : Retrier
thrice = record { retries_number = 3; base_delay = 1 }

abbrev new_block : ResultEvent
new_block name =
    if str_eq name (codes "tm.event")
    then codes "NewBlock" ∷ []
    else if str_eq name (codes "AttestationRequest.nonce")
    then codes "12" ∷ codes "13" ∷ []
    else []

abbrev transaction : ResultEvent
transaction _ = codes "Tx" ∷ []

abbrev events : List ListenEvent
events =
    received transaction (enqueued ∷ [])
    ∷ ticked
    ∷ received new_block (enqueued ∷ enqueued ∷ [])
    ∷ []

abbrev before : World (TmQuerier ℕ × ℕ)
before = record {
  ext = (record { tendermint_rpc = codes "tcp://localhost:26657"; client_conn = some 0 }, 1);
  calls = [];
}

-- the connection was replaced in between
listens : start_new_events_listener connections names thrice no_wait events (11 ∷ []) before ≡ (
  none,
  11 ∷ 12 ∷ 13 ∷ [],
  record before {
    ext = (record { tendermint_rpc = codes "tcp://localhost:26657"; client_conn = some 1 }, 2);
  },
)
unfolding start_new_events_listener str_eq atoi
listens = refl

start_new_events_listener-Takes_example :
    Takes none some (announced names events) (11 ∷ []) (
      listened (start_new_events_listener connections names thrice no_wait events (11 ∷ []) before))
unfolding str_eq
start_new_events_listener-Takes_example =
    start_new_events_listener-Takes connections names thrice no_wait events (11 ∷ []) before
      (omega arith, (omega arith, tt))
