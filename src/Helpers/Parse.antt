-- ===== src/Helpers/Parse.antt =====
-- helpers/parse.go. `peer.AddrInfoFromString` is a parameter, at a type of what it gives.
use orchestrator_relayer.Prelude.{List, [], ◌∷◌, ◌++◌, Bytes}
use orchestrator_relayer.Effect.{Result, ok, err}

module _ {A : Type 0} (addr_info_from_string : Bytes → Result A) where
  -- the loop, with the infos so far
  unfoldable pub parse_loop : List Bytes → List A → Result (List A)
  parse_loop [] infos = ok infos
  parse_loop (addr ∷ addrs) infos = elim (addr_info_from_string addr) [
    | err e ↦ err e
    | ok info ↦ parse_loop addrs (infos ++ info ∷ [])
  ]

  unfoldable pub parse_addr_infos : List Bytes → Result (List A)
  unfolding parse_loop
  parse_addr_infos addrs = parse_loop addrs []
