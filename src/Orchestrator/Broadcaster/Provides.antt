-- ===== src/Orchestrator/Broadcaster/Provides.antt =====
-- The calls that the broadcaster makes.
use orchestrator_relayer.Prelude.{
  ℕ, ◌≡◌, sym, ap, ◌∙◌, true, false, ◌⊎◌, inl, inr, ◌∷◌, Bytes, arith, Bool-cases, ◌==◌,
}
use orchestrator_relayer.Effect.{
  put_value, empty_peers_table, Error, call, Go, Result, ok, err, World, Result-cases,
}
use orchestrator_relayer.Types.Confirms.{Codec, ValsetConfirm, DataCommitmentConfirm}
use orchestrator_relayer.Types.Valsets.{LatestValset}
use orchestrator_relayer.P2p.Keys.{
  get_latest_valset_key, get_valset_confirm_key, get_data_commitment_confirm_key,
}
use orchestrator_relayer.P2p.Dht.{
  IpfsDht, Codecs, put_encoded, put_latest_valset, put_valset_confirm, put_data_commitment_confirm,
}
use orchestrator_relayer.Orchestrator.Broadcaster.{
  if_peers, provide_valset_confirm, provide_data_commitment_confirm, provide_latest_valset,
}

module _ {W T : Type 0} (dht : IpfsDht W) (codec : Codec T) (key : Bytes) (t : T) where
  -- nothing is put, or the encoded value is, under the key
  abbrev pub PutOrNot : World W → World W → Type 0
  PutOrNot s s' =
      (s'.calls ≡ s.calls)
      ⊎ ((value : Bytes) × (codec.marshal t ≡ ok value)
          × (s'.calls ≡ put_value key value ∷ s.calls))

  provide : Go W (Unit {0})
  provide = if_peers dht (put_encoded dht codec key t)

  provide_alone :
      (s : World W)
      → ((dht.list_peers s.ext).0 == 0) ≡ true
      → provide s ≡ (err empty_peers_table, record s { ext = (dht.list_peers s.ext).1 })
  unfolding provide if_peers
  provide_alone s h = ground (arith, h)

  provide_unencoded :
      (s : World W) (e : Error)
      → ((dht.list_peers s.ext).0 == 0) ≡ false
      → codec.marshal t ≡ err e
      → provide s ≡ (err e, record s { ext = (dht.list_peers s.ext).1 })
  unfolding provide if_peers put_encoded
  provide_unencoded s e h m = ground (arith, h, m)

  provide_puts :
      (s : World W) (value : Bytes)
      → ((dht.list_peers s.ext).0 == 0) ≡ false
      → codec.marshal t ≡ ok value
      → provide s
        ≡ call
            (put_value key value)
            (dht.put_value key value)
            (record s { ext = (dht.list_peers s.ext).1 })
  unfolding provide if_peers put_encoded
  provide_puts s value h m = ground (arith, h, m)

  provide-PutOrNot : (s s' : World W) (r : Result (Unit {0})) → provide s ≡ (r, s') → PutOrNot s s'
  provide-PutOrNot s s' r h = elim (Bool-cases ((dht.list_peers s.ext).0 == 0)) [
    | inl alone ↦ inl (ap (λ p. p.1.calls) (sym h ∙ provide_alone s alone))
    | inr peers ↦ elim (Result-cases (codec.marshal t)) [
      | inr (e, m) ↦ inl (ap (λ p. p.1.calls) (sym h ∙ provide_unencoded s e peers m))
      | inl (value, m) ↦ inr (value, m, ap (λ p. p.1.calls) (sym h ∙ provide_puts s value peers m))
    ]
  ]

  -- success means that the value was put
  provide_put :
      (s s' : World W)
      → provide s ≡ (ok tt, s')
      → (value : Bytes) × (codec.marshal t ≡ ok value) × (s'.calls ≡ put_value key value ∷ s.calls)
  provide_put s s' h = elim (Bool-cases ((dht.list_peers s.ext).0 == 0)) [
    | inl alone ↦ cc (h, provide_alone s alone)
    | inr peers ↦ elim (Result-cases (codec.marshal t)) [
      | inr (e, m) ↦ cc (h, provide_unencoded s e peers m)
      | inl (value, m) ↦ (value, m, ap (λ p. p.1.calls) (sym h ∙ provide_puts s value peers m))
    ]
  ]

module _ {W : Type 0} (dht : IpfsDht W) (codecs : Codecs) where
  -- Providing the latest valset puts nothing, or the encoded valset under its key.
  pub provide_latest_valset-PutOrNot :
      (lvs : LatestValset) (s s' : World W) (r : Result (Unit {0}))
      → provide_latest_valset dht codecs lvs s ≡ (r, s')
      → PutOrNot dht codecs.latest_valset get_latest_valset_key lvs s s'
  unfolding provide_latest_valset put_latest_valset provide
  provide_latest_valset-PutOrNot lvs =
      provide-PutOrNot dht codecs.latest_valset get_latest_valset_key lvs

  pub provide_valset_confirm_put :
      (nonce : ℕ) (c : ValsetConfirm) (digest : Bytes) (s s' : World W)
      → provide_valset_confirm dht codecs nonce c digest s ≡ (ok tt, s')
      → (value : Bytes) × (codecs.valset_confirm.marshal c ≡ ok value)
        × (s'.calls ≡ put_value (get_valset_confirm_key nonce c.eth_address digest) value ∷ s.calls)
  unfolding provide_valset_confirm put_valset_confirm provide
  provide_valset_confirm_put nonce c digest =
      provide_put dht codecs.valset_confirm (get_valset_confirm_key nonce c.eth_address digest) c

  pub provide_data_commitment_confirm_put :
      (nonce : ℕ) (c : DataCommitmentConfirm) (root : Bytes) (s s' : World W)
      → provide_data_commitment_confirm dht codecs nonce c root s ≡ (ok tt, s')
      → (value : Bytes) × (codecs.data_commitment_confirm.marshal c ≡ ok value)
        × (s'.calls
            ≡ put_value (get_data_commitment_confirm_key nonce c.eth_address root) value ∷ s.calls)
  unfolding provide_data_commitment_confirm put_data_commitment_confirm provide
  provide_data_commitment_confirm_put nonce c root =
      provide_put dht codecs.data_commitment_confirm
        (get_data_commitment_confirm_key nonce c.eth_address root) c
