-- ===== src/P2p/Validators/Soundness.antt =====
-- What a confirm that passes the validators is.
use orchestrator_relayer.Prelude.{◌≡◌, refl, Bool, true, false, Bytes, str_eq, str_eq_iff}
use orchestrator_relayer.Effect.{Error, Result, ok, err}
use orchestrator_relayer.Effect.Fallible.{◌>>=◌, ◌>>◌, guard}
use orchestrator_relayer.Std.Strings.{equal_fold}
use orchestrator_relayer.Std.Hex.{decode}
use orchestrator_relayer.Types.Confirms.{ValsetConfirm, DataCommitmentConfirm, Codec}
use orchestrator_relayer.Evm.Geth.{Geth}
use orchestrator_relayer.Evm.Signature.{validate_ethereum_signature, eth_address_from_signature}
use orchestrator_relayer.P2p.Keys.{
  Key, parse_key, valset_confirm_namespace, data_commitment_confirm_namespace,
}
use orchestrator_relayer.P2p.Validators.{
  strip_0x, validate_valset_confirm, validate_data_commitment_confirm,
}

-- `m; rest` and `x ← m; rest` succeed only where `m` does.
guard_ok :
    {B : Type 0} (b : Bool) (e : Error) (r : Result B) (x : B)
    → (guard b e >> r) ≡ ok x
    → (b ≡ true) × (r ≡ ok x)
guard_ok true e r x h = (refl, h)
guard_ok false e r x h = cc

bind_ok :
    {A B : Type 0} (m : Result A) (f : A → Result B) (x : B)
    → (m >>= f) ≡ ok x
    → (a : A) × (m ≡ ok a) × (f a ≡ ok x)
bind_ok (ok a) f x h = (a, refl, h)
bind_ok (err e) f x h = cc

module _ (geth : Geth) where
  -- The digest and the signature, as texts with or without `0x`, decode to byte strings such that the
  -- address recovered from them prints as `address` does.
  pub record IsSignedBy (address digest signature : Bytes) : Type 0 where
    pub digest_bytes : Bytes
    pub signature_bytes : Bytes
    pub signer : Bytes
    pub digest_eq : decode (strip_0x digest) ≡ ok digest_bytes
    pub signature_eq : decode (strip_0x signature) ≡ ok signature_bytes
    pub recovered : eth_address_from_signature geth digest_bytes signature_bytes ≡ ok signer
    pub same : geth.address_hex signer ≡ geth.address_hex address

  -- `Validate` accepts what its comments ask for: a key of the namespace `expected`, with a valid
  -- address, that a confirm at `eth_address` is stored under and that its signer signed.
  pub record IsGenuine (expected key eth_address signature : Bytes) : Type 0 where
    pub fields : Key
    pub key_parsed : parse_key key ≡ ok fields
    pub namespace_eq : fields.namespace ≡ expected
    pub address_valid : geth.is_hex_address fields.evm_addr ≡ true
    pub address_eq : equal_fold eth_address fields.evm_addr ≡ true
    pub signed : IsSignedBy (geth.hex_to_address fields.evm_addr) fields.digest signature

  -- the last three steps of both validators
  abbrev check : Bytes → Bytes → Bytes → Result (Unit {0})
  check address digest signature = do
    d ← decode (strip_0x digest)
    s ← decode (strip_0x signature)
    validate_ethereum_signature geth d s address

  validate_ethereum_signature-inv :
      (d s address : Bytes)
      → validate_ethereum_signature geth d s address ≡ ok tt
      → (signer : Bytes) × (eth_address_from_signature geth d s ≡ ok signer)
        × (str_eq (geth.address_hex signer) (geth.address_hex address) ≡ true)
  unfolding validate_ethereum_signature
  validate_ethereum_signature-inv d s address h =
      let (signer, e, g) = bind_ok (eth_address_from_signature geth d s) _ tt h in
      (signer, e, guard-inv _ _ g)
    where
      guard-inv : (b : Bool) (e : Error) → guard b e ≡ ok tt → b ≡ true
      guard-inv true e g = refl
      guard-inv false e g = cc

  check-IsSignedBy :
      (address digest signature : Bytes)
      → check address digest signature ≡ ok tt
      → IsSignedBy address digest signature
  check-IsSignedBy address digest signature h =
      let (d, ed, h1) = bind_ok (decode (strip_0x digest)) _ tt h in
      let (s, es, h2) = bind_ok (decode (strip_0x signature)) _ tt h1 in
      let (signer, recovered, same) = validate_ethereum_signature-inv d s address h2 in
      record {
        digest_bytes = d;
        signature_bytes = s;
        signer = signer;
        digest_eq = ed;
        signature_eq = es;
        recovered = recovered;
        same = (str_eq_iff _ _).0 same;
      }

  -- Every value that the valset confirm validator accepts decodes to a confirm that is genuine: the
  -- key parses to the namespace of valset confirms and a valid address, the confirm's address is that
  -- one up to case, and the address recovered from its signature over the key's digest is that one.
  pub validate_valset_confirm-IsGenuine :
      (codec : Codec ValsetConfirm) (key value : Bytes)
      → validate_valset_confirm geth codec key value ≡ ok tt
      → (c : ValsetConfirm) × (codec.unmarshal value ≡ ok c)
        × IsGenuine valset_confirm_namespace key c.eth_address c.signature
  unfolding validate_valset_confirm
  validate_valset_confirm-IsGenuine codec key value h =
      let (k, parsed, h1) = bind_ok (parse_key key) _ tt h in
      let (ns, h2) = guard_ok _ _ _ tt h1 in
      let (valid, h3) = guard_ok _ _ _ tt h2 in
      let (c, decoded, h4) = bind_ok (codec.unmarshal value) _ tt h3 in
      let (same, h5) = guard_ok _ _ _ tt h4 in
      (
        c,
        decoded,
        record {
          fields = k;
          key_parsed = parsed;
          namespace_eq = (str_eq_iff _ _).0 ns;
          address_valid = valid;
          address_eq = same;
          signed = check-IsSignedBy (geth.hex_to_address k.evm_addr) k.digest c.signature h5;
        },
      )

  -- Every value that the data commitment confirm validator accepts decodes to a confirm that is genuine:
  -- the key parses to the namespace of data commitment confirms and a valid address, the confirm's
  -- address is that one up to case, and the address recovered from its signature over the key's digest
  -- is that one.
  pub validate_data_commitment_confirm-IsGenuine :
      (codec : Codec DataCommitmentConfirm) (key value : Bytes)
      → validate_data_commitment_confirm geth codec key value ≡ ok tt
      → (c : DataCommitmentConfirm) × (codec.unmarshal value ≡ ok c)
        × IsGenuine data_commitment_confirm_namespace key c.eth_address c.signature
  unfolding validate_data_commitment_confirm
  validate_data_commitment_confirm-IsGenuine codec key value h =
      let (k, parsed, h1) = bind_ok (parse_key key) _ tt h in
      let (ns, h2) = guard_ok _ _ _ tt h1 in
      let (valid, h3) = guard_ok _ _ _ tt h2 in
      let (c, decoded, h4) = bind_ok (codec.unmarshal value) _ tt h3 in
      let (same, h5) = guard_ok _ _ _ tt h4 in
      (
        c,
        decoded,
        record {
          fields = k;
          key_parsed = parsed;
          namespace_eq = (str_eq_iff _ _).0 ns;
          address_valid = valid;
          address_eq = same;
          signed = check-IsSignedBy (geth.hex_to_address k.evm_addr) k.digest c.signature h5;
        },
      )
