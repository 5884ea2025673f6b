-- ===== src/P2p/Keys/RoundTrip.antt =====
-- `ParseKey` inverts the functions that build keys, and accepts nothing else.
use orchestrator_relayer.Prelude.{
  ℕ, ◌^◌, ◌<◌, ◌≡◌, ◌≢◌, refl, [], ◌∷◌, ◌++◌, Bytes, Lacks, All-append, arith, str_eq, List, Option,
  some, none, false, sym, ap, ◌∙◌,
}
use orchestrator_relayer.Effect.{ok}
use orchestrator_relayer.Std.Strconv.{
  format_uint, parse_uint, parse_uint-format_uint, format_uint-Lacks,
}
use orchestrator_relayer.Std.Strings.{split, split_at_sep, split_no_sep, join, join-split}
use orchestrator_relayer.P2p.Keys.{
  Key, get_valset_confirm_key, get_data_commitment_confirm_key, parse_key, parse_parts,
  parse_values, three, valset_confirm_namespace, data_commitment_confirm_namespace,
}

-- What the functions that build keys expect of an address and a digest.
pub record IsField (s : Bytes) : Type 0 where
  pub filled : s ≢ []
  pub no_slash : Lacks b'/' s
  pub no_colon : Lacks b':' s

str_eq_nil : (s : Bytes) → s ≢ [] → str_eq s [] ≡ false
unfolding str_eq
str_eq_nil [] h = absurd (h refl)
str_eq_nil (c ∷ s) h = refl

module _ (addr digest : Bytes) (a : IsField addr) (d : IsField digest) (nonce : ℕ) where
  -- what stands behind the namespace
  abbrev values : Bytes
  values = format_uint nonce ++ (b':' ∷ (addr ++ (b':' ∷ digest)))

  values-Lacks_slash : Lacks b'/' values
  values-Lacks_slash =
      All-append _ (format_uint nonce) _ (format_uint-Lacks nonce b'/' (omega arith))
        (omega arith, All-append _ addr _ a.no_slash (omega arith, d.no_slash))

  split-values : split b':' values ≡ format_uint nonce ∷ addr ∷ digest ∷ []
  split-values =
      rw (split_at_sep b':' (format_uint nonce) _ (format_uint-Lacks nonce b':' (omega arith)))
        (rw (split_at_sep b':' addr digest a.no_colon) (rw (split_no_sep b':' digest d.no_colon)))

  module _ (namespace : Bytes) (ns : IsField namespace) where
    split-key : split b'/' (b'/' ∷ (namespace ++ (b'/' ∷ values))) ≡ [] ∷ namespace ∷ values ∷ []
    split-key = rw (split_at_sep b'/' [] (namespace ++ (b'/' ∷ values)) tt) (
        rw (split_at_sep b'/' namespace values ns.no_slash)
          (rw (split_no_sep b'/' values values-Lacks_slash)))

    parse_key_fields :
        nonce < 2 ^ 64
        → parse_key (b'/' ∷ (namespace ++ (b'/' ∷ values)))
          ≡ ok (record { namespace = namespace; nonce = nonce; evm_addr = addr; digest = digest })
    unfolding parse_key
    parse_key_fields h = simp (
      split-key,
      split-values,
      str_eq_nil namespace ns.filled,
      str_eq_nil addr a.filled,
      str_eq_nil digest d.filled,
      parse_uint-format_uint nonce h,
    )

-- For an address and a digest that are not empty and hold no separator, and a nonce of 64 bits,
-- `ParseKey` reads the fields of a valset confirm's key back.
pub parse_key-get_valset_confirm_key :
    (nonce : ℕ) (addr sign_bytes : Bytes)
    → IsField addr
    → IsField sign_bytes
    → nonce < 2 ^ 64
    → parse_key (get_valset_confirm_key nonce addr sign_bytes)
      ≡ ok (record {
        namespace = valset_confirm_namespace;
        nonce = nonce;
        evm_addr = addr;
        digest = sign_bytes;
      })
unfolding get_valset_confirm_key
parse_key-get_valset_confirm_key nonce addr sign_bytes a d h =
    parse_key_fields addr sign_bytes a d nonce valset_confirm_namespace vc h
  where
    vc : IsField valset_confirm_namespace
    vc = record { filled = λ e. cc; no_slash = omega arith; no_colon = omega arith }

-- For an address and a digest that are not empty and hold no separator, and a nonce of 64 bits,
-- `ParseKey` reads the fields of a data commitment confirm's key back.
pub parse_key-get_data_commitment_confirm_key :
    (nonce : ℕ) (addr root : Bytes)
    → IsField addr
    → IsField root
    → nonce < 2 ^ 64
    → parse_key (get_data_commitment_confirm_key nonce addr root)
      ≡ ok (record {
        namespace = data_commitment_confirm_namespace;
        nonce = nonce;
        evm_addr = addr;
        digest = root;
      })
unfolding get_data_commitment_confirm_key
parse_key-get_data_commitment_confirm_key nonce addr root a d h =
    parse_key_fields addr root a d nonce data_commitment_confirm_namespace dcc h
  where
    dcc : IsField data_commitment_confirm_namespace
    dcc = record { filled = λ e. cc; no_slash = omega arith; no_colon = omega arith }

-- What an accepted key looks like: the text before the first slash is free, the nonce is written in
-- any way that `ParseUint` reads.
pub record Spells (key : Bytes) (k : Key) : Type 0 where
  pub before : Bytes
  pub text : Bytes
  pub key_eq :
      key
      ≡ before
        ++ (b'/' ∷ (k.namespace ++ (b'/' ∷ (text ++ (b':' ∷ (k.evm_addr ++ (b':' ∷ k.digest)))))))
  pub nonce_eq : parse_uint 16 text ≡ ok k.nonce
  pub namespace_filled : k.namespace ≢ []
  pub evm_addr_filled : k.evm_addr ≢ []
  pub digest_filled : k.digest ≢ []

three-eq :
    (l : List Bytes) (t : Bytes × Bytes × Bytes) → three l ≡ some t → l ≡ t.0 ∷ t.1 ∷ t.2 ∷ []
three-eq (a ∷ b ∷ c ∷ []) t h = ground arith
three-eq [] t h = cc
three-eq (a ∷ []) t h = cc
three-eq (a ∷ b ∷ []) t h = cc
three-eq (a ∷ b ∷ c ∷ d ∷ r) t h = cc

ne_nil : (s : Bytes) → str_eq s [] ≡ false → s ≢ []
unfolding str_eq
ne_nil [] h e = cc
ne_nil (c ∷ s) h e = cc

parse_values-inv :
    (namespace : Bytes) (o : Option (Bytes × Bytes × Bytes)) (k : Key)
    → parse_values namespace o ≡ ok k
    → (u : Bytes × Bytes × Bytes) × (o ≡ some u)
      × (parse_uint 16 u.0 ≡ ok k.nonce)
      × (k.namespace ≡ namespace)
      × (k.evm_addr ≡ u.1)
      × (k.digest ≡ u.2)
      × (str_eq u.1 [] ≡ false)
      × (str_eq u.2 [] ≡ false)
unfolding parse_values
parse_values-inv namespace none k h = cc
parse_values-inv namespace (some u) k h =
    (u, refl, ground arith, ground arith, ground arith, ground arith, ground arith, ground arith)

parse_parts-inv :
    (o : Option (Bytes × Bytes × Bytes)) (k : Key)
    → parse_parts o ≡ ok k
    → (t : Bytes × Bytes × Bytes) × (o ≡ some t)
      × (str_eq t.1 [] ≡ false)
      × (parse_values t.1 (three (split b':' t.2)) ≡ ok k)
unfolding parse_parts
parse_parts-inv none k h = cc
parse_parts-inv (some t) k h = (t, refl, ground arith, ground arith)

join_three :
    (sep : ℕ) (s : Bytes) (t : Bytes × Bytes × Bytes)
    → three (split sep s) ≡ some t
    → s ≡ t.0 ++ (sep ∷ (t.1 ++ (sep ∷ t.2)))
unfolding join
join_three sep s t h = sym (join-split sep s) ∙ ap (join sep) (three-eq (split sep s) t h)

-- Every text that `ParseKey` accepts is three parts between slashes, of which the second is the key's
-- namespace and the third a nonce, in digits of base 16, an address and a digest between colons; only
-- the first part may be empty.
pub parse_key-Spells : (key : Bytes) (k : Key) → parse_key key ≡ ok k → Spells key k
unfolding parse_key
parse_key-Spells key k h =
    let (t, parts, ns, values) = parse_parts-inv (three (split b'/' key)) k h in
    let (u, fields, nonce, e0, e1, e2, addr, digest) =
      parse_values-inv t.1 (three (split b':' t.2)) k values in
    record {
      before = t.0;
      text = u.0;
      key_eq =
          rw (e0, e1, e2)
            (join_three b'/' key t parts
              ∙ ap (λ v. t.0 ++ (b'/' ∷ (t.1 ++ (b'/' ∷ v)))) (join_three b':' t.2 u fields));
      nonce_eq = nonce;
      namespace_filled = rw e0 (ne_nil t.1 ns);
      evm_addr_filled = rw e1 (ne_nil u.1 addr);
      digest_filled = rw e2 (ne_nil u.2 digest);
    }
