-- ===== src/Codec/Laws.antt =====
-- What common/src/codec/prost_protobuf.rs relies on: the framing of `unsigned_varint`, and `prost`.
use rust_libp2p_pubsub.Prelude.{
  ℕ, ◌≤◌, ◌<◌, ◌≡◌, false, none, some, List, [], ◌++◌, length, is_empty, All,
}
use rust_libp2p_pubsub.Prelude.Order.{Bytes}
use rust_libp2p_pubsub.Codec.{UviBytes, Prost, ok, failed}

-- A framing with a limit. `held` is what a decoder has taken and not given out.
pub record IsFraming (U : UviBytes) (max : ℕ) : Type 1 where
  -- The length and the bytes of an item.
  pub framed : Bytes → Bytes
  pub framed-full : (item : Bytes) → is_empty (framed item) ≡ false
  pub Good : U.State → Type 0
  pub held : U.State → Bytes
  pub new-Good : Good (U.set_max_len U.default max)
  pub held-new : held (U.set_max_len U.default max) ≡ []
  -- An item up to the limit is added, and a longer one is refused.
  pub encode-small :
      (s : U.State) (item dst : Bytes)
      → Good s
      → length item ≤ max
      → (s' : U.State) × (U.encode s item dst ≡ (s', dst ++ framed item, ok tt)) × Good s'
  pub encode-large :
      (s : U.State) (item dst : Bytes)
      → Good s
      → max < length item
      → (s' : U.State) × (U.encode s item dst ≡ (s', dst, failed)) × Good s'
  -- When all bytes of an item are there, it is given out, and what follows is left.
  pub decode-whole :
      (s : U.State) (src item rest : Bytes)
      → Good s
      → length item ≤ max
      → held s ++ src ≡ framed item ++ rest
      → (s' : U.State) × (U.decode s src ≡ (s', rest, ok (some item))) × Good s' × (held s' ≡ [])
  -- When some are missing, nothing is given out, and no byte is lost.
  pub decode-part :
      (s : U.State) (src item missing : Bytes)
      → Good s
      → length item ≤ max
      → is_empty missing ≡ false
      → (held s ++ src) ++ missing ≡ framed item
      → (s' : U.State) × (src' : Bytes) × (U.decode s src ≡ (s', src', ok none))
        × Good s'
        × (held s' ++ src' ≡ held s ++ src)

-- What was written is read back.
pub record IsProst {M : Type 0} (P : Prost M) : Type 0 where
  pub decode-encode : (m : M) → P.decode_message (P.encode_message m) ≡ some m

-- Messages whose encodings keep within a limit.
abbrev pub Fit : {M : Type 0} → Prost M → ℕ → List M → Type 0
Fit P max ms = All (λ m. length (P.encode_message m) ≤ max) ms
