-- ===== src/Codec/Stream.antt =====
-- Streams of messages, written and read by common/src/codec/prost_protobuf.rs.
use rust_libp2p_pubsub.Prelude.{ℕ, zero, suc, ◌≡◌, refl, Option, none, some, List, [], ◌∷◌, ◌++◌}
use rust_libp2p_pubsub.Prelude.Order.{Bytes}
use rust_libp2p_pubsub.Codec.{
  UviBytes, Prost, IoResult, ok, failed, Codec, encode, decode, read_message,
}
use rust_libp2p_pubsub.Codec.Laws.{IsProst}

abbrev pub prepend : {M : Type 0} → M → IoResult (List M) → IoResult (List M)
prepend m (ok ms) = ok (m ∷ ms)
prepend m failed = failed

abbrev pub extend : {M : Type 0} → List M → IoResult (List M) → IoResult (List M)
extend ms (ok rest) = ok (ms ++ rest)
extend ms failed = failed

abbrev pub flatten : List Bytes → Bytes
flatten [] = []
flatten (chunk ∷ chunks) = chunk ++ flatten chunks

module _ (U : UviBytes) {M : Type 0} (P : Prost M) where
  abbrev pub if_encoded :
      (Codec U → Bytes → IoResult Bytes) → Codec U × Bytes × IoResult (Unit {0}) → IoResult Bytes
  if_encoded go (c, dst, ok _) = go c dst
  if_encoded go (c, dst, failed) = failed

  -- Messages are written one after the other.
  unfoldable pub encode_all : List M → Codec U → Bytes → IoResult Bytes
  encode_all [] c dst = ok dst
  encode_all (m ∷ ms) c dst = if_encoded (encode_all ms) (encode U P c m dst)

  abbrev pub Read : Type 0
  Read = Codec U × Bytes × IoResult (List M)

  abbrev pub if_decoded : (Codec U → Bytes → Read) → Codec U × Bytes × IoResult (Option M) → Read
  if_decoded go (c, src, failed) = (c, src, failed)
  if_decoded go (c, src, ok none) = (c, src, ok [])
  if_decoded go (c, src, ok (some m)) =
      let (c', src', rest) = go c src in (c', src', prepend m rest)

  -- Messages are read until none is whole.
  unfoldable pub drain : ℕ → Codec U → Bytes → Read
  drain zero c src = (c, src, ok [])
  drain (suc k) c src = if_decoded (drain k) (decode U P c src)

  abbrev pub if_drained : (Codec U → Bytes → IoResult (List M)) → Read → IoResult (List M)
  if_drained go (c, src, failed) = failed
  if_drained go (c, src, ok ms) = extend ms (go c src)

  -- The bytes come in pieces, and after each one what is whole is read.
  unfoldable pub read_all : ℕ → List Bytes → Codec U → Bytes → IoResult (List M)
  read_all k [] c src = ok []
  read_all k (chunk ∷ chunks) c src = if_drained (read_all k chunks) (drain k c (src ++ chunk))

  -- The codec's steps, from those of the framing.
  pub encoded :
      (c : Codec U) (m : M) (dst dst' : Bytes) (s' : U.State)
      → U.encode c.uvi (P.encode_message m) dst ≡ (s', dst', ok tt)
      → encode U P c m dst ≡ (record { uvi = s' }, dst', ok tt)
  unfolding encode
  encoded c m dst dst' s' e = rw e refl

  pub decoded_none :
      (c : Codec U) (src src' : Bytes) (s' : U.State)
      → U.decode c.uvi src ≡ (s', src', ok none)
      → decode U P c src ≡ (record { uvi = s' }, src', ok none)
  unfolding decode
  decoded_none c src src' s' e = rw e refl

  pub decoded_some :
      (c : Codec U) (src src' : Bytes) (s' : U.State) (m : M)
      → IsProst P
      → U.decode c.uvi src ≡ (s', src', ok (some (P.encode_message m)))
      → decode U P c src ≡ (record { uvi = s' }, src', ok (some m))
  unfolding decode read_message
  decoded_some c src src' s' m T e = rw e (rw (T.decode-encode m, read_message) refl)
