-- ===== src/Codec/Examples.antt =====
-- Runs of common/src/codec/prost_protobuf.rs, with messages that are byte strings, and a framing that puts
-- the length of an item before it.
use rust_libp2p_pubsub.Prelude.{
  ℕ, zero, suc, ◌≤◌, ◌<◌, ◌≡◌, refl, ap, ◌∙◌, false, Option, none, some, [], ◌∷◌, ◌++◌, length,
  is_empty, leb, if◌then◌else◌, arith,
}
use rust_libp2p_pubsub.Prelude.Order.{Bytes}
use rust_libp2p_pubsub.Codec.{UviBytes, Prost, IoResult, ok, failed, new}
use rust_libp2p_pubsub.Codec.Laws.{IsFraming, IsProst}
use rust_libp2p_pubsub.Codec.Stream.{encode_all, read_all}
use rust_libp2p_pubsub.Codec.RoundTrip.{read_all-encode_all}

-- The first bytes and the others, if there are so many.
abbrev after_first : ℕ → Option (Bytes × Bytes) → Option (Bytes × Bytes)
after_first b none = none
after_first b (some (xs, ys)) = some (b ∷ xs, ys)

unfoldable split : ℕ → Bytes → Option (Bytes × Bytes)
split zero xs = some ([], xs)
split (suc n) [] = none
split (suc n) (x ∷ xs) = after_first x (split n xs)

split-append : (item rest : Bytes) → split (length item) (item ++ rest) ≡ some (item, rest)
unfolding split
split-append [] rest = refl
split-append (b ∷ item) rest = ap (after_first b) (split-append item rest)

split-short :
    (src item missing : Bytes)
    → is_empty missing ≡ false
    → src ++ missing ≡ item
    → split (length item) src ≡ none
unfolding split
split-short [] [] missing f e = absurd (ground arith)
split-short [] (b ∷ item) missing f e = refl
split-short (x ∷ src) [] missing f e = absurd (cc)
split-short (x ∷ src) (b ∷ item) missing f e =
    ap (after_first x) (split-short src item missing f (cc))

-- The item of the first bytes, or all bytes as they are.
abbrev given : ℕ → Bytes → Option (Bytes × Bytes) → ℕ × Bytes × IoResult (Option Bytes)
given max src none = (max, src, ok none)
given max src (some (item, rest)) = (max, rest, ok (some item))

abbrev take_item : ℕ → Bytes → ℕ × Bytes × IoResult (Option Bytes)
take_item max [] = (max, [], ok none)
take_item max (n ∷ src) =
    if leb n max then given max (n ∷ src) (split n src) else (max, src, failed)

abbrev put_item : ℕ → Bytes → Bytes → ℕ × Bytes × IoResult (Unit {0})
put_item max item dst =
    if leb (length item) max then (max, dst ++ length item ∷ item, ok tt) else (max, dst, failed)

abbrev uvi : UviBytes
uvi = record {
  State = ℕ;
  default = 0;
  set_max_len = λ s max. max;
  encode = put_item;
  decode = take_item;
}

take_item-part :
    (max : ℕ) (src item missing : Bytes)
    → length item ≤ max
    → is_empty missing ≡ false
    → src ++ missing ≡ length item ∷ item
    → take_item max src ≡ (max, src, ok none)
take_item-part max [] item missing l f e = refl
take_item-part max (n ∷ src) item missing l f e =
    let prefix : n ≡ length item = cc in
    let short : split n src ≡ none = rw prefix (split-short src item missing f (cc)) in
    ground (arith, l, prefix, short)

take_item-whole :
    (max : ℕ) (src item rest : Bytes)
    → length item ≤ max
    → src ≡ length item ∷ (item ++ rest)
    → take_item max src ≡ (max, rest, ok (some item))
take_item-whole max src item rest l e = rw e (ground (arith, l, split-append item rest))

put_item-small :
    (max s : ℕ) (item dst : Bytes)
    → s ≡ max
    → length item ≤ max
    → put_item s item dst ≡ (max, dst ++ length item ∷ item, ok tt)
put_item-small max s item dst g l = ground (arith, g, l)

put_item-large :
    (max s : ℕ) (item dst : Bytes)
    → s ≡ max
    → max < length item
    → put_item s item dst ≡ (max, dst, failed)
put_item-large max s item dst g l = ground (arith, g, l)

at_limit : (s max : ℕ) (src : Bytes) → s ≡ max → take_item s src ≡ take_item max src
at_limit s max src g = ap (λ (n : ℕ). take_item n src) g

abbrev framing : (max : ℕ) → IsFraming uvi max
framing max = record {
  framed = λ item. length item ∷ item;
  framed-full = λ item. refl;
  Good = λ s. s ≡ max;
  held = λ s. [];
  new-Good = refl;
  held-new = refl;
  encode-small = λ s item dst g l. (max, put_item-small max s item dst g l, refl);
  encode-large = λ s item dst g l. (max, put_item-large max s item dst g l, refl);
  decode-whole = λ s src item rest g l e.
      (max, at_limit s max src g ∙ take_item-whole max src item rest l e, refl, refl);
  decode-part = λ s src item missing g l f e.
      (max, src, at_limit s max src g ∙ take_item-part max src item missing l f e, refl, refl);
}

abbrev plain : Prost Bytes
plain = record { encode_message = λ m. m; decode_message = some }

abbrev plain_reads : IsProst plain
plain_reads = record { decode-encode = λ m. refl }

-- Two messages, cut in the middle of the second.
read_all-encode_all_example :
    (encode_all uvi plain ((7 ∷ []) ∷ (8 ∷ 9 ∷ []) ∷ []) (new uvi 5) []
      ≡ ok (1 ∷ 7 ∷ 2 ∷ 8 ∷ 9 ∷ []))
    × (read_all uvi plain 3 ((1 ∷ 7 ∷ 2 ∷ 8 ∷ []) ∷ (9 ∷ []) ∷ []) (new uvi 5) []
        ≡ ok ((7 ∷ []) ∷ (8 ∷ 9 ∷ []) ∷ []))
read_all-encode_all_example =
    read_all-encode_all uvi plain 5 (framing 5) plain_reads ((7 ∷ []) ∷ (8 ∷ 9 ∷ []) ∷ [])
      ((1 ∷ 7 ∷ 2 ∷ 8 ∷ []) ∷ (9 ∷ []) ∷ []) (omega arith) refl
