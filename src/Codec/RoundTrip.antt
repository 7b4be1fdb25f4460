-- ===== src/Codec/RoundTrip.antt =====
-- Messages written and read by common/src/codec/prost_protobuf.rs, whatever the pieces in which the bytes
-- arrive.
use rust_libp2p_pubsub.Prelude.{
  ℕ, zero, suc, ◌<◌, ◌≡◌, refl, sym, ap, ◌∙◌, false, List, [], ◌∷◌, ◌++◌, length, length-append,
  is_empty, append-nil, append_assoc, arith, ◌⊎◌, inl, inr,
}
use rust_libp2p_pubsub.Prelude.Order.{Bytes}
use rust_libp2p_pubsub.Codec.{UviBytes, Prost, ok, Codec, new}
use rust_libp2p_pubsub.Codec.Laws.{IsFraming, IsProst, Fit}
use rust_libp2p_pubsub.Codec.Stream.{
  flatten, encode_all, drain, read_all, encoded, decoded_none, decoded_some,
}

append-empty : (xs ys : Bytes) → xs ++ ys ≡ [] → (xs ≡ []) × (ys ≡ [])
append-empty [] ys e = (refl, e)
append-empty (x ∷ xs) ys e = absurd (cc)

length-full : (r : Bytes) → is_empty r ≡ false → 0 < length r
length-full [] e = absurd (cc)
length-full (x ∷ r) e = omega arith

-- Two ways to cut the same bytes: the first piece of one holds that of the other, or falls short.
cut :
    (a b xs ys : Bytes)
    → xs ++ ys ≡ a ++ b
    → ((r : Bytes) × (xs ≡ a ++ r) × (b ≡ r ++ ys))
      ⊎ ((r : Bytes) × (is_empty r ≡ false) × (xs ++ r ≡ a) × (ys ≡ r ++ b))
cut [] b xs ys e = inl (xs, refl, sym e)
cut (x ∷ a) b [] ys e = inr (x ∷ a, refl, refl, e)
cut (x ∷ a) b (y ∷ xs) ys e = elim (cut a b xs ys (cc)) [
  | inl (r, f, g) ↦ inl (r, cc, g)
  | inr (r, full, f, g) ↦ inr (r, full, cc, g)
]

module _ (U : UviBytes) {M : Type 0} (P : Prost M) where
  module _ (max : ℕ) (L : IsFraming U max) (T : IsProst P) where
    abbrev frames : List M → Bytes
    frames [] = []
    frames (m ∷ ms) = L.framed (P.encode_message m) ++ frames ms

    encode_all_lem :
        (ms : List M) (c : Codec U) (dst : Bytes)
        → L.Good c.uvi
        → Fit P max ms
        → encode_all U P ms c dst ≡ ok (dst ++ frames ms)
    unfolding encode_all
    encode_all_lem [] c dst g f = ap ok (sym (append-nil dst))
    encode_all_lem (m ∷ ms) c dst g f =
        let item = P.encode_message m in
        let (s', e, g') = L.encode-small c.uvi item dst g f.0 in
        rw (encoded U P c m dst (dst ++ L.framed item) s' e, encode_all)
          (encode_all_lem ms (record { uvi = s' }) (dst ++ L.framed item) g' f.1
            ∙ ap ok (append_assoc dst (L.framed item) (frames ms)))

    -- Bytes that hold no whole message of those that are to come.
    abbrev Short : Bytes → List M → Type 0
    Short bytes [] = bytes ≡ []
    Short bytes (m ∷ ms) =
        (r : Bytes) × (is_empty r ≡ false) × (bytes ++ r ≡ L.framed (P.encode_message m))

    -- What a decoder has taken, and what stands in its buffer.
    abbrev pending : Codec U → Bytes → Bytes
    pending c src = L.held c.uvi ++ src

    -- What has been read of messages that are being sent, and how it goes on.
    abbrev Drained : ℕ → Codec U → Bytes → Bytes → List M → Type 0
    Drained k c src ys ms =
        (done todo : List M) × (c' : Codec U) × (src' : Bytes) × (ms ≡ done ++ todo)
        × (drain U P k c src ≡ (c', src', ok done))
        × L.Good c'.uvi
        × (pending c' src' ++ ys ≡ frames todo)
        × Short (pending c' src') todo
        × Fit P max todo

    drain_lem :
        (k : ℕ) (ms : List M) (c : Codec U) (src ys : Bytes)
        → L.Good c.uvi
        → Fit P max ms
        → length ms < k
        → pending c src ++ ys ≡ frames ms
        → Drained k c src ys ms
    unfolding drain
    drain_lem zero ms c src ys g f l e = absurd (omega arith)
    drain_lem (suc k) [] c src ys g f l e =
        let (none_here, none_after) = append-empty (pending c src) ys e in
        let (s', src', d, g', kept) =
          L.decode-part c.uvi src [] (L.framed []) g (omega arith) (L.framed-full [])
            (ap (λ (b : Bytes). b ++ L.framed []) none_here) in
        (
          [],
          [],
          record { uvi = s' },
          src',
          refl,
          rw (decoded_none U P c src src' s' d, drain) refl,
          g',
          ap (λ (b : Bytes). b ++ ys) (kept ∙ none_here) ∙ none_after,
          kept ∙ none_here,
          tt,
        )
    drain_lem (suc k) (m ∷ ms) c src ys g f l e =
        let item = P.encode_message m in
        elim (cut (L.framed item) (frames ms) (pending c src) ys e) [
          | inl (r, whole, after) ↦
              let (s', d, g', fresh) = L.decode-whole c.uvi src item r g f.0 whole in
              let held_r = ap (λ (b : Bytes). (b ++ r) ++ ys) fresh in
              let (done, todo, c', src', split, rest, g'', comes, short, f') =
                drain_lem k ms (record { uvi = s' }) r ys g' f.1 (omega arith)
                  (held_r ∙ sym after) in
              (
                m ∷ done,
                todo,
                c',
                src',
                ap (λ (l : List M). m ∷ l) split,
                rw (decoded_some U P c src r s' m T d, drain) (rw rest refl),
                g'',
                comes,
                short,
                f',
              )
          | inr (r, full, part, after) ↦
              let (s', src', d, g', kept) = L.decode-part c.uvi src item r g f.0 full part in
              (
                [],
                m ∷ ms,
                record { uvi = s' },
                src',
                refl,
                rw (decoded_none U P c src src' s' d, drain) refl,
                g',
                ap (λ (b : Bytes). b ++ ys) kept ∙ e,
                (r, full, ap (λ (b : Bytes). b ++ r) kept ∙ part),
                f,
              )
        ]

    -- Once all has come, nothing is left.
    all_arrived : (ms : List M) (bytes : Bytes) → bytes ++ [] ≡ frames ms → Short bytes ms → ms ≡ []
    all_arrived [] bytes e s = refl
    all_arrived (m ∷ ms) bytes e (r, full, part) = absurd (
        omega (
          arith,
          ap length e,
          ap length part,
          length-append bytes [],
          length-append bytes r,
          length-append (L.framed (P.encode_message m)) (frames ms),
          length-full r full,
        ))

    read_all_lem :
        (chunks : List Bytes) (k : ℕ) (ms : List M) (c : Codec U) (src : Bytes)
        → L.Good c.uvi
        → Fit P max ms
        → length ms < k
        → pending c src ++ flatten chunks ≡ frames ms
        → Short (pending c src) ms
        → read_all U P k chunks c src ≡ ok ms
    unfolding read_all
    read_all_lem [] k ms c src g f l e short = ap ok (sym (all_arrived ms (pending c src) e short))
    read_all_lem (chunk ∷ chunks) k ms c src g f l e short =
        let (done, todo, c', src', split, drained, g', comes, short', f') =
          drain_lem k ms c (src ++ chunk) (flatten chunks) g f l (
            ap (λ (b : Bytes). b ++ flatten chunks) (sym (append_assoc (L.held c.uvi) src chunk))
            ∙ append_assoc (pending c src) chunk (flatten chunks)
            ∙ e) in
        let less : length todo < k = omega (arith, ap length split, length-append done todo) in
        let rest = read_all_lem chunks k todo c' src' g' f' less comes short' in
        rw (drained, read_all) (rw rest (ap ok (sym split)))

    first-Short : (ms : List M) (c : Codec U) → L.held c.uvi ≡ [] → Short (pending c []) ms
    first-Short [] c e = append-nil (L.held c.uvi) ∙ e
    first-Short (m ∷ ms) c e = (
      L.framed (P.encode_message m),
      L.framed-full (P.encode_message m),
      ap (λ (b : Bytes). b ++ L.framed (P.encode_message m)) (append-nil (L.held c.uvi) ∙ e),
    )

    -- If the framing keeps its laws, up to a limit, and `prost` reads what it has written, then
    -- messages whose encodings keep within the limit are written without an error. However their
    -- bytes are cut into pieces, a codec that is given the pieces one after the other reads
    -- exactly these messages, in their order.
    pub read_all-encode_all :
        (ms : List M) (pieces : List Bytes)
        → Fit P max ms
        → flatten pieces ≡ frames ms
        → (encode_all U P ms (new U max) [] ≡ ok (flatten pieces))
          × (read_all U P (suc (length ms)) pieces (new U max) [] ≡ ok ms)
    unfolding new
    read_all-encode_all ms pieces f e =
        let held = ap (λ (b : Bytes). (b ++ []) ++ flatten pieces) L.held-new in
        (
          encode_all_lem ms (new U max) [] L.new-Good f ∙ ap ok (sym e),
          read_all_lem pieces (suc (length ms)) ms (new U max) [] L.new-Good f (omega arith)
              (held ∙ e) (first-Short ms (new U max) L.held-new),
        )
