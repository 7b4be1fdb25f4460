-- ===== src/MessageId/Injective.antt =====
-- Which messages of floodsub/src/message_id.rs have the same default id.
use rust_libp2p_pubsub.Prelude.{
  ℕ, ◌<◌, ◌^◌, ◌≡◌, ◌↔◌, refl, sym, ap, ap₂, ◌∙◌, Option, none, some, [], ◌∷◌, ◌++◌, ◌⊎◌, inl, inr,
  append-nil,
}
use rust_libp2p_pubsub.Prelude.Order.{Bytes}
use rust_libp2p_pubsub.Prelude.Outcome.{returned, ◌>>=◌}
use rust_libp2p_pubsub.Libp2p.{PeerId, PeerIdBytes}
use rust_libp2p_pubsub.Topic.{TopicHash}
use rust_libp2p_pubsub.Frame.Message
use rust_libp2p_pubsub.Frame.Message.Fields.{published, source-set, sequence_number-set}
use rust_libp2p_pubsub.MessageId.{MessageId, new, zero_bytes, source_or_zero, default_message_id_fn}
use rust_libp2p_pubsub.MessageId.Decimal.{to_string, to_string-injective}

-- Of two texts that begin one text, one begins the other.
prefixes :
    (xs ys u v : Bytes)
    → xs ++ u ≡ ys ++ v
    → ((w : Bytes) × (xs ≡ ys ++ w)) ⊎ ((w : Bytes) × (ys ≡ xs ++ w))
prefixes xs [] u v e = inl (xs, refl)
prefixes [] (y ∷ ys) u v e = inr (y ∷ ys, refl)
prefixes (x ∷ xs) (y ∷ ys) u v e =
    let heads : x ≡ y = cc in
    elim (prefixes xs ys u v (cc)) [
      | inl (w, f) ↦ inl (w, ap₂ (λ (c : ℕ) (cs : Bytes). c ∷ cs) heads f)
      | inr (w, f) ↦ inr (w, ap₂ (λ (c : ℕ) (cs : Bytes). c ∷ cs) (sym heads) f)
    ]

append-cancel : (xs u v : Bytes) → xs ++ u ≡ xs ++ v → u ≡ v
append-cancel [] u v e = e
append-cancel (x ∷ xs) u v e = append-cancel xs u v (cc)

-- Texts of which neither goes on where the other ends are cut in one way.
append-injective :
    (xs ys u v : Bytes)
    → ((w : Bytes) → xs ≡ ys ++ w → w ≡ [])
    → ((w : Bytes) → ys ≡ xs ++ w → w ≡ [])
    → xs ++ u ≡ ys ++ v
    → (xs ≡ ys) × (u ≡ v)
append-injective xs ys u v no_longer no_shorter e =
    let same_text : xs ≡ ys = elim (prefixes xs ys u v e) [
      | inl (w, f) ↦ f ∙ ap (λ (k : Bytes). ys ++ k) (no_longer w f) ∙ append-nil ys
      | inr (w, f) ↦ sym (f ∙ ap (λ (k : Bytes). xs ++ k) (no_shorter w f) ∙ append-nil xs)
    ] in
    (same_text, append-cancel ys u v (ap (λ (k : Bytes). k ++ u) (sym same_text) ∙ e))

module _ (p : PeerIdBytes) (to_base58 : PeerId → Bytes) (zero_peer : PeerId) where
  -- The peer that stands for the author.
  abbrev pub author_or_zero : Option PeerId → PeerId
  author_or_zero none = zero_peer
  author_or_zero (some a) = a

  abbrev id_of : PeerId → ℕ → MessageId
  id_of a n = new (to_base58 a ++ to_string n)

  id-published :
      (t : TopicHash) (payload : Bytes) (author : Option PeerId) (n : ℕ)
      → p.from_bytes zero_bytes ≡ some zero_peer
      → n < 2 ^ 64
      → default_message_id_fn p to_base58 (published p t payload author (some n))
        ≡ returned (id_of (author_or_zero author) n)
  unfolding default_message_id_fn
  id-published t payload author n z h =
      let m = published p t payload author (some n) in
      let from : Message.source p m ≡ returned author =
        (unfold Message.set_sequence_number Message.source in
          source-set p (Message.new t payload) author) in
      let number : Message.sequence_number m ≡ returned (some n) =
        sequence_number-set (Message.set_source p (Message.new t payload) author) (some n) h in
      rw (from, number) (by_author author)
    where
      by_author :
          (author : Option PeerId)
          → (source_or_zero p author >>= λ peer. returned (new (to_base58 peer ++ to_string n)))
            ≡ returned (id_of (author_or_zero author) n)
      by_author none = rw z refl
      by_author (some a) = refl

  id_of-injective :
      (a b : PeerId) (m n : ℕ)
      → ((w : Bytes) → to_base58 a ≡ to_base58 b ++ w → w ≡ [])
      → ((w : Bytes) → to_base58 b ≡ to_base58 a ++ w → w ≡ [])
      → (to_base58 a ≡ to_base58 b → a ≡ b)
      → m < 2 ^ 64
      → n < 2 ^ 64
      → id_of a m ≡ id_of b n
      → (a ≡ b) × (m ≡ n)
  id_of-injective a b m n no_longer no_shorter inj hm hn e =
      let (texts, digits) =
        append-injective (to_base58 a) (to_base58 b) (to_string m) (to_string n) no_longer
          no_shorter (ap (λ (i : MessageId). i.value) e) in
      (inj texts, to_string-injective m n hm hn digits)

  -- Two messages as `publish` builds them, each with a number of 64 bits and with or without an
  -- author, on any topics and with any payloads, have a default id each, if the bytes 0, 1, 0 are
  -- a peer id; that peer stands for an author that is not there. If the base58 texts of the two
  -- authors tell them apart, and neither goes on where the other ends, the ids are the same
  -- exactly if the authors and the numbers are.
  pub message_id-injective :
      (t u : TopicHash) (x y : Bytes) (a b : Option PeerId) (m n : ℕ)
      → p.from_bytes zero_bytes ≡ some zero_peer
      → ((w : Bytes) → to_base58 (author_or_zero a) ≡ to_base58 (author_or_zero b) ++ w → w ≡ [])
      → ((w : Bytes) → to_base58 (author_or_zero b) ≡ to_base58 (author_or_zero a) ++ w → w ≡ [])
      → (to_base58 (author_or_zero a) ≡ to_base58 (author_or_zero b)
          → author_or_zero a ≡ author_or_zero b)
      → m < 2 ^ 64
      → n < 2 ^ 64
      → (i j : MessageId) × (default_message_id_fn p to_base58 (published p t x a (some m))
          ≡ returned i)
        × (default_message_id_fn p to_base58 (published p u y b (some n)) ≡ returned j)
        × ((i ≡ j) ↔ ((author_or_zero a ≡ author_or_zero b) × (m ≡ n)))
  message_id-injective t u x y a b m n z no_longer no_shorter inj hm hn = (
    id_of (author_or_zero a) m,
    id_of (author_or_zero b) n,
    id-published t x a m z hm,
    id-published u y b n z hn,
    (
      λ e.
          id_of-injective (author_or_zero a) (author_or_zero b) m n no_longer no_shorter inj hm hn
            e,
      λ e. ap₂ id_of e.0 e.1,
    ),
  )
