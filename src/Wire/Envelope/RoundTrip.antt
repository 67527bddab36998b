-- ===== src/Wire/Envelope/RoundTrip.antt =====
-- crates/nemo-wire/src/envelope.rs: what `decode_padded` makes of an encoded text envelope.
use nemo_messenger.Prelude.{
  ℕ, zero, suc, ◌+◌, ◌-◌, ◌≤◌, ◌<◌, ◌≡◌, refl, sym, ap, Bool, true, false, ◌∷◌, ◌++◌, arith, length,
  length-append, length-replicate, take, take_all, take_within, length-take, replicate, drop,
  drop_within, drop-append_eq, all, all-append, all-replicate, find, some, leb, ltb, ◌==◌, ◌&&◌,
  le→ltb, le→leb,
}
use mathlib.Core.List.{append_assoc}
use mathlib.Core.Path.{subst}
use nemo_messenger.Prelude.Bytes.{Bytes}
use nemo_messenger.Prelude.Result.{ok}
use nemo_messenger.Wire.Ids.{protocol_version}
use nemo_messenger.Wire.Envelope.{
  t1, t2, text_inner, inner_text_outer, is_attachment, buckets, contains, PaddedMessage,
  InnerEnvelope, header_len, encode_message, decode_message, ttl_from_u8, outer_len, unpadded,
  encode_padded, inner_bucket, decode_padded,
}
use nemo_messenger.Wire.Envelope.Inner.{
  IsInner, length-unpadded, outer_fits, encode_padded_lem, decode_layout,
}
use nemo_messenger.Wire.Envelope.Padding.{
  encode_message_lem, from_u8-to_u8, IsPadded, length-encode_message, padded_body,
  decode-encode_message,
}

-- No smaller text bucket ends in front of nothing but zeros: what `decode_padded` finds the bucket by.
abbrev pub IsTight : PaddedMessage → Type 0
IsTight m =
    (b : ℕ)
    → contains text_inner b ≡ true
    → b < m.inner_len
    → all (λ x. x == 0) (drop b (encode_message m)) ≡ false

and_false : (b : Bool) → (b && false) ≡ false
and_false true = refl
and_false false = refl

-- A search through the text buckets stops at `n` if it passes the ones before.
find_text :
    (test : ℕ → Bool) (n : ℕ)
    → contains text_inner n ≡ true
    → test n ≡ true
    → (t1 < n → test t1 ≡ false)
    → (t2 < n → test t2 ≡ false)
    → find test text_inner ≡ some n
find_text test n h at_n before1 before2 = ground arith

module _ (msg : Bytes) (zeros n : ℕ) (hn : length msg ≡ n) where
  zeros_from :
      (b : ℕ)
      → b ≤ n
      → all (λ x. x == 0) (drop b (msg ++ replicate zeros 0)) ≡ all (λ x. x == 0) (drop b msg)
  zeros_from b h =
      rw (drop_within b msg (replicate zeros 0) (omega arith), all-append)
        (rw (all-replicate (λ x. x == 0) zeros 0 refl) (ground arith))

  zeros_at_end : all (λ x. x == 0) (drop n (msg ++ replicate zeros 0)) ≡ true
  zeros_at_end =
      rw (drop-append_eq n msg (replicate zeros 0) hn) (all-replicate (λ x. x == 0) zeros 0 refl)

  -- The text bucket that is found behind the header.
  bucket_found :
      contains text_inner n ≡ true
      → ((b : ℕ) → contains text_inner b ≡ true → b < n → all (λ x. x == 0) (drop b msg) ≡ false)
      → inner_bucket inner_text_outer (msg ++ replicate zeros 0) ≡ ok n
  unfolding inner_bucket
  bucket_found h tight =
      let test : ℕ → Bool = λ b.
        leb b (length (msg ++ replicate zeros 0))
        && all (λ x. x == 0) (drop b (msg ++ replicate zeros 0)) in
      let fits : n ≤ length (msg ++ replicate zeros 0) =
        omega (arith, hn, length-append msg (replicate zeros 0)) in
      let at_n : test n ≡ true = rw (le→leb _ _ fits, zeros_at_end) in
      let before : (b : ℕ) → contains text_inner b ≡ true → b < n → test b ≡ false =
        λ b hb l. rw (zeros_from b (omega arith), tight b hb l) (and_false _) in
      rw (find_text test n h at_n (before t1 refl) (before t2 refl))

text_buckets : (m : PaddedMessage) → is_attachment m.type ≡ false → buckets m.type ≡ text_inner
text_buckets m h = rw h

-- Decoding an encoded text envelope, once the bucket that is found and its message are known.
decode_found :
    (e : InnerEnvelope) (bytes : Bytes) (k : ℕ) (m : PaddedMessage)
    → IsInner e
    → is_attachment e.padded_message.type ≡ false
    → encode_padded e ≡ ok bytes
    → k ≤ e.padded_message.inner_len
    → ((zeros : ℕ)
        → inner_bucket inner_text_outer (encode_message e.padded_message ++ replicate zeros 0)
          ≡ ok k)
    → decode_message (take k (encode_message e.padded_message)) ≡ ok m
    → decode_padded bytes ≡ ok (record e { padded_message = m })
decode_found e bytes k m v h enc fits found message =
    let msg = encode_message e.padded_message in
    let zeros = outer_len e - length (unpadded e) in
    let tail : Bytes = msg ++ replicate zeros 0 in
    let msg_size : length msg ≡ e.padded_message.inner_len =
      length-encode_message e.padded_message in
    let size : length tail ≡ e.padded_message.inner_len + zeros =
      omega (
        arith,
        msg_size,
        length-append msg (replicate zeros 0),
        length-replicate {A = ℕ} zeros 0,
      ) in
    let outer : outer_len e ≡ inner_text_outer = unfold outer_len in rw h in
    let whole : header_len + length tail ≡ inner_text_outer =
      omega (arith, size, outer, length-unpadded e v, outer_fits e v.message.bucket) in
    let room : ltb (length tail) k ≡ false = le→ltb _ _ (omega (arith, size)) in
    let front : take k tail ≡ take k msg = take_within k msg _ (omega (arith, msg_size)) in
    let ttl : ttl_from_u8 e.ttl_bucket.code ≡ ok e.ttl_bucket =
      unfold ttl_from_u8 in rw (le→leb _ _ v.ttl) in
    let shape : unpadded e ++ replicate zeros 0
        ≡ protocol_version
          ∷ (e.delivery_capability ++ (e.ttl_bucket.code ∷ (e.idempotency_token ++ tail))) =
      unfold unpadded in simp append_assoc in
    let same : bytes ≡ unpadded e ++ replicate zeros 0 = cc (encode_padded_lem e v) in
    rw
      (
        same,
        shape,
        decode_layout e.delivery_capability e.idempotency_token tail e.ttl_bucket.code v.capability
            v.idempotency (omega (arith, size, v.message.fits)),
      )
      (rw (ttl, whole, found zeros, room, front, message))

pub decode-encode_padded_text :
    (e : InnerEnvelope) (bytes : Bytes)
    → IsInner e
    → is_attachment e.padded_message.type ≡ false
    → IsTight e.padded_message
    → encode_padded e ≡ ok bytes
    → decode_padded bytes
      ≡ ok (record e {
        padded_message = record e.padded_message { body = padded_body e.padded_message };
      })
decode-encode_padded_text e bytes v h tight enc =
    let m = e.padded_message in
    let size : length (encode_message m) ≡ m.inner_len = length-encode_message m in
    let text : contains text_inner m.inner_len ≡ true = rw (text_buckets m h) at v.message.bucket in
    let all_of_it : take m.inner_len (encode_message m) ≡ encode_message m =
      take_all m.inner_len (encode_message m) (omega (arith, size)) in
    decode_found e bytes m.inner_len _ v h enc (omega arith)
      (λ zeros. bucket_found (encode_message m) zeros m.inner_len size text tight)
      (rw all_of_it (decode-encode_message m v.message))

-- The message ends in zeros from the text bucket `b` on, and from no text bucket before it.
pub record IsLoose (m : PaddedMessage) (b : ℕ) : Type 0 where
  pub bucket : contains text_inner b ≡ true
  pub smaller : b < m.inner_len
  pub zeros : all (λ x. x == 0) (drop b (encode_message m)) ≡ true
  pub first :
      (c : ℕ)
      → contains text_inner c ≡ true
      → c < b
      → all (λ x. x == 0) (drop c (encode_message m)) ≡ false

loose_bucket :
    (m : PaddedMessage) (b zeros : ℕ)
    → IsLoose m b
    → inner_bucket inner_text_outer (encode_message m ++ replicate zeros 0) ≡ ok b
unfolding inner_bucket
loose_bucket m b zeros l =
    let msg = encode_message m in
    let size : length msg ≡ m.inner_len = length-encode_message m in
    let smaller = l.smaller in
    let test : ℕ → Bool = λ c.
      leb c (length (msg ++ replicate zeros 0))
      && all (λ x. x == 0) (drop c (msg ++ replicate zeros 0)) in
    let fits : b ≤ length (msg ++ replicate zeros 0) =
      omega (arith, size, length-append msg (replicate zeros 0)) in
    let at_b : test b ≡ true =
      rw (le→leb _ _ fits, zeros_from msg zeros m.inner_len size b (omega arith)) (l.zeros) in
    let before : (c : ℕ) → contains text_inner c ≡ true → c < b → test c ≡ false = λ c hc less.
      rw (zeros_from msg zeros m.inner_len size c (omega arith), l.first c hc less) (and_false _) in
    rw (find_text test b l.bucket at_b (before t1 refl) (before t2 refl))

decode_front :
    (m : PaddedMessage) (b : ℕ)
    → IsPadded m
    → is_attachment m.type ≡ false
    → contains text_inner b ≡ true
    → b ≤ m.inner_len
    → decode_message (take b (encode_message m))
      ≡ ok (record m { body = take (b - 2) (padded_body m); inner_len = b })
unfolding decode_message
decode_front m (suc (suc c)) v h bucket within =
    let back : suc (suc c) - 2 ≡ c = omega arith in
    let two : suc (suc c) ≡ 2 + c = omega arith in
    let size : length (take c (padded_body m)) ≡ c = omega (
      arith,
      v.fits,
      length-take c (padded_body m),
      length-append m.body (replicate (m.inner_len - (2 + length m.body)) 0),
      length-replicate {A = ℕ} (m.inner_len - (2 + length m.body)) 0,
    ) in
    let text : contains (buckets m.type) (2 + c) ≡ true =
      rw (text_buckets m h) (subst (λ k. contains text_inner k ≡ true) two bucket) in
    rw (encode_message_lem m v) (
      rw (from_u8-to_u8 m.type, size)
        (rw (text, back)
          (ap (λ k. ok (record m { body = take c (padded_body m); inner_len = k })) (sym two))))
decode_front m zero v h bucket within = absurd (ground arith)
decode_front m (suc zero) v h bucket within = absurd (ground arith)

-- Where a smaller text bucket cuts off zeros alone, the decoder takes the smallest such bucket instead of
-- the one that a text message was padded to: the body that comes back is the front of the padded one, up
-- to the end of that bucket.
pub decode-encode_padded_loose :
    (e : InnerEnvelope) (bytes : Bytes) (b : ℕ)
    → IsInner e
    → is_attachment e.padded_message.type ≡ false
    → IsLoose e.padded_message b
    → encode_padded e ≡ ok bytes
    → decode_padded bytes
      ≡ ok (record e {
        padded_message = record e.padded_message {
          body = take (b - 2) (padded_body e.padded_message);
          inner_len = b;
        };
      })
decode-encode_padded_loose e bytes b v h l enc =
    let smaller = l.smaller in
    decode_found e bytes b _ v h enc (omega arith)
      (λ zeros. loose_bucket e.padded_message b zeros l)
      (decode_front e.padded_message b v.message h l.bucket (omega arith))
