-- ===== src/Server/Home/Invariant.antt =====
-- The invariant of a home server (crates/nemo-server/src/home.rs), and what each operation leaves alone.
use nemo_messenger.Prelude.{
  ℕ, suc, ◌+◌, ◌≤◌, ◌<◌, ◌^◌, ◌≡◌, refl, sym, Bool-cases, Option-cases, inl, inr, Option, none,
  some, [], ◌∷◌, arith, length, leb, ltb,
}
use mathlib.Core.Path.{subst}
use nemo_messenger.Prelude.Bytes.{Bytes}
use nemo_messenger.Prelude.Map
use nemo_messenger.Prelude.Map.{Map, AllValues}
use nemo_messenger.Prelude.Result.{ok, err}
use nemo_messenger.Prelude.Exec.{continue_with}
use nemo_messenger.Wire.Envelope.{InnerEnvelope, a4_outer, outer_len, unpadded, encode_padded}
use nemo_messenger.Wire.Envelope.Padding.{length-resize}
use nemo_messenger.Wire.Error.{WireResult}
use nemo_messenger.Server.Error.{ServerResult}
use nemo_messenger.Server.Mailbox.{Mailbox, store_envelope, collect, envelope_size}
use nemo_messenger.Server.Mailbox.Invariant.{IsLog, collect_lem, store_envelope-IsLog}
use nemo_messenger.Server.Tokens.{TokenKind, share, contact, token, admit}
use nemo_messenger.Server.Dirty.{is_nil}
use nemo_messenger.Server.Home.{HomeServer, hpke_enc_window, put_mailbox, put_token, mark}
use nemo_messenger.Server.Home.Append.{
  touch, authorize_with, authorize_append, burn_with, burn_if_share, gc_with, gc_mailbox,
  append_new, append_box, append_to, append_inner, make_room, note_enc, remember_enc, mark_new,
}

-- Every mailbox is a well-formed log, and the window of HPKE keys is bounded.
pub record IsHome (h : HomeServer) : Type 0 where
  pub logs : AllValues IsLog h.mailboxes
  pub window : length h.seen_enc ≤ hpke_enc_window

-- The state that the invariant, the clock and the limits are about is the same.
pub record Frame (h h' : HomeServer) : Type 0 where
  pub mailboxes : h'.mailboxes ≡ h.mailboxes
  pub seen_enc : h'.seen_enc ≡ h.seen_enc
  pub now : h'.now ≡ h.now
  pub limits : h'.limits ≡ h.limits

pub Frame-refl : (h : HomeServer) → Frame h h
Frame-refl h = record { mailboxes = refl; seen_enc = refl; now = refl; limits = refl }

pub Frame-IsHome : (h h' : HomeServer) → Frame h h' → IsHome h → IsHome h'
Frame-IsHome h h' f v = record {
  logs = subst (λ m. AllValues IsLog m) (sym f.mailboxes) v.logs;
  window = subst (λ m. length m ≤ hpke_enc_window) (sym f.seen_enc) v.window;
}

touch-Frame :
    (tok : Bytes) (kind kind' : TokenKind) (h : HomeServer)
    → Frame h (touch tok kind (put_token tok kind' h))
touch-Frame tok (share s) kind' h = record {
  mailboxes = refl;
  seen_enc = refl;
  now = refl;
  limits = refl;
}
touch-Frame tok (contact c) kind' h = record {
  mailboxes = refl;
  seen_enc = refl;
  now = refl;
  limits = refl;
}

authorize_with-Frame :
    (tok : Bytes) (o : Option TokenKind) (h : HomeServer) → Frame h (authorize_with tok o h).1
authorize_with-Frame tok none h = Frame-refl h
authorize_with-Frame tok (some kind) h = elim (Bool-cases (admit h.now kind).1) [
  | inl yes_ ↦ rw yes_ (touch-Frame tok kind (admit h.now kind).0 h)
  | inr no_ ↦ rw no_ (record { mailboxes = refl; seen_enc = refl; now = refl; limits = refl })
]

-- Authorisation changes the token and the journal alone.
pub authorize_append-Frame : (tok : Bytes) (h : HomeServer) → Frame h (authorize_append tok h).1
unfolding authorize_append
authorize_append-Frame tok h = authorize_with-Frame tok (token tok h.tokens) h

burn_with-Frame :
    (tok : Bytes) (o : Option TokenKind) (h : HomeServer) → Frame h (burn_with tok o h)
burn_with-Frame tok none h = Frame-refl h
burn_with-Frame tok (some (contact c)) h = Frame-refl h
burn_with-Frame tok (some (share s)) h = elim (Bool-cases s.burned) [
  | inl spent ↦ rw spent (Frame-refl h)
  | inr fresh ↦ rw fresh (record { mailboxes = refl; seen_enc = refl; now = refl; limits = refl })
]

pub burn_if_share-Frame : (tok : Bytes) (h : HomeServer) → Frame h (burn_if_share tok h)
unfolding burn_if_share
burn_if_share-Frame tok h = burn_with-Frame tok (token tok h.tokens) h

-- Writing a well-formed mailbox keeps the invariant.
pub put_mailbox-IsHome :
    (owner : Bytes) (box : Mailbox) (h : HomeServer)
    → IsLog box
    → IsHome h
    → IsHome (put_mailbox owner box h)
put_mailbox-IsHome owner box h l v = record {
  logs = Map.insert-AllValues IsLog owner box h.mailboxes l v.logs;
  window = v.window;
}

gc_with-IsHome :
    (owner : Bytes) (h : HomeServer) (o : Option Mailbox)
    → Map.get owner h.mailboxes ≡ o
    → IsHome h
    → IsHome (gc_with owner o h)
gc_with-IsHome owner h none e v = v
gc_with-IsHome owner h (some box) e v =
    let l = Map.get-AllValues IsLog owner h.mailboxes v.logs e in
    let done = collect_lem h.now h.limits.mailbox_max_age_secs h.limits.mailbox_max_bytes box l in
    let kept = put_mailbox-IsHome owner _ h done.log v in
    elim (Bool-cases
      (is_nil (collect h.now h.limits.mailbox_max_age_secs h.limits.mailbox_max_bytes box).1)) [
        | inl nothing ↦ rw nothing kept
        | inr rows ↦ rw rows (record { logs = kept.logs; window = kept.window })
      ]

pub gc_mailbox-IsHome : (owner : Bytes) (h : HomeServer) → IsHome h → IsHome (gc_mailbox owner h)
unfolding gc_mailbox
gc_mailbox-IsHome owner h v = gc_with-IsHome owner h (Map.get owner h.mailboxes) refl v

-- No counter of a mailbox would overflow if an envelope of the largest size were stored in it.
abbrev pub HasRoom : Mailbox → Type 0
HasRoom box = (box.next_seq + 1 < 2 ^ 64) × (box.bytes + a4_outer < 2 ^ 64)

abbrev pub Room : HomeServer → Type 0
Room h = AllValues HasRoom h.mailboxes

outer_len-le : (inner : InnerEnvelope) → outer_len inner ≤ a4_outer
unfolding outer_len
outer_len-le inner = ground arith

pub size_le : (inner : InnerEnvelope) → envelope_size inner ≤ a4_outer
unfolding envelope_size encode_padded
size_le inner = elim (Bool-cases (ltb (outer_len inner) (length (unpadded inner)))) [
  | inl long ↦ rw (long, envelope_size) (omega arith)
  | inr fits ↦
      rw (fits, envelope_size)
        (omega (arith, length-resize (outer_len inner) (unpadded inner), outer_len-le inner))
]

size_ok :
    (inner : InnerEnvelope) (padded : Bytes)
    → encode_padded inner ≡ ok padded
    → envelope_size inner ≡ length padded
unfolding envelope_size
size_ok inner padded e = rw (e, envelope_size)

append_new-IsHome :
    (owner : Bytes) (inner : InnerEnvelope) (box : Mailbox) (h : HomeServer) (r : WireResult Bytes)
    → encode_padded inner ≡ r
    → Map.get owner h.mailboxes ≡ some box
    → Room h
    → IsHome h
    → IsHome (append_new owner inner box r h).1
append_new-IsHome owner inner box h (err e) er e2 room v = v
append_new-IsHome owner inner box h (ok padded) er found room v =
    let l = Map.get-AllValues IsLog owner h.mailboxes v.logs found in
    let fits = Map.get-AllValues HasRoom owner h.mailboxes room found in
    let size : envelope_size inner ≡ length padded = size_ok inner padded er in
    let stored =
      store_envelope-IsLog h.now h.limits.mailbox_max_age_secs inner box l fits.0
        (omega (arith, size_le inner)) in
    let box' = store_envelope h.now h.limits.mailbox_max_age_secs inner (length padded) box in
    let h1 = mark (mark_new owner box.next_seq) (put_mailbox owner box' h) in
    let kept : IsHome (put_mailbox owner box' h) =
      put_mailbox-IsHome owner box' h (rw size at stored) v in
    gc_mailbox-IsHome owner (burn_if_share inner.delivery_capability h1) (
      Frame-IsHome h1 _ (burn_if_share-Frame inner.delivery_capability h1)
        (record { logs = kept.logs; window = kept.window }))

append_box-IsHome :
    (owner : Bytes) (inner : InnerEnvelope) (h : HomeServer) (o : Option Mailbox)
    → Map.get owner h.mailboxes ≡ o
    → Room h
    → IsHome h
    → IsHome (append_box owner inner o h).1
append_box-IsHome owner inner h none e room v = v
append_box-IsHome owner inner h (some box) e room v =
    elim (Option-cases (Map.get inner.idempotency_token box.idempotency)) [
      | inl fresh ↦
          rw fresh (append_new-IsHome owner inner box h (encode_padded inner) refl e room v)
      | inr (seq, known) ↦ rw known v
    ]

pub append_to-IsHome :
    (owner : Bytes) (inner : InnerEnvelope) (h : HomeServer)
    → Room h
    → IsHome h
    → IsHome (append_to owner inner h).1
unfolding append_to
append_to-IsHome owner inner h room v =
    append_box-IsHome owner inner h (Map.get owner h.mailboxes) refl room v

-- What `?` does with the result of `authorize_append`.
continue_append-IsHome :
    (inner : InnerEnvelope) (p : ServerResult Bytes × HomeServer)
    → Room p.1
    → IsHome p.1
    → IsHome (continue_with (λ owner. append_to owner inner) p).1
continue_append-IsHome inner (ok owner, h) room v = append_to-IsHome owner inner h room v
continue_append-IsHome inner (err e, h) room v = v

-- Accepting an envelope keeps the invariant, on every branch.
pub append_inner-IsHome :
    (inner : InnerEnvelope) (h : HomeServer) → Room h → IsHome h → IsHome (append_inner inner h).1
unfolding append_inner
append_inner-IsHome inner h room v =
    let f = authorize_append-Frame inner.delivery_capability h in
    continue_append-IsHome inner (authorize_append inner.delivery_capability h)
      (subst (λ m. AllValues HasRoom m) (sym f.mailboxes) room) (Frame-IsHome h _ f v)

length-insert {ℓ} :
    {V : Type ℓ} (k : Bytes) (v : V) (m : Map V) → length (Map.insert k v m) ≤ suc (length m)
unfolding Map.insert
length-insert k v [] = omega arith
length-insert k v ((j, w) ∷ m) = ground (arith, length-insert k v m)

make_room_lem :
    (h : HomeServer)
    → (AllValues IsLog h.mailboxes → AllValues IsLog (make_room h).mailboxes)
      × (length (make_room h).seen_enc < hpke_enc_window)
make_room_lem h = elim (Bool-cases (leb hpke_enc_window (length h.seen_enc))) [
  | inl full ↦ rw full (λ v. v, omega arith)
  | inr free ↦ rw free (λ v. v, ground arith)
]

note_enc-IsHome :
    (enc : Bytes) (seq : ℕ) (h : HomeServer)
    → AllValues IsLog h.mailboxes
    → length h.seen_enc < hpke_enc_window
    → IsHome (note_enc enc seq h)
note_enc-IsHome enc seq h v w =
    let fits : length (Map.insert enc seq h.seen_enc) ≤ hpke_enc_window =
      omega (arith, length-insert enc seq h.seen_enc) in
    elim (Bool-cases h.dirty.seen_enc_cleared) [
      | inl all_of_it ↦ rw all_of_it (record { logs = v; window = fits })
      | inr one ↦ rw one (record { logs = v; window = fits })
    ]

pub remember_enc-IsHome :
    (enc : Bytes) (seq : ℕ) (h : HomeServer) → IsHome h → IsHome (remember_enc enc seq h)
unfolding remember_enc
remember_enc-IsHome enc seq h v =
    let (logs, window) = make_room_lem h in
    note_enc-IsHome enc seq (make_room h) (logs v.logs) window
