-- ===== src/Server/Mailbox.antt =====
-- crates/nemo-server/src/home.rs: one mailbox log, its rows, its idempotency index and its byte count.
pub mod Rows
pub mod Invariant
pub mod Delivery
pub mod Retention
use nemo_messenger.Prelude.{
  ℕ, zero, suc, ◌+◌, ◌-◌, Bool, true, false, not, ◌&&◌, ◌||◌, Option, none, some, List, [], ◌∷◌,
  ◌++◌, map, length, keep, take, ltb, leb, ◌==◌, if◌then◌else◌, min, saturating_add, add64,
}
use nemo_messenger.Prelude.Bytes.{Bytes}
use nemo_messenger.Prelude.Map
use nemo_messenger.Prelude.Map.{Map}
use nemo_messenger.Prelude.Result.{ok, err}
use nemo_messenger.Wire.Envelope.{InnerEnvelope, TtlBucket, ttl_secs, encode_padded}

pub record StoredEnvelope : Type 0 where
  pub seq : ℕ
  pub received_at : ℕ
  pub expires_at : ℕ
  pub inner : InnerEnvelope

-- `BTreeMap<u64, StoredEnvelope>`: the entries in the order of their keys.
abbrev pub Rows : Type 0
Rows = List (ℕ × StoredEnvelope)

pub record Mailbox : Type 0 where
  pub owner_pk : Bytes
  pub next_seq : ℕ
  pub rows : Rows
  pub idempotency : Map ℕ
  pub bytes : ℕ
  pub disabled : Bool

abbrev pub fresh_mailbox : Bytes → Mailbox
fresh_mailbox owner_pk = record {
  owner_pk = owner_pk;
  next_seq = 1;
  rows = [];
  idempotency = [];
  bytes = 0;
  disabled = false;
}

-- `BTreeMap::get`
unfoldable pub row_at : ℕ → Rows → Option StoredEnvelope
row_at seq [] = none
row_at seq ((s, r) ∷ rows) = if s == seq then some r else row_at seq rows

-- `BTreeMap::insert`
unfoldable pub insert_row : ℕ → StoredEnvelope → Rows → Rows
insert_row seq row [] = (seq, row) ∷ []
insert_row seq row ((s, r) ∷ rows) =
    let rest = insert_row seq row rows in
    if ltb seq s
    then (seq, row) ∷ (s, r) ∷ rows
    else if s == seq
    then (seq, row) ∷ rows
    else (s, r) ∷ rest

-- What is left after `BTreeMap::remove`.
unfoldable pub delete_row : ℕ → Rows → Rows
delete_row seq [] = []
delete_row seq ((s, r) ∷ rows) =
    let rest = delete_row seq rows in if s == seq then rest else (s, r) ∷ rest

-- `row.inner.encode_padded().map(|b| b.len() as u64).unwrap_or(0)`
unfoldable pub envelope_size : InnerEnvelope → ℕ
envelope_size inner = elim (encode_padded inner) [ ok b ↦ length b | err _ ↦ 0 ]

-- `remove_row`: the byte count saturates at 0, and the idempotency tokens of the row are forgotten.
unfoldable pub remove_row : ℕ → Mailbox → Mailbox
unfolding row_at
remove_row seq box = elim (row_at seq box.rows) [
  | none ↦ box
  | some row ↦ record box {
    rows = delete_row seq box.rows;
    bytes = box.bytes - envelope_size row.inner;
    idempotency = Map.retain (λ s. not (s == seq)) box.idempotency;
  }
]

unfoldable pub remove_rows : List ℕ → Mailbox → Mailbox
unfolding remove_row
remove_rows [] box = box
remove_rows (seq ∷ seqs) box = remove_rows seqs (remove_row seq box)

unfoldable pub envelope_expiry : ℕ → TtlBucket → ℕ → ℕ
envelope_expiry now ttl max_age = elim (ttl_secs ttl) [
  | none ↦ saturating_add now max_age
  | some s ↦ min (saturating_add now s) (saturating_add now max_age)
]

-- The test of the first pass of `gc_mailbox`.
unfoldable pub row_expired : ℕ → ℕ → StoredEnvelope → Bool
row_expired now max_age r = leb r.expires_at now || ltb max_age (now - r.received_at)

-- The keys of the rows that pass a test: `rows.iter().filter(..).map(|(s, _)| *s).collect()`.
unfoldable pub seqs_where : (ℕ → StoredEnvelope → Bool) → Rows → List ℕ
seqs_where p [] = []
seqs_where p ((s, r) ∷ rows) = let rest = seqs_where p rows in if p s r then s ∷ rest else rest

-- One round of `while box_.bytes > max_bytes`: the oldest row goes, if there is one.
unfoldable pub evict_step : (Mailbox → Mailbox × List ℕ) → ℕ → Mailbox → Rows → Mailbox × List ℕ
unfolding remove_row
evict_step again max_bytes box [] = (box, [])
evict_step again max_bytes box ((oldest, _) ∷ _) =
    let rest = again (remove_row oldest box) in
    if ltb max_bytes box.bytes then (rest.0, oldest ∷ rest.1) else (box, [])

-- The loop, with the sequence numbers that went. A round removes a row, so as many rounds as there are
-- rows are enough.
unfoldable pub evict : ℕ → ℕ → Mailbox → Mailbox × List ℕ
unfolding evict_step
evict zero max_bytes box = (box, [])
evict (suc rounds) max_bytes box = evict_step (evict rounds max_bytes) max_bytes box box.rows

-- The work of `gc_mailbox` on the mailbox, with the sequence numbers that it dropped.
unfoldable pub collect : ℕ → ℕ → ℕ → Mailbox → Mailbox × List ℕ
unfolding evict seqs_where remove_rows
collect now max_age max_bytes box =
    let expired = seqs_where (λ s r. row_expired now max_age r) box.rows in
    let box' = remove_rows expired box in
    let (box'', oldest) = evict (length box'.rows) max_bytes box' in (box'', expired ++ oldest)

abbrev pub new_row : ℕ → ℕ → InnerEnvelope → ℕ → StoredEnvelope
new_row now max_age inner seq = record {
  seq = seq;
  received_at = now;
  expires_at = envelope_expiry now inner.ttl_bucket max_age;
  inner = inner;
}

-- The part of `append_inner` after the checks: the row is stored under the next sequence number.
unfoldable pub store_envelope : ℕ → ℕ → InnerEnvelope → ℕ → Mailbox → Mailbox
unfolding insert_row envelope_expiry
store_envelope now max_age inner size box =
    let seq = box.next_seq in
    record box {
      next_seq = add64 seq 1;
      idempotency = Map.insert inner.idempotency_token seq box.idempotency;
      bytes = add64 box.bytes size;
      rows = insert_row seq (new_row now max_age inner seq) box.rows;
    }

-- `box_.rows.values().filter(..).take(..)` of `fetch`
unfoldable pub select_rows : ℕ → ℕ → Rows → List StoredEnvelope
select_rows now cursor [] = []
select_rows now cursor ((s, r) ∷ rows) =
    let rest = select_rows now cursor rows in
    if ltb cursor r.seq && ltb now r.expires_at then r ∷ rest else rest

unfoldable pub fetch_rows : ℕ → ℕ → ℕ → Mailbox → List StoredEnvelope
unfolding select_rows
fetch_rows now cursor limit box = take limit (select_rows now cursor box.rows)

-- `ack` takes rows out as `remove_row` does, and leaves the idempotency tokens.
unfoldable pub ack_row : ℕ → Mailbox → Mailbox
unfolding row_at
ack_row seq box = elim (row_at seq box.rows) [
  | none ↦ box
  | some row ↦ record box {
    rows = delete_row seq box.rows;
    bytes = box.bytes - envelope_size row.inner;
  }
]

unfoldable pub ack_rows : List ℕ → Mailbox → Mailbox
unfolding ack_row
ack_rows [] box = box
ack_rows (seq ∷ seqs) box = ack_rows seqs (ack_row seq box)

-- The part of `ack` after the checks: every row up to the cursor goes.
unfoldable pub ack_upto : ℕ → Mailbox → Mailbox
unfolding ack_rows seqs_where
ack_upto up_to box = ack_rows (seqs_where (λ s r. leb s up_to) box.rows) box

-- `head`: the highest sequence number that was given out.
unfoldable pub head_seq : Mailbox → ℕ
head_seq box = box.next_seq - 1
