-- ===== src/Server/Groups/Steps/Fair.antt =====
-- Along the steps of a group, at most one waiting entry names a credential, and none names a live one.
use nemo_messenger.Prelude.{
  ℕ, ◌+◌, ◌≤◌, ◌≡◌, Bool, true, false, Option, none, some, [], ◌∷◌, if◌then◌else◌, arith,
  Bool-cases, inl, inr,
}
use nemo_messenger.Prelude.Bytes.{Bytes, beq, beq_iff}
use nemo_messenger.Prelude.Map
use nemo_messenger.Prelude.Map.{Map, AllValues, get-insert}
use nemo_messenger.Server.Groups.{CredRecord, PendingRecord, GroupState}
use nemo_messenger.Server.Groups.Steps.{
  GroupStep, invite, narrow, cancel, reserve, let_in, adjust, shut_out, post, GroupPath, stay, go,
  IsNew,
}
use nemo_messenger.Server.Groups.Steps.Gone.{IsOther}

module _ (cid : Bytes) where
  abbrev one_if : PendingRecord → ℕ
  one_if p = if beq p.cred.credential_id cid then 1 else 0

  -- How many waiting entries name the credential.
  abbrev waiting_for : Map PendingRecord → ℕ
  waiting_for [] = 0
  waiting_for ((j, p) ∷ m) = one_if p + waiting_for m

  -- How many may: one, if the credential is known and not live.
  abbrev allowance : Option CredRecord → ℕ
  allowance none = 0
  allowance (some rec) = if rec.live then 0 else 1

  abbrev pub Fair : GroupState → Type 0
  Fair g = waiting_for g.pending ≤ allowance (Map.get cid g.creds)

  waiting_for-insert :
      (k : Bytes) (p : PendingRecord) (m : Map PendingRecord)
      → waiting_for (Map.insert k p m) ≤ waiting_for m + one_if p
  unfolding Map.insert
  waiting_for-insert k p [] = omega arith
  waiting_for-insert k p ((j, q) ∷ m) = elim (Bool-cases (beq j k)) [
    | inl same ↦ rw same (omega arith)
    | inr other ↦ rw other (omega (arith, waiting_for-insert k p m))
  ]

  waiting_for-remove :
      (k : Bytes) (m : Map PendingRecord) → waiting_for (Map.remove k m) ≤ waiting_for m
  unfolding Map.remove
  waiting_for-remove k [] = omega arith
  waiting_for-remove k ((j, q) ∷ m) = elim (Bool-cases (beq j k)) [
    | inl same ↦ rw same (omega (arith, waiting_for-remove k m))
    | inr other ↦ rw other (omega (arith, waiting_for-remove k m))
  ]

  waiting_for-take_out :
      (k : Bytes) (p : PendingRecord) (m : Map PendingRecord)
      → Map.get k m ≡ some p
      → waiting_for (Map.remove k m) + one_if p ≤ waiting_for m
  unfolding Map.remove Map.get
  waiting_for-take_out k p [] e = cc
  waiting_for-take_out k p ((j, q) ∷ m) e = elim (Bool-cases (beq j k)) [
    | inl same ↦
        let mine : q ≡ p = cc (rw same at e) in
        rw (same, ← mine) (omega (arith, waiting_for-remove k m))
    | inr other ↦ rw other (omega (arith, waiting_for-take_out k p m (rw other at e)))
  ]

  waiting_for-retain :
      (stays : PendingRecord → Bool) (m : Map PendingRecord)
      → waiting_for (Map.retain stays m) ≤ waiting_for m
  unfolding Map.retain
  waiting_for-retain stays [] = omega arith
  waiting_for-retain stays ((j, q) ∷ m) = elim (Bool-cases (stays q)) [
    | inl kept ↦ rw kept (omega (arith, waiting_for-retain stays m))
    | inr gone ↦ rw gone (omega (arith, waiting_for-retain stays m))
  ]

  reserve-Fair :
      (j : Bytes) (rec : CredRecord) (p : PendingRecord) (creds : Map CredRecord) (n n' : ℕ)
      → Map.get j creds ≡ none
      → rec.live ≡ false
      → p.cred.credential_id ≡ j
      → n' ≤ n + one_if p
      → n ≤ allowance (Map.get cid creds)
      → n' ≤ allowance (Map.get cid (Map.insert j rec creds))
  reserve-Fair j rec p creds n n' fresh dormant names grows v = elim (Bool-cases (beq j cid)) [
    | inl mine ↦
        let same : j ≡ cid = (beq_iff j cid).0 mine in
        let before : n ≤ 0 = rw (← same, fresh) at v in
        rw (get-insert j cid rec creds, mine, dormant) (omega (arith, rw (names, mine) at grows))
    | inr other ↦ rw (get-insert j cid rec creds, other) (omega (arith, rw (names, other) at grows))
  ]

  write-Fair :
      (j : Bytes) (rec rec' : CredRecord) (creds : Map CredRecord) (n : ℕ)
      → Map.get j creds ≡ some rec
      → allowance (some rec) ≤ allowance (some rec')
      → n ≤ allowance (Map.get cid creds)
      → n ≤ allowance (Map.get cid (Map.insert j rec' creds))
  write-Fair j rec rec' creds n known more v = elim (Bool-cases (beq j cid)) [
    | inl mine ↦
        let same : j ≡ cid = (beq_iff j cid).0 mine in
        let before : n ≤ allowance (some rec) = rw (← same, known) at v in
        rw (get-insert j cid rec' creds, mine) (omega arith)
    | inr other ↦ rw (get-insert j cid rec' creds, other) v
  ]

  let_in-Fair :
      (p : PendingRecord) (rec : CredRecord) (creds : Map CredRecord) (n n' : ℕ)
      → n' + one_if p ≤ n
      → n ≤ allowance (Map.get cid creds)
      → n' ≤ allowance (Map.get cid (Map.insert p.cred.credential_id rec creds))
  let_in-Fair p rec creds n n' taken v = elim (Bool-cases (beq p.cred.credential_id cid)) [
    | inl mine ↦
        let one : allowance (Map.get cid creds) ≤ 1 = at_most_one (Map.get cid creds) in
        let gone : n' ≤ 0 = omega (arith, rw mine at taken) in
        rw (get-insert p.cred.credential_id cid rec creds, mine) (omega arith)
    | inr other ↦
        rw (get-insert p.cred.credential_id cid rec creds, other) (omega (arith, rw other at taken))
  ]
    where
      at_most_one : (o : Option CredRecord) → allowance o ≤ 1
      at_most_one none = omega arith
      at_most_one (some r) = ground arith

  GroupStep-Fair : (g k : GroupState) → GroupStep g k → Fair g → Fair k
  GroupStep-Fair g k (invite _ invites) v = v
  GroupStep-Fair g k (narrow _ stays) v = omega (arith, waiting_for-retain stays g.pending)
  GroupStep-Fair g k (cancel _ pending_id) v =
      omega (arith, waiting_for-remove pending_id g.pending)
  GroupStep-Fair g k (reserve _ j pending_id rec p fresh dormant names) v =
      reserve-Fair j rec p g.creds (waiting_for g.pending) _ fresh dormant names
        (waiting_for-insert pending_id p g.pending) v
  GroupStep-Fair g k (let_in _ pending_id p rec found) v =
      let_in-Fair p rec g.creds (waiting_for g.pending) _
        (waiting_for-take_out pending_id p g.pending found) v
  GroupStep-Fair g k (adjust _ j rec rec' known l) v =
      write-Fair j rec rec' g.creds (waiting_for g.pending) known (rw l (omega arith)) v
  GroupStep-Fair g k (shut_out _ j rec rec' known l) v =
      write-Fair j rec rec' g.creds (waiting_for g.pending) known (rw l (ground arith)) v
  GroupStep-Fair g k (post _ r numbered fits) v = v

  pub GroupPath-Fair : (g k : GroupState) → GroupPath g k → Fair g → Fair k
  GroupPath-Fair g k stay v = v
  GroupPath-Fair g k (go m _ p s) v = GroupStep-Fair m k s (GroupPath-Fair g m p v)

  pub IsNew-Fair : (g : GroupState) → IsNew g → Fair g
  IsNew-Fair g v = rw v.pending (omega arith)

  none_waiting : (m : Map PendingRecord) → waiting_for m ≤ 0 → AllValues (IsOther cid) m
  none_waiting [] e = tt
  none_waiting ((j, p) ∷ m) e = (ground (arith, e), none_waiting m (omega arith))

  pub live-not_waiting :
      (g : GroupState) (rec : CredRecord)
      → Fair g
      → Map.get cid g.creds ≡ some rec
      → rec.live ≡ true
      → AllValues (IsOther cid) g.pending
  live-not_waiting g rec v known live = none_waiting g.pending (rw (known, live) at v)
