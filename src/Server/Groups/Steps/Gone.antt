-- ===== src/Server/Groups/Steps/Gone.antt =====
-- Who was removed from a group stays out along its steps.
use nemo_messenger.Prelude.{◌≡◌, ◌∙◌, false, some, arith, Bool-cases, inl, inr}
use nemo_messenger.Prelude.Bytes.{Bytes, beq, beq_iff}
use nemo_messenger.Prelude.Map
use nemo_messenger.Prelude.Map.{
  Map, AllValues, get-insert, get-insert_self, get-AllValues, insert-AllValues, remove-AllValues,
  retain-AllValues,
}
use nemo_messenger.Server.Groups.{CredRecord, PendingRecord, GroupState}
use nemo_messenger.Server.Groups.Steps.{
  GroupStep, invite, narrow, cancel, reserve, let_in, adjust, shut_out, post, GroupPath, stay, go,
}

-- A waiting entry is for another credential.
abbrev pub IsOther : Bytes → PendingRecord → Type 0
IsOther cid p = beq p.cred.credential_id cid ≡ false

-- The credential is known and not live, and no waiting entry can bring it back.
pub record Gone (cid : Bytes) (g : GroupState) : Type 0 where
  pub state : CredRecord
  pub known : Map.get cid g.creds ≡ some state
  pub dormant : state.live ≡ false
  pub not_waiting : AllValues (IsOther cid) g.pending

module _ (cid : Bytes) where
  -- Writing another credential's record.
  insert-Gone :
      (j : Bytes) (rec : CredRecord) (creds : Map CredRecord) (s : CredRecord)
      → beq j cid ≡ false
      → Map.get cid creds ≡ some s
      → Map.get cid (Map.insert j rec creds) ≡ some s
  insert-Gone j rec creds s other e = rw (get-insert j cid rec creds, other) e

  put_cred-Gone :
      (g : GroupState) (j : Bytes) (rec rec' : CredRecord)
      → Map.get j g.creds ≡ some rec
      → (rec.live ≡ false → rec'.live ≡ false)
      → Gone cid g
      → Gone cid (record g { creds = Map.insert j rec' g.creds })
  put_cred-Gone g j rec rec' e keeps v = elim (Bool-cases (beq j cid)) [
    | inl mine ↦
        let same : j ≡ cid = (beq_iff j cid).0 mine in
        let it : rec ≡ v.state = cc in
        record {
          state = rec';
          known = rw (← same) (get-insert_self j rec' g.creds);
          dormant = keeps (rw (it) v.dormant);
          not_waiting = v.not_waiting;
        }
    | inr other ↦ record {
      state = v.state;
      known = insert-Gone j rec' g.creds v.state other v.known;
      dormant = v.dormant;
      not_waiting = v.not_waiting;
    }
  ]

  pub GroupStep-Gone : (g k : GroupState) → GroupStep g k → Gone cid g → Gone cid k
  GroupStep-Gone g k (invite _ invites) v = record {
    state = v.state;
    known = v.known;
    dormant = v.dormant;
    not_waiting = v.not_waiting;
  }
  GroupStep-Gone g k (narrow _ stays) v = record {
    state = v.state;
    known = v.known;
    dormant = v.dormant;
    not_waiting = retain-AllValues (IsOther cid) stays g.pending v.not_waiting;
  }
  GroupStep-Gone g k (cancel _ pending_id) v = record {
    state = v.state;
    known = v.known;
    dormant = v.dormant;
    not_waiting = remove-AllValues (IsOther cid) pending_id g.pending v.not_waiting;
  }
  GroupStep-Gone g k (reserve _ j pending_id rec p fresh d n) v =
      let other : beq j cid ≡ false = ground (arith, beq_iff j cid, v.known) in
      record {
        state = v.state;
        known = insert-Gone j rec g.creds v.state other v.known;
        dormant = v.dormant;
        not_waiting =
            insert-AllValues (IsOther cid) pending_id p g.pending (rw (n) other) v.not_waiting;
      }
  GroupStep-Gone g k (let_in _ pending_id p rec e) v =
      let other = get-AllValues (IsOther cid) pending_id g.pending v.not_waiting e in
      record {
        state = v.state;
        known = insert-Gone p.cred.credential_id rec g.creds v.state other v.known;
        dormant = v.dormant;
        not_waiting = remove-AllValues (IsOther cid) pending_id g.pending v.not_waiting;
      }
  GroupStep-Gone g k (adjust _ j rec rec' e l) v = put_cred-Gone g j rec rec' e (λ h. l ∙ h) v
  GroupStep-Gone g k (shut_out _ j rec rec' e l) v = put_cred-Gone g j rec rec' e (λ h. l) v
  GroupStep-Gone g k (post _ r numbered fits) v = record {
    state = v.state;
    known = v.known;
    dormant = v.dormant;
    not_waiting = v.not_waiting;
  }

  pub GroupPath-Gone : (g k : GroupState) → GroupPath g k → Gone cid g → Gone cid k
  GroupPath-Gone g k stay v = v
  GroupPath-Gone g k (go m _ p s) v = GroupStep-Gone m k s (GroupPath-Gone g m p v)
