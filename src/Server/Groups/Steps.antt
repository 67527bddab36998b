-- ===== src/Server/Groups/Steps.antt =====
-- What a group is meant to go through, apart from how crates/nemo-server/src/group.rs does it: the steps
-- of a group, and the paths that they make.
pub mod Log
pub mod Gone
pub mod Fair
use nemo_messenger.Prelude.{
  ℕ, ◌+◌, ◌<◌, ◌≤◌, ◌^◌, ◌≡◌, Bool, false, Option, none, some, [], ◌∷◌, ◌++◌, length,
}
use nemo_messenger.Prelude.Bytes.{Bytes}
use nemo_messenger.Prelude.Map
use nemo_messenger.Prelude.Map.{Map}
use nemo_messenger.Server.Groups.{CredRecord, StoredInvite, PendingRecord, StreamRow, GroupState}

-- A new credential comes in dormant and under a new name, and only a waiting entry that names it makes it
-- live. Appending a row gives it the number
-- that is next, and keeps the rows within 2 GiB.
pub data GroupStep : GroupState → GroupState → Type 0 where
  invite :
      (g : GroupState) (invites : Map StoredInvite) → GroupStep g (record g { invites = invites })
  narrow :
      (g : GroupState) (stays : PendingRecord → Bool)
      → GroupStep g (record g { pending = Map.retain stays g.pending })
  cancel :
      (g : GroupState) (pending_id : Bytes)
      → GroupStep g (record g { pending = Map.remove pending_id g.pending })
  reserve :
      (g : GroupState) (cid pending_id : Bytes) (rec : CredRecord) (p : PendingRecord)
      → Map.get cid g.creds ≡ none
      → rec.live ≡ false
      → p.cred.credential_id ≡ cid
      → GroupStep g (record g {
        creds = Map.insert cid rec g.creds;
        pending = Map.insert pending_id p g.pending;
      })
  let_in :
      (g : GroupState) (pending_id : Bytes) (p : PendingRecord) (rec : CredRecord)
      → Map.get pending_id g.pending ≡ some p
      → GroupStep g (record g {
        creds = Map.insert p.cred.credential_id rec g.creds;
        pending = Map.remove pending_id g.pending;
      })
  adjust :
      (g : GroupState) (cid : Bytes) (rec rec' : CredRecord)
      → Map.get cid g.creds ≡ some rec
      → rec'.live ≡ rec.live
      → GroupStep g (record g { creds = Map.insert cid rec' g.creds })
  shut_out :
      (g : GroupState) (cid : Bytes) (rec rec' : CredRecord)
      → Map.get cid g.creds ≡ some rec
      → rec'.live ≡ false
      → GroupStep g (record g { creds = Map.insert cid rec' g.creds })
  post :
      (g : GroupState) (row : StreamRow)
      → row.seq ≡ g.next_seq
      → g.bytes + length row.body ≤ 2 ^ 31
      → GroupStep g (record g {
        next_seq = g.next_seq + 1;
        bytes = g.bytes + length row.body;
        stream = g.stream ++ (row ∷ []);
      })

pub data GroupPath (g : GroupState) : GroupState → Type 0 where
  stay : GroupPath g g
  go : (m k : GroupState) → GroupPath g m → GroupStep m k → GroupPath g k

pub one_step : (g k : GroupState) → GroupStep g k → GroupPath g k
one_step g k s = go g k stay s

pub trans_path : (g m k : GroupState) → GroupPath g m → GroupPath m k → GroupPath g k
trans_path g m k p stay = p
trans_path g m k p (go n _ q s) = go n k (trans_path g m n p q) s

-- A group that has just been founded.
pub record IsNew (g : GroupState) : Type 0 where
  pub next_seq : g.next_seq ≡ 1
  pub bytes : g.bytes ≡ 0
  pub stream : g.stream ≡ []
  pub pending : g.pending ≡ []

-- What may become of the group under an identifier.
pub data FatePath : Option GroupState → Option GroupState → Type 0 where
  absent : FatePath none none
  founds : (g k : GroupState) → IsNew g → GroupPath g k → FatePath none (some k)
  ran : (g k : GroupState) → GroupPath g k → FatePath (some g) (some k)

pub trans_fate : (a b c : Option GroupState) → FatePath a b → FatePath b c → FatePath a c
trans_fate a b c absent q = q
trans_fate a b c (founds g k n p) (ran _ m q) = founds g m n (trans_path g k m p q)
trans_fate a b c (ran g k p) (ran _ m q) = ran g m (trans_path g k m p q)
