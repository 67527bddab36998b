-- ===== src/Server/Groups/Steps/Log.antt =====
-- The stream along the steps of a group: a log that is numbered without gaps, kept within its size limit
-- and only ever appended to.
use nemo_messenger.Prelude.{
  ℕ, suc, ◌+◌, ◌≤◌, ◌≡◌, refl, ap, ◌∙◌, sym, List, [], ◌∷◌, ◌++◌, length, arith, length-append,
}
use mathlib.Core.List.{append_assoc, append-nil}
use nemo_messenger.Server.Groups.{GroupState, StreamRow, stream_max_bytes}
use nemo_messenger.Server.Groups.Steps.{
  GroupStep, invite, narrow, cancel, reserve, let_in, adjust, shut_out, post, GroupPath, stay, go,
  IsNew,
}

-- The rows are numbered one after the other, the first by `n`.
abbrev pub Numbered : ℕ → List StreamRow → Type 0
Numbered n [] = Unit
Numbered n (r ∷ rows) = (r.seq ≡ n) × Numbered (suc n) rows

abbrev pub total_bytes : List StreamRow → ℕ
total_bytes [] = 0
total_bytes (r ∷ rows) = length r.body + total_bytes rows

pub record IsStream (g : GroupState) : Type 0 where
  pub rows : Numbered 1 g.stream
  pub next : g.next_seq ≡ 1 + length g.stream
  pub size : g.bytes ≡ total_bytes g.stream
  pub limit : g.bytes ≤ stream_max_bytes

Numbered-append :
    (n m : ℕ) (rows : List StreamRow) (r : StreamRow)
    → Numbered n rows
    → m ≡ n + length rows
    → r.seq ≡ m
    → Numbered n (rows ++ (r ∷ []))
Numbered-append n m [] r h e s = (omega arith, tt)
Numbered-append n m (x ∷ rows) r h e s = (h.0, Numbered-append (suc n) m rows r h.1 (omega arith) s)

total_bytes-append :
    (rows : List StreamRow) (r : StreamRow)
    → total_bytes (rows ++ (r ∷ [])) ≡ total_bytes rows + length r.body
total_bytes-append [] r = omega arith
total_bytes-append (x ∷ rows) r = omega (arith, total_bytes-append rows r)

same_stream :
    (g k : GroupState)
    → k.stream ≡ g.stream
    → k.next_seq ≡ g.next_seq
    → k.bytes ≡ g.bytes
    → IsStream g
    → IsStream k
same_stream g k es en eb v = record {
  rows = rw es v.rows;
  next = rw (es, en) v.next;
  size = rw (es, eb) v.size;
  limit = rw eb v.limit;
}

pub GroupStep-IsStream : (g k : GroupState) → GroupStep g k → IsStream g → IsStream k
GroupStep-IsStream g k (invite _ invites) v = same_stream g k refl refl refl v
GroupStep-IsStream g k (narrow _ stays) v = same_stream g k refl refl refl v
GroupStep-IsStream g k (cancel _ pending_id) v = same_stream g k refl refl refl v
GroupStep-IsStream g k (reserve _ cid pending_id rec p e d n) v = same_stream g k refl refl refl v
GroupStep-IsStream g k (let_in _ pending_id p rec e) v = same_stream g k refl refl refl v
GroupStep-IsStream g k (adjust _ cid rec rec' e l) v = same_stream g k refl refl refl v
GroupStep-IsStream g k (shut_out _ cid rec rec' e l) v = same_stream g k refl refl refl v
GroupStep-IsStream g k (post _ r numbered fits) v = record {
  rows = Numbered-append 1 g.next_seq g.stream r v.rows v.next numbered;
  next = omega (arith, v.next, length-append g.stream (r ∷ []));
  size = omega (arith, v.size, total_bytes-append g.stream r);
  limit = omega (arith, fits);
}

pub GroupPath-IsStream : (g k : GroupState) → GroupPath g k → IsStream g → IsStream k
GroupPath-IsStream g k stay v = v
GroupPath-IsStream g k (go m _ p s) v = GroupStep-IsStream m k s (GroupPath-IsStream g m p v)

pub IsNew-IsStream : (g : GroupState) → IsNew g → IsStream g
IsNew-IsStream g v = record {
  rows = rw v.stream tt;
  next = rw v.stream (omega (arith, v.next_seq));
  size = rw v.stream v.bytes;
  limit = omega (arith, v.bytes);
}

-- The stream grew by `more` at its end.
abbrev pub Extends : GroupState → GroupState → Type 0
Extends g k = (more : List StreamRow) × (k.stream ≡ g.stream ++ more)

unchanged : (g k : GroupState) → k.stream ≡ g.stream → Extends g k
unchanged g k e = ([], e ∙ sym (append-nil g.stream))

GroupStep-Extends : (g k : GroupState) → GroupStep g k → Extends g k
GroupStep-Extends g k (invite _ invites) = unchanged g k refl
GroupStep-Extends g k (narrow _ stays) = unchanged g k refl
GroupStep-Extends g k (cancel _ pending_id) = unchanged g k refl
GroupStep-Extends g k (reserve _ cid pending_id rec p e d n) = unchanged g k refl
GroupStep-Extends g k (let_in _ pending_id p rec e) = unchanged g k refl
GroupStep-Extends g k (adjust _ cid rec rec' e l) = unchanged g k refl
GroupStep-Extends g k (shut_out _ cid rec rec' e l) = unchanged g k refl
GroupStep-Extends g k (post _ r numbered fits) = (r ∷ [], refl)

pub GroupPath-Extends : (g k : GroupState) → GroupPath g k → Extends g k
GroupPath-Extends g k stay = unchanged g g refl
GroupPath-Extends g k (go m _ p s) =
    let (first, e) = GroupPath-Extends g m p in
    let (then_on, e') = GroupStep-Extends m k s in
    (first ++ then_on, e' ∙ (ap (λ t. t ++ then_on) e ∙ append_assoc g.stream first then_on))
