-- ===== src/Server/Dirty/Absorb.antt =====
-- Merging a drained journal back after a failed write (crates/nemo-server/src/home.rs, `absorb`).
use nemo_messenger.Prelude.{
  ℕ, ◌≡◌, refl, Bool, false, not, ◌&&◌, ◌||◌, Option, none, some, List, [], ◌∷◌, ◌++◌, max, arith,
  if◌then◌else◌, Bool-cases, inl, inr,
}
use mathlib.Core.Path.{subst, sym}
use nemo_messenger.Prelude.Bytes.{Bytes, beq, beq_iff}
use nemo_messenger.Prelude.Map
use nemo_messenger.Prelude.Map.{Map}
use nemo_messenger.Prelude.KeySet
use nemo_messenger.Prelude.KeySet.{KeySet}
use nemo_messenger.Server.Dirty.{HomeDirty, is_nil, is_clean, raise, merge_ack, merge_acks, absorb}

-- How far an owner has acknowledged; 0 if not at all.
abbrev pub mark_of : Option ℕ → ℕ
mark_of none = 0
mark_of (some u) = u

-- The highest mark that a list of acknowledgements gives an owner.
abbrev pub highest : Bytes → List (Bytes × ℕ) → ℕ
highest j [] = 0
highest j ((owner, upto) ∷ others) =
    if beq owner j then max upto (highest j others) else highest j others

raise-max : (upto : ℕ) (o : Option ℕ) → raise upto o ≡ max (mark_of o) upto
raise-max upto none = omega arith
raise-max upto (some u) = refl

mark-merge_ack :
    (j owner : Bytes) (upto : ℕ) (acked : Map ℕ)
    → mark_of (Map.get j (merge_ack owner upto acked))
      ≡ (if beq owner j then max (mark_of (Map.get j acked)) upto else mark_of (Map.get j acked))
unfolding merge_ack
mark-merge_ack j owner upto acked = elim (Bool-cases (beq owner j)) [
  | inl mine ↦
      let same : owner ≡ j = (beq_iff owner j).0 mine in
      rw (Map.get-insert owner j (raise upto (Map.get owner acked)) acked, mine)
        (subst (λ o. raise upto (Map.get o acked) ≡ max (mark_of (Map.get j acked)) upto) (sym same)
          (raise-max upto (Map.get j acked)))
  | inr other ↦ rw (Map.get-insert owner j (raise upto (Map.get owner acked)) acked, other)
]

pub mark-merge_acks :
    (j : Bytes) (acked others : Map ℕ)
    → mark_of (Map.get j (merge_acks acked others))
      ≡ max (mark_of (Map.get j acked)) (highest j others)
unfolding merge_acks
mark-merge_acks j acked [] = omega arith
mark-merge_acks j acked ((owner, upto) ∷ others) = ground (
  arith,
  mark-merge_acks j (merge_ack owner upto acked) others,
  mark-merge_ack j owner upto acked,
)

nil-append {ℓ} : {A : Type ℓ} (xs ys : List A) → is_nil (xs ++ ys) ≡ (is_nil xs && is_nil ys)
nil-append [] ys = refl
nil-append (x ∷ xs) ys = refl

nil-add : (k : Bytes) (s : KeySet) → is_nil (KeySet.add k s) ≡ false
unfolding KeySet.add KeySet.has
nil-add k [] = refl
nil-add k (j ∷ s) = ground arith

nil-extend : (s t : KeySet) → is_nil (KeySet.extend s t) ≡ (is_nil s && is_nil t)
unfolding KeySet.extend
nil-extend s [] = ground arith
nil-extend s (k ∷ t) = rw (nil-extend (KeySet.add k s) t, nil-add k s) (ground arith)

nil-insert : (k : Bytes) (v : ℕ) (m : Map ℕ) → is_nil (Map.insert k v m) ≡ false
unfolding Map.insert
nil-insert k v [] = refl
nil-insert k v ((j, w) ∷ m) = ground arith

nil-merge_acks : (s t : Map ℕ) → is_nil (merge_acks s t) ≡ (is_nil s && is_nil t)
unfolding merge_acks merge_ack
nil-merge_acks s [] = ground arith
nil-merge_acks s ((owner, upto) ∷ t) =
    rw
      (nil-merge_acks (merge_ack owner upto s) t, nil-insert owner (raise upto (Map.get owner s)) s)
      (ground arith)

-- `a` is the conjunction of `b` and `c`.
record Meets (a b c : Bool) : Type 0 where
  meets : a ≡ (b && c)

neither : (b c : Bool) → Meets (not (b || c)) (not b) (not c)
neither b c = record { meets = ground arith }

appended {ℓ} : {A : Type ℓ} (xs ys : List A) → Meets (is_nil (xs ++ ys)) (is_nil xs) (is_nil ys)
appended xs ys = record { meets = nil-append xs ys }

extended : (s t : KeySet) → Meets (is_nil (KeySet.extend s t)) (is_nil s) (is_nil t)
extended s t = record { meets = nil-extend s t }

merged : (s t : Map ℕ) → Meets (is_nil (merge_acks s t)) (is_nil s) (is_nil t)
merged s t = record { meets = nil-merge_acks s t }

both : {a b c x y z : Bool} → Meets a b c → Meets x y z → Meets (a && x) (b && y) (c && z)
both {a} {b} {c} {x} {y} {z} h k = record { meets = rw (h.meets, k.meets) (ground arith) }

-- A merged journal is clean exactly if both were: a merge makes up no change and loses none whole.
pub is_clean-absorb :
    (d other : HomeDirty) → is_clean (absorb d other) ≡ (is_clean d && is_clean other)
unfolding is_clean absorb
is_clean-absorb d other =
    let fields = both (neither d.server_identity other.server_identity) (
      both (extended d.identities other.identities) (
        both (appended d.mailbox_new other.mailbox_new) (
          both (merged d.mailbox_acked other.mailbox_acked) (
            both (appended d.mailbox_dropped other.mailbox_dropped) (
              both (extended d.mailbox_cleared other.mailbox_cleared) (
                both (extended d.tokens other.tokens) (
                  both (extended d.tokens_dropped other.tokens_dropped) (
                    both (extended d.tokens_dropped_exact other.tokens_dropped_exact) (
                      both (extended d.prekeys other.prekeys) (
                        both (extended d.memberships other.memberships) (
                          both (extended d.peers other.peers) (
                            both (neither d.outbound_dirty other.outbound_dirty) (
                              both (appended d.seen_enc_new other.seen_enc_new)
                                (neither d.seen_enc_cleared other.seen_enc_cleared)))))))))))))) in
    fields.meets

-- Merging keeps, for every owner, the higher of its two marks of acknowledgement, so that no
-- acknowledged row comes back.
pub mark-absorb :
    (j : Bytes) (d other : HomeDirty)
    → mark_of (Map.get j (absorb d other).mailbox_acked)
      ≡ max (mark_of (Map.get j d.mailbox_acked)) (highest j other.mailbox_acked)
unfolding absorb
mark-absorb j d other = mark-merge_acks j d.mailbox_acked other.mailbox_acked
