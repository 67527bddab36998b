-- ===== src/Server/Dirty.antt =====
-- crates/nemo-server/src/home.rs: `HomeDirty`, the journal of what changed since the last write to the
-- database.
pub mod Absorb
use nemo_messenger.Prelude.{
  ℕ, ◌+◌, ◌≤◌, ◌≡◌, refl, Bool, true, false, not, ◌&&◌, ◌||◌, Option, none, some, List, [], ◌∷◌,
  ◌++◌, max, arith, if◌then◌else◌,
}
use nemo_messenger.Prelude.Bytes.{Bytes, beq, beq_iff}
use nemo_messenger.Prelude.Map
use nemo_messenger.Prelude.Map.{Map}
use nemo_messenger.Prelude.KeySet
use nemo_messenger.Prelude.KeySet.{KeySet}

pub record HomeDirty : Type 0 where
  pub server_identity : Bool
  pub identities : KeySet
  pub mailbox_new : List (Bytes × ℕ)
  pub mailbox_acked : Map ℕ
  pub mailbox_dropped : List (Bytes × ℕ)
  pub mailbox_cleared : KeySet
  pub tokens : KeySet
  pub tokens_dropped : KeySet
  pub tokens_dropped_exact : KeySet
  pub prekeys : KeySet
  pub memberships : KeySet
  pub peers : KeySet
  pub outbound_dirty : Bool
  pub seen_enc_new : List Bytes
  pub seen_enc_cleared : Bool

-- `HomeDirty::default()`
abbrev pub clean_dirty : HomeDirty
clean_dirty = record {
  server_identity = false;
  identities = [];
  mailbox_new = [];
  mailbox_acked = [];
  mailbox_dropped = [];
  mailbox_cleared = [];
  tokens = [];
  tokens_dropped = [];
  tokens_dropped_exact = [];
  prekeys = [];
  memberships = [];
  peers = [];
  outbound_dirty = false;
  seen_enc_new = [];
  seen_enc_cleared = false;
}

abbrev pub is_nil {ℓ} : {A : Type ℓ} → List A → Bool
is_nil [] = true
is_nil (_ ∷ _) = false

unfoldable pub is_clean : HomeDirty → Bool
is_clean d =
    not d.server_identity
    && (is_nil d.identities
        && (is_nil d.mailbox_new
            && (is_nil d.mailbox_acked
                && (is_nil d.mailbox_dropped
                    && (is_nil d.mailbox_cleared
                        && (is_nil d.tokens
                            && (is_nil d.tokens_dropped
                                && (is_nil d.tokens_dropped_exact
                                    && (is_nil d.prekeys
                                        && (is_nil d.memberships
                                            && (is_nil d.peers
                                                && (not d.outbound_dirty
                                                    && (is_nil d.seen_enc_new
                                                        && not d.seen_enc_cleared)))))))))))))

abbrev pub raise : ℕ → Option ℕ → ℕ
raise upto none = upto
raise upto (some u) = max u upto

-- `entry(owner).and_modify(|u| *u = (*u).max(upto)).or_insert(upto)`
unfoldable pub merge_ack : Bytes → ℕ → Map ℕ → Map ℕ
merge_ack owner upto acked = Map.insert owner (raise upto (Map.get owner acked)) acked

unfoldable pub dirty_ack_upto : Bytes → ℕ → HomeDirty → HomeDirty
unfolding merge_ack
dirty_ack_upto owner upto d = record d { mailbox_acked = merge_ack owner upto d.mailbox_acked }

-- The loop of `absorb` over the other journal's acknowledgements.
unfoldable pub merge_acks : Map ℕ → Map ℕ → Map ℕ
unfolding merge_ack
merge_acks acked [] = acked
merge_acks acked ((owner, upto) ∷ others) = merge_acks (merge_ack owner upto acked) others

unfoldable pub absorb : HomeDirty → HomeDirty → HomeDirty
unfolding merge_acks
absorb d other = record {
  server_identity = d.server_identity || other.server_identity;
  identities = KeySet.extend d.identities other.identities;
  mailbox_new = d.mailbox_new ++ other.mailbox_new;
  mailbox_acked = merge_acks d.mailbox_acked other.mailbox_acked;
  mailbox_dropped = d.mailbox_dropped ++ other.mailbox_dropped;
  mailbox_cleared = KeySet.extend d.mailbox_cleared other.mailbox_cleared;
  tokens = KeySet.extend d.tokens other.tokens;
  tokens_dropped = KeySet.extend d.tokens_dropped other.tokens_dropped;
  tokens_dropped_exact = KeySet.extend d.tokens_dropped_exact other.tokens_dropped_exact;
  prekeys = KeySet.extend d.prekeys other.prekeys;
  memberships = KeySet.extend d.memberships other.memberships;
  peers = KeySet.extend d.peers other.peers;
  outbound_dirty = d.outbound_dirty || other.outbound_dirty;
  seen_enc_new = d.seen_enc_new ++ other.seen_enc_new;
  seen_enc_cleared = d.seen_enc_cleared || other.seen_enc_cleared;
}
