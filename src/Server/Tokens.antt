-- ===== src/Server/Tokens.antt =====
-- crates/nemo-server/src/home.rs: capability tokens, what they admit, and when they are dead.
pub mod Lookup
pub mod Admit
pub mod Sweep
pub mod Newest
pub mod Idle
pub mod Survivors
use nemo_messenger.Prelude.{
  ℕ, suc, zero, ◌+◌, ◌-◌, Bool, true, false, not, ◌&&◌, ◌||◌, Option, none, some, List, [], ◌∷◌,
  ltb, leb, ◌==◌, if◌then◌else◌, saturating_add, add64,
}
use nemo_messenger.Prelude.Bytes.{Bytes, beq}
use nemo_messenger.Prelude.Map
use nemo_messenger.Prelude.Map.{Map}
use nemo_messenger.Prelude.KeySet
use nemo_messenger.Prelude.KeySet.{KeySet}

pub record ShareToken : Type 0 where
  pub mailbox : Bytes
  pub expires_at : ℕ
  pub burned : Bool
  pub reserved_prekey : Option Bytes

pub record ContactToken : Type 0 where
  pub mailbox : Bytes
  pub grace_until : Option ℕ
  pub window_start : ℕ
  pub window_count : ℕ

pub data TokenKind : Type 0 where
  share : ShareToken → TokenKind
  contact : ContactToken → TokenKind

-- `Vec<([u8; KEY_LEN], TokenKind)>`
abbrev pub Tokens : Type 0
Tokens = List (Bytes × TokenKind)

abbrev pub contact_grace_secs : ℕ
contact_grace_secs = 259200

abbrev pub contact_cap_idle_secs : ℕ
contact_cap_idle_secs = 2592000

abbrev pub share_expired_buffer_secs : ℕ
share_expired_buffer_secs = 86400

abbrev pub share_reserved_buffer_secs : ℕ
share_reserved_buffer_secs = 604800

abbrev pub rate_per_min : ℕ
rate_per_min = 30

abbrev pub token_mailbox : TokenKind → Bytes
token_mailbox (share s) = s.mailbox
token_mailbox (contact c) = c.mailbox

-- `token_belongs_to`
abbrev pub belongs_to : Bytes → TokenKind → Bool
belongs_to owner kind = beq (token_mailbox kind) owner

abbrev or_else : Option TokenKind → Option TokenKind → Option TokenKind
or_else (some found) _ = some found
or_else none other = other

abbrev is_some : Option TokenKind → Bool
is_some (some _) = true
is_some none = false

-- `token`: the last entry with the key.
unfoldable pub token : Bytes → Tokens → Option TokenKind
token want [] = none
token want ((k, v) ∷ ts) = or_else (token want ts) (if beq k want then some v else none)

-- `*token_mut(want) = v`: the last entry with the key is replaced.
unfoldable pub set_token : Bytes → TokenKind → Tokens → Tokens
unfolding token
set_token want v [] = []
set_token want v ((k, w) ∷ ts) =
    let rest = set_token want v ts in
    if is_some (token want ts)
    then (k, w) ∷ rest
    else if beq k want
    then (k, v) ∷ ts
    else (k, w) ∷ ts

abbrev over : ℕ → Option ℕ → Bool
over now none = false
over now (some grace) = leb grace now

-- The arm of `authorize_append` for a contact token: the token afterwards, and whether it admits.
unfoldable pub contact_admit : ℕ → ContactToken → ContactToken × Bool
contact_admit now c =
    if over now c.grace_until
    then (c, false)
    else let w =
        if leb 60 (now - c.window_start)
        then record c { window_start = now; window_count = 0 }
        else c in
      if leb rate_per_min w.window_count
      then (w, false)
      else (record w { window_count = w.window_count + 1 }, true)

-- The arm for a share token, which `authorize_append` leaves as it is.
abbrev pub share_admits : ℕ → ShareToken → Bool
share_admits now s = not s.burned && ltb now s.expires_at

-- What `authorize_append` makes of the token, and whether the token admits.
unfoldable pub admit : ℕ → TokenKind → TokenKind × Bool
unfolding contact_admit
admit now (share s) = (share s, share_admits now s)
admit now (contact c) = let (c', admitted) = contact_admit now c in (contact c', admitted)

-- `burn_if_share` on the token.
abbrev pub burn : TokenKind → TokenKind
burn (share s) = share (record s { burned = true })
burn (contact c) = contact c

abbrev pub share_buffer : Option Bytes → ℕ
share_buffer (some _) = share_reserved_buffer_secs
share_buffer none = share_expired_buffer_secs

unfoldable pub share_token_dead : ℕ → Option Bytes → ℕ → Bool
share_token_dead expires_at reserved_prekey now =
    ltb (saturating_add expires_at (share_buffer reserved_prekey)) now

unfoldable pub contact_token_dead : ℕ → ℕ → Bool
contact_token_dead window_start now = ltb contact_cap_idle_secs (now - window_start)

-- One round of the search for the newest contact token: `best` is the index and the window of the best
-- so far.
abbrev pub better : Option (ℕ × ℕ) → ℕ → ℕ → Bool
better none i start = true
better (some (bi, bs)) i start = ltb bs start || (start == bs && ltb bi i)

unfoldable pub newest_from : Bytes → ℕ → Option (ℕ × ℕ) → Tokens → Option (ℕ × ℕ)
newest_from owner i best [] = best
newest_from owner i best ((k, share s) ∷ ts) = newest_from owner (suc i) best ts
newest_from owner i best ((k, contact c) ∷ ts) =
    newest_from owner (suc i)
      (if beq c.mailbox owner && better best i c.window_start
        then some (i, c.window_start)
        else best)
      ts

abbrev pub index_of : Option (ℕ × ℕ) → Option ℕ
index_of none = none
index_of (some (i, _)) = some i

unfoldable pub newest_contact_idx_for : Bytes → Tokens → Option ℕ
unfolding newest_from
newest_contact_idx_for owner ts = index_of (newest_from owner 0 none ts)

abbrev pub is_index : Option ℕ → ℕ → Bool
is_index none i = false
is_index (some j) i = j == i

abbrev pub in_grace : ℕ → Option ℕ → Bool
in_grace now none = false
in_grace now (some grace) = ltb now grace

-- The test of both sweepers on a token whose mailbox is open: `survivor` is the index of the newest
-- contact token of that mailbox.
unfoldable pub kind_dead : ℕ → Option ℕ → ℕ → TokenKind → Bool
unfolding share_token_dead contact_token_dead
kind_dead now survivor i (share s) = share_token_dead s.expires_at s.reserved_prekey now
kind_dead now survivor i (contact c) =
    not (is_index survivor i)
    && (not (in_grace now c.grace_until) && contact_token_dead c.window_start now)

-- The keys of the entries that pass a test on their index and kind.
unfoldable pub keys_where : (ℕ → TokenKind → Bool) → ℕ → Tokens → List Bytes
keys_where p i [] = []
keys_where p i ((k, v) ∷ ts) =
    let rest = keys_where p (suc i) ts in if p i v then k ∷ rest else rest

-- `self.tokens.retain(|(tok, _)| !gone.contains(tok))`
unfoldable pub without : List Bytes → Tokens → Tokens
without gone [] = []
without gone ((k, v) ∷ ts) =
    let rest = without gone ts in if KeySet.has k gone then rest else (k, v) ∷ rest

-- `retain` by owner, in `disable_mailbox`.
unfoldable pub without_owner : Bytes → Tokens → Tokens
without_owner owner [] = []
without_owner owner ((k, v) ∷ ts) =
    let rest = without_owner owner ts in if belongs_to owner v then rest else (k, v) ∷ rest

-- The dead tokens that `sweep_dead_tokens_for` finds; `closed` says that the mailbox is disabled or gone.
unfoldable pub dead_for : ℕ → Bool → Bytes → Tokens → List Bytes
unfolding newest_contact_idx_for kind_dead keys_where
dead_for now closed owner ts =
    let survivor = newest_contact_idx_for owner ts in
    keys_where (λ i kind. belongs_to owner kind && (closed || kind_dead now survivor i kind)) 0 ts

-- The first loop of `sweep_dead_tokens`: `best_start` and `survivors`, keyed by mailbox.
abbrev pub keeps : Option ℕ → ℕ → Bool
keeps none start = true
keeps (some best) start = ltb best start || start == best

unfoldable pub survivors_from : ℕ → Map ℕ → Map ℕ → Tokens → Map ℕ
survivors_from i best_start survivors [] = survivors
survivors_from i best_start survivors ((k, share s) ∷ ts) =
    survivors_from (suc i) best_start survivors ts
survivors_from i best_start survivors ((k, contact c) ∷ ts) =
    let keep = keeps (Map.get c.mailbox best_start) c.window_start in
    survivors_from (suc i)
      (if keep then Map.insert c.mailbox c.window_start best_start else best_start)
      (if keep then Map.insert c.mailbox i survivors else survivors) ts

-- The dead tokens that `sweep_dead_tokens` finds; `closed` says which mailboxes are disabled or gone.
unfoldable pub dead_all : ℕ → (Bytes → Bool) → Tokens → List Bytes
unfolding survivors_from kind_dead keys_where
dead_all now closed ts =
    let survivors = survivors_from 0 [] [] ts in
    keys_where
      (λ i kind.
        closed (token_mailbox kind)
        || kind_dead now (Map.get (token_mailbox kind) survivors) i kind)
      0 ts
