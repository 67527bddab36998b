-- ===== src/Tests/Mailboxes.antt =====
-- The theorems on one mailbox, on tokens and on the journal, at concrete inputs.
use nemo_messenger.Prelude.{
  ℕ, ◌≤◌, ◌≡◌, refl, true, false, not, ◌||◌, none, some, [], ◌∷◌, ◌++◌, arith,
}
use nemo_messenger.Prelude.Bytes.{Bytes, beq}
use nemo_messenger.Server.Mailbox.{
  Rows, Mailbox, fresh_mailbox, envelope_size, store_envelope, new_row, collect, row_expired,
  fetch_rows, select_rows, ack_upto,
}
use nemo_messenger.Server.Mailbox.Rows.{keep_rows}
use nemo_messenger.Server.Mailbox.Invariant.{
  IsLog, Evicted, fresh-IsLog, store_envelope-IsLog, collect_lem,
}
use nemo_messenger.Server.Mailbox.Delivery.{page_end, fetch_ack_fetch, select-store_envelope}
use nemo_messenger.Server.Mailbox.Retention.{stored_is_kept}
use nemo_messenger.Server.Tokens.{
  ContactToken, TokenKind, share, contact, Tokens, token, without, dead_for, dead_all, keys_where,
  kind_dead, token_mailbox, newest_contact_idx_for,
}
use nemo_messenger.Server.Tokens.Admit.{admitted_of, allowance, admitted_within}
use nemo_messenger.Server.Tokens.Sweep.{AreDistinct, sweep_spares-InUse}
use nemo_messenger.Server.Tokens.Newest.{AllStartBy, HasContact}
use nemo_messenger.Server.Tokens.Idle.{IdleGone, sweep_by_last_use}
use nemo_messenger.Server.Tokens.Survivors.{sweepers_agree}
use nemo_messenger.Server.Dirty.{HomeDirty, clean_dirty}
use nemo_messenger.Server.Home.Invariant.{size_le}
use nemo_messenger.Tests.Toy.{key, letter}

-- The size of the letter on the wire.
abbrev size : ℕ
size = envelope_size letter

abbrev empty : Mailbox
empty = fresh_mailbox (key 5)

abbrev box : Mailbox
box = store_envelope 1000 500 letter size empty

size_bound : size ≤ 16781312
size_bound = size_le letter

box-IsLog : IsLog box
box-IsLog =
    store_envelope-IsLog 1000 500 letter empty (fresh-IsLog (key 5)) (omega arith)
      (omega (arith, size_bound))

collect_lem_example :
    Evicted 100
      (keep_rows (λ s r. not (row_expired 2000 500 r)) box.rows)
      (collect 2000 500 100 box).0
collect_lem_example = collect_lem 2000 500 100 box box-IsLog

fetch_ack_fetch_example :
    fetch_rows 1100 0 1 box
      ++ select_rows 1100
          (page_end 0 (fetch_rows 1100 0 1 box))
          (ack_upto (page_end 0 (fetch_rows 1100 0 1 box)) box).rows
    ≡ select_rows 1100 0 box.rows
fetch_ack_fetch_example = fetch_ack_fetch 1100 0 1 box box-IsLog (fetch_rows 1100 0 1 box) refl

select-store_envelope_example :
    select_rows 1000 0 (store_envelope 1000 500 letter 20480 empty).rows
    ≡ select_rows 1000 0 empty.rows ++ (new_row 1000 500 letter empty.next_seq ∷ [])
select-store_envelope_example =
    select-store_envelope 1000 500 0 20480 letter empty (fresh-IsLog (key 5)) (omega arith)
      (omega arith) (omega arith)

stored_is_kept_example :
    (kept : Rows) × ((collect 1000 500 20000000
        (store_envelope 1000 500 letter (envelope_size letter) empty)).0.rows
      ≡ kept ++ ((empty.next_seq, new_row 1000 500 letter empty.next_seq) ∷ []))
stored_is_kept_example =
    stored_is_kept 1000 500 20000000 letter empty (fresh-IsLog (key 5)) (omega arith) (omega arith)
      (omega (arith, size_bound)) (omega arith) (omega (arith, size_bound))

abbrev short_lived : TokenKind
short_lived =
    share (record { mailbox = key 5; expires_at = 9000; burned = false; reserved_prekey = none })

abbrev idle : ContactToken
idle = record { mailbox = key 5; grace_until = none; window_start = 10; window_count = 3 }

abbrev recent : ContactToken
recent = record { mailbox = key 5; grace_until = none; window_start = 20; window_count = 29 }

abbrev tokens : Tokens
tokens = (key 11, short_lived) ∷ (key 12, contact idle) ∷ (key 13, contact recent) ∷ []

tokens_distinct : AreDistinct tokens
unfolding token beq
tokens_distinct = (refl, (refl, (refl, tt)))

admitted_within_example : admitted_of (20 ∷ 21 ∷ 85 ∷ []) recent ≤ allowance 100 recent
admitted_within_example =
    admitted_within 100 (20 ∷ 21 ∷ 85 ∷ []) recent (omega arith) (ground arith)

short_lived_found : token (key 11) tokens ≡ some short_lived
unfolding token beq
short_lived_found = refl

sweep_spares-InUse_example :
    token (key 11) (without (dead_for 9500 false (key 5) tokens) tokens) ≡ some short_lived
sweep_spares-InUse_example =
    sweep_spares-InUse 9500 (key 5) (key 11) tokens (omega arith) tokens_distinct short_lived_found
      (omega arith)

tokens_HasContact : HasContact (key 5) tokens
unfolding beq
tokens_HasContact = (1, key 12, idle, refl, refl)

sweep_by_last_use_example :
    (k : Bytes) × (c : ContactToken) × (AllStartBy (key 5) c.window_start tokens)
    × (beq c.mailbox (key 5) ≡ true)
    × (token k (without (dead_for 5000000 false (key 5) tokens) tokens) ≡ some (contact c))
    × IdleGone 5000000
        (key 5)
        c.window_start
        tokens
        (without (dead_for 5000000 false (key 5) tokens) tokens)
sweep_by_last_use_example =
    sweep_by_last_use 5000000 (key 5) tokens tokens_distinct tokens_HasContact

sweepers_agree_example :
    dead_all 5000000 (λ o. false) tokens
    ≡ keys_where
        (λ i kind.
          false || kind_dead 5000000 (newest_contact_idx_for (token_mailbox kind) tokens) i kind)
        0
        tokens
sweepers_agree_example = sweepers_agree 5000000 (λ o. false) tokens

abbrev acked : HomeDirty
acked = record clean_dirty { mailbox_acked = (key 5, 4) ∷ [] }
