-- ===== src/Server/Federation/Queue.antt =====
-- The outbound queue of a server: crates/nemo-server/src/s2s.rs from `due_destinations` to `backoff_row`,
-- and what the pump of federation.rs does with a row.
pub mod Rows
use nemo_messenger.Prelude.{
  ℕ, suc, ◌*◌, ◌-◌, ◌^◌, Bool, true, false, not, ◌&&◌, ◌||◌, Option, none, some, List, [], ◌∷◌,
  ◌++◌, length, find, keep, leb, ltb, saturating_add, min, remove_at, update_at, if◌then◌else◌,
}
use nemo_messenger.Prelude.Bytes.{Bytes, beq}
use nemo_messenger.Prelude.Map
use nemo_messenger.Prelude.Map.{Map}
use nemo_messenger.Server.Home.{HomeServer, OutboundRow, PeerState, mark}

abbrev pub outbound_max_age_secs : ℕ
outbound_max_age_secs = 1209600

abbrev pub backoff_cap_secs : ℕ
backoff_cap_secs = 300

-- `PumpStats`
pub record PumpStats : Type 0 where
  pub delivered : ℕ
  pub failed : ℕ
  pub deferred : ℕ
  pub expired : ℕ

abbrev pub no_stats : PumpStats
no_stats = record { delivered = 0; failed = 0; deferred = 0; expired = 0 }

abbrev pub mark_outbound_dirty : HomeServer → HomeServer
mark_outbound_dirty = mark (λ d. record d { outbound_dirty = true })

abbrev pub put_outbound : List OutboundRow → HomeServer → HomeServer
put_outbound rows h = mark_outbound_dirty (record h { outbound = rows })

-- `now.saturating_sub(enqueued_at) > OUTBOUND_MAX_AGE_SECS`
abbrev pub too_old : ℕ → OutboundRow → Bool
too_old now r = ltb outbound_max_age_secs (now - r.enqueued_at)

-- The row after a failed attempt.
abbrev pub backed_off : ℕ → OutboundRow → OutboundRow
backed_off now r =
    let secs = min (min (r.backoff_secs * 2) (2 ^ 64 - 1)) backoff_cap_secs in
    record r { backoff_secs = secs; next_attempt = saturating_add now secs }

abbrev pub refused_peer : Option PeerState → Bool
refused_peer none = false
refused_peer (some p) = p.refused

abbrev pub is_pinned : Option PeerState → Bool
is_pinned none = false
is_pinned (some p) = true

unfoldable pub is_peer_refused : Bytes → HomeServer → Bool
is_peer_refused peer h = refused_peer (Map.get peer h.peers)

abbrev pub has_dest : Bytes → List Bytes → Bool
has_dest d [] = false
has_dest d (x ∷ xs) = beq x d || has_dest d xs

abbrev pub add_due : HomeServer → OutboundRow → List Bytes → List Bytes
add_due h row out =
    if leb row.next_attempt h.now
      && (not (has_dest row.dest out)
          && (is_pinned (Map.get row.dest h.peers)
              && not (refused_peer (Map.get row.dest h.peers))))
    then out ++ (row.dest ∷ [])
    else out

unfoldable pub due_from : HomeServer → List OutboundRow → List Bytes → List Bytes
due_from h [] out = out
due_from h (row ∷ rows) out = due_from h rows (add_due h row out)

unfoldable pub due_destinations : HomeServer → List Bytes
unfolding due_from
due_destinations h = due_from h h.outbound []

abbrev pub is_due : Bytes → ℕ → OutboundRow → Bool
is_due dest now r = beq r.dest dest && (leb r.next_attempt now && not (too_old now r))

unfoldable pub next_due : Bytes → HomeServer → Option OutboundRow
next_due dest h = find (is_due dest h.now) h.outbound

-- The same destination and the same ciphertext.
abbrev pub matches : OutboundRow → OutboundRow → Bool
matches row r = beq r.dest row.dest && beq r.outer.hpke_ciphertext row.outer.hpke_ciphertext

abbrev pub next_index : Option ℕ → Option ℕ
next_index none = none
next_index (some i) = some (suc i)

-- `position`
abbrev pub index_where : (OutboundRow → Bool) → List OutboundRow → Option ℕ
index_where p [] = none
index_where p (r ∷ rows) = if p r then some 0 else next_index (index_where p rows)

abbrev pub remove_index : Option ℕ → HomeServer → HomeServer
remove_index none h = h
remove_index (some i) h = put_outbound (remove_at i h.outbound) h

unfoldable pub remove_matching_outbound : OutboundRow → HomeServer → HomeServer
remove_matching_outbound row h = remove_index (index_where (matches row) h.outbound) h

unfoldable pub purge_expired : Bytes → HomeServer → ℕ × HomeServer
purge_expired dest h =
    let rows = keep (λ r. not (beq r.dest dest) || not (too_old h.now r)) h.outbound in
    let expired = length h.outbound - length rows in
    (expired, if ltb 0 expired then put_outbound rows h else record h { outbound = rows })

abbrev pub back_off_index : Option ℕ → HomeServer → HomeServer
back_off_index none h = h
back_off_index (some i) h = put_outbound (update_at (backed_off h.now) i h.outbound) h

unfoldable pub backoff_row : OutboundRow → HomeServer → HomeServer
backoff_row row h = back_off_index (index_where (matches row) h.outbound) h
