-- ===== src/Server/Tokens/Admit.antt =====
-- What a token admits (crates/nemo-server/src/home.rs): the rate limit of contact tokens, and the one
-- envelope of a share token.
use nemo_messenger.Prelude.{ℕ, suc, ◌+◌, ◌-◌, ◌*◌, ◌/◌, ◌≤◌, List, [], ◌∷◌, arith, if◌then◌else◌}
use nemo_messenger.Server.Tokens.{ContactToken, contact_admit, rate_per_min}

-- The number of the requests that a contact token admits, one after the other at the given times.
abbrev pub admitted_of : List ℕ → ContactToken → ℕ
admitted_of [] c = 0
admitted_of (now ∷ times) c =
    let after = contact_admit now c in
    let rest = admitted_of times after.0 in if after.1 then suc rest else rest

-- Every request is made by the time `t`.
abbrev pub AllBy : ℕ → List ℕ → Type 0
AllBy t [] = Unit
AllBy t (now ∷ times) = (now ≤ t) × AllBy t times

-- What is left of the allowance by the time `t`.
abbrev pub allowance : ℕ → ContactToken → ℕ
allowance t c = rate_per_min - c.window_count + rate_per_min * ((t - c.window_start) / 60)

-- One request: a token keeps within the limit, and what it admits comes off the allowance.
step_pays :
    (now t : ℕ) (c : ContactToken)
    → c.window_count ≤ rate_per_min
    → now ≤ t
    → ((contact_admit now c).0.window_count ≤ rate_per_min)
      × ((if (contact_admit now c).1 then 1 else 0) + allowance t (contact_admit now c).0
          ≤ allowance t c)
unfolding contact_admit
step_pays now t c hc ht = grind arith

-- Rate limit: by a time `t`, a contact token admits no more requests than what is left of its window and
-- thirty for each full minute since the window began, however the requests are spaced.
pub admitted_within :
    (t : ℕ) (times : List ℕ) (c : ContactToken)
    → c.window_count ≤ rate_per_min
    → AllBy t times
    → admitted_of times c ≤ allowance t c
admitted_within t [] c hc h = omega arith
admitted_within t (now ∷ times) c hc h =
    let (within, pays) = step_pays now t c hc h.0 in
    let later = admitted_within t times (contact_admit now c).0 within h.1 in ground arith
