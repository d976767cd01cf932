-- ===== src/DeliveryLog/Claims.antt =====
-- Who may send: calls on the delivery log in the order in which the table serves them.
use yobi_analytics.Prelude.{
  ℕ, ◌+◌, ◌≤◌, ◌≡◌, ◌≢◌, ◌∙◌, refl, Bool, true, false, not, ◌&&◌, is_some, Option, none, some, List,
  [], ◌∷◌, arith, All, All-map_pred, eq_iff, eq_refl,
}
use yobi_analytics.ConditionalTable.{
  Write, Reply, done, condition_failed, other_error, Effect, Effect-blocked,
}
use yobi_analytics.DeliveryLog.{
  LogRow, claimed, delivered, suppressed, claim_expiry, Key, same_key, LogTable, may_claim, LogCall,
  mark_delivered, mark_suppressed, confirm_delivered, release_claim, log_write, LogResult,
  succeeded, result_of, log_call, already_delivered, row_status, handled_within, is_expired,
  live_claim,
}

-- The calls of all clients' runs, in the order in which the table serves them.
unfoldable pub serve_log :
    (t : LogTable) → List (Key × LogCall) → t.State → List LogResult × t.State
unfolding log_call
serve_log t [] s = ([], s)
serve_log t ((k, c) ∷ calls) s =
    let (r, s') = log_call t k c s in let (rs, s'') = serve_log t calls s' in (r ∷ rs, s'')

same_key-equal : (k d : Key) → same_key k d ≡ true → k ≡ d
same_key-equal (c, v) (d, w) h = ground (arith, eq_iff c d, eq_iff v w)

-- The call's condition fails on the item, if the call is for the key `d`.
abbrev pub IsBlocked : Key → Option LogRow → Key × LogCall → Type 0
IsBlocked d item (k, c) = (same_key k d ≡ true) → (log_write c).condition item ≡ false

-- No call for the key succeeded.
abbrev pub NoneSucceeded : Key → List (Key × LogCall) → List LogResult → Type 0
NoneSucceeded d [] rs = Unit
NoneSucceeded d (call ∷ calls) [] = Unit
NoneSucceeded d ((k, c) ∷ calls) (r ∷ rs) =
    ((same_key k d ≡ true) → r ≢ succeeded) × NoneSucceeded d calls rs

not_succeeded : (reply : Reply) → reply ≢ done → result_of reply ≢ succeeded
not_succeeded done h e = h refl
not_succeeded condition_failed h e = cc
not_succeeded other_error h e = cc

module _ (t : LogTable) where
  pub serve_log-blocked :
      (d : Key) (item : Option LogRow) (calls : List (Key × LogCall)) (s : t.State)
      → t.read s d ≡ item
      → All (IsBlocked d item) calls
      → (t.read (serve_log t calls s).1 d ≡ item) × NoneSucceeded d calls (serve_log t calls s).0
  unfolding serve_log log_call
  serve_log-blocked d item [] s at_d h = (at_d, tt)
  serve_log-blocked d item ((k, c) ∷ calls) s at_d h =
      let (kept, never) =
        Effect-blocked same_key t.read same_key-equal d item (t.write (log_write c) k s).0
          (log_write c) k s (t.write (log_write c) k s).1 at_d h.0
          (t.write_effect (log_write c) k s) in
      let (end, rest) = serve_log-blocked d item calls (t.write (log_write c) k s).1 kept h.1 in
      (end, (λ same. not_succeeded _ (never same), rest))

-- A claim or a suppression that another run attempts; `until` bounds the clock of a claim.
unfoldable pub IsAttempt : (until : ℕ) → LogCall → Type 0
IsAttempt until (mark_delivered _ now) = now ≤ until
IsAttempt until (mark_suppressed _) = Unit
IsAttempt until (confirm_delivered _) = ⊥
IsAttempt until release_claim = ⊥

unfoldable pub IsClaimOrSuppression : LogCall → Type 0
IsClaimOrSuppression (mark_delivered _ _) = Unit
IsClaimOrSuppression (mark_suppressed _) = Unit
IsClaimOrSuppression (confirm_delivered _) = ⊥
IsClaimOrSuppression release_claim = ⊥

pub attempt-blocked :
    (at : ℕ) (c : LogCall)
    → IsAttempt (at + claim_expiry) c
    → (log_write c).condition (some (claimed at)) ≡ false
unfolding IsAttempt log_write may_claim
attempt-blocked at (mark_delivered _ now) h = ground arith
attempt-blocked at (mark_suppressed _) h = refl
attempt-blocked at (confirm_delivered _) h = absurd h
attempt-blocked at release_claim h = absurd h

settled-blocked :
    (at : ℕ) (c : LogCall)
    → IsClaimOrSuppression c
    → (log_write c).condition (some (delivered at)) ≡ false
unfolding IsClaimOrSuppression log_write may_claim
settled-blocked at (mark_delivered _ now) h = refl
settled-blocked at (mark_suppressed _) h = refl
settled-blocked at (confirm_delivered _) h = absurd h
settled-blocked at release_claim h = absurd h

pub attempt-settled :
    (at : ℕ) (c : LogCall)
    → IsAttempt (at + claim_expiry) c
    → (log_write c).condition (some (delivered at)) ≡ false
unfolding IsAttempt log_write may_claim
attempt-settled at (mark_delivered _ now) h = refl
attempt-settled at (mark_suppressed _) h = refl
attempt-settled at (confirm_delivered _) h = absurd h
attempt-settled at release_claim h = absurd h

pub same_key_refl : (k : Key) → same_key k k ≡ true
same_key_refl (c, v) = rw (eq_refl c, eq_refl v) refl

module _ (t : LogTable) where
  succeeded-reply :
      (d : Key) (w : Write LogRow) (reply : Reply) (s s' : t.State)
      → result_of reply ≡ succeeded
      → Effect same_key t.read reply w d s s'
      → (w.condition (t.read s d) ≡ true) × (t.read s' d ≡ w.item (t.read s d))
  succeeded-reply d w done s s' h (met, reads) = (met, reads d ∙ rw (same_key_refl d) refl)
  succeeded-reply d w condition_failed s s' h e = absurd cc
  succeeded-reply d w other_error s s' h e = absurd cc

  succeeded-item :
      (d : Key) (c : LogCall) (s : t.State)
      → (log_call t d c s).0 ≡ succeeded
      → ((log_write c).condition (t.read s d) ≡ true)
        × (t.read (log_call t d c s).1 d ≡ (log_write c).item (t.read s d))
  unfolding log_call
  succeeded-item d c s h =
      succeeded-reply d (log_write c) _ s _ h (t.write_effect (log_write c) d s)

  pub claimed_item :
      (d : Key) (at now : ℕ) (s : t.State)
      → (log_call t d (mark_delivered at now) s).0 ≡ succeeded
      → t.read (log_call t d (mark_delivered at now) s).1 d ≡ some (claimed at)
  unfolding log_write
  claimed_item d at now s won = (succeeded-item d (mark_delivered at now) s won).1

  delivered_item :
      (d : Key) (at : ℕ) (s : t.State)
      → (log_call t d (confirm_delivered at) s).0 ≡ succeeded
      → t.read (log_call t d (confirm_delivered at) s).1 d ≡ some (delivered at)
  unfolding log_write
  delivered_item d at s confirmed = (succeeded-item d (confirm_delivered at) s confirmed).1

  -- Once a claim on a key has succeeded, and until a call confirms or releases it, no claim with a
  -- clock of at most the claim's instant plus 20 minutes succeeds on that key, and no suppression,
  -- however their calls mix with calls for other keys: the item stays the claim.
  pub claim_is_exclusive :
      (d : Key) (at now : ℕ) (s : t.State) (calls : List (Key × LogCall))
      → (log_call t d (mark_delivered at now) s).0 ≡ succeeded
      → All (λ e. (same_key e.0 d ≡ true) → IsAttempt (at + claim_expiry) e.1) calls
      → let after = (log_call t d (mark_delivered at now) s).1 in
        (t.read (serve_log t calls after).1 d ≡ some (claimed at))
        × NoneSucceeded d calls (serve_log t calls after).0
  claim_is_exclusive d at now s calls won others =
      serve_log-blocked t d (some (claimed at)) calls _ (claimed_item d at now s won)
        (All-map_pred (λ e h same. attempt-blocked at e.1 (h same)) calls others)

  -- Once a delivery is confirmed, no claim and no suppression of that key succeeds, at any time, and
  -- the item stays, as long as no call confirms or releases that key again.
  pub confirmed_is_final :
      (d : Key) (at : ℕ) (s : t.State) (calls : List (Key × LogCall))
      → (log_call t d (confirm_delivered at) s).0 ≡ succeeded
      → All (λ e. (same_key e.0 d ≡ true) → IsClaimOrSuppression e.1) calls
      → let after = (log_call t d (confirm_delivered at) s).1 in
        (t.read (serve_log t calls after).1 d ≡ some (delivered at))
        × NoneSucceeded d calls (serve_log t calls after).0
  confirmed_is_final d at s calls confirmed others =
      serve_log-blocked t d (some (delivered at)) calls _ (delivered_item d at s confirmed)
        (All-map_pred (λ e h same. settled-blocked at e.1 (h same)) calls others)

live_claim-some : (b : Bool) → is_some (live_claim b) ≡ not b
unfolding live_claim
live_claim-some true = refl
live_claim-some false = refl

-- At every instant, the boundary included, a claim may be made exactly where the item does not count as
-- handled; `row_status` names a status exactly where it does; and what was handled within some time
-- counts as handled.
pub readers_agree :
    (o : Option LogRow) (within now : ℕ)
    → (may_claim now o ≡ not (already_delivered o now))
      × (is_some (row_status o now) ≡ already_delivered o now)
      × ((handled_within o within now && not (already_delivered o now)) ≡ false)
unfolding may_claim already_delivered row_status handled_within is_expired live_claim
readers_agree none within now = (refl, refl, refl)
readers_agree (some (claimed at)) within now =
    (ground arith, live_claim-some (is_expired at now), ground arith)
readers_agree (some (delivered at)) within now = (refl, refl, ground arith)
readers_agree (some (suppressed at)) within now = (refl, refl, ground arith)
