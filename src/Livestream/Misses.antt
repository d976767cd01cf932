-- ===== src/Livestream/Misses.antt =====
-- Candidates of `_resolve_candidates` that YouTube leaves out of its answers in several cycles.
use yobi_analytics.Prelude.{
  ℕ, ◌+◌, ◌*◌, ◌≤◌, ◌<◌, ◌≡◌, refl, ◌∙◌, String, true, false, Option, none, some, List, [], ◌∷◌,
  Dict, lookup, member, All, length, arith, ap,
}
use yobi_analytics.Livestream.{
  Probe, Entry, Candidate, max_pending_attempts, end_state_unavailable, archive_unavailable, second,
  is_past, pending_max_age,
}
use yobi_analytics.Livestream.Candidates.{
  VideoMaster, is_too_old, decide, decide_answered, decide_missing, resolve_candidates,
  stream_or_id,
}

-- At most 24 hours have passed since then, if it is known.
abbrev pub IsWithinADay : Option ℕ → ℕ → Type 0
IsWithinADay none moment = Unit
IsWithinADay (some first_seen) moment = moment ≤ first_seen + 24 * 3600 * second

-- One completion cycle's answers and clock.
pub record Cycle : Type 0 where
  pub probes : Dict Probe
  pub answered : List String
  pub previous_refreshed_at : Option ℕ
  pub moment : ℕ

module _ (master : VideoMaster) where
  -- The candidates and the ended map through several cycles in which no new candidate comes.
  abbrev pub resolve_all : List Cycle → Dict Candidate → Dict Entry → Dict Entry × Dict Candidate
  resolve_all [] pending ended = (ended, pending)
  resolve_all (c ∷ cs) pending ended =
      let result =
        resolve_candidates master c.probes c.answered c.previous_refreshed_at c.moment pending
          ended in
      resolve_all cs result.2 result.0

  -- YouTube answers without the video, within 24 hours of the candidate's first sight.
  abbrev pub IsMiss : String → Candidate → Cycle → Type 0
  IsMiss k state c =
      (member k c.answered ≡ true)
      × (lookup k c.probes ≡ none)
      × IsWithinADay state.first_seen_missing_at c.moment

  is_young :
      (since : Option ℕ) (moment : ℕ)
      → IsWithinADay since moment
      → (elim since [ none ↦ false | some first_seen ↦ is_past first_seen pending_max_age moment ])
        ≡ false
  is_young none moment h = refl
  is_young (some first_seen) moment h = ground arith

  young :
      (c : Cycle) (state : Candidate)
      → IsWithinADay state.first_seen_missing_at c.moment
      → is_too_old master c.probes c.answered c.previous_refreshed_at c.moment state ≡ false
  young c state h = is_young state.first_seen_missing_at c.moment h

  abbrev counted : Candidate → Candidate
  counted state = record state { attempts = state.attempts + 1 }

  resolve-miss :
      (c : Cycle) (k : String) (state : Candidate) (ended : Dict Entry)
      → IsMiss k state c
      → state.attempts + 1 < max_pending_attempts
      → resolve_candidates master c.probes c.answered c.previous_refreshed_at c.moment
          ((k, state) ∷ [])
          ended
        ≡ (ended, [], (k, counted state) ∷ [])
  unfolding resolve_candidates decide decide_answered decide_missing
  resolve-miss c k state ended (a, m, soon) below = rw (young c state soon, a, m) (ground arith)

  -- While its misses stay below twelve, a candidate stays and nothing is recorded of it.
  pub resolve_all-fewer :
      (k : String) (state : Candidate) (ended : Dict Entry) (cs : List Cycle)
      → All (IsMiss k state) cs
      → state.attempts + length cs < max_pending_attempts
      → resolve_all cs ((k, state) ∷ []) ended
        ≡ (ended, (k, record state { attempts = state.attempts + length cs }) ∷ [])
  resolve_all-fewer k state ended [] h below = rw (the_same state.attempts) refl
    where
      the_same : (n : ℕ) → n + 0 ≡ n
      the_same n = omega arith
  resolve_all-fewer k state ended (c ∷ cs) (miss, h) below =
      ap (λ r. resolve_all cs r.2 r.0) (resolve-miss c k state ended miss (omega arith))
      ∙ resolve_all-fewer k (counted state) ended cs h (omega arith)
      ∙ ap (λ n. (ended, (k, record state { attempts = n }) ∷ [])) (omega arith)

  -- What is recorded of a video that YouTube no longer returns.
  abbrev pub unavailable_entry : String → Candidate → Cycle → Entry
  unavailable_entry k state c = record {
    stream = stream_or_id k state.stream;
    last_seen_live_at = c.previous_refreshed_at;
    confirmed_ended_at = c.moment;
    actual_end = none;
    end_state = end_state_unavailable;
    archive = archive_unavailable;
  }
