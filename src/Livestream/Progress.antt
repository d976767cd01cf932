-- ===== src/Livestream/Progress.antt =====
-- What becomes of the candidates of `_resolve_candidates` in one cycle.
use yobi_analytics.Prelude.{
  ℕ, ◌+◌, ◌*◌, ◌<◌, ◌≡◌, refl, ◌⊎◌, inl, inr, String, Bool, true, false, ◌||◌, Option, none, some,
  List, [], ◌∷◌, eq_refl, Dict, lookup, lookup-insert, has, is_some, Bool-cases, Option-cases,
  arith, subst,
}
use yobi_analytics.Livestream.{Probe, Entry, Candidate, second, is_past, pending_max_age}
use yobi_analytics.Livestream.Candidates.{
  VideoMaster, is_too_old, decide, decide_answered, decide_missing, decide_found, record_end,
  add_kept, resolve_candidates,
}
use yobi_analytics.Livestream.Evidence.{IsListed, resolve-existing}

-- More than 24 hours have passed since then.
abbrev pub IsOverADay : Option ℕ → ℕ → Type 0
IsOverADay since moment =
    (first_seen : ℕ) × (since ≡ some first_seen) × (first_seen + 24 * 3600 * second < moment)

module _ (master : VideoMaster) (probes : Dict Probe) (answered : List String)
    (previous_refreshed_at : Option ℕ) (moment : ℕ) where
  found-fate :
      (k : String) (state : Candidate) (b : Bool) (p : Probe) (o : Option ℕ)
      → let d = decide_found master probes answered previous_refreshed_at moment k state b p o in
        ((is_some d.kept || is_some d.recorded) || b) ≡ true
  unfolding decide_found
  found-fate k state b p none = refl
  found-fate k state b p (some finished) = ground arith

  missing-fate :
      (k : String) (state : Candidate) (b : Bool)
      → let d = decide_missing master probes answered previous_refreshed_at moment k state b in
        ((is_some d.kept || is_some d.recorded) || b) ≡ true
  unfolding decide_missing
  missing-fate k state b = ground arith

  answered-fate :
      (k : String) (state : Candidate) (b : Bool) (o : Option Probe)
      → let d = decide_answered master probes answered previous_refreshed_at moment k state b o in
        ((is_some d.kept || is_some d.recorded) || b) ≡ true
  unfolding decide_answered
  answered-fate k state b none = missing-fate k state b
  answered-fate k state b (some p) = found-fate k state b p p.actual_end_time

  decide-fate :
      (k : String) (state : Candidate) (b : Bool)
      → is_too_old master probes answered previous_refreshed_at moment state ≡ false
      → let d = decide master probes answered previous_refreshed_at moment k state b in
        ((is_some d.kept || is_some d.recorded) || b) ≡ true
  unfolding decide
  decide-fate k state b young = rw young (ground (arith, answered-fate k state b (lookup k probes)))

  false-ne-true : false ≡ true → ⊥
  false-ne-true e = cc

  rest_of : (a b c : Bool) → a ≡ false → ((a || b) || c) ≡ true → (b || c) ≡ true
  rest_of a b c e h = rw e at h

  has-resolve :
      (k : String) (pending : Dict Candidate) (ended : Dict Entry)
      → has k ended ≡ true
      → has k
          (resolve_candidates master probes answered previous_refreshed_at moment pending ended).0
        ≡ true
  has-resolve k pending ended h = elim (Option-cases (lookup k ended)) [
    | inl e ↦ absurd (false-ne-true (rw e at h))
    | inr (e, there) ↦
        rw
          (resolve-existing master probes answered previous_refreshed_at moment k e pending ended
            there)
          refl
  ]

  has-record_end :
      (k : String) (o : Option Entry) (ended : Dict Entry)
      → (is_some o || has k ended) ≡ true
      → has k (record_end master probes answered previous_refreshed_at moment k o ended) ≡ true
  has-record_end k none ended h = h
  has-record_end k (some e) ended h = rw (lookup-insert k k e ended, eq_refl k) refl

  has-add_kept :
      (j k : String) (o : Option Candidate) (next : Dict Candidate)
      → has k next ≡ true
      → has k (add_kept master probes answered previous_refreshed_at moment j o next) ≡ true
  unfolding lookup
  has-add_kept j k none next h = h
  has-add_kept j k (some s) next h = ground arith

  has-add_kept_self :
      (k : String) (o : Option Candidate) (next : Dict Candidate)
      → is_some o ≡ true
      → has k (add_kept master probes answered previous_refreshed_at moment k o next) ≡ true
  unfolding lookup
  has-add_kept_self k none next h = absurd cc
  has-add_kept_self k (some s) next h = rw (eq_refl k) refl

  head-covers :
      (k : String) (state : Candidate) (pending : Dict Candidate) (ended : Dict Entry)
      → let result =
          resolve_candidates master probes answered previous_refreshed_at moment
            ((k, state) ∷ pending)
            ended in
        (has k result.2 ≡ true)
        ⊎ (has k result.0 ≡ true)
        ⊎ (is_too_old master probes answered previous_refreshed_at moment state ≡ true)
  unfolding resolve_candidates
  head-covers k state pending ended =
      let d = decide master probes answered previous_refreshed_at moment k state (has k ended) in
      elim (Bool-cases (is_too_old master probes answered previous_refreshed_at moment state)) [
        | inl old ↦ inr (inr old)
        | inr young ↦ elim (Bool-cases (is_some d.kept)) [
          | inl kept ↦ inl (has-add_kept_self k d.kept _ kept)
          | inr dropped ↦ inr (
              inl (
                has-resolve k pending _ (
                  has-record_end k d.recorded ended (
                    rest_of (is_some d.kept) _ _ dropped
                      (decide-fate k state (has k ended) young)))))
        ]
      ]

  kept_or_old :
      (k : String) (state : Candidate) (pending : Dict Candidate) (ended : Dict Entry)
      → IsListed (k, state) pending
      → let result =
          resolve_candidates master probes answered previous_refreshed_at moment pending ended in
        (has k result.2 ≡ true)
        ⊎ (has k result.0 ≡ true)
        ⊎ (is_too_old master probes answered previous_refreshed_at moment state ≡ true)
  unfolding resolve_candidates
  kept_or_old k state [] ended x = elim x [ ]
  kept_or_old k state ((j, s) ∷ pending) ended (inr later) =
      let d = decide master probes answered previous_refreshed_at moment j s (has j ended) in
      elim (kept_or_old k state pending
        (record_end master probes answered previous_refreshed_at moment j d.recorded ended) later) [
          | inl kept ↦ inl (has-add_kept j k d.kept _ kept)
          | inr other ↦ inr other
        ]
  kept_or_old k state ((j, s) ∷ pending) ended (inl same) =
      subst
        (λ c.
          let result =
            resolve_candidates master probes answered previous_refreshed_at moment
              ((j, s) ∷ pending) ended in
          (has c.0 result.2 ≡ true)
          ⊎ (has c.0 result.0 ≡ true)
          ⊎ (is_too_old master probes answered previous_refreshed_at moment c.1 ≡ true))
        same (head-covers j s pending ended)

  old_for :
      (since : Option ℕ)
      → (elim since [ none ↦ false | some first_seen ↦ is_past first_seen pending_max_age moment ])
        ≡ true
      → IsOverADay since moment
  old_for none h = absurd (false-ne-true h)
  old_for (some first_seen) h = (first_seen, refl, ground arith)

  -- In one cycle a candidate leaves the candidates only with its end recorded, or if more than 24
  -- hours have passed since it was first seen missing.
  pub resolve-covers :
      (k : String) (state : Candidate) (pending : Dict Candidate) (ended : Dict Entry)
      → IsListed (k, state) pending
      → let result =
          resolve_candidates master probes answered previous_refreshed_at moment pending ended in
        (has k result.2 ≡ true)
        ⊎ (has k result.0 ≡ true)
        ⊎ IsOverADay state.first_seen_missing_at moment
  resolve-covers k state pending ended x = elim (kept_or_old k state pending ended x) [
    | inl kept ↦ inl kept
    | inr (inl recorded) ↦ inr (inl recorded)
    | inr (inr old) ↦ inr (inr (old_for state.first_seen_missing_at old))
  ]
