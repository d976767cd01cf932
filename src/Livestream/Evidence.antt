-- ===== src/Livestream/Evidence.antt =====
-- What `_resolve_candidates` records in the ended map.
use yobi_analytics.Prelude.{
  ℕ, ◌+◌, ◌≤◌, ◌≡◌, refl, ◌⊎◌, inl, inr, String, Bool, true, false, not, Option, none, some, List,
  [], ◌∷◌, leb, eq_iff, Dict, lookup, lookup-insert, has, is_some, member, keep, All, Bool-cases,
  Option-cases, leb→le, arith, subst,
}
use mathlib.Core.Option.{some-injective}
use yobi_analytics.Livestream.{
  Probe, archive_pending, archive_unavailable, end_state_ended, end_state_unavailable, Entry,
  Candidate, max_pending_attempts,
}
use yobi_analytics.Livestream.Candidates.{
  VideoMaster, ended_entry, is_too_old, decide, decide_answered, decide_missing, decide_found,
  unless_recorded, record_end, resolve_candidates,
}

abbrev pub IsListed : String × Candidate → Dict Candidate → Type 0
IsListed x [] = ⊥
IsListed x (y ∷ ys) = (y ≡ x) ⊎ IsListed x ys

module _ (master : VideoMaster) (probes : Dict Probe) (answered : List String)
    (previous_refreshed_at : Option ℕ) (moment : ℕ) where
  -- YouTube said in this cycle that the broadcast ended, and when.
  pub record IsEnded (k : String) (e : Entry) : Type 0 where
    pub probe : Probe
    pub finished : ℕ
    pub probed : lookup k probes ≡ some probe
    pub finished_at : probe.actual_end_time ≡ some finished
    pub end_state : e.end_state ≡ end_state_ended
    pub actual_end : e.actual_end ≡ some finished
    pub archive : e.archive ≡ archive_pending

  -- YouTube did not return the video, in this cycle as in those that the candidate counted.
  pub record IsGone (k : String) (state : Candidate) (e : Entry) : Type 0 where
    pub probed : lookup k probes ≡ none
    pub counted : max_pending_attempts ≤ state.attempts + 1
    pub end_state : e.end_state ≡ end_state_unavailable
    pub actual_end : e.actual_end ≡ none
    pub archive : e.archive ≡ archive_unavailable

  pub record IsEvidenced (k : String) (state : Candidate) (e : Entry) : Type 0 where
    pub answer : member k answered ≡ true
    pub confirmed : e.confirmed_ended_at ≡ moment
    pub seen : e.last_seen_live_at ≡ previous_refreshed_at
    pub evidence : IsEnded k e ⊎ IsGone k state e

  none-ne-some : (o : Option Entry) (e : Entry) → o ≡ none → o ≡ some e → ⊥
  none-ne-some o e n h = cc

  is_none : (o : Option Entry) → is_some o ≡ false → o ≡ none
  is_none none h = refl
  is_none (some e) h = absurd cc

  unless_recorded-some :
      (b : Bool) (e0 e : Entry)
      → unless_recorded master probes answered previous_refreshed_at moment b e0 ≡ some e
      → (b ≡ false) × (e0 ≡ e)
  unless_recorded-some true e0 e h = absurd cc
  unless_recorded-some false e0 e h = (refl, some-injective _ _ h)

  missing-IsEvidenced :
      (k : String) (state : Candidate) (b : Bool) (e : Entry)
      → member k answered ≡ true
      → lookup k probes ≡ none
      → (decide_missing master probes answered previous_refreshed_at moment k state b).recorded
        ≡ some e
      → (b ≡ false) × IsEvidenced k state e
  unfolding decide_missing ended_entry
  missing-IsEvidenced k state b e a probed h =
      elim (Bool-cases (leb max_pending_attempts (state.attempts + 1))) [
        | inl counted ↦
            let (new, same) = unless_recorded-some b _ e (rw counted at h) in
            (
              new,
              subst (IsEvidenced k state) same (record {
                answer = a;
                confirmed = refl;
                seen = refl;
                evidence = inr (record {
                  probed = probed;
                  counted = leb→le _ _ counted;
                  end_state = refl;
                  actual_end = refl;
                  archive = refl;
                });
              }),
            )
        | inr more ↦ absurd (none-ne-some _ e refl (rw more at h))
      ]

  found-IsEvidenced :
      (k : String) (state : Candidate) (b : Bool) (e : Entry) (p : Probe) (o : Option ℕ)
      → member k answered ≡ true
      → lookup k probes ≡ some p
      → p.actual_end_time ≡ o
      → (decide_found master probes answered previous_refreshed_at moment k state b p o).recorded
        ≡ some e
      → (b ≡ false) × IsEvidenced k state e
  unfolding decide_found ended_entry
  found-IsEvidenced k state b e p none a probed unfinished h = absurd (none-ne-some _ e refl h)
  found-IsEvidenced k state b e p (some finished) a probed closed h =
      let (new, same) = unless_recorded-some b _ e h in
      (
        new,
        subst (IsEvidenced k state) same (record {
          answer = a;
          confirmed = refl;
          seen = refl;
          evidence = inl (record {
            probe = p;
            finished = finished;
            probed = probed;
            finished_at = closed;
            end_state = refl;
            actual_end = refl;
            archive = refl;
          });
        }),
      )

  answered-IsEvidenced :
      (k : String) (state : Candidate) (b : Bool) (e : Entry) (o : Option Probe)
      → member k answered ≡ true
      → lookup k probes ≡ o
      → (decide_answered master probes answered previous_refreshed_at moment k state b o).recorded
        ≡ some e
      → (b ≡ false) × IsEvidenced k state e
  unfolding decide_answered
  answered-IsEvidenced k state b e none a probed h = missing-IsEvidenced k state b e a probed h
  answered-IsEvidenced k state b e (some p) a probed h =
      found-IsEvidenced k state b e p p.actual_end_time a probed refl h

  -- What is recorded is new, and has its evidence.
  pub decide-IsEvidenced :
      (k : String) (state : Candidate) (b : Bool) (e : Entry)
      → (decide master probes answered previous_refreshed_at moment k state b).recorded ≡ some e
      → (b ≡ false) × IsEvidenced k state e
  unfolding decide
  decide-IsEvidenced k state b e h =
      elim (Bool-cases (is_too_old master probes answered previous_refreshed_at moment state)) [
        | inl old ↦ absurd (none-ne-some _ e refl (rw old at h))
        | inr young ↦ elim (Bool-cases (member k answered)) [
          | inl a ↦ answered-IsEvidenced k state b e (lookup k probes) a refl (rw (young, a) at h)
          | inr a ↦ absurd (none-ne-some _ e refl (rw (young, a) at h))
        ]
      ]

  -- The ended map after one candidate.
  abbrev after : String → Candidate → Dict Entry → Dict Entry
  after k state ended =
      record_end master probes answered previous_refreshed_at moment k
        (decide master probes answered previous_refreshed_at moment k state (has k ended)).recorded
        ended

  record_end-existing :
      (j k : String) (e : Entry) (o : Option Entry) (ended : Dict Entry)
      → ((e' : Entry) → o ≡ some e' → has j ended ≡ false)
      → lookup k ended ≡ some e
      → lookup k (record_end master probes answered previous_refreshed_at moment j o ended) ≡ some e
  record_end-existing j k e none ended new h = h
  record_end-existing j k e (some e') ended new h =
      ground (arith, lookup-insert j k e' ended, eq_iff j k, new e' refl)

  record_end-new :
      (j k : String) (e : Entry) (o : Option Entry) (ended : Dict Entry)
      → lookup k (record_end master probes answered previous_refreshed_at moment j o ended) ≡ some e
      → (lookup k ended ≡ some e) ⊎ ((j ≡ k) × (o ≡ some e))
  record_end-new j k e none ended h = inl h
  record_end-new j k e (some e') ended h = ground (arith, lookup-insert j k e' ended, eq_iff j k)

  after-existing :
      (j k : String) (e : Entry) (state : Candidate) (ended : Dict Entry)
      → lookup k ended ≡ some e
      → lookup k (after j state ended) ≡ some e
  after-existing j k e state ended =
      record_end-existing j k e _ ended (λ e' h. (decide-IsEvidenced j state _ e' h).0)

  -- An end that is recorded stays as it is.
  pub resolve-existing :
      (k : String) (e : Entry) (pending : Dict Candidate) (ended : Dict Entry)
      → lookup k ended ≡ some e
      → lookup k
          (resolve_candidates master probes answered previous_refreshed_at moment pending ended).0
        ≡ some e
  unfolding resolve_candidates
  resolve-existing k e [] ended h = h
  resolve-existing k e ((j, state) ∷ pending) ended h =
      resolve-existing k e pending (after j state ended) (after-existing j k e state ended h)

  -- What the map gained under a key: the candidate it was recorded for and the evidence.
  abbrev pub Gained : String → Dict Candidate → Dict Entry → Entry → Type 0
  Gained k pending ended e =
      (lookup k ended ≡ none)
      × (state : Candidate) × IsListed (k, state) pending
      × IsEvidenced k state e

  none-before :
      (j k : String) (state : Candidate) (ended : Dict Entry)
      → lookup k (after j state ended) ≡ none
      → lookup k ended ≡ none
  none-before j k state ended h = elim (Option-cases (lookup k ended)) [
    | inl e ↦ e
    | inr (e, there) ↦ absurd (none-ne-some _ e h (after-existing j k e state ended there))
  ]

  -- An entry of the ended map after the candidates are resolved was there before, or it is new and
  -- YouTube answered for its candidate in this cycle: with an end, which is the one recorded and
  -- opens an archive lookup, or without the video in at least the twelfth check in a row, which
  -- records no end time and no lookup.
  pub resolve-IsEvidenced :
      (k : String) (e : Entry) (pending : Dict Candidate) (ended : Dict Entry)
      → lookup k
          (resolve_candidates master probes answered previous_refreshed_at moment pending ended).0
        ≡ some e
      → (lookup k ended ≡ some e) ⊎ Gained k pending ended e
  unfolding resolve_candidates
  resolve-IsEvidenced k e [] ended h = inl h
  resolve-IsEvidenced k e ((j, state) ∷ pending) ended h =
      elim (resolve-IsEvidenced k e pending (after j state ended) h) [
        | inr (new, s, listed, evidence) ↦
            inr (none-before j k state ended new, s, inr listed, evidence)
        | inl there ↦ elim (record_end-new j k e _ ended there) [
          | inl before ↦ inl before
          | inr (same, recorded) ↦
              let (new, evidence) = decide-IsEvidenced j state _ e recorded in
              inr (
                subst (λ i. Gained i ((j, state) ∷ pending) ended e) same
                  (is_none _ new, state, inl refl, evidence))
        ]
      ]

  -- Where YouTube answers for none of the candidates, only those that are too old are dropped.
  pub resolve-unanswered :
      (pending : Dict Candidate) (ended : Dict Entry)
      → All (λ c. member c.0 answered ≡ false) pending
      → resolve_candidates master probes answered previous_refreshed_at moment pending ended ≡ (
        ended,
        [],
        keep
            (λ c. not (is_too_old master probes answered previous_refreshed_at moment c.1))
            pending,
      )
  unfolding resolve_candidates decide
  resolve-unanswered [] ended h = refl
  resolve-unanswered ((j, state) ∷ pending) ended h =
      elim (Bool-cases (is_too_old master probes answered previous_refreshed_at moment state)) [
        | inl old ↦ rw (old, resolve-unanswered pending ended h.1)
        | inr young ↦ rw (young, h.0, resolve-unanswered pending ended h.1)
      ]
