-- ===== src/Livestream/Watch.antt =====
-- What `_run_archive_lookups` does to the ended map and to the watch.
use yobi_analytics.Prelude.{
  ℕ, ◌+◌, ◌≤◌, ◌<◌, ◌≡◌, refl, sym, ◌∙◌, ◌⊎◌, inl, inr, String, true, false, Option, none, some,
  List, [], ◌∷◌, ◌++◌, leb, str_eq, eq_iff, eq_refl, Dict, lookup, insert, lookup-insert, has,
  member, keys, Bool-cases, leb→le, leb-false→lt, arith, ap, subst,
}
use mathlib.Core.Option.{some-injective}
use yobi_analytics.Livestream.{
  Probe, Reason, Archive, archive_available, archive_handed_off, Entry, WatchState,
  archive_lookup_max_attempts, archive_lookup_min_window, archive_lookup_max_age,
}
use yobi_analytics.Livestream.Lookups.{
  Evaluation, usable, unusable, evaluate_archive, facts_of, window_start, archive_window_open,
  is_awaiting, is_archive_pending, watch_or_new, Step, settle, watch_on, unanswered_step,
  answered_step, lookup_step, settle_in, watch_in, step_of, settled, watched, run_lookups,
  run_archive_lookups, from_keys,
}
use yobi_analytics.Livestream.Usable.{IsUsable, evaluate_archive-usable}

module _ (channel_of : Option String → Option String) (probes : Dict Probe) (answered : List String)
    (moment : ℕ) where
  -- This cycle's answer shows a usable archive, and its facts are what is recorded.
  abbrev pub IsAvailable : String → Entry → Archive → Type 0
  IsAvailable k e a =
      (p : Probe) × (n : ℕ) × (member k answered ≡ true)
      × (lookup k probes ≡ some p)
      × IsUsable (channel_of e.stream.creator_id) p
      × (a ≡ archive_available n moment (facts_of p))

  -- The answer shows no usable archive, three attempts are made and 20 minutes have passed since
  -- the end; or there is no answer, and more than an hour has passed since the end was confirmed.
  abbrev pub IsHandedOff : String → Entry → Archive → Type 0
  IsHandedOff k e a =
      (n : ℕ) × (r : Reason) × (a ≡ archive_handed_off n moment r)
      × (((member k answered ≡ true)
            × (archive_lookup_max_attempts ≤ n)
            × (window_start e + archive_lookup_min_window ≤ moment))
          ⊎ ((member k answered ≡ false)
              × (e.confirmed_ended_at + archive_lookup_max_age < moment)))

  abbrev pub IsSettled : String → Entry → Archive → Type 0
  IsSettled k e a = IsAvailable k e a ⊎ IsHandedOff k e a

  settle-injective : (a b : Archive) → settle a ≡ settle b → a ≡ b
  settle-injective a b h = cc

  watch_on-ne-settle : (s : WatchState) (a : Archive) → watch_on s ≡ settle a → ⊥
  watch_on-ne-settle s a h = cc

  unanswered-IsSettled :
      (k : String) (e : Entry) (state : WatchState) (a : Archive)
      → member k answered ≡ false
      → unanswered_step e state moment ≡ settle a
      → IsSettled k e a
  unfolding unanswered_step
  unanswered-IsSettled k e state a unhit h =
      elim (Bool-cases (leb moment (e.confirmed_ended_at + archive_lookup_max_age))) [
        | inl recent ↦ absurd (watch_on-ne-settle _ a (rw recent at h))
        | inr past ↦
            inr
              (_, _, sym (settle-injective _ a (rw past at h)), inr (unhit, leb-false→lt _ _ past))
      ]

  answered-IsSettled :
      (k : String) (e : Entry) (state : WatchState) (a : Archive) (v : Evaluation)
      → member k answered ≡ true
      → evaluate_archive (lookup k probes) (channel_of e.stream.creator_id) ≡ v
      → answered_step v e state moment ≡ settle a
      → IsSettled k e a
  unfolding answered_step archive_window_open
  answered-IsSettled k e state a (usable facts) hit found h =
      let (p, probed, passes, same) = (evaluate_archive-usable _ _ facts).0 found in
      inl (
        p,
        state.attempts + 1,
        hit,
        probed,
        passes,
        sym (settle-injective _ a h)
            ∙ ap (archive_available (state.attempts + 1) moment) (sym same),
      )
  answered-IsSettled k e state a (unusable r) hit found h =
      elim (Bool-cases (leb archive_lookup_max_attempts (state.attempts + 1))) [
        | inr fewer ↦ absurd (watch_on-ne-settle _ a (rw fewer at h))
        | inl enough ↦ elim (Bool-cases (leb (window_start e + archive_lookup_min_window) moment)) [
          | inr within ↦ absurd (watch_on-ne-settle _ a (rw (enough, within) at h))
          | inl closed ↦ inr (
            _,
            _,
            sym (settle-injective _ a (rw (enough, closed) at h)),
            inl (hit, leb→le _ _ enough, leb→le _ _ closed),
          )
        ]
      ]

  lookup_step-IsSettled :
      (k : String) (e : Entry) (state : WatchState) (a : Archive)
      → lookup_step channel_of probes answered moment k e state ≡ settle a
      → IsSettled k e a
  unfolding lookup_step
  lookup_step-IsSettled k e state a h = elim (Bool-cases (member k answered)) [
    | inl hit ↦ answered-IsSettled k e state a _ hit refl (rw hit at h)
    | inr unhit ↦ unanswered-IsSettled k e state a unhit (rw unhit at h)
  ]

  IsSettled-final :
      (k : String) (e : Entry) (a : Archive) → IsSettled k e a → is_archive_pending a ≡ false
  IsSettled-final k e a (inl (p, n, _, _, _, same)) = rw same refl
  IsSettled-final k e a (inr (n, r, same, _)) = rw same refl

  none-ne-some : (e : Entry) → none ≡ some e → ⊥
  none-ne-some e h = cc

  true-ne-false : true ≡ false → ⊥
  true-ne-false h = cc

  IsSettled-rests :
      (k : String) (e : Entry) (a : Archive)
      → IsSettled k e a
      → is_awaiting (record e { archive = a }) ≡ false
  IsSettled-rests k e a h = rw (IsSettled-final k e a h) (ground arith)

  -- What the lookups may make of an entry: nothing, or its archive is settled and all else is kept.
  abbrev pub IsLookedUp : String → Entry → Entry → Type 0
  IsLookedUp k e e' =
      (e' ≡ e)
      ⊎ ((is_awaiting e ≡ true) × (a : Archive) × (e' ≡ record e { archive = a }) × IsSettled k e a)

  settle_in-step :
      (j k : String) (d e : Entry) (ended : Dict Entry) (step : Step)
      → is_awaiting d ≡ true
      → ((a : Archive) → step ≡ settle a → IsSettled j d a)
      → lookup j ended ≡ some d
      → lookup k ended ≡ some e
      → (e' : Entry) × (lookup k (settle_in channel_of probes answered moment j d step ended)
          ≡ some e')
        × IsLookedUp k e e'
  settle_in-step j k d e ended (watch_on s) awaiting h at_j at_k = (e, at_k, inl refl)
  settle_in-step j k d e ended (settle a) awaiting h at_j at_k = elim (Bool-cases (str_eq j k)) [
    | inr other ↦ (e, lookup-insert j k _ ended ∙ rw other at_k, inl refl)
    | inl same ↦
        let i : j ≡ k = (eq_iff j k).0 same in
        let is : d ≡ e = some-injective _ _ (sym at_j ∙ ap (λ n. lookup n ended) i ∙ at_k) in
        (
          record d { archive = a },
          lookup-insert j k _ ended ∙ rw same refl,
          subst (λ n. IsLookedUp n e (record d { archive = a })) i
              (subst (λ x. IsLookedUp j x (record d { archive = a })) is
                (inr (awaiting, a, refl, h a refl))),
        )
  ]

  settled-step :
      (j k : String) (e : Entry) (watch : Dict WatchState) (ended : Dict Entry) (o : Option Entry)
      → lookup j ended ≡ o
      → lookup k ended ≡ some e
      → (e' : Entry) × (lookup k (
            settled channel_of probes answered moment j
              (step_of channel_of probes answered moment watch j o)
              ended)
          ≡ some e')
        × IsLookedUp k e e'
  unfolding step_of
  settled-step j k e watch ended none at_j at_k = (e, at_k, inl refl)
  settled-step j k e watch ended (some d) at_j at_k = elim (Bool-cases (is_awaiting d)) [
    | inr done ↦ rw done (e, at_k, inl refl)
    | inl awaiting ↦ rw awaiting (
        settle_in-step j k d e ended _ awaiting
          (lookup_step-IsSettled j d (watch_or_new (lookup j watch))) at_j at_k)
  ]

  IsLookedUp-trans :
      (k : String) (e e' e'' : Entry) → IsLookedUp k e e' → IsLookedUp k e' e'' → IsLookedUp k e e''
  IsLookedUp-trans k e e' e'' (inl same) h = subst (λ x. IsLookedUp k x e'') same h
  IsLookedUp-trans k e e' e'' (inr done) (inl same) = subst (IsLookedUp k e) (sym same) (inr done)
  IsLookedUp-trans k e e' e'' (inr (awaiting, a, same, done)) (inr (again, _, _, _)) = absurd (
      true-ne-false
        (sym (subst (λ x. is_awaiting x ≡ true) same again) ∙ IsSettled-rests k e a done))

  pub run_lookups-IsLookedUp :
      (k : String) (e : Entry) (watch : Dict WatchState) (ids : List String) (ended : Dict Entry)
      → lookup k ended ≡ some e
      → (e' : Entry) × (lookup k (run_lookups channel_of probes answered moment watch ids ended).0
          ≡ some e')
        × IsLookedUp k e e'
  unfolding run_lookups
  run_lookups-IsLookedUp k e watch [] ended h = (e, h, inl refl)
  run_lookups-IsLookedUp k e watch (j ∷ ids) ended h =
      let (e', at_k, first) = settled-step j k e watch ended (lookup j ended) refl h in
      let (e'', end, rest) = run_lookups-IsLookedUp k e' watch ids _ at_k in
      (e'', end, IsLookedUp-trans k e e' e'' first rest)

  -- An entry that still awaits its archive was not changed.
  pub IsLookedUp-awaiting :
      (k : String) (e e' : Entry) → IsLookedUp k e e' → is_awaiting e' ≡ true → e' ≡ e
  IsLookedUp-awaiting k e e' (inl same) awaiting = same
  IsLookedUp-awaiting k e e' (inr (_, a, same, done)) awaiting = absurd (
      true-ne-false
        (sym (subst (λ x. is_awaiting x ≡ true) same awaiting) ∙ IsSettled-rests k e a done))

  -- The id of an entry that awaits its archive after its lookup is watched on.
  kept-step :
      (k : String) (e e' : Entry) (watch next : Dict WatchState) (ids : List String)
      (ended : Dict Entry) (step : Step)
      → ((a : Archive) → step ≡ settle a → IsSettled k e a)
      → lookup k
          (run_lookups channel_of probes answered moment watch ids
            (settle_in channel_of probes answered moment k e step ended)).0
        ≡ some e'
      → is_awaiting e' ≡ true
      → has k (watch_in channel_of probes answered moment k step next) ≡ true
  unfolding lookup
  kept-step k e e' watch next ids ended (watch_on state) h at_k awaiting = rw (eq_refl k) refl
  kept-step k e e' watch next ids ended (settle a) h at_k awaiting =
      let e1 : Entry = record e { archive = a } in
      let (e2, end, looked) =
        run_lookups-IsLookedUp k e1 watch ids (insert k e1 ended)
          (lookup-insert k k e1 ended ∙ rw (eq_refl k) refl) in
      let is : e2 ≡ e' = some-injective _ _ (sym end ∙ at_k) in
      let same : e' ≡ e1 =
        IsLookedUp-awaiting k e1 e' (subst (IsLookedUp k e1) is looked) awaiting in
      absurd (
        true-ne-false (
          sym (subst (λ x. is_awaiting x ≡ true) same awaiting) ∙ IsSettled-rests k e a (h a refl)))

  has-watched :
      (j k : String) (o : Option (Entry × Step)) (next : Dict WatchState)
      → has k next ≡ true
      → has k (watched channel_of probes answered moment j o next) ≡ true
  unfolding lookup
  has-watched j k none next h = h
  has-watched j k (some (e, settle a)) next h = h
  has-watched j k (some (e, watch_on s)) next h = ground arith

  step_of-has :
      (k : String) (e e' : Entry) (watch next : Dict WatchState) (ids : List String)
      (ended : Dict Entry) (o : Option Entry)
      → o ≡ some e
      → is_awaiting e ≡ true
      → lookup k
          (run_lookups channel_of probes answered moment watch ids (
            settled channel_of probes answered moment k
              (step_of channel_of probes answered moment watch k o)
              ended)).0
        ≡ some e'
      → is_awaiting e' ≡ true
      → has k (
          watched channel_of probes answered moment k
            (step_of channel_of probes answered moment watch k o)
            next)
        ≡ true
  unfolding step_of
  step_of-has k e e' watch next ids ended none h was end awaiting = absurd (none-ne-some e h)
  step_of-has k e e' watch next ids ended (some d) h was end awaiting =
      let waits : is_awaiting d ≡ true =
        subst (λ x. is_awaiting x ≡ true) (sym (some-injective _ _ h)) was in
      rw waits (
        kept-step k d e' watch next ids ended _
          (lookup_step-IsSettled k d (watch_or_new (lookup k watch))) (rw waits at end) awaiting)

  head-has :
      (k : String) (e e' : Entry) (watch : Dict WatchState) (ids : List String) (ended : Dict Entry)
      → lookup k ended ≡ some e
      → is_awaiting e' ≡ true
      → lookup k (run_lookups channel_of probes answered moment watch (k ∷ ids) ended).0 ≡ some e'
      → has k (run_lookups channel_of probes answered moment watch (k ∷ ids) ended).1 ≡ true
  unfolding run_lookups
  head-has k e e' watch ids ended at_k awaiting end =
      let (e2, end2, looked) = run_lookups-IsLookedUp k e watch (k ∷ ids) ended at_k in
      let is : e2 ≡ e' = some-injective _ _ (sym end2 ∙ end) in
      let same : e' ≡ e = IsLookedUp-awaiting k e e' (subst (IsLookedUp k e) is looked) awaiting in
      step_of-has k e e' watch _ ids ended (lookup k ended) at_k
        (subst (λ x. is_awaiting x ≡ true) same awaiting) end awaiting

  pub run_lookups-has :
      (k : String) (e e' : Entry) (watch : Dict WatchState) (ids : List String) (ended : Dict Entry)
      → lookup k ended ≡ some e
      → lookup k (run_lookups channel_of probes answered moment watch ids ended).0 ≡ some e'
      → is_awaiting e' ≡ true
      → member k ids ≡ true
      → has k (run_lookups channel_of probes answered moment watch ids ended).1 ≡ true
  unfolding run_lookups member
  run_lookups-has k e e' watch [] ended at_k end awaiting listed =
      absurd (true-ne-false (sym listed))
  run_lookups-has k e e' watch (j ∷ ids) ended at_k end awaiting listed =
      elim (Bool-cases (str_eq j k)) [
        | inr other ↦
            let (e1, at_k1, looked) = settled-step j k e watch ended (lookup j ended) refl at_k in
            has-watched j k _ _
              (run_lookups-has k e1 e' watch ids _ at_k1 end awaiting (rw other at listed))
        | inl same ↦
            subst
              (λ i.
                lookup k (run_lookups channel_of probes answered moment watch (i ∷ ids) ended).0
                  ≡ some e'
                → has k (run_lookups channel_of probes answered moment watch (i ∷ ids) ended).1
                  ≡ true)
              (sym ((eq_iff j k).0 same)) (head-has k e e' watch ids ended at_k awaiting) end
      ]

  -- An entry of the ended map keeps its stream, its end state and its times through the archive
  -- lookups. Its archive changes only where it was awaiting one, and then either to what a usable
  -- answer of this cycle shows, or it is handed to the daily task: after three attempts or more and
  -- 20 minutes from the end, or unanswered for more than an hour.
  pub run_archive_lookups-IsLookedUp :
      (k : String) (e : Entry) (watch : Dict WatchState) (newly_ended : List String)
      (ended : Dict Entry)
      → lookup k ended ≡ some e
      → (e' : Entry) × (lookup k
            (run_archive_lookups channel_of probes answered moment ended watch newly_ended).0
          ≡ some e')
        × IsLookedUp k e e'
  unfolding run_archive_lookups
  run_archive_lookups-IsLookedUp k e watch newly_ended ended h =
      run_lookups-IsLookedUp k e watch (from_keys (newly_ended ++ keys watch)) ended h
