-- ===== src/Livestream/Pursuit.antt =====
-- The archive watch through a completion cycle.
use yobi_analytics.Prelude.{
  ℕ, ◌≡◌, refl, sym, ◌∙◌, inl, inr, String, true, not, ◌||◌, Option, none, some, List, [], ◌∷◌,
  ◌++◌, str_eq, eq_iff, Dict, lookup, lookup-insert, has, member, keys, Bool-cases, Option-cases,
  arith, ap, subst, ◌∙◌,
}
use yobi_analytics.Prelude.TextSets.{member-append, member-keep}
use mathlib.Core.Option.{some-injective}
use yobi_analytics.Livestream.{Probe, Entry, Candidate, WatchState}
use yobi_analytics.Livestream.Lookups.{
  is_awaiting, from_keys, run_archive_lookups, run_lookups, step_of, settled, settle_in, settle,
  watch_on, Step,
}
use yobi_analytics.Livestream.Candidates.{VideoMaster, resolve_candidates, record_end, add_newly}
use yobi_analytics.Livestream.Evidence.{resolve-existing}
use yobi_analytics.Livestream.Watch.{
  run_lookups-has, run_lookups-IsLookedUp, IsLookedUp, IsLookedUp-awaiting,
}
use yobi_analytics.Livestream.Cycle.{settle_cycle}

member-from_keys : (k : String) (xs : List String) → member k (from_keys xs) ≡ member k xs
unfolding from_keys member
member-from_keys k [] = refl
member-from_keys k (x ∷ xs) = ground (
  arith,
  member-keep (λ y. not (str_eq y x)) k (from_keys xs),
  member-from_keys k xs,
  eq_iff x k,
  eq_iff k x,
)

member-keys : {V : Type 0} → (k : String) (d : Dict V) → member k (keys d) ≡ has k d
unfolding member lookup
member-keys k [] = refl
member-keys k ((j, v) ∷ d) = ground (arith, member-keys k d)

none-ne-some : (e : Entry) → none ≡ some e → ⊥
none-ne-some e h = cc

-- Every ended stream that awaits its archive is on the watch.
abbrev pub IsPursued : Dict Entry → Dict WatchState → Type 0
IsPursued ended watch =
    (k : String) (e : Entry) → lookup k ended ≡ some e → is_awaiting e ≡ true → has k watch ≡ true

module _ (master : VideoMaster) (channel_of : Option String → Option String) (probes : Dict Probe)
    (answered : List String) (previous_refreshed_at : Option ℕ) (moment : ℕ)
    (probe : List String → Dict Probe × List String) where
  newly-step :
      (j k : String) (o : Option Entry) (newly_ended : List String) (ended : Dict Entry)
      → (has k (record_end master probes answered previous_refreshed_at moment j o ended)
          || member k newly_ended)
        ≡ true
      → (has k ended
          || member k
              (add_newly master probes answered previous_refreshed_at moment j o newly_ended))
        ≡ true
  unfolding member
  newly-step j k none newly_ended ended h = h
  newly-step j k (some e) newly_ended ended h = ground (arith, lookup-insert j k e ended)

  resolve-newly :
      (k : String) (e : Entry) (pending : Dict Candidate) (ended : Dict Entry)
      → lookup k
          (resolve_candidates master probes answered previous_refreshed_at moment pending ended).0
        ≡ some e
      → (has k ended
          || member k
              (resolve_candidates master probes answered previous_refreshed_at moment pending
                ended).1)
        ≡ true
  unfolding resolve_candidates member
  resolve-newly k e [] ended h = rw h refl
  resolve-newly k e ((j, state) ∷ pending) ended h =
      newly-step j k _ _ ended (resolve-newly k e pending _ h)

  settle_in-none :
      (j k : String) (d : Entry) (step : Step) (ended : Dict Entry)
      → lookup j ended ≡ some d
      → lookup k ended ≡ none
      → lookup k (settle_in channel_of probes answered moment j d step ended) ≡ none
  settle_in-none j k d (watch_on s) ended at_j h = h
  settle_in-none j k d (settle a) ended at_j h =
      ground (arith, lookup-insert j k (record d { archive = a }) ended, eq_iff j k)

  settled-none :
      (j k : String) (o : Option Entry) (watch : Dict WatchState) (ended : Dict Entry)
      → lookup j ended ≡ o
      → lookup k ended ≡ none
      → lookup k (
          settled channel_of probes answered moment j
            (step_of channel_of probes answered moment watch j o)
            ended)
        ≡ none
  unfolding step_of
  settled-none j k none watch ended at_j h = h
  settled-none j k (some d) watch ended at_j h = elim (Bool-cases (is_awaiting d)) [
    | inr done ↦ rw done h
    | inl awaiting ↦ rw awaiting (settle_in-none j k d _ ended at_j h)
  ]

  run_lookups-none :
      (k : String) (watch : Dict WatchState) (ids : List String) (ended : Dict Entry)
      → lookup k ended ≡ none
      → lookup k (run_lookups channel_of probes answered moment watch ids ended).0 ≡ none
  unfolding run_lookups
  run_lookups-none k watch [] ended h = h
  run_lookups-none k watch (j ∷ ids) ended h =
      run_lookups-none k watch ids _ (settled-none j k (lookup j ended) watch ended refl h)

  run_archive_lookups-IsPursued :
      (watch : Dict WatchState) (newly_ended : List String) (ended : Dict Entry)
      → ((k : String) (e : Entry)
          → lookup k ended ≡ some e
          → is_awaiting e ≡ true
          → (member k newly_ended || has k watch) ≡ true)
      → IsPursued
          (run_archive_lookups channel_of probes answered moment ended watch newly_ended).0
          (run_archive_lookups channel_of probes answered moment ended watch newly_ended).1
  unfolding run_archive_lookups
  run_archive_lookups-IsPursued watch newly_ended ended h k e' at_k awaiting =
      let ids : List String = from_keys (newly_ended ++ keys watch) in
      elim (Option-cases (lookup k ended)) [
        | inl gone ↦ absurd (none-ne-some e' (sym (run_lookups-none k watch ids ended gone) ∙ at_k))
        | inr (e, there) ↦
            let (e2, end, looked) =
              run_lookups-IsLookedUp channel_of probes answered moment k e watch ids ended there in
            let is : e2 ≡ e' = some-injective _ _ (sym end ∙ at_k) in
            let same : e' ≡ e =
              IsLookedUp-awaiting channel_of probes answered moment k e e'
                (subst (IsLookedUp channel_of probes answered moment k e) is looked) awaiting in
            run_lookups-has channel_of probes answered moment k e e' watch ids ended there at_k
              awaiting
              (member-from_keys k (newly_ended ++ keys watch)
                ∙ member-append k newly_ended (keys watch)
                ∙ ap (λ b. member k newly_ended || b) (member-keys k watch)
                ∙ h k e there (subst (λ x. is_awaiting x ≡ true) same awaiting))
      ]

  -- The ends of the candidates and the archive lookups of one cycle, on any answer of YouTube and of
  -- Video Master: if every ended stream that awaits its archive is on the watch before, each that
  -- still awaits it after is on the next watch.
  pub settle_cycle-IsPursued :
      (pending : Dict Candidate) (watch : Dict WatchState) (ended : Dict Entry)
      → IsPursued ended watch
      → let c =
          settle_cycle master channel_of probe probes answered previous_refreshed_at moment pending
            watch ended in
        IsPursued c.0 c.3
  unfolding settle_cycle
  settle_cycle-IsPursued pending watch ended h =
      let r =
        resolve_candidates master probes answered previous_refreshed_at moment pending ended in
      run_archive_lookups-IsPursued watch r.1 r.0 (λ k e at_k awaiting.
        elim (Option-cases (lookup k ended)) [
          | inl new ↦ ground (arith, rw new at (resolve-newly k e pending ended at_k))
          | inr (e0, there) ↦
              let same : e0 ≡ e = some-injective _ _ (
                sym (
                  resolve-existing master probes answered previous_refreshed_at moment k e0 pending
                    ended there)
                ∙ at_k) in
              ground (arith, h k e0 there (subst (λ x. is_awaiting x ≡ true) (sym same) awaiting))
        ])
