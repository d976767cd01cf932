-- ===== src/Livestream/Usable.antt =====
-- What `_evaluate_archive` accepts.
use yobi_analytics.Prelude.{
  ◌≡◌, refl, ◌↔◌, String, Bool, true, false, not, ◌||◌, Option, none, some, if◌then◌else◌,
}
use yobi_analytics.Livestream.{
  Probe, Reason, metadata_missing, channel_mismatch, broadcast_not_finalized, not_public,
  still_processing, not_embeddable, Facts, is_given,
}
use yobi_analytics.Livestream.Lookups.{
  Evaluation, usable, unusable, evaluate_archive, is_mismatch, is_some_text, is_absent, is_false,
  facts_of,
}

-- The archive of the probe can be shown: it is complete, its channel is the expected one, the
-- broadcast ended, and it is public or unlisted, processed and not kept from being embedded.
abbrev pub IsUsable : Option String → Probe → Type 0
IsUsable expected p =
    (is_given p.title ≡ true)
    × (is_given p.channel_id ≡ true)
    × (is_mismatch expected p.channel_id ≡ false)
    × (is_absent p.actual_end_time ≡ false)
    × ((is_some_text "public" p.privacy_status || is_some_text "unlisted" p.privacy_status) ≡ true)
    × (is_some_text "processed" p.upload_status ≡ true)
    × (is_false p.embeddable ≡ false)

unusable-ne-usable : (r : Reason) (f : Facts) → unusable r ≡ usable f → ⊥
unusable-ne-usable r f h = cc

-- The chain of tests of a probe that was returned.
abbrev chain : (t c m n v u e : Bool) → Facts → Evaluation
chain t c m n v u e facts =
    if not t || not c
    then unusable metadata_missing
    else if m
    then unusable channel_mismatch
    else if n
    then unusable broadcast_not_finalized
    else if not v
    then unusable not_public
    else if not u
    then unusable still_processing
    else if e
    then unusable not_embeddable
    else usable facts

abbrev Passes : (t c m n v u e : Bool) → Type 0
Passes t c m n v u e =
    (t ≡ true) × (c ≡ true) × (m ≡ false) × (n ≡ false) × (v ≡ true) × (u ≡ true) × (e ≡ false)

chain-usable :
    (t c m n v u e : Bool) (facts facts' : Facts)
    → chain t c m n v u e facts ≡ usable facts'
    → Passes t c m n v u e × (facts ≡ facts')
chain-usable false c m n v u e facts facts' h = absurd (unusable-ne-usable _ facts' h)
chain-usable true false m n v u e facts facts' h = absurd (unusable-ne-usable _ facts' h)
chain-usable true true true n v u e facts facts' h = absurd (unusable-ne-usable _ facts' h)
chain-usable true true false true v u e facts facts' h = absurd (unusable-ne-usable _ facts' h)
chain-usable true true false false false u e facts facts' h = absurd (unusable-ne-usable _ facts' h)
chain-usable true true false false true false e facts facts' h =
    absurd (unusable-ne-usable _ facts' h)
chain-usable true true false false true true true facts facts' h =
    absurd (unusable-ne-usable _ facts' h)
chain-usable true true false false true true false facts facts' h =
    ((refl, refl, refl, refl, refl, refl, refl), cc)

-- An archive is usable exactly where YouTube returned a probe that meets all the conditions.
pub evaluate_archive-usable :
    (o : Option Probe) (expected : Option String) (facts : Facts)
    → (evaluate_archive o expected ≡ usable facts)
      ↔ ((p : Probe) × (o ≡ some p) × IsUsable expected p × (facts_of p ≡ facts))
unfolding evaluate_archive
evaluate_archive-usable o expected facts = (forth o, back)
  where
    forth :
        (o : Option Probe)
        → evaluate_archive o expected ≡ usable facts
        → (p : Probe) × (o ≡ some p) × IsUsable expected p × (facts_of p ≡ facts)
    forth none h = absurd (unusable-ne-usable _ facts h)
    forth (some p) h =
        let (passes, same) =
          chain-usable (is_given p.title) (is_given p.channel_id)
            (is_mismatch expected p.channel_id) (is_absent p.actual_end_time)
            (is_some_text "public" p.privacy_status || is_some_text "unlisted" p.privacy_status)
            (is_some_text "processed" p.upload_status) (is_false p.embeddable) (facts_of p) facts
            h in
        (p, refl, passes, same)

    back :
        ((p : Probe) × (o ≡ some p) × IsUsable expected p × (facts_of p ≡ facts))
        → evaluate_archive o expected ≡ usable facts
    back (p, is, (t, c, m, n, v, u, e), same) = rw (is, t, c, m, n, v, u, e, same) refl
