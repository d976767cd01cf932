-- ===== src/DeliveryLog/Tests.antt =====
-- Small runs of the delivery log at concrete inputs.
use yobi_analytics.Prelude.{◌≡◌, refl, some, List, [], ◌∷◌, arith}
use yobi_analytics.DeliveryLog.{
  claimed, Key, LogCall, mark_delivered, mark_suppressed, log_write, log_call, succeeded, refused,
  may_claim,
}
use yobi_analytics.DeliveryLog.Memory.{log_memory, empty_log}
use yobi_analytics.DeliveryLog.Claims.{serve_log, IsAttempt, NoneSucceeded, claim_is_exclusive}

abbrev target : Key
target = ("client-1", "video-1")

-- A second run of the same minute, and a suppression, for the same target; a claim for another video.
abbrev rival_calls : List (Key × LogCall)
rival_calls =
    (target, mark_delivered 61000000 61000000)
    ∷ (("client-1", "video-2"), mark_delivered 61000000 61000000)
    ∷ (target, mark_suppressed 62000000)
    ∷ []

rival_results :
    (serve_log log_memory rival_calls
      (log_call log_memory target (mark_delivered 60000000 60000000) empty_log).1).0
    ≡ refused ∷ succeeded ∷ refused ∷ []
unfolding serve_log log_call log_write may_claim
rival_results = refl

claim_is_exclusive_example :
    let after = (log_call log_memory target (mark_delivered 60000000 60000000) empty_log).1 in
    (log_memory.read (serve_log log_memory rival_calls after).1 target ≡ some (claimed 60000000))
    × NoneSucceeded target rival_calls (serve_log log_memory rival_calls after).0
unfolding log_call log_write may_claim IsAttempt
claim_is_exclusive_example =
    claim_is_exclusive log_memory target 60000000 60000000 empty_log rival_calls refl
      (λ _. omega arith, (λ _. omega arith, (λ _. tt, tt)))
