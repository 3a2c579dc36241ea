-- ===== src/Job/Samples.antt =====
-- Runs of the job package, and its theorems at concrete inputs.
use calligraphy.Base.{◌≡◌, refl, ◌↔◌, [], ◌∷◌, Bool, true, none, some, ok, err, arith}
use calligraphy.Job.Status.{
  pending, running, completed, retrying, dead_letter, other, other_priority, transition, legal,
  status_valid, priority_valid, refused, unknown_from, invalid,
}
use calligraphy.Job.Transitions.{◌⟶◌, transition_iff}
use calligraphy.Job.Errors.{
  Bytes, Err, plain, wrapped, non_retryable, tags_non_retryable, classify_error, outcome_completed,
  outcome_cancelled, outcome_interrupted, outcome_failed, outcome_retryable, decimal,
  is_cancel_requested, is_interrupted, is_non_retryable, matches, in_chain,
}
use calligraphy.Job.Classify.{Marked, CancelSeen, StopSeen, classify_routes}
use calligraphy.Job.Record.{Options, new, fresh_job, valid_name, invalid_type}
use calligraphy.Job.Admission.{Admissible, Submitted, new_iff}

unknown_is_refused : transition (other "LOST") running ≡ refused (unknown_from (other "LOST"))
unfolding transition status_valid
unknown_is_refused = refl

no_exit : transition completed pending ≡ refused (invalid completed pending)
unfolding transition status_valid
no_exit = refl

transition_iff_example : (transition pending running ≡ legal) ↔ (pending ⟶ running)
transition_iff_example = transition_iff pending running

requeue_legal : transition dead_letter pending ≡ legal
unfolding transition status_valid
requeue_legal = refl

retrying_valid : status_valid retrying ≡ true
unfolding status_valid
retrying_valid = refl

abbrev bad_payload : Err
bad_payload = wrapped (b'x' ∷ []) (non_retryable (plain []))

bad_payload_fails : classify_error (some bad_payload) none ≡ outcome_failed
unfolding classify_error is_cancel_requested is_interrupted is_non_retryable matches in_chain
bad_payload_fails = refl

classify_routes_example :
    let o = classify_error (some bad_payload) none in
    let cancel = CancelSeen bad_payload none in
    let stop = StopSeen bad_payload none in
    let permanent = Marked tags_non_retryable (some bad_payload) in
    ((o ≡ outcome_cancelled) ↔ cancel)
    × ((o ≡ outcome_interrupted) ↔ ((¬ cancel) × stop))
    × ((o ≡ outcome_failed) ↔ ((¬ cancel) × (¬ stop) × permanent))
    × ((o ≡ outcome_retryable) ↔ ((¬ cancel) × (¬ stop) × (¬ permanent)))
    × (classify_error none none ≡ outcome_completed)
classify_routes_example = classify_routes bad_payload none

abbrev short : Bytes
short = b'n' ∷ b'o' ∷ []

hundred_and_five : decimal 20 105 ≡ b'1' ∷ b'0' ∷ b'5' ∷ []
unfolding decimal
hundred_and_five = refl

-- A submission with every option at its zero value.
abbrev any_json : Bytes → Bool
any_json b = true

abbrev bare : Options
bare = record {
  queue = "";
  priority = other_priority "";
  max_attempts = 0;
  idempotency_key = "";
  scheduled_at = 0;
}

bare_admitted : new any_json "id" "sleep" [] bare 7 ≡ ok (fresh_job "id" "sleep" [] bare 7)
unfolding new valid_name priority_valid
bare_admitted = refl

slash_refused : new any_json "id" "a/b" [] bare 7 ≡ err (invalid_type "a/b")
unfolding new valid_name priority_valid
slash_refused = refl

new_iff_example : (new any_json "id" "sleep" [] bare 7 ≡ ok (fresh_job "id" "sleep" [] bare 7)) ↔ (
    Admissible any_json "sleep" [] bare
    × Submitted "id" "sleep" [] bare 7 (fresh_job "id" "sleep" [] bare 7))
new_iff_example =
    new_iff any_json "id" "sleep" [] bare 7 (fresh_job "id" "sleep" [] bare 7) (omega arith)
