-- ===== src/Job/Transitions.antt =====
-- The lifecycle as a relation, and what `Transition` decides of it.
use calligraphy.Base.{◌≡◌, refl, ◌≢◌, ◌↔◌, true, arith}
use calligraphy.Job.Status.{
  Status, pending, running, completed, failed, retrying, dead_letter, cancelled, other,
  status_valid, can_transition, legal, transition,
}

-- The documented diagram, one constructor for each arrow.
infix 40 ◌⟶◌ ◌⟶*◌
pub data ◌⟶◌ : Status → Status → Type 0 where
  claim : pending ⟶ running
  cancel_pending : pending ⟶ cancelled
  succeed : running ⟶ completed
  retry : running ⟶ retrying
  give_up : running ⟶ failed
  exhaust : running ⟶ dead_letter
  cancel_running : running ⟶ cancelled
  promote : retrying ⟶ pending
  claim_early : retrying ⟶ running
  cancel_retrying : retrying ⟶ cancelled
  requeue : dead_letter ⟶ pending

pub data ◌⟶*◌ : Status → Status → Type 0 where
  here : {s : Status} → s ⟶* s
  along : {s t u : Status} → s ⟶ t → t ⟶* u → s ⟶* u

pub ruleset arrows = (
  claim, cancel_pending, succeed, retry, give_up, exhaust, cancel_running, promote, claim_early,
  cancel_retrying, requeue,
)

transition_of_⟶ : {s t : Status} → s ⟶ t → transition s t ≡ legal
unfolding transition
transition_of_⟶ claim = refl
transition_of_⟶ cancel_pending = refl
transition_of_⟶ succeed = refl
transition_of_⟶ retry = refl
transition_of_⟶ give_up = refl
transition_of_⟶ exhaust = refl
transition_of_⟶ cancel_running = refl
transition_of_⟶ promote = refl
transition_of_⟶ claim_early = refl
transition_of_⟶ cancel_retrying = refl
transition_of_⟶ requeue = refl

pub ⟶-can_transition : (s t : Status) → can_transition s t ≡ true → s ⟶ t
unfolding can_transition
⟶-can_transition s t h = grind (arith, arrows)

can_transition_of_legal : (s t : Status) → transition s t ≡ legal → can_transition s t ≡ true
unfolding transition
can_transition_of_legal s t h = ground arith

⟶_of_transition : (s t : Status) → transition s t ≡ legal → s ⟶ t
⟶_of_transition s t h = ⟶-can_transition s t (can_transition_of_legal s t h)

-- `Transition` accepts a pair exactly if the diagram has that arrow.
pub transition_iff : (s t : Status) → (transition s t ≡ legal) ↔ (s ⟶ t)
transition_iff s t = (⟶_of_transition s t, transition_of_⟶)

-- From each of the seven statuses but COMPLETED, FAILED and CANCELLED, some chain of legal
-- transitions ends in COMPLETED; and COMPLETED is where it already stands.
pub ⟶*-completed :
    (s : Status) → status_valid s ≡ true → s ≢ failed → s ≢ cancelled → s ⟶* completed
unfolding status_valid
⟶*-completed pending v f c = search (here, along, arrows)
⟶*-completed running v f c = search (here, along, arrows)
⟶*-completed completed v f c = here
⟶*-completed failed v f c = absurd (f refl)
⟶*-completed retrying v f c = search (here, along, arrows)
⟶*-completed dead_letter v f c = search (here, along, arrows)
⟶*-completed cancelled v f c = absurd (c refl)
⟶*-completed (other s) v f c = cc
