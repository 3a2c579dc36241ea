-- ===== src/Job/Status.antt =====
-- internal/job/job.go and statemachine.go: the statuses, and the table of legal transitions.
-- `Status` is a Go string: the seven constants are constructors, and `other` holds any string
-- that is none of them.
use calligraphy.Base.{String, List, [], ◌∷◌, Bool, true, false, not, if◌then◌else◌, any, str_eq}

pub data Status : Type 0 where
  pending running completed failed retrying dead_letter cancelled : Status
  other : String → Status

pub data Priority : Type 0 where
  high default low : Priority
  other_priority : String → Priority

-- `==` on two statuses.
abbrev pub same_status : Status → Status → Bool
same_status pending pending = true
same_status running running = true
same_status completed completed = true
same_status failed failed = true
same_status retrying retrying = true
same_status dead_letter dead_letter = true
same_status cancelled cancelled = true
same_status (other s) (other t) = str_eq s t
same_status _ _ = false

abbrev pub statuses : List Status
statuses = pending ∷ running ∷ completed ∷ failed ∷ retrying ∷ dead_letter ∷ cancelled ∷ []

unfoldable pub status_valid : Status → Bool
status_valid s = any (same_status s) statuses

unfoldable pub terminal : Status → Bool
terminal completed = true
terminal failed = true
terminal dead_letter = true
terminal cancelled = true
terminal _ = false

abbrev pub priority_order : List Priority
priority_order = high ∷ default ∷ low ∷ []

unfoldable pub priority_valid : Priority → Bool
priority_valid (other_priority s) = false
priority_valid _ = true

-- The table of `transitions`: the row of `from`, looked up at `to`; a missing key is false.
unfoldable pub can_transition : Status → Status → Bool
can_transition pending running = true
can_transition pending cancelled = true
can_transition running completed = true
can_transition running retrying = true
can_transition running failed = true
can_transition running dead_letter = true
can_transition running cancelled = true
can_transition retrying pending = true
can_transition retrying running = true
can_transition retrying cancelled = true
can_transition dead_letter pending = true
can_transition _ _ = false

pub data TransitionError : Type 0 where
  unknown_from : Status → TransitionError
  unknown_to : Status → TransitionError
  invalid : Status → Status → TransitionError

pub data Verdict : Type 0 where
  legal : Verdict
  refused : TransitionError → Verdict

unfoldable pub transition : Status → Status → Verdict
unfolding status_valid can_transition
transition from to =
    if not (status_valid from)
    then refused (unknown_from from)
    else if not (status_valid to)
    then refused (unknown_to to)
    else if not (can_transition from to)
    then refused (invalid from to)
    else legal
