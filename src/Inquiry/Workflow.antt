-- ===== src/Inquiry/Workflow.antt =====
-- src/lib/inquiry-status-workflow.ts: the statuses of an inquiry and their transitions. A value of the
-- type is one of the statuses already; the checks of an unknown value are left out.
use limitmark.Common.{ℕ, suc, ◌≤◌, ◌≡◌, ◌==◌, Bool, true, false, ◌||◌, List, [], ◌∷◌, arith}

pub data InquiryStatus : Type 0 where
  received in_review awaiting_scope proposal_sent approved completed declined archived :
      InquiryStatus

abbrev pub status_index : InquiryStatus → ℕ
status_index received = 0
status_index in_review = 1
status_index awaiting_scope = 2
status_index proposal_sent = 3
status_index approved = 4
status_index completed = 5
status_index declined = 6
status_index archived = 7

abbrev pub is_active_inquiry_status : InquiryStatus → Bool
is_active_inquiry_status archived = false
is_active_inquiry_status status = true

abbrev pub allowed_inquiry_status_transitions : InquiryStatus → List InquiryStatus
allowed_inquiry_status_transitions received = in_review ∷ declined ∷ []
allowed_inquiry_status_transitions in_review = awaiting_scope ∷ declined ∷ []
allowed_inquiry_status_transitions awaiting_scope = proposal_sent ∷ declined ∷ []
allowed_inquiry_status_transitions proposal_sent = approved ∷ declined ∷ []
allowed_inquiry_status_transitions approved = completed ∷ []
allowed_inquiry_status_transitions completed = []
allowed_inquiry_status_transitions declined = []
allowed_inquiry_status_transitions archived = []

abbrev contains : InquiryStatus → List InquiryStatus → Bool
contains s [] = false
contains s (t ∷ ts) = (status_index t == status_index s) || contains s ts

unfoldable pub can_transition_inquiry_status : InquiryStatus → InquiryStatus → Bool
can_transition_inquiry_status current next =
    contains next (allowed_inquiry_status_transitions current)

-- How many transitions can follow a status.
abbrev pub steps_left : InquiryStatus → ℕ
steps_left received = 5
steps_left in_review = 4
steps_left awaiting_scope = 3
steps_left proposal_sent = 2
steps_left approved = 1
steps_left status = 0

pub can_transition-steps_left :
    (s t : InquiryStatus)
    → can_transition_inquiry_status s t ≡ true
    → suc (steps_left t) ≤ steps_left s
unfolding can_transition_inquiry_status
can_transition-steps_left received t h = ground arith
can_transition-steps_left in_review t h = ground arith
can_transition-steps_left awaiting_scope t h = ground arith
can_transition-steps_left proposal_sent t h = ground arith
can_transition-steps_left approved t h = ground arith
can_transition-steps_left completed t h = cc
can_transition-steps_left declined t h = cc
can_transition-steps_left archived t h = cc

pub steps_left-le : (s : InquiryStatus) → steps_left s ≤ 5
steps_left-le s = ground arith
