-- ===== src/Domain/WorkOrder/Enabled.antt =====
-- Exactly when each command succeeds, written down without the code's guards.
use dispatch_core.Shared.{
  Bool, true, false, ◌≤◌, ◌≡◌, ◌≢◌, ◌↔◌, ◌⊎◌, inl, inr, length, Option, none, some, String, strip,
  is_some_of_iff, Option-cases, is_present, eq_iff, [], arith, string_eq,
}
use dispatch_core.Shared.Dict.{get}
use dispatch_core.Domain.Errors.{Result, ok, err}
use dispatch_core.Domain.Events.{Ambient, Instant}
use dispatch_core.Domain.WorkOrder.Data.{
  WorkOrder, WorkOrderStatus, PoolMode, CompletionReport, EvidenceRequirements, is_terminal,
}
use dispatch_core.Domain.WorkOrder.Guards.{missing_evidence, has_text, validate_report}
use dispatch_core.Domain.WorkOrder.Methods.{has_interest}
use dispatch_core.Domain.WorkOrder.Commands.{Command, apply}

abbrev pub succeeds {ℓ} : {A : Type ℓ} → Result A → Bool
succeeds (ok _) = true
succeeds (err _) = false

-- The report brings what the rules of the order ask for.
pub record Suffices (rules : EvidenceRequirements) (report : CompletionReport) : Type 0 where
  pub photos : rules.minimum_photos ≤ length report.photo_refs
  pub comment : rules.comment_required ≡ true → has_text report.comment ≡ true
  pub signature : rules.signature_required ≡ true → is_present report.signature_ref ≡ true
  pub customer_code : rules.customer_code_required ≡ true → is_present report.customer_code ≡ true

-- No coordinator, or the one who acts.
abbrev pub MayCoordinate : Option String → WorkOrder → Type 0
MayCoordinate actor o = (o.coordinator_id ≡ none) ⊎ ((o.coordinator_id ≡ actor) × (actor ≢ none))

abbrev pub Enabled : Command → WorkOrder → Type 0
Enabled (Command.claim_coordination c) o =
    (is_terminal o.status ≡ false)
    × (c ≢ "")
    × ((o.coordinator_id ≡ none) ⊎ (o.coordinator_id ≡ some c))
Enabled (Command.publish_pool mode actor) o =
    (o.status ≡ WorkOrderStatus.submitted) × MayCoordinate actor o
Enabled (Command.express_interest e) o =
    (o.status ≡ WorkOrderStatus.pool_open) × (o.pool_mode ≡ some PoolMode.curated) × (e ≢ "")
Enabled (Command.withdraw_interest e) o =
    (o.status ≡ WorkOrderStatus.pool_open)
    × (o.pool_mode ≡ some PoolMode.curated)
    × (has_interest (get o.pool_responses e) ≡ true)
Enabled (Command.claim_first e) o =
    (o.status ≡ WorkOrderStatus.pool_open) × (o.pool_mode ≡ some PoolMode.first_claim) × (e ≢ "")
Enabled (Command.assign e actor) o =
    ((o.status ≡ WorkOrderStatus.submitted) ⊎ (o.status ≡ WorkOrderStatus.pool_open))
    × MayCoordinate actor o
    × (e ≢ "")
Enabled (Command.accept e) o = (o.status ≡ WorkOrderStatus.assigned) × (o.assignee_id ≡ some e)
Enabled (Command.reject_assignment e) o =
    (o.status ≡ WorkOrderStatus.assigned) × (o.assignee_id ≡ some e)
Enabled (Command.start_travel e) o =
    (o.status ≡ WorkOrderStatus.accepted) × (o.assignee_id ≡ some e)
Enabled (Command.start_work e) o =
    ((o.status ≡ WorkOrderStatus.accepted) ⊎ (o.status ≡ WorkOrderStatus.en_route))
    × (o.assignee_id ≡ some e)
Enabled (Command.complete e report) o =
    (o.status ≡ WorkOrderStatus.in_progress)
    × (o.assignee_id ≡ some e)
    × Suffices o.evidence_requirements report
Enabled (Command.cancel reason actor) o =
    (is_terminal o.status ≡ false) × MayCoordinate actor o × (strip reason ≢ "")

missing_evidence-nil :
    (rules : EvidenceRequirements) (report : CompletionReport)
    → Suffices rules report
    → missing_evidence rules report ≡ []
unfolding missing_evidence
missing_evidence-nil rules report h = ground arith

Suffices-of_nil :
    (rules : EvidenceRequirements) (report : CompletionReport)
    → missing_evidence rules report ≡ []
    → Suffices rules report
unfolding missing_evidence
Suffices-of_nil rules report h = record {
  photos = ground arith;
  comment = λ e. ground arith;
  signature = λ e. ground arith;
  customer_code = λ e. ground arith;
}

-- A report passes exactly when it suffices.
pub validate_report_iff :
    (report : CompletionReport) (o : WorkOrder)
    → (succeeds (validate_report report o) ≡ true) ↔ Suffices o.evidence_requirements report
unfolding validate_report
validate_report_iff report o = (
  λ h. Suffices-of_nil o.evidence_requirements report (ground arith),
  λ h. rw (missing_evidence-nil o.evidence_requirements report h),
)

strip_ne : (s : String) → strip s ≢ "" → s ≢ ""
unfolding strip
strip_ne s h e = h (rw e)

module _ (now : Option Instant) (env : Ambient) (o : WorkOrder) where
  -- A command succeeds exactly if it is enabled: `Enabled` lists for each command the status, the
  -- pool, the actor and the texts it needs.
  pub apply-Enabled : (c : Command) → (succeeds (apply c now env o) ≡ true) ↔ Enabled c o
  unfolding apply
  apply-Enabled (Command.claim_coordination c) =
      ground (arith, is_some_of_iff o.coordinator_id c, eq_iff c "")
  apply-Enabled (Command.publish_pool m a) = elim (Option-cases o.coordinator_id) [
    | inl e ↦ ground arith
    | inr (c, e) ↦ ground (arith, is_some_of_iff a c)
  ]
  apply-Enabled (Command.express_interest e) = ground (arith, eq_iff e "")
  apply-Enabled (Command.withdraw_interest e) = ground arith
  apply-Enabled (Command.claim_first e) = ground (arith, eq_iff e "")
  apply-Enabled (Command.assign x a) = elim (Option-cases o.coordinator_id) [
    | inl e ↦ ground (arith, eq_iff x "")
    | inr (c, e) ↦ ground (arith, is_some_of_iff a c, eq_iff x "")
  ]
  apply-Enabled (Command.accept e) = ground (arith, is_some_of_iff o.assignee_id e)
  apply-Enabled (Command.reject_assignment e) = ground (arith, is_some_of_iff o.assignee_id e)
  apply-Enabled (Command.start_travel e) = ground (arith, is_some_of_iff o.assignee_id e)
  apply-Enabled (Command.start_work e) = ground (arith, is_some_of_iff o.assignee_id e)
  apply-Enabled (Command.complete e r) =
      ground (arith, is_some_of_iff o.assignee_id e, validate_report_iff r o)
  apply-Enabled (Command.cancel r a) = elim (Option-cases o.coordinator_id) [
    | inl e ↦ ground (arith, eq_iff r "", eq_iff (strip r) "", strip_ne r)
    | inr (c, e) ↦ ground (arith, is_some_of_iff a c, eq_iff r "", eq_iff (strip r) "", strip_ne r)
  ]
