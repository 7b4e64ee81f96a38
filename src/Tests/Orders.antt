-- ===== src/Tests/Orders.antt =====
-- Work orders and order numbers.
use dispatch_core.Shared.{
  ◌≡◌, ◌↔◌, ◌⊎◌, refl, true, false, String, none, some, [], ◌∷◌, arith, eq_iff, chr, is_some_of,
  string_eq,
}
use dispatch_core.Shared.Dict.{get, put}
use dispatch_core.Domain.Errors.{ok, err, invalid_transition, Refusal}
use dispatch_core.Domain.Events.{text}
use dispatch_core.Domain.OrderNumbers.{format_order_number}
use dispatch_core.Domain.OrderNumbers.Digits.{pad3, rjust, base36, digit}
use dispatch_core.Domain.OrderNumbers.Unique.{read_number, read-format_order_number}
use dispatch_core.Domain.WorkOrder.{
  WorkOrder, WorkOrderStatus, PoolMode, Command, apply, claim_first, assign,
  interested_executor_ids, interested_keys, PoolResponseStatus,
}
use dispatch_core.Domain.WorkOrder.Lifecycle.{Step, apply-Step}
use dispatch_core.Domain.WorkOrder.Enabled.{Enabled, succeeds, apply-Enabled}
use dispatch_core.Domain.WorkOrder.Invariant.{IsValid, apply-IsValid}
use dispatch_core.Domain.WorkOrder.Copies.{deep_copy, deep_copy-IsValid}
use dispatch_core.Domain.WorkOrder.Recording.{Records, apply-Records, is_repeat}
use dispatch_core.Domain.WorkOrder.Claims.{claim_first_wins, assign-resolves}
use dispatch_core.Domain.WorkOrder.Claims.{chosen_from}
use dispatch_core.Tests.Data.{env, order_in, curated_order}

-- `A000`, `Z999` and the first of the long numbers.
format_order_number_runs :
    (format_order_number 1 ≡ ok "A000")
    × (format_order_number 26000 ≡ ok "Z999")
    × (format_order_number 26001 ≡ ok "X000K29")
unfolding format_order_number pad3 rjust base36 digit chr
format_order_number_runs = (refl, refl, refl)

read-format_order_number_example :
    (t : String) × (format_order_number 26001 ≡ ok t) × (read_number t ≡ 26001)
read-format_order_number_example = read-format_order_number 26001 (omega arith)

abbrev taken : WorkOrder
taken = order_in WorkOrderStatus.assigned none (some "ann")

abbrev accepted : WorkOrder
accepted = record taken {
  status = WorkOrderStatus.accepted;
  version = 4;
  updated_at = 100;
  events =
      record {
        event_id = "e-1";
        organization_id = "org";
        aggregate_type = "work_order";
        aggregate_id = "w-1";
        aggregate_version = 4;
        name = "work_order.accepted";
        occurred_at = 100;
        payload = ("executor_id", text "ann") ∷ [];
      }
      ∷ [];
}

accept_runs : apply (Command.accept "ann") none env taken ≡ ok accepted
unfolding apply is_some_of
accept_runs = refl

apply-Step_example : Step WorkOrderStatus.assigned WorkOrderStatus.accepted
apply-Step_example = apply-Step none env taken {o' = accepted} (Command.accept "ann") accept_runs

apply-Enabled_example :
    (succeeds (apply (Command.accept "ann") none env taken) ≡ true)
    ↔ Enabled (Command.accept "ann") taken
apply-Enabled_example = apply-Enabled none env taken (Command.accept "ann")

apply-Records_example :
    ((is_repeat (Command.accept "ann") taken ≡ true) × (accepted ≡ taken))
    ⊎ ((is_repeat (Command.accept "ann") taken ≡ false)
        × Records (Command.accept "ann") none env taken accepted)
apply-Records_example =
    apply-Records none env taken {o' = accepted} (Command.accept "ann") accept_runs

taken-IsValid : IsValid taken
unfolding interested_keys
taken-IsValid = ground (arith, eq_iff "ann" "")

apply-IsValid_example : IsValid accepted
apply-IsValid_example =
    apply-IsValid none env taken {o' = accepted} (Command.accept "ann") taken-IsValid accept_runs

deep_copy-IsValid_example : deep_copy taken ≡ ok taken
deep_copy-IsValid_example = deep_copy-IsValid taken taken-IsValid

abbrev pooled : WorkOrder
pooled = order_in WorkOrderStatus.pool_open (some PoolMode.first_claim) none

abbrev claimed : WorkOrder
claimed = record pooled {
  status = WorkOrderStatus.assigned;
  assignee_id = some "ann";
  pool_responses =
      (
        "ann",
        record { executor_id = "ann"; status = PoolResponseStatus.selected; responded_at = 100 },
      )
      ∷ [];
  version = 4;
  updated_at = 100;
  events =
      record {
        event_id = "e-1";
        organization_id = "org";
        aggregate_type = "work_order";
        aggregate_id = "w-1";
        aggregate_version = 4;
        name = "work_order.first_claim_won";
        occurred_at = 100;
        payload = ("executor_id", text "ann") ∷ [];
      }
      ∷ [];
}

claim_first_runs : claim_first "ann" none env pooled ≡ ok claimed
unfolding claim_first put
claim_first_runs = refl

claim_first_wins_example :
    (claimed.assignee_id ≡ some "ann")
    × (claimed.status ≡ WorkOrderStatus.assigned)
    × (claim_first "bob" none env claimed ≡ err (invalid_transition Refusal.wrong_status))
claim_first_wins_example =
    claim_first_wins "ann" "bob" none none env env pooled {o' = claimed} claim_first_runs

-- Ann is assigned, and Bob is turned down.
assigned_runs :
    (o' : WorkOrder) × (assign "ann" (some "boss") none env curated_order ≡ ok o')
    × (interested_executor_ids curated_order ≡ "ann" ∷ "bob" ∷ [])
unfolding assign is_some_of interested_executor_ids
assigned_runs = (_, refl, refl)

assign-resolves_example :
    (get assigned_runs.0.pool_responses "bob"
      ≡ chosen_from "ann" 100 "bob" (get curated_order.pool_responses "bob"))
    × (interested_executor_ids assigned_runs.0 ≡ [])
    × (assigned_runs.0.assignee_id ≡ some "ann")
assign-resolves_example =
    assign-resolves "ann" (some "boss") none env curated_order {o' = assigned_runs.0} "bob" refl
      assigned_runs.1
