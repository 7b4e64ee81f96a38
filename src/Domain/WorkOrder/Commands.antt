-- ===== src/Domain/WorkOrder/Commands.antt =====
-- The calls that change a work order, as one type, so that a statement can range over all of them.
use dispatch_core.Shared.{String, Option}
use dispatch_core.Domain.Errors.{Result}
use dispatch_core.Domain.Events.{Ambient, Instant}
use dispatch_core.Domain.WorkOrder.Data.{WorkOrder, PoolMode, CompletionReport}
use dispatch_core.Domain.WorkOrder.Methods

pub data Command : Type 0 where
  claim_coordination : String → Command
  publish_pool : PoolMode → Option String → Command
  express_interest withdraw_interest claim_first : String → Command
  assign : String → Option String → Command
  accept reject_assignment start_travel start_work : String → Command
  complete : String → CompletionReport → Command
  cancel : String → Option String → Command

unfoldable pub apply : Command → Option Instant → Ambient → WorkOrder → Result WorkOrder
unfolding Methods.claim_coordination Methods.publish_pool Methods.express_interest
    Methods.withdraw_interest Methods.claim_first Methods.assign Methods.accept
    Methods.reject_assignment Methods.start_travel Methods.start_work Methods.complete
    Methods.cancel
apply (claim_coordination c) = Methods.claim_coordination c
apply (publish_pool mode actor) = Methods.publish_pool mode actor
apply (express_interest e) = Methods.express_interest e
apply (withdraw_interest e) = Methods.withdraw_interest e
apply (claim_first e) = Methods.claim_first e
apply (assign e actor) = Methods.assign e actor
apply (accept e) = Methods.accept e
apply (reject_assignment e) = Methods.reject_assignment e
apply (start_travel e) = Methods.start_travel e
apply (start_work e) = Methods.start_work e
apply (complete e report) = Methods.complete e report
apply (cancel reason actor) = Methods.cancel reason actor
