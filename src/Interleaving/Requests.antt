-- ===== src/Interleaving/Requests.antt =====
-- The calls of `AsyncDispatchService`, as one type, and any number of them at once.
use dispatch_core.Shared.{String, Option, List, [], ◌∷◌, map, All}
use dispatch_core.Domain.Errors.{ok, err}
use dispatch_core.Domain.Events.{Ambient, Instant}
use dispatch_core.Domain.WorkOrder.{CompletionReport, Command, apply}
use dispatch_core.Domain.Tracking.{Fresh}
use dispatch_core.Application.AsyncService
use dispatch_core.Application.Service.{OrderRequest, Location}
use dispatch_core.Application.Task.{Task, finished, act}
use dispatch_core.Dispatch.Requests.{OrderCall}
use dispatch_core.Infrastructure.AsyncMemory.{AsyncMemoryStore, async_memory}
use dispatch_core.Interleaving.Growth.{IsFiled, Follows}
use dispatch_core.Interleaving.Steady.{Steady, Schedule, Schedule-Follows}
use dispatch_core.Interleaving.Fitting.{apply-Moves, complete-Moves, cancel-Moves}
use dispatch_core.Interleaving.Calls.{
  change_order-Steady, close_order-Steady, create_new_order-Steady, create_order_once-Steady,
  start_travel-Steady,
}
use dispatch_core.Interleaving.Locations.{record_location-Steady}

pub data AsyncRequest : Type 0 where
  create_order : OrderRequest → String → Ambient → AsyncRequest
  create_order_once : OrderRequest → String → Ambient → Ambient → AsyncRequest
  call : String → String → OrderCall → Ambient → AsyncRequest
  cancel_order : String → String → String → Option String → Ambient → Ambient → AsyncRequest
  complete_order : String → String → String → CompletionReport → Ambient → Ambient → AsyncRequest
  start_travel :
      String → String → String → Option String → String → Fresh → Ambient → Ambient → AsyncRequest
  record_location : String → String → String → Location → Instant → Ambient → AsyncRequest

-- A task whose answer nobody reads.
abbrev forget : {A : Type 0} → Task AsyncMemoryStore A → Task AsyncMemoryStore (Unit {0})
forget (finished (ok a)) = finished (ok tt)
forget (finished (err e)) = finished (err e)
forget (act write next) = act write (λ s. forget (next s))

unfoldable pub perform_call :
    String → String → OrderCall → Ambient → Task AsyncMemoryStore (Unit {0})
perform_call org id (OrderCall.claim_coordination c) env =
    forget (AsyncService.claim_coordination async_memory org id c env)
perform_call org id (OrderCall.publish_pool m a) env =
    forget (AsyncService.publish_pool async_memory org id m a env)
perform_call org id (OrderCall.express_interest e) env =
    forget (AsyncService.express_interest async_memory org id e env)
perform_call org id (OrderCall.withdraw_interest e) env =
    forget (AsyncService.withdraw_interest async_memory org id e env)
perform_call org id (OrderCall.claim_first e) env =
    forget (AsyncService.claim_first async_memory org id e env)
perform_call org id (OrderCall.assign_order e a) env =
    forget (AsyncService.assign_order async_memory org id e a env)
perform_call org id (OrderCall.accept_order e) env =
    forget (AsyncService.accept_order async_memory org id e env)
perform_call org id (OrderCall.reject_assignment e) env =
    forget (AsyncService.reject_assignment async_memory org id e env)
perform_call org id (OrderCall.start_work e) env =
    forget (AsyncService.start_work async_memory org id e env)

unfoldable pub perform : AsyncRequest → Task AsyncMemoryStore (Unit {0})
unfolding perform_call
perform (create_order a uuid env) = forget (AsyncService.create_order async_memory a uuid env)
perform (create_order_once a id env env') =
    forget (AsyncService.create_order_once async_memory a id env env')
perform (call org id c env) = perform_call org id c env
perform (cancel_order org id reason actor env env') =
    forget (AsyncService.cancel_order async_memory org id reason actor env env')
perform (complete_order org id executor report env env') =
    forget (AsyncService.complete_order async_memory org id executor report env env')
perform (start_travel org id executor session uuid fresh env env') =
    forget (AsyncService.start_travel async_memory org id executor session uuid fresh env env')
perform (record_location org executor session a now env) =
    forget (AsyncService.record_location async_memory org executor session a now env)

forget-Steady :
    {A : Type 0} (p : Task AsyncMemoryStore A) (s : AsyncMemoryStore)
    → Steady p s
    → Steady (forget p) s
forget-Steady (finished (ok a)) s h = tt
forget-Steady (finished (err e)) s h = tt
forget-Steady (act write next) s h =
    λ t g. let (step, rest) = h t g in (step, forget-Steady (next t) (write t) rest)

perform_call-Steady :
    (org id : String) (c : OrderCall) (env : Ambient) (s : AsyncMemoryStore)
    → Steady (perform_call org id c env) s
unfolding perform_call AsyncService.claim_coordination AsyncService.publish_pool
    AsyncService.express_interest AsyncService.withdraw_interest AsyncService.claim_first
    AsyncService.assign_order AsyncService.accept_order AsyncService.reject_assignment
    AsyncService.start_work apply
perform_call-Steady org id (OrderCall.claim_coordination c) env s =
    forget-Steady _ s
      (change_order-Steady org id _ (apply-Moves (Command.claim_coordination c) env) s)
perform_call-Steady org id (OrderCall.publish_pool m a) env s =
    forget-Steady _ s (change_order-Steady org id _ (apply-Moves (Command.publish_pool m a) env) s)
perform_call-Steady org id (OrderCall.express_interest e) env s =
    forget-Steady _ s
      (change_order-Steady org id _ (apply-Moves (Command.express_interest e) env) s)
perform_call-Steady org id (OrderCall.withdraw_interest e) env s =
    forget-Steady _ s
      (change_order-Steady org id _ (apply-Moves (Command.withdraw_interest e) env) s)
perform_call-Steady org id (OrderCall.claim_first e) env s =
    forget-Steady _ s (change_order-Steady org id _ (apply-Moves (Command.claim_first e) env) s)
perform_call-Steady org id (OrderCall.assign_order e a) env s =
    forget-Steady _ s (change_order-Steady org id _ (apply-Moves (Command.assign e a) env) s)
perform_call-Steady org id (OrderCall.accept_order e) env s =
    forget-Steady _ s (change_order-Steady org id _ (apply-Moves (Command.accept e) env) s)
perform_call-Steady org id (OrderCall.reject_assignment e) env s =
    forget-Steady _ s
      (change_order-Steady org id _ (apply-Moves (Command.reject_assignment e) env) s)
perform_call-Steady org id (OrderCall.start_work e) env s =
    forget-Steady _ s (change_order-Steady org id _ (apply-Moves (Command.start_work e) env) s)

perform-Steady : (q : AsyncRequest) (s : AsyncMemoryStore) → IsFiled s → Steady (perform q) s
unfolding perform AsyncService.create_order AsyncService.cancel_order AsyncService.complete_order
    apply
perform-Steady (create_order a uuid env) s filed =
    forget-Steady _ s (create_new_order-Steady a uuid env s)
perform-Steady (create_order_once a id env env') s filed =
    forget-Steady _ s (create_order_once-Steady a id env env' s filed)
perform-Steady (call org id c env) s filed = perform_call-Steady org id c env s
perform-Steady (cancel_order org id reason actor env env') s filed = forget-Steady _ s (
    close_order-Steady org id _ (apply-Moves (Command.cancel reason actor) env) _ s
      (cancel-Moves reason env'))
perform-Steady (complete_order org id executor report env env') s filed = forget-Steady _ s (
    close_order-Steady org id _ (apply-Moves (Command.complete executor report) env) _ s
      (complete-Moves env'))
perform-Steady (start_travel org id executor session uuid fresh env env') s filed =
    forget-Steady _ s (start_travel-Steady org id executor session uuid fresh env env' s)
perform-Steady (record_location org executor session a now env) s filed =
    forget-Steady _ s (record_location-Steady org executor session a now env s)

All-Steady :
    (qs : List AsyncRequest) (s : AsyncMemoryStore)
    → IsFiled s
    → All (λ p. Steady p s) (map perform qs)
All-Steady [] s filed = tt
All-Steady (q ∷ qs) s filed = (perform-Steady q s filed, All-Steady qs s filed)

-- Whatever requests run at once, and however their steps interleave: if everything in the store stands
-- under its key, it does so ever after, no order and no session is lost, and one that has changed has a
-- higher version than before.
pub requests-Follows :
    (qs : List AsyncRequest) {ps : List (Task AsyncMemoryStore (Unit {0}))} {s t : AsyncMemoryStore}
    → IsFiled s
    → Schedule (map perform qs) s ps t
    → Follows s t
requests-Follows qs {s} filed run = Schedule-Follows filed (All-Steady qs s filed) run
