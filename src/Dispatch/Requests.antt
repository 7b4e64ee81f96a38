-- ===== src/Dispatch/Requests.antt =====
-- The calls of `DispatchService` that change the store, as one type, over the in-memory units.
use dispatch_core.Shared.{String, Option}
use dispatch_core.Domain.Errors.{Result, ok, err}
use dispatch_core.Domain.Events.{Ambient, Instant}
use dispatch_core.Domain.WorkOrder.{WorkOrder, PoolMode, CompletionReport}
use dispatch_core.Domain.Tracking.{Fresh}
use dispatch_core.Application.Service
use dispatch_core.Application.Service.{OrderRequest, Location}
use dispatch_core.Infrastructure.Memory.{MemoryStore, in_memory}

-- A call on an order that goes through `_change_order`.
pub data OrderCall : Type 0 where
  claim_coordination : String → OrderCall
  publish_pool : PoolMode → Option String → OrderCall
  express_interest withdraw_interest claim_first : String → OrderCall
  assign_order : String → Option String → OrderCall
  accept_order reject_assignment start_work : String → OrderCall

-- Each with the organization, the order and what it reads from outside.
pub data Request : Type 0 where
  create_order : OrderRequest → String → Ambient → Request
  call : String → String → OrderCall → Ambient → Request
  cancel_order : String → String → String → Option String → Ambient → Ambient → Request
  complete_order : String → String → String → CompletionReport → Ambient → Ambient → Request
  start_travel :
      String → String → String → Option String → String → Fresh → Ambient → Ambient → Request
  record_location : String → String → String → Location → Instant → Ambient → Request

unfoldable pub serve_call :
    String → String → OrderCall → Ambient → MemoryStore → Result WorkOrder × MemoryStore
serve_call org id (claim_coordination c) env = Service.claim_coordination in_memory org id c env
serve_call org id (publish_pool m a) env = Service.publish_pool in_memory org id m a env
serve_call org id (express_interest e) env = Service.express_interest in_memory org id e env
serve_call org id (withdraw_interest e) env = Service.withdraw_interest in_memory org id e env
serve_call org id (claim_first e) env = Service.claim_first in_memory org id e env
serve_call org id (assign_order e a) env = Service.assign_order in_memory org id e a env
serve_call org id (accept_order e) env = Service.accept_order in_memory org id e env
serve_call org id (reject_assignment e) env = Service.reject_assignment in_memory org id e env
serve_call org id (start_work e) env = Service.start_work in_memory org id e env

-- How a call ended, and the store that it left.
abbrev pub ended : {A : Type 0} → Result A × MemoryStore → Result (Unit {0}) × MemoryStore
ended (ok a, s) = (ok tt, s)
ended (err e, s) = (err e, s)

unfoldable pub serve : Request → MemoryStore → Result (Unit {0}) × MemoryStore
unfolding serve_call
serve (create_order a uuid env) s = ended (Service.create_order in_memory a uuid env s)
serve (call org id c env) s = ended (serve_call org id c env s)
serve (cancel_order org id reason actor env env') s =
    ended (Service.cancel_order in_memory org id reason actor env env' s)
serve (complete_order org id executor report env env') s =
    ended (Service.complete_order in_memory org id executor report env env' s)
serve (start_travel org id executor session uuid fresh env env') s =
    ended (Service.start_travel in_memory org id executor session uuid fresh env env' s)
serve (record_location org executor session a now env) s =
    ended (Service.record_location in_memory org executor session a now env s)
