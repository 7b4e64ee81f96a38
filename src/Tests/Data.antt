-- ===== src/Tests/Data.antt =====
-- The orders, sessions and stores of the tests.
use dispatch_core.Shared.{true, false, String, Option, none, some, [], ◌∷◌}
use dispatch_core.Domain.Events.{Ambient, text}
use dispatch_core.Domain.Floats.{finite}
use dispatch_core.Domain.WorkOrder.{
  WorkOrder, WorkOrderStatus, PoolMode, PoolResponse, PoolResponseStatus, EvidenceRequirements,
  CompletionReport, Submission,
}
use dispatch_core.Domain.Tracking.{
  TrackingPoint, TrackingSession, TrackingStatus, LocationSource, Fresh, Start,
}
use dispatch_core.Application.Service.{OrderRequest, Location}
use dispatch_core.Infrastructure.Memory.{MemoryStore}

abbrev pub env : Ambient
env = record { clock = 100; uuid = "e-1" }

abbrev pub rules : EvidenceRequirements
rules = record {
  minimum_photos = 1;
  comment_required = true;
  signature_required = false;
  customer_code_required = false;
}

abbrev pub report : CompletionReport
report = record {
  photo_refs = "p-1" ∷ [];
  comment = some "done";
  signature_ref = none;
  customer_code = none;
}

abbrev pub submission : Submission
submission = record {
  order_id = "w-1";
  public_number = "A000";
  organization_id = "org";
  work_type = "repair";
  source = "manual";
  details = ("address", text "Main St 1") ∷ [];
  requester_id = some "client";
  evidence_requirements = some rules;
}

-- An order in a status, with a pool mode and an assignee.
abbrev pub order_in : WorkOrderStatus → Option PoolMode → Option String → WorkOrder
order_in status mode assignee = record {
  id = "w-1";
  public_number = "A000";
  organization_id = "org";
  work_type = "repair";
  source = "manual";
  details = ("address", text "Main St 1") ∷ [];
  requester_id = some "client";
  coordinator_id = some "boss";
  evidence_requirements = rules;
  status = status;
  pool_mode = mode;
  assignee_id = assignee;
  pool_responses = [];
  report = none;
  version = 3;
  created_at = 10;
  updated_at = 20;
  events = [];
}

abbrev pub interest : String → PoolResponse
interest e = record { executor_id = e; status = PoolResponseStatus.interested; responded_at = 30 }

-- Two executors wait for a curated order.
abbrev pub curated_order : WorkOrder
curated_order =
    let o = order_in WorkOrderStatus.pool_open (some PoolMode.curated) none in
    record o { pool_responses = ("ann", interest "ann") ∷ ("bob", interest "bob") ∷ [] }

abbrev pub public_token : String
public_token = "pppppppppppppppppppppppppppppppppppppppppppppppp"

abbrev pub location_token : String
location_token = "llllllllllllllllllllllllllllllllllllllllllllllll"

abbrev pub fresh : Fresh
fresh = record { created_at = 90; public_token = public_token; location_token = location_token }

abbrev pub start_data : Start
start_data = record {
  session_id = "t-1";
  organization_id = "org";
  work_order_id = "w-1";
  executor_id = "ann";
  public_token = none;
  location_token = none;
}

abbrev pub point_at : String → TrackingPoint
point_at event = record {
  latitude = finite false 0;
  longitude = finite true 0;
  captured_at = 95;
  ingested_at = 96;
  source = LocationSource.telegram;
  accuracy_m = none;
  source_event_id = some event;
}

abbrev pub session : TrackingSession
session = record {
  id = "t-1";
  organization_id = "org";
  work_order_id = "w-1";
  executor_id = "ann";
  public_token = some public_token;
  location_token = some location_token;
  status = TrackingStatus.active;
  points = [];
  point_count = 0;
  version = 1;
  created_at = 90;
  updated_at = 90;
  events = [];
  persisted_point_count = 0;
}

abbrev pub request : OrderRequest
request = record {
  organization_id = "org";
  work_type = "repair";
  source = "manual";
  details = [];
  requester_id = none;
  evidence_requirements = none;
  order_id = some "w-1";
}

abbrev pub here : Location
here = record {
  latitude = finite false 0;
  longitude = finite false 0;
  source = LocationSource.web;
  captured_at = some 120;
  accuracy_m = none;
  source_event_id = some "ev-1";
}

abbrev pub empty_store : MemoryStore
empty_store = record {
  orders = [];
  tracking_sessions = [];
  outbox_events = [];
  order_number_counters = [];
}

abbrev pub store_with : WorkOrder → MemoryStore
store_with o = record empty_store { orders = (o.id, o) ∷ [] }
