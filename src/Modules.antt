-- ===== src/Modules.antt =====
-- src/dispatch_core/modules/catalog.py: the modules of an installation, as a list.
use dispatch_core.Shared.{String, List, [], ◌∷◌}

pub data ModuleKind : Type 0 where
  core intake worker_transport user_interface storage connectivity : ModuleKind

pub data ModuleState : Type 0 where
  available stub : ModuleState

pub record ModuleDescriptor : Type 0 where
  pub module_id : String
  pub kind : ModuleKind
  pub state : ModuleState
  pub capabilities : List String
  pub note : String

abbrev modules : List ModuleDescriptor
modules =
    (record {
      module_id = "core.work_orders";
      kind = ModuleKind.core;
      state = ModuleState.available;
      capabilities = "lifecycle" ∷ "assignment" ∷ "evidence" ∷ "domain_events" ∷ [];
      note = "Transport-neutral domain kernel.";
    })
    ∷ (record {
      module_id = "core.tracking";
      kind = ModuleKind.core;
      state = ModuleState.available;
      capabilities = "sessions" ∷ "validated_points" ∷ "freshness_metadata" ∷ [];
      note = "PostgreSQL stores location history append-only.";
    })
    ∷ (record {
      module_id = "core.industry_packs";
      kind = ModuleKind.core;
      state = ModuleState.available;
      capabilities = "field_definitions" ∷ "work_types" ∷ "evidence_defaults" ∷ "versioned_db" ∷ [];
      note = "Per-organization packs live in PostgreSQL; code packs seed templates.";
    })
    ∷ (record {
      module_id = "intake.manual";
      kind = ModuleKind.intake;
      state = ModuleState.available;
      capabilities = "create_work_order" ∷ [];
      note = "Exercised through the application API and demo CLI.";
    })
    ∷ (record {
      module_id = "intake.telegram_guided";
      kind = ModuleKind.intake;
      state = ModuleState.available;
      capabilities = "service_selection" ∷ "field_prompts" ∷ "confirmation" ∷ "order_creation" ∷ [];
      note = "Pack-driven client flow remains inside Telegram/MAX frontends.";
    })
    ∷ (record {
      module_id = "config.messenger_admin";
      kind = ModuleKind.user_interface;
      state = ModuleState.available;
      capabilities = "brand" ∷ "services" ∷ "fields" ∷ "evidence" ∷ "preview" ∷ "publish" ∷ [];
      note = "Admin drafts, previews and publishes the service in Telegram/MAX.";
    })
    ∷ (record {
      module_id = "worker.telegram";
      kind = ModuleKind.worker_transport;
      state = ModuleState.available;
      capabilities = "polling" ∷ "callbacks" ∷ "location" ∷ "photo_report" ∷ [];
      note = "Durable polling or webhook ingestion; tokens remain deployment secrets.";
    })
    ∷ (record {
      module_id = "worker.max";
      kind = ModuleKind.worker_transport;
      state = ModuleState.available;
      capabilities = "polling" ∷ "callbacks" ∷ "location" ∷ "photo_report" ∷ [];
      note = "Uses platform-api2.max.ru and Authorization header authentication.";
    })
    ∷ (record {
      module_id = "storage.memory";
      kind = ModuleKind.storage;
      state = ModuleState.available;
      capabilities = "unit_of_work" ∷ "optimistic_lock" ∷ "outbox" ∷ [];
      note = "For tests and demonstrations only.";
    })
    ∷ (record {
      module_id = "storage.sqlite";
      kind = ModuleKind.storage;
      state = ModuleState.stub;
      capabilities = "migrations" ∷ "transactional_outbox" ∷ "backup" ∷ [];
      note = "First durable local deployment target.";
    })
    ∷ (record {
      module_id = "storage.postgresql";
      kind = ModuleKind.storage;
      state = ModuleState.available;
      capabilities =
          "migrations" ∷ "transactional_outbox" ∷ "durable_inbox" ∷ "skip_locked_workers"
          ∷ "multi_process" ∷ [];
      note = "Default durable deployment target.";
    })
    ∷ (record {
      module_id = "connectivity.egress";
      kind = ModuleKind.connectivity;
      state = ModuleState.available;
      capabilities = "route_policy" ∷ "health_aware_failover" ∷ "signed_metadata_model" ∷ [];
      note = "Network probes and route process control remain adapters.";
    })
    ∷ (record {
      module_id = "connectivity.edge_gateway";
      kind = ModuleKind.connectivity;
      state = ModuleState.stub;
      capabilities = "webhooks" ∷ "durable_inbound_queue" ∷ "hybrid_delivery" ∷ [];
      note = "Webhooks and durable ingress exist; a separate hybrid edge does not.";
    })
    ∷ []

abbrev pub module_catalog : List ModuleDescriptor
module_catalog = modules
