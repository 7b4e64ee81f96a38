-- ===== src/Lib.antt =====
-- dispatch-core: work orders, their tracking sessions, and the service that stores both.
--
-- The program's core is an aggregate of the work order (a state machine with a pool of executors), an
-- aggregate of the tracking session (an ordered list of located points), and a service that loads an
-- aggregate in a unit of work, calls its method, saves it under optimistic concurrency, and writes the
-- pending events to an outbox. The units of work are ports, implemented in memory.
--
-- Which file models which part:
-- Module Domain/Errors: src/dispatch_core/domain/errors.py. `Result` is a method's outcome; an error names
--   the class and the site that raises it, without the wording.
-- Module Domain/Events: src/dispatch_core/domain/events.py. `new_event` is `DomainEvent.create`,
--   Events/Copies the deep copies, Events/Equality the comparison of details.
-- Module Domain/OrderNumbers: src/dispatch_core/domain/order_numbers.py; OrderNumbers/Digits is `_base36`.
-- Module Domain/WorkOrder: src/dispatch_core/domain/work_order.py. WorkOrder/Data has the enumerations and
--   the record, Guards the private `_require_*` and `_validate_report`, Methods the public methods under
--   their own names, Commands the methods as data (`apply`); Enabled, Lifecycle, Invariant, Recording,
--   Pool and Claims prove what their names say; Copies has the deep copy.
-- Module Domain/Tracking and Domain/Floats: src/dispatch_core/domain/tracking.py.
-- Module Application/Ports, Application/Service: ports.py and service.py of src/dispatch_core/application.
--   The service is a function of the ports; `change_order` is `_change_order`, and `close_order` is the
--   body that `cancel_order` and `complete_order` have in common.
-- Module Infrastructure/Memory: src/dispatch_core/infrastructure/memory.py; Memory/Store has the store and
--   the unit, Repositories the repositories and the outbox, Commit the commit with its checks.
-- Module Application/Task, Application/AsyncPorts, Application/AsyncService: async_ports.py and
--   async_service.py of src/dispatch_core/application. A method is a task, whose steps meet the store one
--   by one.
-- Module Infrastructure/AsyncMemory: src/dispatch_core/infrastructure/async_memory.py, laid out as the
--   synchronous units are.
-- Module Interleaving: tasks of the asynchronous service that take turns on one store. Growth says how the
--   store may change while a task waits, Steady what tasks do under every schedule, Calls and Locations that
--   each call is such a task. Trace has the steps of one run, Uninterrupted what a change does alone, and
--   Atomic and Retry are about one call among others and a repeated one.
-- Module Packs: src/dispatch_core/packs/catalog.py. Packs/Data has the data classes with the checks
--   of their constructors, Packs/Fields the order of the fields, Packs/Industry the shipped packs
--   and the lookup, Seeds what both give.
-- Module Modules: src/dispatch_core/modules/catalog.py.
-- Module Messaging: src/dispatch_core/messaging/replies.py and intake.py. Messaging/Intake/Data has
--   the state of a client's flow with the table it is saved in, Prompts the texts and buttons,
--   Steps, Changes and Flow the steps, Handlers what an update does, MapChoice the choice on the map
--   (select_address_by_token of src/dispatch_core/infrastructure/workflow_store.py). Passed,
--   Validity and Judgement say what a state holds and what a handler may do; Ready, Fields, Sound
--   and Buttons go through the steps, and Updates runs sequences; Confirmation and Again are about
--   the press of the confirm button. The pack revisions, the service and what Python does with texts
--   are parameters.
-- Module Connectivity: src/dispatch_core/connectivity/egress.py. Connectivity/Egress has the definitions,
--   Choice what they promise; the SHA-256 digest is a parameter of `validate_metadata`.
-- Module Dispatch: the service over the in-memory units, its requests as data (`serve`), and what each
--   request does to the store.
-- Module Shared: texts, lists, keys and dictionaries. Tests: runs at concrete inputs.
--
-- How state is modelled. A method is a function from the aggregate to a result, since every guard of
-- the source stands before the first write. A unit of work is explicit state; a service method takes
-- the store and returns an outcome with the store, and an exception still runs `__exit__`. The lock
-- makes units follow one another, so a call is one step of the store. The repositories hand out the
-- aggregate itself where the source hands out a deep copy, without the check that the copy's
-- constructor makes again; the copy is in Domain/WorkOrder/Copies. Dictionaries are association
-- lists in insertion order. Strings are native. An instant is a natural number; the clock, `uuid4`
-- and `token_urlsafe` are arguments, one reading for each call the source makes. An asynchronous
-- method is a task: it may be interrupted wherever it awaits the store, and a commit, which holds
-- the lock, is one step. An update of the guided flow runs uninterrupted, with one pack store
-- throughout, although its handlers are coroutines too. A float is a sign and a multiple of 2^-1074,
-- infinite, or no number, which is every double; only comparisons are used.
--
-- Bounds and fuel: the base 36 loop runs on fuel, which is the value itself; each turn divides the value
-- by 36, so it ends before the fuel does, and the round trip of the numbers rests on it. All other
-- recursion is structural. Integers are unbounded, as in the source. The number of photos an order asks
-- for is a natural number, so the constructor's refusal of a negative one has nothing to refuse.
--
-- Not modelled: the SQL storage, since the database is not part of the repository, but for the table
-- of the guided flow; the JSON forms of the packs; the web interface, transports and runtime; of the
-- messaging, the workspaces of the staff, the configuration dialogue and the delivery of messages,
-- with the mark that a saved state bears of the event it handled.
pub mod Shared
pub mod Domain
pub mod Application
pub mod Infrastructure
pub mod Dispatch
pub mod Interleaving
pub mod Messaging
pub mod Packs
pub mod Modules
pub mod Connectivity
pub mod Tests
