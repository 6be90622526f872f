-- ===== src/Lib.antt =====
-- Verification of the UnityWorks vision backend.
--
-- The backend watches cameras, follows what it sees, and judges it against rules. The platform
-- (vision_os) tracks detections from frame to frame, keeps durable objects in a registry and publishes
-- them through an API that authorizes every call; the compliance engine (compliance) evaluates rule
-- documents against the published objects; the application (app) turns findings into incidents and
-- decides which account may see which camera.
--
-- Files:
--
-- Prelude and Prelude/ hold the shared names: Boolean tests on numbers, lists, results that may raise.
--
-- Tracking models the tracker of one camera. Lifecycle is vision_os/perception/tracking/lifecycle.py:
-- `on_hit`, `on_miss` (with `on_miss_by_state` for its last part), `terminate`, and `move` for `_to`.
-- Record is the record of vision_os/perception/tracking/table.py with what one frame does to it in
-- vision_os/adapters/tracking/geometric.py (`record_hit`, `record_miss`, `apply_frame`). Table is
-- `TrackTable` with `create`, `remove`, `evict_weakest` and `reset`, and `spawn` of the tracker. Their
-- child modules hold the proofs.
--
-- Compliance models compliance/. Value holds the values that attributes and rules hold; Document is
-- document.py after the JSON was read, Finding is finding.py, Assess is the assessment of one condition in
-- evaluator.py and Evaluator the rest of it. Total, Kleene, Grounds and Runs hold the proofs.
--
-- Incidents models app/domain/incidents.py: one function for each method of `IncidentService`, on the list
-- of rows of the table, with `list` in Listing. Rows, Steps, Calls, Answers, Repeats and Lists hold the
-- proofs.
--
-- Registry models the durable objects: Lifecycle is vision_os/perception/registry/lifecycle.py, Sweep is
-- `_drive_horizons` of vision_os/perception/registry/engine.py with its child Records for what `sweep` does
-- to one object, and Partition is the object store of vision_os/perception/registry/partition.py, with its child
-- Merging for `merge` and `resolve` and Shedding for `mint_or_shed`, the engine's `_mint`. Forest, Walks,
-- Steps, Runs and Population hold the proofs on the partition.
--
-- Authorization models who sees what: Platform is vision_os/adapters/exposure/authorization.py with the
-- scope, principal and action of vision_os/core/model/api.py and the authorization of a call in
-- vision_os/exposure/api.py; Model is app/authorization/model.py and Resolver app/authorization/resolver.py.
-- Narrowing, Reach and Roles hold the proofs.
--
-- Events is vision_os/kernel/events/bus.py: the queue of a subscriber (`offer`, `drain`) in the module
-- itself, the bus (`publish`, `subscribe`, `unsubscribe`, `close_bus`) in Bus, and its calls in Calls. A
-- subscription is an object shared by bus and subscriber: a store holds it under a number. Queue, Offers and
-- Keys hold the proofs on one queue, Registrations, Fanout and Upkeep those on the index of the bus.
--
-- Buffer is vision_os/acquisition/buffer/buffer.py: the two loops over the ring of a camera (`evict_from`,
-- `sweep_from`) in the module itself, the operations of `FrameBuffer` in Calls, their sequences in Runs.
-- Leases and pins are numbers shared by their taker and the entry of the frame. Cases splits the loops;
-- Counts, Upkeep, Rings, Releases and Validity prove the counters, Residents and Held that held frames stay,
-- Eviction and Slots what taking a slot does. The allocator and the clock are arguments.
--
-- Exposure is vision_os/exposure/subscriptions.py: the stream of one consumer in the module itself, the hub
-- in Hub. Losses, Order, Stream and Conflation hold the proofs on a stream, Index and Reach those on the hub.
--
-- Queries is the rate limit, the paging and the collection of vision_os/exposure/api.py, with proofs in
-- Rate, Pages and Limits. The rate limit compares Python floats of seconds; these and their operations are
-- parameters.
--
-- Retention is app/domain/retention.py: `sweep` and the stages it calls, on the rows of evidence, incidents
-- and audit events, with what the sweep writes through app/domain/audit.py. Fates holds the proofs. The file
-- system is a parameter.
--
-- The Tests module of each part runs its definitions on concrete inputs.
--
-- Conventions: state is passed explicitly and a function that may raise returns a Result. An error is a
-- kind, without its message. Times are natural numbers of nanoseconds, in Retention of seconds. Numbers in
-- rules and fractions are whole numbers of millionths. The text functions of Python, the clock, new ids and
-- confidence decay are arguments. Loops are structural recursion on lists, but for the sweep of the registry,
-- whose source runs seven rounds, and the walk along merged objects and the consumer that follows cursors,
-- which have no bound and take fuel here; it is proved that the rounds, and some amount of fuel, are enough.
-- Operations that hold a lock run one after the other.
--
-- Not modelled: floating point (motion prediction, association costs, the arithmetic of boxes), threads and
-- the database, reading and writing of JSON, HTTP, models, and the parts that only report (statistics, metrics, audit
-- texts). Of a registry object the class evidence, the position and the attributes are left out, and so are
-- the restoring of a snapshot and the splitting of an object. Of the platform's API the contents of the views,
-- evidence and demands are left out; so are the scheduling of cameras, attention and cropping, and state
-- and synthesis.
pub mod Prelude
pub mod Tracking
pub mod Compliance
pub mod Events
pub mod Buffer
pub mod Exposure
pub mod Queries
pub mod Incidents
pub mod Retention
pub mod Registry
pub mod Authorization
