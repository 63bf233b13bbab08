-- ===== src/Lib.antt =====
-- Cloudfall: the decisions on operations, and the rules under which they run.
--
-- The program keeps the desired state of servers in a repository and changes hosts only through
-- declared operations, each an Ansible playbook with a risk level. An operation is proposed (check mode
-- runs and its diff is recorded), approved by a person, run, and verified. Every step is one record on
-- disk. The parts modelled, with paths from the repository's root:
--
-- Base           What the parts share: equality tests, lists, sorting by text, dictionaries (association
--                lists in insertion order, as Python keeps them), Python's integers, JSON values, results
--                with exceptions, and the text functions `strip`, `int` and `str`.
-- Ids            `ResourceId` of sdk/src/cloudfall/domain.py.
-- Catalog        The data types of sdk/src/cloudfall/catalog.py, `OperationCatalog.get` and `by_risk`,
--                `_reject_duplicates`.
-- Decision       sdk/src/cloudfall/decision.py:
--   Records      the data classes, `_canonical`, `Decision.same_call`
--   Errors       the codes of `DecisionError` and the other exceptions
--   Gate         `gate`
--   Inputs       `_validated_inputs`, `_coerced`, `_validated_targets`
--   World        the state that the functions read and write, and what the machine supplies
--   Store        `DecisionStore`
--   Run          `run_command`, `read_basis`, `_preview`, `repository_relative`, `_run_check`
--   Prepare      the part of `propose` that can refuse a request
--   Propose      `propose`, `_ran_verdict`
--   Approve      `approve`, `refuse_unapprovable`, `refuse_replayed`, `_outcome`, `_run_stage`
--   Sound        the invariant of the records over every history of the two
-- Operator       sdk/src/cloudfall/operator.py:
--   Records      the data classes and enumerations
--   World        the receipts and the calls made so far, and what answers those calls
--   Store        `ProposalStore`, `_open_count`
--   Trigger      `propose_for_alert`, `_proposal_identifier`, `run_once`
--   Approve      `approve`, `_execute_and_verify`, `_execution_failure_detail`
--   Sound        the invariant of the receipts
--   Autonomy     `autonomy_decision`, `autonomous_pass`; `QuietHours`, `AutonomyGrant` and
--                `OperatorPolicyInventory` of sdk/src/cloudfall/inventory.py; License says apart from
--                them what licenses an execution, Pass is about the loop
--   Drift        `fingerprint_of`, `propose_for_drift`, `drift_pass`,
--                `drift_resolution_verifier`
--   Histories    the invariant over every history of passes and approvals
-- Cutover        The DNS client of sdk/src/cloudfall/cutover.py:
--   Names        names on the wire: `_encode_query`, `_read_name`
--   Message      `parse_answers`, `_decode_rdata`; Wire has the format of a response
--   Probe        `_system_resolver`, `_query`, `_zone_nameserver`,
--                `SystemDnsProbe.authoritative_answers`, `check_ttl`
-- Inventory      The records of sdk/src/cloudfall/inventory.py that the audit reads,
--                `PlatformInventory.server_type`, `firewall_rules_for_server`.
-- Audit          sdk/src/cloudfall/audit.py:
--   Values       `_mapping`, `_string`, `_integer` and the like
--   Checks       `AuditCheck`, `ServerAudit`, `AuditReport`, `_comparison`, `_aggregate_status`
--   Host         `_audit_os`, `_audit_mounts`, `_audit_packages`
--   Units        `_audit_services`, `_audit_configuration`
--   Raid         `_audit_raid`, `_flatten_block_devices`, `_observed_raid_levels`; Arrays says apart from
--                them what the pattern of an array's health is
--   Firewall     `_audit_firewall` and the parser of the managed table
--   Sockets      `_audit_service_binds`, `_parse_listening_sockets`
--   Alerts       `_audit_alert_rules`, `_audit_component_environment`
--   Report       `_audit_server`, `audit_inventory`; the observations of sdk/src/cloudfall/observation.py
-- Operations     sdk/src/cloudfall/operations.py, the views of a server and of a domain:
--   Records      the enumerations and data classes
--   Values       `_mapping`, `_string` and the like; `AbsolutePath`, `ServiceName` of
--                sdk/src/cloudfall/domain.py
--   Capacity     `Utilization.from_counts`, `_filesystems`
--   Smart        `NvmeCriticalWarning`, `SmartDeviceEvidence`, `_smart_evidence`
--   Tasks        `_task` and the functions that make tasks, `_sort_tasks`
--   Server       `_server_operations`, `_health`
--   Domain       `_domain_operations`, its checks, `_domain_health`, `_fleet_health`; the evidence of
--                sdk/src/cloudfall/service_evidence.py
-- Tests          One machine and one operation, and runs of the model on them.
--
-- State and errors. `World` holds the records by id, the files that runs have written, and the runs
-- started, in order; the operator's `World` holds the receipts by id and the calls made of the engine, the
-- verifier and the feeds. A function that acts is a map from a world to a result and a world; an exception
-- is an `err`, and what was written before it stays written. A file's content is a text. The moments at which `propose` and `approve` ask for the
-- time are arguments.
--
-- Parameters. `Controller` has what is not in the repository: whether `ansible-playbook` is on the
-- path and what a run of it leaves (an arbitrary function of the command and of the runs before it), the
-- path functions of pathlib, SHA-256, the JSON schema's verdict on a decision, and the observation files.
-- `Site` has what the operator calls: the engine, the verifier, the alert feed, the clock, the schema. Their
-- answers may depend on every call before. `Network` has what the DNS client uses of the machine: the text
-- of the resolver's file, random ids, what comes back for a datagram, `getaddrinfo` and `inet_ntop`. The audit takes `json.loads`, whose `none`
-- is a `JSONDecodeError`; the operations view takes `datetime.fromisoformat` and the SHA-256 of a text.
-- No property assumes anything of them but what its statement says.
--
-- Fuel. `print_digits` is recursion on fuel, one more than the number printed, which is enough because
-- each step divides by ten. `verify_until`, the loop that asks the verifier, has one round more than its time
-- limit, which is enough if every wait takes at least one unit of time. `read_labels`, the loop that reads a name, has 34 rounds for each byte
-- of the payload and 35 more: the loop raises at the 33rd jump, and between two jumps each round spends a byte. All else is structural recursion.
--
-- Not modelled. The JSON documents of a decision (`as_document`, `from_document`): the store holds the
-- decisions. Digits outside ASCII in `int(value)`, and
-- the ValueError that Python's `int` and `str` raise beyond 4300 digits. A file in a store whose name is no
-- resource id, which the stores themselves never write: listing the store raises there. An absolute path of
-- a playbook or of a log: `/` joins two paths as texts. Files in a callback tree or an observation
-- directory that hold no JSON. The process runner's own input and output. The other modules of the SDK, the
-- engine, the dashboard and the demo. Of the operator: the count in the report of a drift pass, the parser of the alert feed, the watch
-- loop, the documents of receipts, and the two tables that `autonomous_pass` makes of the
-- inventory, which are arguments; times are whole numbers, and `str.lower` is that of ASCII. Of the cut-over: `parallel_run`, the documents and messages that
-- `check_ttl` writes, and `rollback_instructions`. Of the audit: the documents of a report, the reading of
-- observation files, and JSON numbers with a fraction, which no check takes for a size or a port. Of the operations view: `build_operations_view`,
-- which calls the parts, the texts of a domain's checks, the documents, and the formatting of a task's detail, of which the values are kept.
pub mod Base
pub mod Ids
pub mod Catalog
pub mod Decision
pub mod Operator
pub mod Cutover
pub mod Inventory
pub mod Audit
pub mod Operations
mod Tests
