-- ===== src/Lib.antt =====
-- Bywaf: a shell that runs pipelines of plugin commandlets over an event log.
--
-- A command line is split into stages, each stage is expanded and parsed into an invocation, and a
-- commandlet runs with a context that audits what it asks the framework for. The development
-- follows that path.
--
-- - Command/PipelineSyntax.antt: bywaf/command/pipeline_syntax.py. The quote scanner that its loops
--   share (split_pipeline_raw, is_quoted_position, find_pipeline_name_colon) is Command/Quoting.antt.
-- - Command/Selectors.antt: bywaf/command/parser/selectors.py.
-- - Command/Variables.antt: bywaf/command/parser/variables.py.
-- - Command/Parser.antt: bywaf/command/parser/__init__.py. The registry that resolves names is a
--   parameter, the record ParserContext.
-- - Command/Shlex.antt: `shlex.split` of Python's standard library, in the mode the parser uses it.
-- - VarStore.antt: bywaf/varstore.py, the session's variables and the scoped views of them. The
--   parser reads the store when it expands a reference.
-- - Capability.antt: bywaf/plugin/capabilities.py.
-- - Job.antt: bywaf/db/jobs.py, the table of background jobs.
-- - Trigger.antt: bywaf/triggers.py, the rules that fire on events of the log. Trigger/Matching.antt
--   is its test of one event, which reads the jobs that are active.
--   Trigger/Cursor.antt is bywaf/db/triggers.py, the durable cursors.
-- - Graph.antt: bywaf/registry/graph/model.py and the builder, builder.py, whose nodes are
--   Graph/Node.antt and whose dependency check is Graph/Check.antt.
-- - Policy.antt: bywaf/plugin/context/policy.py. A context asks Capability what is declared; its
--   state is the event log, in order, and the set of audited capabilities.
-- - SecretInput.antt: bywaf/secret/input/prompt.py, the keys of a command line with a hidden value, and
--   SecretInput/State.antt, bywaf/secret/input/state.py, the span of that value.
-- - Arguments.antt: bywaf/runner/stages/arguments.py, the arguments of a stage and what the log shows
--   of them; Arguments/Actions.antt is its effective_database_actions, whose result the policy reads.
-- - LoadOrder.antt: topological_filesystem_entries of bywaf/registry/dependencies.py, over the
--   manifests of Graph/Node.antt; LoadOrder/Closure.antt is fs_manifest_dep_closure, which reads these
--   manifests, has Graph/Check.antt validate them and orders them.
-- - Enforcement.antt: bywaf/registry/manifest/enforcement.py, which compares a manifest with the
--   commandlets that the import of a plugin gives.
-- - Serial.antt: the serials of bywaf/db/support.py, which name jobs and events.
-- - EventFilter.antt: bywaf/event/filters.py, which selects and sorts events of the log by values of
--   their payloads; EventFilter/Payload.antt finds those values.
-- - Finding.antt: bywaf/finding/grouping.py, the keys by which reports group findings, over the payloads
--   of EventFilter/Payload.antt.
-- - Utilities.antt: ports, octet ranges and hosts of bywaf/utils.py.
-- - Prelude.antt: lists, texts, results and sorting that the parts share.
-- - Tests.antt: the theorems at concrete inputs.
--
-- Each directory named as a file holds the theorems about that file's definitions.
--
-- A text is the list of its code points. An exception is a value of the type Error, so a function
-- that raises returns a Result; an operation that also changes state returns the result with the
-- state it leaves. A dictionary is an association list in the order of insertion.
--
-- The loops of expand_variables_in_text and peel_context_selectors read more than one item in an
-- iteration; they recurse on fuel, one more than the number of items, of which every iteration
-- takes at least one. `visit` of the load order recurses on one more than the number of manifests,
-- since each nested call has one more of them on its way. The queue of fs_manifest_dep_closure recurses
-- on one more than the number of the entries and of the dependencies in the manifests that the plugin
-- root has: a manifest is read once, and adds at most its dependencies.
--
-- Not modelled: the database, processes, terminal input and output, the loading and signing of
-- plugins, and the bundled plugins, which call files, networks and SQL. The Unicode classes beyond
-- ASCII of `str.isalpha`, `str.isalnum`, `str.isdigit`, `str.isprintable`, `str.lower`, `str.upper`
-- and `int` are parameters, and so are `str` on a payload value that is no text, the test that a
-- process exists, the event schemas that the framework registers, the manifests of the bundled plugins
-- and of the plugin root, the runner's start of an action, prompt_toolkit's operations on a buffer, the
-- secret store and its fingerprints, the equality of option and argument rows, and ipaddress' test of
-- an address in a network and its list of a network's hosts.
pub mod Prelude
pub mod Command
pub mod VarStore
pub mod Capability
pub mod Job
pub mod Trigger
pub mod Graph
pub mod LoadOrder
pub mod SecretInput
pub mod Arguments
pub mod Enforcement
pub mod Serial
pub mod Utilities
pub mod EventFilter
pub mod Finding
pub mod Policy
pub mod Tests
