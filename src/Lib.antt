-- ===== src/Lib.antt =====
-- The runtime that replaces the automation of a Salesforce org, and the machinery that moves
-- traffic to it.
--
-- The parts and how they interact. A rules engine (src/offramp/runtime/rules/engine.py) evaluates
-- the rules that were translated from an org. The order-of-execution runtime
-- (src/offramp/runtime/ooe/state_machine.py) drives the save of a record through the steps of a
-- Salesforce save, calling the engine at each. The surface audit
-- (src/offramp/extract/ooe_audit/audit.py) derives from the components of an org which steps that
-- runtime takes into its scope. The shadow executor (src/offramp/validate/shadow/executor.py) runs
-- the change events of production through the runtime and stores how the results differ. The
-- readiness score (src/offramp/validate/shadow/readiness.py) sums up what was stored, the
-- orchestrator (src/offramp/cutover/orchestrator.py) advances a process through the stages of the
-- router or rolls it back with its saga, by the score, the monitor
-- (src/offramp/cutover/post_cutover_monitor.py) watches a process after that, and the routing table
-- (src/offramp/mcp/routing.py) sends each record to Salesforce or to the runtime. The
-- reconciliation (src/offramp/validate/reconcile/) fetches shadow records again, with queries whose
-- parts src/offramp/core/soql.py validates. The quota (src/offramp/mcp/quota.py) shares the API
-- calls of the org among the processes.
--
-- Before any of that, the rules are made from the metadata of the org. What several sources say of
-- one component becomes one record (src/offramp/extract/pull/reconciler.py). A formula is parsed
-- (src/offramp/generate/formula/parser.py), its tree becomes the body of a rule
-- (src/offramp/generate/formula/emitter.py) and is asked what it reads
-- (src/offramp/generate/formula/references.py). Apex source loses its comments before it is
-- searched (src/offramp/extract/apex/tokenizer.py). What depends on what is an edge of the
-- dependency graph (src/offramp/understand/dependencies.py), which the resolver of orphans
-- (src/offramp/understand/orphan/resolver.py) asks for callers, and of which two extracts are
-- compared (src/offramp/understand/compare.py). A trace of the org is checked against the
-- definition of a process (src/offramp/verify/compare.py).
--
-- Which file models which part (the paths of the code that follow are under src/offramp/):
--   Common, Common/*: shared names, Python dictionaries (Dict), methods that mutate and raise (Exec),
--     signed integers (Int), texts and lists.
--   Value: the Python values of records, with their truth and their equality.
--   Rules, Rules/*: runtime/rules/engine.py. Rule.evaluate is evaluate, RulesEngine a list of rules.
--   Models: the enumerations of core/models.py.
--   Ooe/Step, Ooe/Context: OoEStep, TransactionContext, OoERuntime and the exceptions.
--   Ooe/Pipeline: _step (run_step), _maybe_shuffle, _maybe_fire_flows.
--   Ooe/Execute: execute_save, as execute_top without a parent and execute_child with one. The state is
--     the context and the record of the caller, which come back also when the save raises.
--   Ooe/Cascade: saves in one context. The other files of Ooe/ are proofs.
--   Audit, Audit/*: extract/ooe_audit/audit.py.
--   Cutover/Router, Cutover/Routing: cutover/router.py and mcp/routing.py. The state is the table in
--     memory and the one in Postgres.
--   Cutover/Saga: cutover/saga.py, over a world on which compensations act.
--   Cutover/Readiness: validate/shadow/readiness.py.
--   Cutover/Orchestrator, Cutover/Apply: evaluate, and apply and begin, of cutover/orchestrator.py with
--     the anchors of cutover/provenance.py. Cutover/Monitor: cutover/post_cutover_monitor.py.
--   Shadow/Event, Shadow/Diff, Shadow/Categorize, Shadow/Store, Shadow/Env, Shadow/Executor: the files of
--     validate/shadow/ of these names (cdc_event.py, diff.py, categorize.py, store.py, data_env.py,
--     executor.py).
--   Soql, Soql/Safe: core/soql.py.
--   Reconcile, Reconcile/*: validate/reconcile/resync.py and gap_handler.py, over Shadow/Store.
--   Mcp/Quota: mcp/quota.py.
--   Formula, Formula/Lexer, Formula/Literal, Formula/Ast, Formula/Parser: generate/formula/parser.py:
--     tokens and errors, tokenize, _decode_string, the nodes, and _Parser as functions from the tokens that
--     are left. The loops of a level of precedence are operands, the one comparison is operand_once.
--   Formula/Grammar, Formula/Grammar/*: the grammar, as a relation that the code does not have.
--   Formula/Emit, Formula/References: generate/formula/emitter.py and references.py.
--   Pull, Pull/*: extract/pull/reconciler.py, with the records of extract/pull/base.py.
--   Apex, Apex/*: strip_comments of extract/apex/tokenizer.py.
--   Understand/Graph: DependencyGraph of understand/dependencies.py. The edges are objects that the list,
--     the index and both adjacency tables share, so the state keeps the objects once, and in the tables
--     their places. Understand/Compare/*: understand/compare.py. Understand/Orphan/*:
--     understand/orphan/resolver.py.
--   Verify/Model: the data of core/process.py and verify/trace.py. Verify/Checks, Verify/Verdict:
--     verify/compare.py. Verify/Paths, Verify/Operations, Verify/Conforms: proofs.
--   Samples, Samples/*: concrete inputs, and the theorems at them.
--
-- Conventions. A dictionary is the list of its entries in the order of insertion. Times are numbers
-- of microseconds and an argument of what reads the clock. A set is a list without doubles. Most
-- loops are recursions on a list. Fuel is spent in these: the chunks of a batch in Reconcile/Batch,
-- by the number of ids, since each chunk takes at least one; tokenize and strip_comments, by the
-- length of the text, since each round takes a character; the escapes of a literal, by the number
-- of its bytes; and the parser, by ten for each token and ten more, since at most nine functions
-- call one another before a token is taken. What runs out of fuel says so, as an error of its own
-- or as none. A method of asyncio that does not suspend is one step. What the program takes from
-- outside is a parameter: the shuffle of random.Random, of which only that it rearranges is assumed
-- (Platform), str of a value, the blake2b digest, the decimal digits of Unicode, the answers of
-- Engram, the functions of the rules and of the compensations, and the answers of the org to reads
-- and queries. Floats are exact: a score and a quota share are fractions, rounded as the program
-- rounds them; a confidence is a number of ten thousandths in the graph and of hundredths in the
-- resolver. A number that is not finite does not occur. In Formula and Apex a text is its code
-- points; a number of a formula keeps its literal, and which characters are digits, the characters
-- that have names, and how Python prints a number or a text are arguments.
--
-- Not modelled: the clients that extract metadata, the generation of code but for formulas, the
-- builder of the graph, the limit of the interpreter on recursion, the MCP server, the transport of
-- events and the reports, which are input and output through libraries; the loading of artifacts;
-- texts that only people read, in whose place the cases stand.
pub mod Common
pub mod Value
pub mod Rules
pub mod Models
pub mod Ooe
pub mod Audit
pub mod Cutover
pub mod Mcp
pub mod Shadow
pub mod Formula
pub mod Apex
pub mod Understand
pub mod Verify
mod Samples
pub mod Soql
pub mod Pull
pub mod Reconcile
