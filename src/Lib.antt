-- ===== src/Lib.antt =====
-- OpenModelOps: the decision logic of the platform's services, with the theorems that make it
-- correct.
--
-- The repository holds a family of small services around machine-learning workloads. Each of them
-- keeps one kind of object with a lifecycle, stores it with an optimistic version check, and changes
-- it only through handlers that check the caller. The modules follow that structure.
--
-- - Base: what Python means by its tests on texts, lists and dicts; results with errors as values;
--   the audit entries that the lifecycle objects share; floats as exact dyadic numbers with NaN and
--   the infinities, compared as the language does and added, subtracted and divided with the rounding
--   to the nearest double.
--   Json is what json.loads returns, Decimal is str and int of a number.
-- - Security: packages/security/auth.py and fastapi_auth.py, who a caller is and which roles it has.
-- - Mlops: platforms/mlops. Domain is domain.py (the run's states, evaluation and methods), Store is
--   store.py (the table with its revisions; the SELECT and the write of a save, which no lock joins, are
--   functions of their own), Api is api.py (the handlers, and `serve`, which answers a
--   sequence of requests).
-- - Factory: platforms/factory. Spec and Workload are domain.py (the checked specification, gates and
--   lifecycle), Governance is governance.py (evidence and policy), Store is store.py (the table, its
--   versions, the codec), Api is api.py (the handlers and `serve`), Catalog is catalog.py (the components
--   and the walk along their dependencies).
-- - Aiops: platforms/aiops. Incidents is workflow.py (the incident's states and methods), Api is api.py
--   (the table in memory and its handlers).
-- - Sre: platforms/kubernetes_sre. Executor is actions.py (proposals, approvals, the guards of a
--   change), Store is store.py (the table of proposals), Service is service.py (the life of a proposal,
--   with the calls that the cluster got as a log), Api is api.py (the handlers of proposals), Analyzers
--   is analyzers.py and models.py (what is found in a snapshot of a cluster).
-- - Integrations: platforms/integrations. Outbox is outbox.py (the table of messages), Dispatcher is
--   dispatcher.py (a run over the messages that are due), Http is http.py (the client that retries).
-- - Rag: platforms/rag/workflow.py, the corrective retrieval as a loop and as a graph of nodes.
-- - Judgeops: platforms/judgeops. Annotation is annotation.py, the ledger of reviewers' labels;
--   Pairwise is pairwise.py; Rubric is contracts.py; Ensemble is ensemble.py (the verdict of several
--   judges), Shadow is shadow.py, Store is store.py (evaluations and their human reviews).
-- - Banking: platforms/banking. Score is domain.py (the score and the decision), Api is api.py (the
--   handler with its remembered answers).
-- - Streaming: platforms/streaming/reliability.py. Slo is the snapshot and its objective, Diagnosis
--   the findings and their severity.
-- - Metal: platforms/metal_runtime. Cache is cache.py, the index of cached prompts; Scheduler is
--   scheduler.py, the queue of generations and its workers as a step relation.
-- - Reviewer: platforms/reviewer. Domain is domain.py (a pull request's review, its decision and
--   approvals), Store is store.py, Github is github.py (the pages of a list and the reading of its
--   items, over Http), Service is service.py and the checks of config.py, Api is api.py (the handlers
--   and `serve`).
-- - Decisionops: platforms/decisionops. Question is contracts.py and registry.py, Breaker and Engine are
--   engine.py (the circuit breaker; the cache, the provider and the fallback).
-- - Agents: platforms/agents. Policy is policy.py (the guardrail and the tools), Runtime is runtime.py
--   (the guarded invocation with its traces), Api is api.py, Feedback is feedback.py, Catalog is
--   catalog.py.
-- - Contracts: packages/contracts/models.py.
--
-- A method that changes its object is a function to its result and the object afterwards, also where
-- it raises. A table is a dict from ids to rows. The handlers serve one request after the other. The
-- clock and the generated ids are arguments.
-- SHA-256, Ed25519, the OIDC verifier, the Kubernetes writer, the outbox's handlers, urlopen, models and
-- providers are parameters. The loops run over lists or a number of attempts or pages that the source
-- bounds. Two take fuel: the run of the retrieval graph, one unit for each node that it visits, where
-- two for each attempt are enough; and the walk along the dependencies of a catalog, one unit for each
-- call inside a call, where one more than there are components is enough, since no component is
-- entered twice on one path.
--
-- Not modelled: HTTP, pydantic's own checks, SQL and telemetry, which only carry the values; and the
-- services whose modules are not listed above.
pub mod Base
pub mod Security
pub mod Mlops
pub mod Factory
pub mod Aiops
pub mod Sre
pub mod Integrations
pub mod Rag
pub mod Judgeops
pub mod Metal
pub mod Contracts
pub mod Agents
pub mod Decisionops
pub mod Reviewer
pub mod Banking
pub mod Streaming
