-- ===== src/Lib.antt =====
-- Adaptive Intake turns customer messages into reviewed cases. This library models the core of
-- engine/app: the elicitation of missing facts, the store that it writes to, the binding of a case
-- to an object of the tenant, the windowing of messages into cases, the dispatch of questions, the
-- deterministic rules for priority and routing, the status that the customer sees, the extraction of
-- values with their sources, and the growth of a tenant's schema from what the cases say.
--
-- Parts and files. The state is `Database` of Store/Database.antt, the rows of one tenant that a
-- `tenant_session` sees; an operation is a function from the rows to the rows and its result, and a
-- stage is one transaction.
--   Prelude            tests on numbers, lists, tables with a key, computations that may raise
--   Store/Case         case_record of engine/app/store/api.py: create_case, the elicitation state,
--                      fail_case_processing, commit_case, uncommit_case
--   Store/Ledger       stage_execution: claim_stage, complete_stage, fail_stage, the key
--   Store/Log          field_extraction, citation, correction and the projection field_current
--   Store/Documents    source_document and normalised_content
--   Store/Outbound     outbound_message
--   Store/Decision     case_decision and the inputs of the rules
--   Store/Registry     emergent_field, emergent_head, minted_head and backfill_attempt
--   Extract/Names      engine/app/extract/head_nouns.py; Grounded and Extractor: extractor.py;
--                      Concept: concept_extract.py; Profile: profile.py; Provenance: provenance.py
--   Extract/Stage      engine/app/extract/stage.py: extract_case
--   Confidence         engine/app/confidence/model.py: confidence, route, load_calibration
--   Schema/Pii         engine/app/schema/pii.py: classify_sensitivity
--   Schema/Promote     engine/app/schema/promote.py and promote_scan.py
--   Schema/Dedup       engine/app/schema/dedup.py: dedup_field, dedup_registry
--   Schema/Backfill    engine/app/schema/backfill.py and the task `backfill` of engine/app/queue.py
--   Pipeline           engine/app/pipeline.py: normalise_source_document; the tasks of queue.py
--   Elicit/Policy      engine/app/elicit/policy.py: decide
--   Elicit/Grounding   _fault_grounded and _confirmation of engine/app/elicit/stage.py
--   Elicit/Provenance  engine/app/resolve/snapshot.py, contradiction.py, _record_provenance
--   Elicit/Stage       elicit_case of engine/app/elicit/stage.py
--   Resolve/Objects    object_record and object_key of engine/app/store/api.py
--   Resolve/Resolver   engine/app/resolve/resolver.py: resolve_object
--   Resolve/Profile    engine/app/resolve/profile.py: profile_key_fields
--   Resolve/Ingest     engine/app/resolve/ingest.py: ingest_object_collection
--   Intake/Ingest      engine/app/intake/ingest.py: ingest_messages
--   Intake/Windowing   engine/app/intake/windowing.py: decide_window
--   Channel/Dispatch   engine/app/channel/dispatch.py: dispatch_case_question
--   Rules/Policy       engine/app/rules/engine.py: load_policy, parse_policy, evaluate
--   Rules/Default      engine/app/rules/policy_default.yaml
--   Rules/Stage        engine/app/rules/stage.py: decide_case
--   Portal/Status      engine/app/portal/store.py: public_status
--   Portal/Tokens      engine/app/portal/tokens.py: sign_case_token, verify_case_token
--   Portal/Submit      submit and its checks of engine/app/portal/router.py
--   Portal/Limit       _SlidingWindow and _rate_limit of engine/app/portal/router.py
--   Rules/Sentiment    engine/app/rules/sentiment.py: analyze
-- An accepted `submit` of the portal becomes a message. ingest_messages opens cases, stores documents
-- and defers their normalisation; normalise_source_document keeps the text and defers the
-- extraction. ingest_object_collection fills the index that the resolver reads. elicit_case reads
-- the projection, claims its key in the ledger, resolves the object, decides, cites what the
-- record disagrees with, writes the case and defers a dispatch; dispatch_case_question then reads
-- the pending question and claims it in the outbox. decide_case reads the same projection and the
-- log of readings and writes the decision; public_status reads all of it for the customer.
-- extract_case reads a case's text, writes the governed answers and the emergent values that the
-- text attests into the log, counts the emergent names in the registry and defers the rules and the
-- elicitation; promote and dedup_registry
-- then work on the registry alone, and a backfill writes the cases' logs again for one concept.
--
-- Conventions. Identifiers and times (seconds) are natural numbers, a score or a confidence is a
-- number of ten-thousandths, a table is a list of rows: a log is kept newest first, so the first
-- row that fits is the one with the greatest sequence number. The ids that the database generates
-- and the clock are arguments. Every recursion is structural, so nothing needs fuel.
--
-- The migrations create no column `qualifier` of emergent_field, which get_emergent_values_by_head
-- reads: the column is an optional part of Store/Registry, and without it the query raises and
-- elicit_case undoes its transaction.
--
-- Parameters. sha256, the texts that json and uuid make, the methods of Python's str, yaml.safe_load,
-- the database's collation and vector search, the language model's parsed answers and the channel are
-- arguments of the definitions that use them. No theorem assumes anything of them, but for the round
-- trip of a token, which says what it needs of Base64, UTF-8 and UUIDs (IsToken of
-- Portal/Tokens/Signed).
--
-- Not modelled: row-level security (one tenant is seen), concurrent transactions, the other HTTP
-- routes, reports, the normalisers themselves, the minting of heads, the fitting of the calibration,
-- prompts, the upload adapters, metering, log lines.
pub mod Prelude
pub mod Elicit
pub mod Store
pub mod Resolve
pub mod Intake
pub mod Channel
pub mod Pipeline
pub mod Portal
pub mod Rules
pub mod Confidence
pub mod Extract
pub mod Schema
