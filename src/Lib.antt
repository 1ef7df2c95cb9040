-- ===== src/Lib.antt =====
-- FireDash Server keeps the tablets of fire departments, the app installations on them, and the data
-- that they may read. This library models its tablet services and its publication services, and with
-- them what they read and write of other parts.
--
-- Tablets (apps/tablets): a physical tablet has an asset life cycle (INACTIVE, ACTIVE, LOST, RETIRED).
-- An installation of the app adopts a tablet by an invitation, a request and the answer to a
-- challenge; it then checks in to renew its lease, and loses it when it is replaced, revoked, or stale.
--   Tablets/Models        the rows, from apps/tablets/models.py and the models of other apps
--   Tablets/Store         the database as a record of tables, the errors, the reads and writes
--   Tablets/Reads         what the first step of a service that returned has read
--   Tablets/Rows          writes to installations that take none in or out of service
--   Tablets/Versions      versions.py: the versions and builds that the app sends
--   Tablets/Access        active_department_ids, require_department_admin and the temporary station
--                         access of apps/file_library/services.py that a mutation withdraws
--   Tablets/Guards        the operational guards, the lease rules, update_app_telemetry, and
--                         revoke_dataset_key_grants of apps/publications/manifests.py
--   Tablets/Registration  create_tablet and the generated asset numbers
--   Tablets/Lifecycle     ASSET_TRANSITIONS, activate_tablet to retire_tablet, revoke_installation
--   Tablets/Challenge     create_adoption_invitation, create_adoption_request, _record_failed_attempt
--   Tablets/Adoption      complete_adoption, its success, its replay, and its outcomes
--   Tablets/CheckIn       check_in, refresh_installation_lease, mark_stale_installations
--   Tablets/Invariant     the well-formedness of the tables
--   Tablets/System        all services as one step relation
--   Tablets/Tests         every theorem at a concrete state
--
-- Publications (apps/publications): the data sets that installations read. A scope is a data set of an
-- owner. A change of its source, or a user, queues a job with a staged attempt; a worker claims the job,
-- builds the attempt and finalizes it, which supersedes the publication that was current.
--   Publications/Models     the rows, from apps/publications/models.py and the models of other apps
--   Publications/Registry   registry.py: the data sets and the owners that they are for
--   Publications/Store      the database around that of the tablets, the errors, the builders
--   Publications/Authority  require_publication_scope and what it asks of apps/authorization and
--                           apps/file_library; _validate_scope
--   Publications/Source     _current_source_state, _scope_is_dirty, _reconcile_clean_source
--   Publications/Artifacts  document_artifacts.py, pin_source of apps/file_library/publication.py, and
--                           revoke_publication_dataset_key_grants of manifests.py
--   Publications/Queue      enqueue_publication_job, and in Queue/Window its nightly window
--   Publications/Requests   mark_dirty, request_rebuild, stage_publication_update
--   Publications/Bulk       bulk_request_rebuilds
--   Publications/Claim      claim_next_job, _claim_job, heartbeat_job
--   Publications/Build      fail_publication_job, recover_stale_jobs
--   Publications/Finalize   finalize_publication_job
--   Publications/Restore    restore.py's conditions, rollback_publication, delete_publication
--   Publications/Review     publish_publication, reject_publication, cancel_publication_build,
--                           build_staged_publication, delete_staged_publication
--   Publications/Retention  retention.py, with one pass in Retention/Pass
--   Publications/Changes    an abstract machine of four kinds of change (rows move on, an attempt is
--                           added, a build is queued, a publication becomes current), and below it, for
--                           each service, the changes that it runs; Changes/Overdue says what
--                           recover_stale_jobs does to the jobs
--   Publications/Leads      rules for what every result of a do block satisfies
--   Publications/Invariant  the soundness of the tables, which each change keeps
--   Publications/System     the services as one step relation, but for rollback, deletion, the
--                           staged attempts of a reviewer, the bulk request and the retention
--   Publications/State      compute_scope_state, what state.py computes it from, and operational_summary
--   Publications/Tests      theorems at concrete inputs
--
-- Prelude holds the shared helpers: tests on numbers, tables as lists of rows, and services that may
-- raise.
--
-- How the model corresponds to the code. A service is a function from its arguments and the database to
-- an error or a result with the new database: an error leaves the database as it was, as
-- transaction.atomic does. complete_adoption is no transaction, and gives the database in both cases.
-- A query is a function on a list of rows, the newest first; `.get` of a missing row raises. A service
-- reads the clock once, as its argument `now` (the source reads it up to three times); times and
-- durations are in microseconds. The keys of new rows, tokens, nonces and credentials are arguments.
-- Of an error the code is kept and the message dropped. Keys, digests and public keys are numbers that
-- are only compared. Locks (select_for_update, lock_department_sources) have no effect in a sequence of
-- services, and the handlers of IntegrityError, which only a concurrent writer can cause, are left out.
-- The HMAC, the parsing of public keys and the HPKE seal are the parameter Crypto, of which no theorem
-- assumes anything. The app version of a check-in has been parsed before it reaches a service.
--
-- A publication and a job take owner and data set from their scope, as the constraints of the database
-- ask. A build that transaction.on_commit queues is noted in follow_ups, and a file to be removed in
-- removals. What build_source_payload and the functions on payloads give is the parameter Builders, of
-- which no theorem assumes anything. Of a definition of a data set its scope, its format and its version
-- are kept. Times are UTC, so that a day begins at a multiple of its length.
--
-- Bounds and fuel. create_generated_tablet recurs on the attempts that are left, which the source limits
-- to 1000; every other loop is over a list.
--
-- Not modelled: build_claimed_job and the builders, which write files; the keys, grants and manifests of
-- apps/publications/manifests.py but for their withdrawal; the web layer (views, forms, the HTTP API),
-- the settings and deployment, and the other
-- apps (report transfer, assignments, ingestion, personnel, mail), apart from the rows
-- and calls named above.
pub mod Prelude
pub mod Tablets
pub mod Publications
