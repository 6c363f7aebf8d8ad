-- ===== src/Lib.antt =====
-- Omni CRM backend: the core of its services over a model of its database.
--
-- The program is a multi-tenant CRM: a FastAPI application whose services read and write PostgreSQL
-- through SQLAlchemy, with Celery workers that run jobs from its tables. The development models the
-- services and a few handlers as functions from tables to a result and tables.
--
-- Identity models the accounts: app/models/identity.py in Identity.antt, the sessions and rotating refresh
-- tokens of app/services/sessions.py in Identity/Sessions.antt, password resets and email verification
-- (password_reset.py, email_verification.py) in Identity/Credentials.antt, the second factor (mfa.py) in
-- Identity/Mfa.antt, invitations.py in Identity/Invitations.antt, the handlers of app/api/v1/auth.py in
-- Identity/Login.antt and the mail outbox (email_outbox.py) in Identity/Mail.antt. Identity/Sample.antt holds
-- the rows that the tests share.
-- Tenancy models who may do what: app/api/dependencies.py and app/services/authorization.py.
-- Conversations models conversation_control.py, handoff.py (Transfers), send_intent.py, message_authors.py
-- and message_status.py (Messages), and consent.py, outbound_policy.py, unknown_messages.py and
-- assignment.py (Outbound).
-- Dispatch models message_dispatch.py with message_attempts.py and the response windows of kpi.py: it sends
-- what Conversations has queued, and stops what a change of control has cancelled. The constraints of
-- models/crm.py on a provider's identifier are those that a flush may break there.
-- Webhooks models webhook_events.py, webhook_ingress.py and webhook_batches.py. Contacts models
-- contacts.py, contact_identities.py and normalization.py, which an inbound event calls.
-- Outbox models domain_events.py and outbox_relay.py, Timers conversation_timers.py, which publishes
-- through Outbox. Ledger models automation_ledger.py, the leases of the automation rules' executions.
-- Limiter models rate_limiter.py, Budget ai_budget.py and ai_limits.py, Billing the billing_*.py services,
-- Pagination app/core/pagination.py, CustomFields custom_fields.py, and Opportunities opportunity_stages.py,
-- pipeline.py, round_robin.py and the handlers of app/api/v1/opportunities.py.
--
-- How state and operations correspond. A table is the list of its rows in the order in which a query
-- returns them; a record of tables is the database. SELECT is `first` or `select`, UPDATE and the writes to
-- the attributes of a row are `update`, INSERT is `insert`, DELETE is `delete` (Prelude/Rows.antt). A row has
-- the columns that the modelled code reads or writes. An exception is `err`; the transaction that it
-- rolls back shows as the tables before the call. What must outlive the exception is committed by the
-- code, and is in the tables that the model returns with `err`: the revocations after a replayed refresh
-- token. A row lock means that one call runs after another: interleavings are sequences of calls, stated
-- by two calls in a row or by a step relation with all histories.
-- Instants are microseconds, dates are numbers of days, UUIDs and lease tokens are numbers, JSON that no
-- modelled code looks into is a text. Clocks and fresh identifiers, tokens and codes are arguments.
--
-- Bounds. All loops are recursions on lists, on a column of attempts or on the retries that are left, so
-- no function of the model takes fuel. Only the client of Pagination/Walk.antt counts the pages that it is
-- ready to read, and its theorem shows that one more than there are rows is enough. Numbers are the native
-- natural numbers; no column is near the bound of its type. A negative count of tokens (Budget) is an
-- integer of its own type.
--
-- What is library code is a parameter: sha256, the password hash, the text of a UUID, TOTP and the
-- cipher of the second factor, Unicode's strip, lower and white space, phonenumbers, the provider of
-- messages, the broker, SMTP, the verification of a billing event, the encoding of cursors and ISO dates.
--
-- Not modelled: the transport (FastAPI routers that only read or only call a service, pydantic, the
-- database session, Celery wiring, logging, metrics, tracing), the clients of Meta and of language models
-- and what runs only around them (OAuth, campaign synchronisation, the agent's graph and tools), the JSON
-- of Meta's payloads, base64 and JSON of access tokens, the metrics over response windows (floats), the
-- Lua script of the Redis limiter, the export and erasure of contacts, business hours (time zones), and
-- migrations, scripts and tests. They are glue, foreign protocols, or need libraries that are not here.
mod Prelude
pub mod Identity
pub mod Tenancy
pub mod Conversations
pub mod Webhooks
pub mod Outbox
pub mod Timers
pub mod Dispatch
pub mod Limiter
pub mod Ledger
pub mod Pagination
pub mod Budget
pub mod Contacts
pub mod CustomFields
pub mod Opportunities
pub mod Billing
