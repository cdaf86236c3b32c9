-- ===== src/Lib.antt =====
-- garmd: a verification library of the daemon that governs tool calls.
--
-- The program loads a catalogue of tool declarations, keeps one generation of it in service, folds
-- each caller's token into a principal, and runs every call of a tool through one chain of steps
-- that decides whether the call may proceed and in what form its reply goes out. A call is recorded
-- in the ledger, however it ends. An approval-gated tool needs a grant, which is spent once.
--
-- The parts, and where their code is:
--   Policy                   the contract module's lattice of clearances and compartments. It is not
--                            part of the repository, so it is a parameter with the laws relied on.
--   Principal, Verbs         internal/toolplane/principal.go
--   ToolDef, Same            internal/tool/tool.go, and sameDeclarationAs of internal/toolplane/tooldef.go
--   Toolplane                the tables of a Core and step 2, internal/toolplane/core.go:
--     Narrow                   internal/toolplane/narrow.go
--     Message                  fieldIsSet of core.go
--     Refusal                  internal/toolplane/errors.go
--     Ledger                   newEvent and withInvocationContext of core.go
--     Cards, Validate, Project internal/toolplane/sanitise.go
--     Chain, Steps, Invoke     the steps of core.go and their order in invoke
--     Schema                   internal/toolplane/schema.go, and admittedPath of violations.go (Path)
--     Schema.Cache             internal/toolplane/schema_cache.go
--     Violations               internal/toolplane/violations.go
--     Discovery                internal/toolplane/catalog.go
--     Mount                    AddTools of core.go, unimplementedGovernance of tooldef.go
--   Authn, Fold, Parse       internal/authn/claims.go and principal.go (Fold)
--   Authn.KeySet             internal/authn/jwks.go
--   Authn.Verify             internal/authn/verify.go
--   Catalogue: Names, Load   internal/catalogue/catalogue.go
--   Catalogue.Store          internal/catalogue/store.go
--   Grants                   internal/grants/verify.go and claims.go
--   Replay                   internal/replay/jetstream.go and replay.go
--   Reload                   internal/reload/reload.go
--   Serve, Handler           internal/serve/serve.go
--   Serve.Planes             planeFor of internal/serve/plane.go
--   Serve.ListTools          internal/serve/listtools.go
--   Serve.Reconcile          internal/serve/reconcile.go, with the round of internal/transport/transport.go
--   Transport                internal/transport/nats/nats.go
--   Recorder                 internal/record/jetstream/recorder.go
--   Tests                    data, runs on it, and the theorems applied to it
--
-- How they interact: Reload.once loads with Catalogue.Load.load and swaps with
-- Catalogue.Store.reload; Authn.Fold.fold makes the principal that Toolplane.sees judges, and
-- Toolplane.Narrow.narrow a lesser one; Toolplane.Mount.add_tools fills the tables that
-- Toolplane.Chain.Invoke.invoke reads; Grants.verify spends with Replay.spend.
-- Serve.ListTools.list_tools takes its tools from Toolplane.Discovery.catalog and their schemas from
-- Toolplane.Schema.Cache.schema_for_tool, and Toolplane.Violations lists by the same schemas.
-- Serve.Handler.serve_http stands before the chain, whose invoke is a field of Surface there.
--
-- How the code is modelled. A stateful operation takes its state and gives the next one. The chain is
-- a function from the ledger row and the traces left so far to an end (a value, an error, a panic, an
-- abort) with the row and the traces then; the deferred function of invoke is what is done with that
-- end. A lock makes an operation one step. Enums are their numbers, and times and durations are natural
-- numbers, in seconds unless a comment says otherwise; where an int64 can wrap, the wrap is written
-- out. The clock, ids and answers of other services are arguments. A loop over a list is structural
-- recursion. Two recursions have fuel: a projected schema, with a round for each message type and one
-- more, which is enough, and the printing of a number, with the 20 digits of a 64-bit one. A
-- message descriptor is its identity and its name.
--
-- An entry of the replay cache's bucket is gone once it is as old as the bucket's TTL, by the bucket's
-- clock. The card walk passes a map field by, as the code does: its content is part of the message, and
-- is neither validated nor projected.
--
-- Not modelled: what the code calls outside the repository (cryptography, protobuf decoding, the
-- policy compiler and sanitizer, the checks of the contract module on a grant's claims), which are
-- fields of Policy, Decoder, Compiler, Outside and Seams; logging below the error level; and the
-- parts that are I/O or start-up: the reader of audiences in unknown fields, the metadata and the
-- middleware of authn, the audit sink, the conformance suite and the start of the daemon. The chain
-- takes its card step and the listing of violations as fields of Seams; Toolplane.Cards and
-- Toolplane.Violations define them on their own.
pub mod Serve
pub mod Recorder
pub mod Base
pub mod Policy
pub mod Principal
pub mod ToolDef
pub mod Toolplane
pub mod Authn
pub mod Catalogue
pub mod Grants
pub mod Reload
pub mod Replay
pub mod Transport
pub mod Tests
