-- ===== src/Lib.antt =====
-- softmatrix-airlock: the control plane and the edge of an AI gateway. The control plane keeps a tree
-- of organisations, who may do what on it, the virtual keys (ak-) of its members with their keys of
-- the upstream LiteLLM (sk-), and requests that are approved before they take effect. The edge admits
-- calls by those keys.
--
-- Which file is about which part:
--   Base           numbers, lists, results, texts as bytes, signed integers with Go's int64 wrap-around
--   Sql            what the statements of the Postgres stores do to the rows of a table
--   Paths          the materialised paths of the tree (internal/authz/resolver.go, internal/control/approvers.go)
--   Authz          internal/authz: Permission.antt is permission.go, Role.antt is role.go, Resolver.antt is
--                  resolver.go; Spec.antt says when a permission is allowed, with no loop and no store
--   Pricing        internal/pricing: Model.antt is model.go, Table.antt is table.go
--   Keys           Model.antt and Store.antt are the rows and the methods of internal/control/keystore.go;
--                  Edge.antt is internal/edge/auth.go with internal/apikey/{key,store,postgres}.go
--   Requests       Model.antt, Store.antt and Outbox.antt are internal/control/requeststore.go; Ops.antt has
--                  its writes as steps
--   Effects        the world of the services: the tables, the upstream (internal/litellm/keys.go) and how
--                  a statement may fail
--   Issuer         internal/control/keyissue.go
--   Approval       internal/control/{approval,approvers}.go; Worker.antt is internal/control/approvalworker.go
--   Orgs           internal/control/orgstore.go: Store.antt has its methods, Ops.antt its writes as steps,
--                  Tree.antt says when the rows are a tree
--   Users          internal/control/{userstore,sessionstore}.go
--   Grants         internal/control/grantstore.go (Store.antt) and grantapi.go (Api.antt)
--   Import         internal/control/{importdiff,importapply}.go
--   Offboarding    internal/control/reconciler.go
--   Sync           internal/control/litellmsync.go
--   License        internal/license/{license,sign}.go and internal/control/license.go
--   Console        internal/control/{workbench,routes,server}.go and the middleware of auth.go; Table.antt
--                  has the routes
--   Usage          internal/usage/batch.go
--   Edge           internal/openai/usage.go (OpenAi.antt), internal/edge/stream.go (Stream.antt) and proxy.go
--                  (Proxy.antt, with internal/usage/record.go)
--
-- How the parts interact: a request of the console passes Console (session, licence, permission by Authz) to
-- a handler, which works on the stores (Orgs, Users, Grants, Keys, Requests) and, through Issuer and
-- Approval, on the upstream. A call of the data plane is let in by Keys.Edge, passed on by Edge, priced by
-- Pricing, and its record goes to the writer of Usage.
--
-- How the model stands to the code. A table is the list of its rows, a method of a store a function of
-- the table, with the error that the method returns; the clock of the call is an argument `now`. A
-- service (Issuer, Approval) is a program over a world: a statement of SQL runs, does not run, or runs
-- and its answer is lost, as a list of faults in the world says, and the upstream's server is any
-- functions from its state to a reply and a state. A service that ignores an error takes it as a value
-- (`try`). Random bytes, uuids, the hash, the cipher, the decoder of base64, the mail server and
-- how numbers are printed are parameters. Logging is left out. Where the source wraps an error with a message, the
-- services keep the error alone; the resolver keeps the message too.
--
-- Loops are recursion on the list that the source ranges over. The one loop without a list, the sorting of
-- additions in an import, has fuel: one pass for each addition and one more. Each pass but
-- the last places an addition, as long as no external id is added twice. Money is int64 with its
-- wrap-around written out; counters and times are natural numbers.
--
-- Not modelled: the storage of usage records and their reports, the
-- handlers of keys, organisations and requests, the login protocols, the removal of a node's
-- entities from the upstream, and the tickers. One operation of the issuer runs at a time; the writes of requests,
-- and the events of the usage writer, are free to interleave. A statement of the stores of organisations,
-- users and grants runs; that it fails is an outcome of the handlers, and in an import each call of the store
-- may fail. JSON, base64url and signatures are
-- parameters.
pub mod Base
pub mod Paths
pub mod Authz
pub mod Pricing
pub mod Sql
pub mod Keys
pub mod Requests
pub mod Effects
pub mod Issuer
pub mod Approval
pub mod Usage
pub mod Edge
pub mod Users
pub mod Orgs
pub mod License
pub mod Console
pub mod Grants
pub mod Import
pub mod Offboarding
pub mod Sync
