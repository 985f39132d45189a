-- ===== src/Lib.antt =====
-- happy-server: a verification library.
--
-- The server keeps the sessions, machines and messages of its clients, which reach it over sockets
-- and HTTP. A client process that produces messages holds a runtime connection lease on its session;
-- the lease decides whose writes count. Messages are inserted with a sequence number and an outbox
-- row under that lease, and dispatchers deliver the outbox in the order of each session. Presence is
-- written behind an activity cache. Beside these stand the friend graph with its notices in a feed,
-- a versioned key-value store of each account, and artifacts whose two parts are versioned. The event
-- router sends each numbered update to the sockets that it concerns; the packets of a session's runtime
-- are fenced by its lease, and so are the remote methods that a socket registers in Redis.
--
-- Files and the code they model (paths from the repository's root):
--   Common            shared names and Boolean tests; Columns has the comparison of nullable SQL
--                     columns, Json the JSON values a message holds, Int the integers.
--   RuntimeLease      sources/app/presence/runtimeConnectionLease.ts. `Session` and `Retirement` are
--                     the rows of prisma/schema.prisma. Claims has claimRuntimeConnectionLease, one
--                     function for the live and one for the replayOnly statement, each CTE a
--                     definition; Operations has the expiry, the renewals, the end, the owner test,
--                     the owner lock, the two conditional writes and the session read. Steps has one
--                     step for each operation and runs of them.
--   SessionMessage    sources/app/session/sessionMessageCreate.ts: Persist has
--                     persistSessionMessageInTx, its reads, its authorization and its three writes.
--   Social            sources/app/social/friendAdd.ts, friendRemove.ts (Friends), friendNotification.ts
--                     and sources/app/feed/feedPost.ts (Notices), relationshipGet.ts and
--                     relationshipSet.ts (Social), type.ts (Profile).
--   EventRouter       sources/app/events/eventRouter.ts: the connections and their rooms, the rooms and
--                     the connections of a filter (EventRouter), the router's own table of connections
--                     and the delivery of durable notifications (Registry), the payloads (Events).
--   Publishing        sources/storage/seq.ts and emitUpdate, with which the updates of a row end.
--   SessionUpdates    sources/app/api/socket/runtimeConnectionGuard.ts (SessionUpdates) and
--                     sessionUpdateHandler.ts of the same directory: Writes has update-metadata and
--                     update-state, Presence session-alive, session-end and
--                     sessionMessageValidation.ts, Messages the handler of message.
--   Rpc               sources/app/api/socket/rpcRegistrationRegistry.ts and rpcHandler.ts. Generation has
--                     createGeneration, Registry the two Redis scripts and their callers, Lifecycle the
--                     exclusive operations of RpcRegistrationLifecycle over the map of MethodMap,
--                     Lifetime their runs, and Calls the handlers.
--   Artifacts         sources/app/api/socket/artifactUpdateHandler.ts (Socket) and
--                     sources/app/api/routes/artifactsRoutes.ts (Routes).
--   Machines          sources/app/api/socket/machineUpdateHandler.ts.
--   KeyValue          sources/app/kv/kvMutate.ts and kvGet.ts.
--   ActivityCache     sources/app/presence/sessionCache.ts, its session half and (Machines) its machine
--                     half. Tracking has one step for each operation on sessions and runs of them.
--   Outbox            sources/app/session/sessionMessageNotificationOutbox.ts: the repository's claims,
--                     marks and clean-up, and the retry delay. Steps interleaves any number of
--                     dispatchers with the insertion of messages.
--
-- Conventions. A table is a function of its primary key, or a list where the code counts or sorts
-- rows. One SQL statement is one atomic step on the tables, and so is a transaction, which the
-- database runs serializably or under row and advisory locks; a failed one is `none` and leaves the
-- tables. The clock of the database and of the process, random identifiers, the result of a database
-- call that the cache waits for, and the base64 functions are arguments. Times are in milliseconds.
-- A call through the owner's lock may throw before its operation has run, within it or after it.
-- A handler that awaits several calls takes the tables as each of them meets them. No definition needs
-- fuel: every recursion is on a list, the retry loop of a registration on the list of its rounds.
-- JavaScript's and Redis's own functions on JSON and on texts are the record Rpc.Platform.
--
-- Not modelled: the payload of an account update, whose profile is a partial object; the list of
-- artifacts; the emission of the replies to rpc-register and rpc-unregister, and the random delay of a
-- retry; the errors of the database client that a handler only logs or answers as internal; the
-- dispatcher's timer and loop, the flush loop of the activity cache, the coalescing of session
-- activity, the other sockets' handlers and HTTP routes, GitHub, authentication, storage clients, and
-- monitoring. The transaction retry of persistSessionMessage (inTx) and the metrics are left out as
-- well.
pub mod Common
pub mod RuntimeLease
pub mod SessionMessage
pub mod Social
pub mod KeyValue
pub mod ActivityCache
pub mod Outbox
pub mod EventRouter
pub mod Publishing
pub mod Artifacts
pub mod SessionUpdates
pub mod Rpc
pub mod Machines
