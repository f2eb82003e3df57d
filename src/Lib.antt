-- ===== src/Lib.antt =====
-- The core of universal-peer-mcp: the ledger of events, and the messages that are decided from it.
--
-- The daemon keeps one append-only ledger, events.jsonl. Every answer about a message (is it new, who
-- may read it, is it processed) is a function of the ledger's rows, and every change of state is one
-- row that is written through the store's chain. The model keeps that shape: a store is a record, an
-- operation is a function from store to outcome and store, and a view is a function of rows.
--
-- Prelude      Lists, texts, tests and outcomes that all modules share. A text that the program takes
--              apart (an id) is a list of UTF-16 code units, of which only ASCII letters change case;
--              a text that it compares whole is a String. Times are milliseconds, as natural numbers.
-- Limits       src/core/limits.mjs: the patterns of ids, aliases, row types and codes; sameUuid,
--              bareHex, referenceHex, referenceMatches. Laws and Canonical prove.
-- Ledger       src/core/events.mjs. Rows: the fields of a row; a field that is missing is `none`.
--              append is #write, append_checked is appendChecked. Requests: reserveRequest,
--              reserveRecovery, list, request and the other lookups. Replay: init, with assertPrivateFile of
--              src/core/state-paths.mjs. Sequence, Reserve
--              and Replay/RoundTrip prove.
-- Spool        src/core/inbound-spool.mjs: utf8Bound and the fields of a kept body.
-- Posts        src/core/posts.mjs. Posts.antt is acceptPost, Inbox is inbox, postBindings, heldPosts
--              and sessionLineage, Acks is ackInbox, relinkPost and linkUnmatched, Quarantine is
--              quarantine and postRecipient. Accept/Steps, Once, Numbering and Repeats prove.
-- Attempts     src/core/attempts.mjs: attemptRow, attemptConflict, recordAttempt.
-- Retention    src/core/retention.mjs: deleteBody and what it reads; Pass is expireInboundBodies and
--              disposeInboundBody; Safety, Concluded and Disposal prove.
-- Receipts     src/core/receipts.mjs: receiptsDue and the service; Names is uuidv5 and
--              recipientMessageId of src/core/posts.mjs and receiptId. Due and Sends prove.
-- Waits        src/core/wait-requirements.mjs: the evidence that satisfies a wait.
-- Targets      src/core/target-table.mjs: read is TargetTableWatch.read; count_changed_aliases.
-- Doorbells    src/core/doorbell-service.mjs: authorize and attemptOf; Ring is ring, Sweep is onAppend and
--              sweep, Again is eligibleAgain, ringAgain, ringReturnedClaude and ringRelinked. Counts,
--              Bounds, Keeps and Reach prove how often a message rings, Aims, Sends
--              and Targets what is sent and when.
-- Directory    src/core/peer-directory.mjs: resolvePeer and what a registration comes to; Files is
--              registerPeer and removePeer on the two files, with what readers see between two writes.
--              Deletes, Unique, Writes and Registers prove that names stay unique; View, Assign,
--              Refines, Forget and Serves compare with a map from alias to session.
-- Core         src/core/peer-core.mjs: durableState, #resolve and the snapshots, and canonicalSend of
--              src/core/dedupe.mjs; Send is send, #sendOnce and #recoverSend. Owed, Transmits and Once
--              prove how often a message is written. Reads is events, Ascending and Pages prove.
-- Trace        src/core/trace.mjs: stageOf, pairedResolveRows and dailyStats, with dayOf of
--              src/core/days.mjs; Once proves that an acknowledgement is counted once.
-- Protocol     src/adapters/claude-native-v1/protocol.mjs: parseMarker and parseReplyHeader; Envelope is
--              unwrapEnvelope, Header is protocolHeader of src/core/protocol-header.mjs. Shapes proves.
-- Processes    src/adapters/claude-native-v1/darwin-procargs.mjs: normalizeProcStart, renderedProcStart and
--              provePermissionMode.
-- Frames       src/core/peer-core.mjs: #assertPeer, #replyRequest, selfReferencing, and senderFields of
--              src/core/sender-auth.mjs; Accept is acceptFrame, Observe is frameObserver. Attested says
--              what evidence is; Finds, Steps, Named, Sound and Evidence prove that it stays so.
-- Successions  src/core/session-rebind.mjs: proveResumeSuccession; Rebind is the rebinder and
--              previousGenerationOf, Sidecar is src/core/rebind-sidecar.mjs with rebindTargetSessionId of
--              src/core/target-config.mjs. Proof, Named, Warrant and Safe prove.
-- Registry     src/adapters/claude-native-v1/registry.mjs: resolveTarget, resolveSuccessor and what they check.
-- Senders      src/core/sender-auth.mjs: resolveSender; Proved proves. Threads is resolveCodexThread of
--              src/core/codex-identity.mjs.
--
-- Asynchrony. An operation of the chain is one step. A call that waits lets other operations run: its
-- environment (`World` in Posts, `Rest` in Retention, `Host` in Doorbells, `Net` in Core, `Station` in Frames, `Rebinder` in
-- Successions) holds a function
-- `others k` on the state for the k-th wait, about which a theorem assumes no more than it says. The
-- disk's and the clock's answers are in its `Moment`s. What goes out (a ring, a line into a socket) is a
-- list that only grows. In Directory the writers wait for one another, and readers see every step.
--
-- Fuel. The loop of sessionLineage adds the end of an edge in each round but the last, so it is given one
-- round more than there are edges, and always ends. The digits of a number are taken off on as much fuel as
-- the number itself, which every digit makes ten times smaller. The walk of proveResumeSuccession has a
-- round for each of its nine depths, as the source's loop.
--
-- Parameters. What the transports, the resolver and the sockets answer, JSON printing and parsing of a
-- line, its length in bytes, the fatal UTF-8 decoder, SHA-256, SHA-1, UTF-8, the Unicode classes of an
-- envelope, the hooks and observers of a frame, the wording of the receipts and the doorbells, the
-- spool's files, the kernel's answers about processes, the sessions directory, the disk, the clock,
-- random names, and the loading and the digest of a target table.
--
-- Not modelled. Sockets, processes, the files but for what the ledger and the peer tables hold, the
-- MCP façade, installation and the extensions; arguments of trace_attempt that are no strings.
pub mod Prelude
pub mod Limits
pub mod Ledger
pub mod Spool
pub mod Posts
pub mod Attempts
pub mod Retention
pub mod Receipts
pub mod Waits
pub mod Targets
pub mod Doorbells
pub mod Directory
pub mod Core
pub mod Trace
pub mod Protocol
pub mod Processes
pub mod Frames
pub mod Successions
pub mod Registry
pub mod Senders
