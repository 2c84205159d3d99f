-- ===== src/Lib.antt =====
-- Haro runs workflows: an execution is a graph of steps, a step has generations and attempts, and
-- all of it is rows of a store that several processes share. This library models the in-memory
-- store (internal/store/fake.go), which implements the contract of the SQLite store, the claims
-- of paths (internal/claim), the part of the engine that moves steps between statuses
-- (internal/execution/state.go and the end of engine.go), the fenced store that a worker writes
-- through (fenced_store.go), the evidence of outputs (evidence.go, fallback.go), the capture of a
-- command's output (internal/limits/capture.go), the negotiation of capabilities
-- (internal/adapter/negotiation.go), the messages between the command line and the daemon
-- (internal/ipc/jsonrpc/codec.go) and the validation of the daemon's results
-- (internal/broker/validation.go). Of the workflows themselves (internal/workflow) it models the
-- validation, the composition of files and the order of the steps.
--
-- Prelude, with Prelude/Table, has what the parts share: tests, native lengths, bytes, and maps
-- as association lists. Store/Types has the rows and errors of store.go and claim.go, Store/State
-- the record FakeStore with the checks of its columns. Each repository of fake.go is one file,
-- with one function per method: Store/Projects, Executions, Steps, Attempts, Generations, Events,
-- Transports, PathClaims, Leases and Interactions; Store/Sorting is the exchange sort of
-- ListTransitions and ListActive, and Store/Tx is WithTx. Store/Calls makes a datum of each call
-- that writes, so that a run of the program is a list of calls. Claim/Path and Claim/Policy are
-- canonical.go and policy.go. Execution/Fenced is fenced_store.go, Execution/Action the monad of
-- an engine method over the store, Execution/Steps the state machine, Execution/Reopen its
-- ReopenStep, Execution/Evidence and Execution/Fallback their files, Limits is capture.go,
-- Adapter is negotiation.go with capabilities.go, Ipc/Jsonrpc is codec.go, and Broker/Results is
-- validateResult of validation.go. Workflow/Types has the structs of a workflow,
-- Workflow/Validate is ValidateFile and ValidateFlat, Workflow/Cycles the detectCycle that both
-- call, Workflow/Sort the topoSort of compose.go, Workflow/Names the rewriting of names in
-- flattenRec, and Workflow/Compose is Parse of parse.go and Flatten of compose.go.
--
-- The proofs stand beside: Store/Integrity (rows, references and columns), Store/Exclusion (path
-- claims), Store/Fencing (leases), Store/Atomic, Store/Cursors, Store/Pages, Store/Deltas,
-- Store/Sorting/Order, Store/Resolutions, Store/Tx/Laws, Claim/Pieces, Claim/Overlap and
-- Claim/Matrix, Execution/Takeover, Resync, Transitions and Skips, Execution/Reopen/Closure,
-- Enlist, Queue, Links, Feeders and Reset, Execution/Fallback/Bounds, Limits/Bounds,
-- Adapter/Agreement, Ipc/Frames, Broker/Results/Events, Workflow/Cycles/Verdict,
-- Workflow/Sort/Result and Complete, Workflow/Compose/Leaves, Workflow/Validate/File and Flat.
-- Examples applies the theorems to concrete runs.
--
-- A method of the store holds its lock for its whole body, so it is one step on the state, and
-- interleavings of goroutines are sequences of calls. A method that stamps the struct of its
-- caller returns that struct. The iteration order of a Go map is the order of the table. The
-- readings of the clock in one call are one instant: a number of nanoseconds where the leases
-- calculate with it, a formatted text elsewhere. A lease keeps its times as the seconds that the
-- RFC 3339 text denotes. Integers of 64 bits stand as their bit patterns, natural numbers below
-- 2^64: ids and fencing tokens are counted up with wrap-around, and the theorems that need it
-- bound the number of calls or the token by 2^64, far beyond any run. The code compares cursors
-- as signed numbers, so a pattern from 2^63 on is a negative cursor: Store/Events orders them
-- that way, and the theorems that need it bound the cursors by 2^63. Paths are those of Unix. The
-- fenced store has a base that is not nil. A Go string that the code cuts or walks is the list of
-- its bytes; other strings are native texts. Package regexp, strings.TrimSpace, strings.ToLower
-- and strconv.Itoa are fields of the record TextLibrary in Execution/Evidence; the harness runner
-- of RunFallback is a parameter with a state of its own; no theorem assumes anything of them. In
-- WithTx, `others` is what the rest of the program does to the store while the body runs with the
-- lock free; in the guard of the fenced store, which validates and writes under two separate
-- locks, `between` is what it does between the two. sort.Strings is a parameter of topoSort and
-- ReopenStep, and the theorems assume only that it permutes; regular expressions of ids are
-- Boolean tests. Of package encoding/json the codec takes what it calls as the record Json, and
-- the validation as the record Unmarshal; a source is the bytes that are left of it, with a flag
-- that it ends in an error, and its kind: a *bufio.Reader, or another source, which each call of
-- DecodeMessage wraps anew and reads ahead of, by an amount that is a parameter, and that is
-- lost. The lists of a step are JSON, which ReopenStep decodes with a parameter. Its first loop
-- has one round more than there are steps as fuel, and its second one round for each artifact
-- that a step requires. Flatten takes the reader of files, the YAML decoder,
-- filepath.EvalSymlinks and the root of the project as arguments; a level of inclusion is an
-- argument that counts down from 17, which is the guard on the depth, so that flattenRec needs no
-- fuel. The search of detectCycle has one call more than there are steps as fuel, and the queue
-- of topoSort as many rounds as steps. The other loops of the code are structural recursions; the
-- exchange sort has as many rounds as elements.
--
-- Not modelled: the SQLite repositories, whose statements an external engine runs; RunStep and
-- the report of the engine; Canonicalize, which reads the file system; findRoot, the hash of a
-- flat graph, ResolveWorkspace, the discovery of workflows, the messages of validation errors;
-- the adapters; the parameters of requests and the daemon of the broker; processes, sockets,
-- worktrees and the command line. A removal of a worktree is returned as a value and not carried
-- out.
pub mod Prelude
pub mod Store
pub mod Claim
pub mod Workflow
pub mod Execution
pub mod Limits
pub mod Adapter
pub mod Ipc
pub mod Broker
pub mod Examples
