-- ===== src/Lib.antt =====
-- agentturn: the turn loop of an agent over the Open Responses item model.
--
-- An Agent (agent.go) holds a transcript, two queues and the calls left pending; its run (run.go)
-- appends items, asks the model for a response, runs the tools it calls and goes round until nothing
-- is left to do. Every change of the transcript is an event that the subscribers are called with and
-- waited for. The hooks of a configuration (config.go) may change the request, the items and the
-- decisions; chain.go joins several functions for one hook. Items may carry marks (items.go), and the
-- run notes which model made each reasoning item (reasoning.go), which messages a person wrote
-- (persons.go) and which items a guard held back (quarantine.go).
--
-- The files:
--   Base       Boolean tests, lists over the native numbers, association lists and sets of keys,
--              results that carry an error.
--   Chain      chain.go: the six Chain functions (chain_*), with the loop of each (run_*). A hook is a
--              function on a state of any type, so the calls and their order are seen. Chain/Decision
--              is ToolDecision.merge, Chain/Merged what merging keeps.
--   Items      items.go and the Trigger of events.go. An item is nil or an address with a body, so that
--              `==` on pointers is equality of addresses; Input is an item as a caller hands it over,
--              in a markedItem or not. Items/Validate is WithProvenance.
--   Reasoning, Persons    reasoning.go and persons.go: the maps keyed by address.
--   Quarantine quarantine.go: add, apply and has. A placeholder is allocated at the address `fresh`.
--   Loop       run.go. Loop holds the types, Loop/Append emit and the appends, Loop/Notes hold,
--              notesHeld and flushNotes, Loop/Pending what is read off a transcript (unansweredCalls,
--              pending, source, continuedInputs, terminates, CanContinue), Loop/Turns the rounds of
--              loop, Loop/Run its opening, the end of a run, and run. An action takes the state of the
--              run and gives a result, which may be a stop (errStop) or another error, and the state.
--   Batch      run.go: a batch of tool calls. Batch holds the state of a call, what the batch is given
--              and the executor's events, Batch/Said sayUnder, holdNotesOf and holdStrays, Batch/Settle
--              prepare, decide, check, settle and finish, Batch/Cut failBatch, abortBatch and
--              appendFinished, Batch/Preflight and Batch/Approved what comes before the calls execute,
--              Batch/Execute execute with the start callback, Batch/Run collect, toolBatch and
--              approvedBatch. Batch/Paired follows the tool events through all of them.
--              Batch/Paired/Runs puts the batches into a run of Loop.
--   Model      run.go: the model's turn. Model/Turn is modelTurn with its retries, Model/Reading stream,
--              Model/Stream and Model/Events streamEvent with what it works with, Model/Attempt what the
--              runner keeps of an attempt and the call IDs it decides (decideCallID, decidedCallID,
--              callIDTaken, withCallID), Model/Prefix callIDPrefix, Model/Pairs and Model/Renamed
--              renameCalls.
--   Handoff    handoff/handoff.go: New, offer, Config and, in Handoff/Name, ToolName. Handoff/Taken has
--              Route, Trim, inherit and RemoveAllTools, with Handoffs, HandedTo and TrimHandedOff of
--              front/responses/handoff.go; Handoff/Follow is Run with follow, and agent.go's Continue.
--   Compact    compact/compact.go: split, view, backOff, pinned and the memory of a Transform;
--              Compact/Fold is Transform.
--   Retry      config.go: DefaultBackoff.
--   Agent      agent.go: the queues, each operation a critical section of the agent's mutex; Agent/Ops
--              runs any sequence of them. Agent/Answers is answersPending and runAgain, Agent/Notes
--              mergePending, keepNotes and keepOwed, and what SetTranscript derives with them.
--
-- What is behind a call out of the loop is a parameter, a field of Env: the subscribers, the queues,
-- the hooks, the model's turn and the batches of tool calls, each over a state W of its own. JSON
-- encoding and errors.Is are parameters too. A batch has its own such record, BatchEnv: what a hook
-- says under a call it gives back beside its world, and the executor, a third-party package, is a
-- schedule of events, so any interleaving of the calls of a batch is one. Loop's tool_batch and
-- approved_batch stand for those of Batch, with the results read by whether they ask to terminate.
--
-- The model's turn has two such records. TurnEnv has the building of a request, the attempt at one, the
-- retry policy and the events that only the model's turn sends; StreamEnv has the events of a stream and
-- the accumulator, of another package, the makers of IDs and items and the output guard. An attempt keeps
-- its own state beside the rest of the program. Team's follow has TeamAgent, the methods of the agent it
-- calls, but for Continue, which is translated down to the run it starts.
--
-- The loop has fuel, one unit a turn, where the program has none; with a budget of turns set, that
-- budget is enough fuel. The attempts of a model's turn have fuel, one unit a call, for which one more
-- than MaxAttempts is enough, and follow has fuel, one unit a round, for which the bound on handoffs and
-- the deliveries still to take are enough. Every other loop is structural.
--
-- Not modelled: the building of a request, the calls that a tool makes itself, the questions, the model
-- calls of a fold and its estimators, the session recorder and the fronts but for the transfers;
-- identifiers that a run generates, contexts but for what they carry into the functions above, the
-- text of errors, and the fields of a pending call that the loop only carries over (the tool, the
-- decision, the question, what ran of it and its nested calls).
pub mod Base
pub mod Items
pub mod Reasoning
pub mod Quarantine
pub mod Persons
pub mod Loop
pub mod Model
pub mod Batch
pub mod Compact
pub mod Retry
pub mod Chain
pub mod Handoff
pub mod Agent
