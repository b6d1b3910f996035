-- ===== src/Lib.antt =====
-- The verification library of meetings: a supervisor-led meeting of LLM personas, where each persona
-- speaks from its own isolated sandbox. Paths are from the repository's root.
--
-- How the program works. backend/app/orchestration/graph.py runs a graph of nodes over one state
-- (state.py): the supervisor's node (supervisor.py) names the next speaker or FINISH, the router
-- follows it, and an attendee's node (agents.py) takes one turn and goes back to the supervisor. The
-- supervisor asks a model through a ladder of calls (llm_call.py) and repairs what it answers
-- (recovery.py). An attendee's node looks its turn up in a durable table
-- (backend/app/services/turn_cache.py), resolves the persona's tools to a capability profile
-- (profiles.py), takes a sandbox from backend/app/sandbox/manager.py, binds the persona and streams
-- the turn, once more on a new sandbox if the first is lost. In the sandbox, the server
-- (sandbox/runtime/runtime/server.py) runs the persona's loop (agent.py) and streams its events; the
-- persona's tools reach the documents, the artifacts, the model and the exec sandboxes through the
-- backend's internal API (backend/app/api/routes/internal.py), which knows the caller by its token
-- (backend/app/core/sandbox_auth.py). An operator's socket starts and stops a meeting
-- (backend/app/api/routes/meetings.py), and backend/app/services/meeting_executor.py runs its graph
-- and writes its row.
--
-- Which file models what:
--   Prelude, Text, Dict            shared names; Python's str and dict operations that the code uses
--   Profiles                       orchestration/profiles.py: the catalogue, resolve, for_persona
--   Orchestration/State            state.py: messages, updates, reducers
--   Orchestration/LlmCall          llm_call.py: structured_call and what it reads and records
--   Orchestration/Recovery         recovery.py: recover_speaker_id, salvage_decision; in Thoughts,
--                                  as_text, split_thought, strip_speaker_prefix
--   Orchestration/Supervisor       supervisor.py: supervisor_node; in Prompt, what its model is asked
--   Orchestration/TurnCache        services/turn_cache.py, and _serialisable of agents.py
--   Orchestration/Agents           agents.py: agent_node, _success_state, _failure_state; in Binding
--                                  and Requests, what it sends to its sandbox
--   Orchestration/Graph            graph.py: validate_attendee_profiles, router, the run of the graph
--   Sandbox/Leases                 sandbox/manager.py: SandboxManager's lease table; in Flights, its
--                                  methods at their awaits
--   Sandbox/Client                 sandbox/client.py: stream_turn, with to_sse of protocol.py
--   Sandbox/Reaper                 sandbox/reaper.py: what is cleared at start-up
--   Sandbox/Tokens                 sandbox/scoped_token.py, and route_headers of sandbox/manager.py
--   Meetings                       services/cleanup.py; in Executor, services/meeting_executor.py; in
--                                  Lifecycle and Documents, api/routes/meetings.py
--   Internal                       in Caller, core/sandbox_auth.py; in Search, services/vector_search.py
--                                  and retrieval_search; in Artifacts, Exec and Proxy, the other
--                                  handlers of api/routes/internal.py
--   Documents                      services/document_processing.py
--   Settings                       services/settings_service.py, core/network.py; in Embedding,
--                                  services/embedding_service.py
--   Templates                      api/routes/templates.py
--   Roles                          api/routes/roles.py: what a selection of tools grants;
--                                  get_meeting_capabilities of api/routes/meetings.py
--   System                         api/routes/system.py: system_status; check_db_ready of
--                                  core/database.py
--   Corpus                         sandbox/corpus/server.py: search
--   Auth                           core/auth.py: the operator's tokens and roles
--   Runtime                        sandbox/runtime/runtime: capabilities.py, idempotency.py, server.py;
--                                  in Prompt, persona.py, tool_guidance.py and tools/__init__.py; in
--                                  Turn, agent.py; in Tools, metrics_sql.py, policy.py, code_exec.py,
--                                  retrieval.py and artifacts.py of tools; in Server/Delivered, a
--                                  turn from the loop to what the backend reads
--   ExecPython                     sandbox/exec-python: server.py and runner.py
-- The children of a module hold its proofs, and Tests its examples. Orchestration/Graph knows the
-- chair and the attendees by two interfaces, Chair and Speakers, which Orchestration/Graph/Meetings
-- fills with the models of supervisor.py and agents.py.
--
-- Parameters: what a model replies, whether its client and the chair's prompt templates can be built,
-- whether a text can be embedded, what LangGraph streams and what its ReAct loop produces, what a
-- sandbox does in an attempt, what the Agent Sandbox SDK and the apiserver answer, whether the database
-- can be read and written, embedding distances, uuid.UUID, signatures and encodings, Python's case
-- mappings, and the regular expressions that look for a decision in free text. Turn counts are natural
-- numbers. Attendee ids are the database's UUIDs, so none is empty. The expressions of recovery.py that
-- take off private reasoning are not parameters: they are recursion on the text. Meetings/Lifecycle has
-- one step for each handler of a socket and each thing that asyncio does to a task, and
-- Sandbox/Leases/Flights one for each part of a method between its awaits; the relation Step
-- takes start_meeting as one step, and Meetings/Tests shows what happens where it is not one.
--
-- Bounds: the supervisor makes at most three attempts, an attendee's turn at most two, as in the
-- source. graph_run is recursive on the number of nodes that LangGraph may run, its recursion limit;
-- a turn takes two nodes, and the ruling that ends the meeting one. `decimal` has one unit of fuel per
-- unit of its argument, and one more, which is at least its number of digits.
--
-- Not modelled: metrics and logging, the HTTP routes that only read rows or edit personas and
-- documents, the HTTP and Kubernetes clients, a negative number of results asked of the corpus, the
-- corpus tool, the resource limits of the exec sandbox's process,
-- application start-up, migrations, seed data, deployment and the frontend.
pub mod Auth
pub mod Corpus
pub mod Dict
pub mod Documents
pub mod ExecPython
pub mod Internal
pub mod Meetings
pub mod Orchestration
pub mod Prelude
pub mod Profiles
pub mod Roles
pub mod Runtime
pub mod Sandbox
pub mod Settings
pub mod System
pub mod Templates
pub mod Text
