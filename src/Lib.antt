-- ===== src/Lib.antt =====
-- A model of the core of kabot, an assistant that runs language-model agents behind chat channels.
--
-- The program. Channels (src/channels, src/weixin) put messages of users on the message bus
-- (src/bus). The agent registry (src/agent/agent_registry.cpp) takes them off, chooses an agent,
-- and puts the reply back on the bus, from which the channel manager sends it. An agent keeps its
-- conversations in sessions (src/session). The cron service (src/cron) starts agents at set times.
-- The task runtime (src/task) claims tasks from a relay server, runs them on the agents, and holds
-- back those that wait for a user; it is the registry's interceptor and post-processor. The planner
-- (src/agent/planning) puts the tasks of a plan in order. The relay manager (src/relay) talks to the
-- relay server, by HTTP for tasks and by a websocket for commands. All of them read the configuration
-- (src/config).
--
-- The files, by their paths under this folder:
--   Base             shared names, lists, integers (Base.Int), maps (Base.Dict) and JSON values (Base.Json)
--   Cron.Types       src/cron/cron_types.hpp
--   Cron.Schedule    NormalizeCronExpr, ComputeNextRun and the names of the schedule kinds
--   Cron.Service     the store of src/cron/cron_service.cpp and the calls on it
--   Cron.Run         ExecuteJob, RunJob, RunDueJobs, RecomputeNextRuns and Start
--   Session.Types    SessionMessage and Session of src/session/session_manager.{hpp,cpp}
--   Session.History  Session::GetHistory
--   Session.Manager  SessionManager: GetOrCreate, Get, Save and Delete
--   Bus              src/bus/events.hpp and src/bus/message_bus.cpp
--   Agents.Context   src/agent/context_builder.cpp: the messages that a provider is given
--   Agents.Memory    the memory block of an answer, of src/agent/agent_loop.cpp
--   Agents.Guardrail  its tests and texts for answers without tools
--   Agents.Loop      its loop of provider and tools, and ExecuteToolWithGuardrails
--   Agents.Loop.Process  what is in front of the loop and behind it, and in Entries ProcessDirect,
--                    ProcessMessage, ProcessSystemMessage and HandleInbound
--   Agents.Tools     src/agent/tools: the registry, the check of parameters, send_message,
--                    write_file and edit_file
--   Agents.Registry  ResolveAgentName and HandleInbound of src/agent/agent_registry.cpp
--   Agents.Planner   DetectCycle and TopoSort of src/agent/planning/task_decomposer.cpp
--   Agents.Subagents  ResolveAgentTools and the task manager of src/agent/subagent
--   Channels         IsAllowed, HandleMessage and SendWithRetry of src/channels
--   Tasks.State      the fields, keys and small operations of src/task/task_runtime.cpp
--   Tasks.Questions  ShouldWaitForUser
--   Tasks.Waiting    ObserveInboundResult, TryResumeWaitingTask and ResumeWaitingTask
--   Tasks.Claims     a round of AgentPollLoop
--   Tasks.Summary    HandleDailySummaryCron
--   Tasks.Verification  the texts on a task and VerifyTaskCompletion
--   Tasks.Execution  ExecuteClaimedTask: its git workflow is in Tasks.Execution.Repository, its end in
--                    Tasks.Execution.Course, and the thread that watches the time in
--                    Tasks.Execution.Watchdog
--   Config           src/config: the structs and their defaults, the readers of the file (Config.Reading),
--                    the variables (Config.Environment), NormalizeConfig (Config.Normal), LoadConfig
--                    (Config.Load) and ValidateConfig (Config.Valid)
--   Relay            src/relay: requests (Relay.Targets, Relay.Requests), the retry (Relay.Http), answers
--                    (Relay.Calls, Relay.Projects), the manager's calls (Relay.Manager), the
--                    commands of the websocket (Relay.Commands) and the delays between connections
--                    (Relay.Reconnect)
--   Heartbeat        src/heartbeat/heartbeat_service.cpp
--   Weixin.AesEcb    src/weixin/cdn/aes_ecb.cpp
--   Weixin.Connection  src/weixin/monitor/connection_manager.{hpp,cpp}
--
-- A method that changes its object is a function from the old state, a record of the fields, to the
-- new one with the result. Under a mutex it is one step; interleavings are lists of steps.
--
-- From outside come, as arguments: the clock, generated ids, the model provider, what the tools do, the
-- job handler, the shell, the results of sending and of the relay server, the block cipher, the parse
-- of JSON and of numbers, the cron expression library (`cron_next`, of which one theorem uses that an
-- occurrence lies after the given time), and SQLite (`Database`, with what a row set holds after a save
-- and a delete).
--
-- Bounds. Times are unbounded integers and counters unbounded numbers; the overflow of the machine
-- types is modelled only where Relay.Reconnect doubles a delay and where Weixin.AesEcb casts a size to
-- an int. Loops over a container are recursions on it. The loop of the planner has as much fuel as there are tasks and the loop of the backoff as
-- many rounds as attempts, which are the rounds that the source makes: a task enters the queue at most
-- once. The loops that strip the memory block have as much fuel as the text has characters, since each
-- round makes it shorter; the loop of an agent is recursion on the iterations left.
--
-- Three files are independent descriptions that the code is compared with, and model no code:
-- Agents.Tools.Schema says when a call fits the schema of its tool, Relay.Calls.Described what a body of the
-- server says of a task, and Relay.Dates.Calendar lists the days of the months.
--
-- Not modelled: the text of JSON files, logging, threads and their start and stop, network clients,
-- the model providers, the tools not named above, the runs of sub-agents, the sandbox, the command
-- line, the heartbeat of the relay connection, RunLoop of the agent registry, and exceptions but for those
-- that a file names.
pub mod Base
pub mod Agents
pub mod Bus
pub mod Channels
pub mod Cron
pub mod Heartbeat
pub mod Session
pub mod Tasks
pub mod Weixin
pub mod Config
pub mod Relay
