-- ===== src/Lib.antt =====
-- fizzy-connector turns mentions of a bot on Fizzy cards into Claude Code turns. A daemon
-- (internal/daemon) reads the notifications of the bot, scans their cards, and records the mentions of
-- trusted people in the queue of each card (internal/store). A worker for each card runs a turn of Claude
-- Code (internal/claude) for all that is queued, and posts an answer when Claude did not. The tools
-- of a turn (internal/mcpserver) call the Fizzy API (internal/fizzy), and talk to the daemon over a
-- socket (internal/ipc): the turn reports its comments, gets what arrived, sends messages to the agents
-- of other cards, and asks people for permission.
--
-- Store models internal/store/store.go: `CardState` is the state of a card, `Store` the directory of
-- the cards with the places where a read or a write fails; `get` and `update` are Get and Update.
-- Fizzy has the records of internal/fizzy/types.go, and `Libs`, the functions that the models take as
-- given: the Markdown converter, the reader of rich text, and the digest. Config models the settings of
-- internal/config/config.go, their defaults and `validate`; Config/Load its Load and the names of its files;
-- and Config/DataDir its PrepareDataDir, as changes of a file system after any of which a run may stop. Ipc has the messages of internal/ipc/ipc.go.
-- Claude models internal/claude: Claude/Prices (prices.go), Claude/Usage (sumUsage, and transcript.go),
-- Claude/Stream (parseStream as a loop over the decoded lines), Claude/Run (Args and the outcome of
-- Run) and Claude/Hook (hook.go). Daemon models internal/daemon: Daemon/Effects is the monad of its
-- handlers over the store and the calls they make; Daemon/Triggers is triggers.go and the update of
-- checkCard; Daemon/Scan is checkCard, handleNotification and rescan of daemon.go; Daemon/Messages is
-- handleIPC and deliverAgentMessage of daemon.go; Daemon/Approvals is approvals.go, with the wait for an
-- answer as a list of rounds; Daemon/Prompt is buildPrompt of prompt.go; Daemon/Turns is the record of
-- a running turn, check.go and fallbackReply; Daemon/Turns/Run is runTurn of worker.go; and
-- Daemon/Turns/Life is the queue of one card as a step relation over the changes that the goroutines
-- of the daemon make under their locks. Daemon/Worker is kick, work and finishIfIdle of worker.go: all
-- workers as goroutines that step in any order, with the lock and the slots of the daemon, started by
-- resumeQueues. Daemon/Fetch is resumeQueues, rescanPending, fetch and a round of fetchLoop of daemon.go.
--
-- Daemon/Watch is watchCable and listenCable of daemon.go, over Cable, the loop of internal/cable/cable.go on
-- the messages of a connection; and Daemon/Logs is logs.go.
--
-- Fizzy/Requests, Fizzy/Pages, Fizzy/Client and Fizzy/Session model internal/fizzy/client.go and session.go: a
-- request, what its reply means, the lists in pages, the calls and the login by magic link, over a server
-- that is a function on a state of its own. Fizzy/Mentions is mention.go, with its patterns as functions
-- that look for the leftmost match; Daemon/Triggers/Orders puts its `mentions` in the place of that of `Libs`.
-- Fizzy/Base64 is its decoder of base64.
--
-- Setup models internal/setup/setup.go: Setup/Prompts has the questions, as a monad over the lines that are
-- typed, the state of Fizzy and the two files; Setup/Accounts the logins and the choice of the account;
-- Setup/Init the functions Init and Login, whose write of a file may fail before or after the file was
-- opened; and Setup/Doctor the checks of Doctor. Cli is the commands on the sessions of
-- cmd/fizzy-connector/main.go; the list of all cards, All of internal/store/store.go, is an argument there.
--
-- Mcpserver models internal/mcpserver, the tools of a session: Mcpserver/Results has their results and the
-- interface `Api` to the client, which `api_of` fills; Mcpserver/References reads the references to cards;
-- Mcpserver/Actions is actions.go; and Mcpserver/Tools is the rest of server.go and approve.go, over the
-- daemon as it answers on its socket. Base has the shared types and lemmas, and Examples applies the
-- theorems to small inputs.
--
-- What the world does is an argument: a `World`, a `Sight` or a `Round` has what Fizzy answers, what
-- Claude did and what other goroutines did to the card in between. A text is a list of code points, a
-- time or a duration a number of nanoseconds, and a cost a number of 1e-8 dollars where the code has
-- floating point. The loops are structural recursions over lists, but for the loop over pages: it has a
-- bound on the number of pages, which is enough when it is above the number of pages that the server links.
--
-- Not modelled: the Markdown converter and the plain text of HTML in internal/fizzy (a package outside
-- the repository, and patterns of package regexp over whole documents), the template of the file of the
-- configuration and the modes of its directories, the start and the drain of the daemon with its lock and its
-- socket, the terminal, and the tree of commands. They are I/O, or calls of packages outside the repository.
pub mod Base
pub mod Store
pub mod Fizzy
pub mod Config
pub mod Daemon
pub mod Ipc
pub mod Cable
pub mod Claude
pub mod Mcpserver
pub mod Setup
pub mod Cli
pub mod Examples
