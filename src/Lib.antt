-- ===== src/Lib.antt =====
-- Storm node: the daemons of a node for storage and messaging over a Lightning network
-- connection, with the crates of its two interfaces.
--
-- stormd (src/stormd/service.rs) manages the others. It gets the messages of peers over the Msg
-- bus, requests of clients over Rpc, messages of extension apps over Storm, and the words of its
-- daemons over Ctl. Containers move between nodes by transfer daemons (src/transferd), which
-- stormd starts when a task finds none free; a task waits in a queue till then. chatd and
-- downpourd are the two extension apps of the repository: they turn what clients ask for into
-- messages of apps, and back.
--
-- The files, by the code they are about:
--   Wire        the data of the crates that the node is built on
--   Config      src/config.rs, src/stormd/config.rs, src/opts.rs, and the opts.rs of each daemon
--   Rpc         rpc/src: Ids (service_id.rs), Failure (error.rs), Messages (messages.rs),
--               Client (client.rs) with its connection in Client/Start and the order of its
--               responses in Client/Responses
--   Ext         ext/src/messages.rs, with the two conversions together in Ext/RoundTrip
--   Bus         src/bus: the messages, and the trait Responder of services.rs in Bus/Responder;
--               Bus/Protocol is what each daemon may say, to whom and by which bus
--   Errors      src/error.rs
--   Stormd      src/stormd: Daemons (daemons.rs), Runtime, Start, Scheduler and Handlers
--               (service.rs); the rest are proofs: Rule gives one way through all branches of
--               `handle`, Frame what the sending steps leave as it was, Tasks what a message asks
--               for; Pool, Waiting, Arrival, Apps, Known, Met, Sends, Posts and Panics are about
--               one matter each (Sends what stormd says, Posts whose chat messages it hands
--               on, Panics what it takes on, refuses or panics on), Served and Drain are about
--               sequences of messages, Jobs counts what is given to transfer daemons, Fifo is the
--               order in which they get it, and Iteration is about the order in which its sets and
--               maps hold what they hold
--   Transferd   src/transferd: State and Automation (automation.rs), Runtime and Service
--               (service.rs); the rest are proofs about the workflows: Download and Stored on
--               chunks that come, Sending on chunks that go, Container, Refusal and Silence;
--               Completion is what stormd is told; Steps is the step relation on the states of a
--               transfer, Awaited what is awaited after any messages, Sends what transferd says, Panics what it
--               takes on and what it refuses
--   Chatd, Downpourd   src/chatd/service.rs, src/downpourd/service.rs
--   Cli         cli/src/command.rs, the commands containerize and assemble over bytes; Pieces and
--               RoundTrip are proofs. Opts is cli/src/opts.rs and what cli/src/main.rs makes of the
--               addresses; Commands the commands that talk to the node, with proofs in Commands/Talk
--               and Commands/Listen; Exec is `exec` as a whole, with the files, and `main`;
--               Exec/Files is about the files and Exec/Ends about the end of the waits
--   Node        Main is the programs of src/bin, Started their start; the rest is what passes from
--               one daemon to the next: ChatRoute, FileRoute, Provision, Download, Stranded and
--               Reported; the buses that they share are in Buses, and what they refuse or panic on in
--               Panics. System is a whole node as a transition system: any daemon may start or get
--               a packet, and what was sent may come late, twice, in another order or not at all;
--               Protocol is what holds of the packets in each state that it reaches, Joined of the
--               transfer daemons that stormd deals with, Authentic of what chatd publishes, and
--               Registered and History of the apps and the jobs by the packets that stormd got.
--               Overlap is about a second task for a daemon that is at its first
--   World       the platform that the daemons run on, and in Serve a sequence of messages
--               and how one is dealt with (taken on, refused or a panic)
--   Base        helpers, sets and maps, and the monad of methods that may fail or panic
--   Tests       runs at concrete inputs
--
-- A daemon is a record of its own fields (the source's struct Runtime); a method on `&mut self`
-- is an action, which takes the fields and the log of calls and gives them back beside a value,
-- an error or a panic, so what was written before a `?` returned stays written. What is not code
-- of the repository (the bus controller, the store, the launcher of processes, hashes and
-- encodings) is the record Platform of World: each of its answers may depend on all calls that
-- went before, and nothing is assumed of it but what a theorem states. A function of the source
-- with long match arms is split: `handle_p2p` into transfer_instr, route_instr and route_ext,
-- `handle_ctl` of stormd into handle_hello and handle_finished, `handle_container` into
-- store_container and request_missing.
--
-- Identifiers (hashes, keys, client and daemon numbers) are numbers that are compared and passed
-- on. HashMap is an association list, HashSet and BTreeSet a list with each element once; no
-- proof depends on the order in which they are iterated (Stormd/Iteration). Nothing is computed on machine integers
-- but the 16-bit numbers of the failure codes. The one loop without a structure to recur on is
-- the client's wait for responses; the messages to come are a list, and the fuel of the loop is
-- one more than the number of messages in the queue and in that list, which each round makes
-- smaller.
--
-- The start of a program is modelled from the parsed options up to the opening of its buses: the
-- controller of the buses then calls the handlers for ever. What the shell setup writes to the
-- options, the controller's refusal, the lines of a terminal, the answers of the file system and the messages
-- that a client will get are arguments. chat-listen loops as the wait for responses does, on the same fuel.
--
-- Not modelled: log output, what the client writes to its standard error, most texts of messages and
-- errors, the parsing of command lines, build scripts, and the strict encoding itself, which is a
-- parameter wherever the code calls it.
pub mod Base
pub mod Wire
pub mod Config
pub mod Rpc
pub mod Ext
pub mod Bus
pub mod Errors
pub mod World
pub mod Stormd
pub mod Transferd
pub mod Chatd
pub mod Downpourd
pub mod Node
pub mod Cli
pub mod Tests
