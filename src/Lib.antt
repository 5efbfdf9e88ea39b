-- ===== src/Lib.antt =====
-- A model of the Byzantine agreement program: a commander sends an order to its lieutenants, the
-- lieutenants relay what they hear for faulty + 1 rounds, and everyone decides on an order.
--
-- The parts, each with the file that models it. Functions keep their names, in snake_case; C++
-- exceptions are values of `Result` (Common/Results).
--   - Msg: orders, messages, their texts and their order (src/message.h, src/message.cc).
--   - Wire: ByzantineMsgFromBuf, RoundOfAck and the buffers that SendMessage and SendAckForRound
--     fill, byte by byte in network order (src/message.h, src/general.cc).
--   - Behavior: the bit flags of malicious behaviours and the --malicious flag (src/general.h,
--     src/general.cc, src/main.cc).
--   - Net: addresses and how they are read (src/net.h, src/net.cc), and in Net/Errors the texts of
--     src/net_exception.h.
--   - Udp: sockets, clients with SendWithAck, and the server's loop (src/udp_conn.h,
--     src/udp_conn.cc).
--   - Generals/Base, Generals/Count: class General, SendMessage and MessagesForRound; with them
--     Generals/Clients, on the clients of a process list, and
--     Generals/Acks, on the acknowledgements of a message.
--   - Generals/Commander: class Commander. `launch` is Decide up to JoinAll; Sends, Orders and Decides
--     are on what it sends and decides, Aborts on a send that fails.
--   - Generals/Lieutenant: class Lieutenant, its two callbacks and the functions they call, of which
--     ValidMessage is in Generals/Validation and the loops of InitNewRound in Generals/Forward. Its
--     children follow it through messages (Later, TakeAll, Reordered), rounds (Rounds, Changes, Joining,
--     Timeouts, Relay) and whole runs (Started, Outcome, Stale, Endless, Validity).
--   - Generals/Paths: the lists of ids that a message of a round can have, one by one in the order of
--     the set of lists, and how many there are; with Generals/Lieutenant/Complete, on RoundComplete.
--     Generals/Made is on the constructors of both kinds of general.
--   - Generals/Senders: the bodies of the threads that both kinds of general start, and how they end,
--     which JoinAll waits for (Joined).
--   - Generals/Protocol: messages as they pass from one general to another.
--   - Generals/Network: one commander and any number of lieutenants as a step relation. In each step
--     one lieutenant's server handles a timeout, or any datagram that some started thread sends.
--     Its children say who holds which orders (Orders, Spread), what taking a message and starting a
--     round do to that (Taking, Listing, Starting, Renewing, Single), what arrives (Arriving,
--     Accepting, Timely), and by induction over the steps (Growth, Induction) what networks come to:
--     Validity, Relaying, Members, Stopping, Agreement, Completing, Ending
--     and Late; Paths counts lieutenants.
--   - Threads, Log: src/thread.h; src/log.h and src/log.cc.
--   - Config: src/main.cc after the flags are parsed, up to the exit code: Places and Identity on the
--     ids of processes, Checks on the other flags, Roles and Configured on the general that is created,
--     Agreed on the commander's run and FirstProcess on a lieutenant's.
--   - OrderedSet: `std::set` as a list in strict order, for any type with a `StrictOrder`.
--   - Common: lists over native numbers, results, int and its conversions.
--
-- State is passed explicitly: a member function that changes the object takes it and returns the
-- object after it. `Server::Listen` is a function of the callbacks and of the list of what each
-- recvfrom gave (`Arrival`), with what the callbacks read then: two readings of the clock, and
-- whether the acknowledgement could be sent. A list that ends stands for a server that still
-- waits, so that no fuel is needed; the result is then `running`, and no decision. In the same
-- way SendWithAck is a function of what each attempt gave. Threads are the list of what they were
-- started with: `sender_threads` are those of the round, `started` all of them so far. What a
-- thread meets is fixed by the platform, for each round, thread and message. An exception that
-- leaves a thread ends the process (`process_terminated`); the model notes that where the threads
-- are joined, at the latest, so that a real run may end earlier, but no run decides after it. A
-- join that waits for ever is `join_blocked`.
--
-- unsigned int, size_t and unsigned short keep their wrap-around (modulo 2 ^ 32, 2 ^ 64, 2 ^ 16). An
-- order from the network can be any 32-bit number, since the cast to the enum checks nothing. An int
-- is a `ℤ` whose range is that of the flags. The fuel of `decimal`, the digits of a number, is one
-- more than the number.
--
-- In a network, the number of processes is less than 2 ^ 32. Where a message of the last round, with
-- faulty + 2 ids, must fit into the receive buffer of 1024 bytes, `faulty` is at most 250. A process
-- is loyal if it is neither silent nor drops messages, and does not log. That no message comes after
-- its round, and that what loyal processes send is taken, are hypotheses about the network
-- (`Timely`, `IsTold`).
--
-- Arguments of the model: the resolver, socket calls and clock of the operating system; the draws
-- of the random engines, and what the threads meet (`Platform`); the file system (`Host`); the
-- flags as the parser of include/args.h gives them (`Flags`).
--
-- Not modelled: that parser, which is another project's; the texts of the log; the closing of
-- descriptors. When `Decide` throws, whether a sender still runs is not known to the model of
-- `main`, which then gives `fails`: exit code 1, or the end of the process by std::terminate.
-- That a thread has ended the process is `aborts`, and a join that waits for ever is `joins`.
mod Common
pub mod OrderedSet
pub mod Msg
pub mod Wire
pub mod Behavior
pub mod Net
pub mod Udp
pub mod Threads
pub mod Log
pub mod Generals
pub mod Config
