-- ===== src/Lib.antt =====
-- DowowNetwork: requests with named values over UNIX and TCP sockets, with connections, a client and
-- a server. This library models the C++ code and proves what it does.
--
-- The parts, and the files that model them (paths from the repository's root):
--   Value.cpp, ValueType.hpp, values/CreateValue.hpp: a value is its type, the length of its content
--     and the content. Value/Data has the objects of all classes as one data type, `get_type` and
--     `create_value` (CreateValue); Value/Codec has GetSize, Serialize, Deserialize and CopyFrom with
--     the virtual calls that they make, and Value/Print has ToString and ToStringInternal.
--   values/Value8S.cpp to values/Value64U.cpp: Value/Value8S to Value/Value64U, one module each, over
--     the field `value`. values/ValueStr.cpp: Value/ValueStr. values/ValueUndefined.cpp:
--     Value/ValueUndefined. values/ValueArr.cpp: Value/ValueArr, which takes the call of an element's
--     Deserialize or CopyFrom as an argument; Value/Codec supplies it.
--   Datum.cpp: Datum, a value with a name. Request.cpp: Request, a named list of data with an id, with
--     Request/Print (ToString) and, of Request.hpp, Request/Templates (Emplace, Get<T>).
--   Connection.cpp: Connection/State (the object, setters and getters), Connection/Send
--     (PopSendQueue, Send), Connection/Receive (Receive, PassThroughHandlers), Connection/Api
--     (InitializeByFD, Push, Pull, Disconnect), Connection/Loop (ConnThreadFunc: `round` is a pass
--     of its loop with what other threads do while `poll` waits, `finish` what follows it).
--     Utils.cpp is a part of Connection/State and Connection/Loop. Connection/Invariant says what
--     holds of the object between calls, with a child for each group of functions;
--     Connection/Invariant/Reachable has the orders of calls, of which a pass of the loop is one
--     (Connection/Invariant/Rounds). Connection/Loop/Races has what another thread does between the
--     two locks of Push, Connection/Loop/Stops a forced Disconnect with the thread that it stops,
--     Connection/Loop/Breaks the other ends of the loop. Connection/Transfer puts one end's Send,
--     the other's Receive and Pull or a handler together.
--   The mutexes of Connection.hpp: Locks has threads that take and release them, Locks/Calls which of
--     them each function of Connection.cpp takes, Locks/Order the order in which they are taken,
--     Locks/Progress and Locks/Runs what follows from it, and Locks/Deadlocks the cases in which the
--     order is not kept, or a handler waits for its own thread. A wait for an event is a step that needs
--     the event; the `poll` of the loop, which holds no mutex, is left out there. Value/Integers has
--     the contract of the classes of numbers, over which Value/Wire and Value/Total treat them.
--   Server.cpp: Server (`round` and `finish` of ServerThreadFunc, AcceptOne, GetConnection, Stop) and
--     Server/Start (StartUnix, StartTcp). Client.cpp: Client (ConnectTcp, ConnectUnix, both threads).
--   examples/ChatServer.cpp: Chat (participants, GenerateMessage, GenerateStatus, IssueMessage) and
--     Chat/Handlers (the handlers), over the server's list of connections and Push, with
--     Chat/Main (main). examples/ChatClient.cpp: Chat/Terminal, the history, the keys and the
--     handlers, with Chat/Terminal/Screen, the calls of the curses library.
-- A function keeps its source's name in lower case. Wire modules describe the formats without buffers
-- and offsets; the other children of a module prove what they are named for.
--
-- How the code is modelled:
--   A pointer to bytes is the list of the bytes from it to the end of the allocation. `Outcome` is
--   `done` for a result, `fault` for a read or write outside a buffer or through null, and `stuck`
--   where a recursion of the model has no fuel left, which is no outcome of the code. `fill` is a new
--   buffer that consecutive copies fill. 32-bit and 16-bit sizes wrap where the source's do. A host
--   word is little-endian, allocation succeeds, and `new char[0]` is the null pointer.
--   A function that changes its object returns the object after the call.
--   Fuel: Value.Deserialize takes the length of the buffer and one, as each nested array stands five
--   bytes further; the loop of Request.Deserialize takes the size and one, as each datum takes a byte;
--   the loop of ValueStr.ToStringInternal takes the length of the text and one, as each pass passes a
--   line feed.
--   What the kernel answers and what handlers, which are code of the library's user, do to an object
--   are arguments. Each function is one step, as it holds its mutexes, but for Push, Pull
--   and a pass of the loop, which take what other threads do between their steps as an argument. In Locks a function is the mutexes
--   that it takes, in its order, and its steps those of the threads.
--   An event descriptor is its counter, and a timer the time that it was set to.
--
-- Not modelled: freeing, joining threads, closing descriptors, deleting socket files, an aliased value
-- that is set in the request that owns it, what the chat programs write line by line, the question for
-- the server's address, and the programs under tests/.
pub mod Chat
pub mod Client
pub mod Connection
pub mod Datum
pub mod Locks
pub mod Prelude
pub mod Request
pub mod Server
pub mod Tests
pub mod Value
