-- ===== src/Lib.antt =====
-- An in-memory file server that speaks FTP and HTTP on one port.
--
-- The program's parts. A server (server/object_storage/src/object_storage.cpp) accepts connections
-- and gives each a session. A session (session.cpp) reads up to an end of line, asks the detector
-- which protocol the line is of, and calls handleFtp (ftp_command_handlers.cpp) or handleHttp
-- (http_method_handlers.cpp). These parse the request, check the user against the user database,
-- call the filesystem that all sessions share, and post the response.
--
-- Which file models which part:
--   MemoryFs, MemoryFs/Spec   filesystem/ifilesystem.hpp, filesystem/memory_fs/src/memory_fs.cpp
--   UserDatabase              user/database/src/user_database.cpp
--   Utils/Split, Case, Base64 utils/src/utils.cpp
--   Protocol/Detector         protocol/detector/src/protocol_detector.cpp
--   Protocol/FtpRequest       protocol/ftp/request/src/ftp_parser.cpp
--   Protocol/FtpResponse      protocol/ftp/response/src/ftp_response.hpp
--   Protocol/HttpRequest      protocol/http/request/src/http_parser.cpp
--   Protocol/HttpResponse     protocol/http/response/src/http_response.cpp
--   Session                   server/object_storage/src/session.hpp and the constructor, sendMessage,
--                             receiveMessage (the start of a read) and configureDataAcceptor
--   Session/Start             Session::start
--   Session/Messages          the task of sendMessage, and sendMessageHandler
--   Session/DataTransfer      the FTP data connections: the completions of async_accept,
--                             enqueueFtpDataHandler, sendFtpDataHandler, receiveFile
--   Session/Transfer          saveFile
--   Session/Events            receiveMessage, and every completion as a step of the session
--   Session/Stream            the bytes of the stream behind these: what a read takes from
--                             input_stream_ and the socket, in receiveMessage, handleHttp and
--                             handleHttpPut
--   Session/Ftp               server/object_storage/src/ftp_command_handlers.cpp
--   Session/Http              server/object_storage/src/http_method_handlers.cpp
--   Server                    server/object_storage/src/object_storage.cpp, with its sessions
--   Application               example_app.cpp
-- A definition has the name of the function, in snake case. A constructor of a parser class is
-- `parse`, a conversion to std::string is `serialize`, and a switch or a loop inside a function is a
-- definition of its own, in front of it. Files named for what they prove (Refinement, Credentials,
-- Tokens, Guards, Access, Exchange and others) hold the lemmas on a part, the Tests files its
-- examples.
--
-- How the state corresponds. A text is a list of bytes. An unordered map is an association list
-- with distinct keys (Common/Dict). Session holds the members of the class that the handlers read
-- or write; users and filesystem are the shared objects as the session finds them. What an
-- asynchronous operation leaves pending is a list in the state: messages that sendMessage has posted
-- (`posted`), writes of messages and of files, reads that receiveMessage has started (`reads`),
-- accepts on the FTP data acceptor with what their handler will do (`accepts`), reads of HTTP bodies
-- (`uploads`) and of FTP uploads (`receptions`), and the tasks posted on the strand of the data
-- connections (`tasks`). What the network layer answers is an argument (Network, Arrival,
-- AcceptorResults).
--
-- The stream. In Session/Events what a read gives is part of the event. Session/Stream puts the bytes
-- in front of that: a Connection is a session with its Input, the buffer (`input_stream_`) and what
-- its socket will still give, and a ConnectionEvent is the end of one of its reads, or an event that
-- is no read. A Reader stands for boost's read_until and read of an exact size together with the way
-- the network cuts the stream. It is a parameter, and its fields state what boost documents:
-- read_until moves bytes from the socket to the buffer, perhaps more than it needs, and what it
-- returns is the end of the first delimiter in the buffer; a read of an exact size gives the first
-- bytes of the socket.
--
-- Concurrency. The handlers of a session run on two strands, and what they share besides has a lock
-- of its own, so a handler is one step. (The file that get returns is a reference that outlives the
-- lock; that another session removes the file while a handler copies it is not modelled.) An Event names the kind of operation that completes and what
-- came of it; the oldest pending one of the kind completes, since they complete in order, but any of
-- the reads of FTP uploads, which are on sockets of their own. A run is any list of events. The
-- server's events are the accepted connections, addUser, stop, and the events of its sessions; after
-- stop no handler runs. Users and files are shared, and a session finds them as the others left them.
--
-- Outcomes (Common/Outcomes). A run ends with a value, throws, is undefined behaviour (an index out
-- of range, an empty optional or view, toupper or tolower of a negative char), or does not end. The
-- reference that get returns on a miss is dead; no handler reads it, and the model has an empty file
-- there.
--
-- Bounds and fuel. split has one unit of fuel more than the text has bytes; each round drops at least
-- one byte when the delimiter is not empty, so the fuel suffices. to_string has one unit more than
-- the number. The Base64 loop keeps uint32_t, `std::size_t` of a negative int wraps at 2^64, and
-- what std::atoi does not fit into an int is undefined.
--
-- Not modelled: what boost::asio does inside (it is the list of events and its answers, or a Reader),
-- what is logged and how (the level of the log is), the printing of example_app.cpp, the address and
-- port of the client that a session keeps for the log, setTcpNoDelay, the destructor of a session,
-- which closes its sockets, and the failures to create a thread or to find the endpoint of a
-- connection, which throw. protocol/iserialize.hpp, ivalidate.hpp and imember_access.hpp are
-- interfaces with one member each, whose implementations are modelled. `char` is signed, and the
-- locale is "C", in which toupper and tolower change ASCII letters.
mod Common
pub mod MemoryFs
pub mod UserDatabase
pub mod Utils
pub mod Protocol
pub mod Session
pub mod Server
pub mod Application
