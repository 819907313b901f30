-- ===== src/Lib.antt =====
-- The servers of J1: the auction path of the game server and of the auction server, and the core
-- that all the servers share; besides, the login server, the lobby and the room of the chat server.
--
-- Clients talk to GameServer over the framed protobuf messages of ServerCore. GameServer answers the
-- auction list from a cache and forwards the other auction requests to AuctionServer, which queues
-- them for its database workers and answers over the same connection. A client first signs in at
-- LoginServer, which stores a token in the account database, and shows the token to GameServer.
--
--   Packet          ServerCore/Packet.h: `PacketHeader`, `RequiredSize`, `Serialize`, `ParseHeader`
--                   and `Parse`, and the `SendPacket` of the session classes. A buffer is its list
--                   of bytes, and a `short` is an integer that is wrapped to 16 bits on the wire.
--   Session         ServerCore/Session.h and Session.cpp, and `Close` of GameServer/GameSession.cpp.
--                   A handler that runs on the strand is a function from the session to the new
--                   session and the list of the operations that it starts; the completion of an
--                   operation is a call of its handler. Session/Sending is the send queue against
--                   the outstanding writes, Session/Framing the read cycle over a byte stream,
--                   Session/Closing the closing and the overflow of the queue, and Session/Transport
--                   the way from `SendPacket` (LoginServer/LoginSession.cpp) to the other end.
--   Cache           GameServer/Utils/AuctionCache.h and AuctionCache.cpp. Readings of the clock are
--                   arguments, in nanoseconds. Cache/Contents is the snapshot, Cache/Verdicts the
--                   purchase precheck, Cache/Liveness the refresh cycle with its two timers.
--   SessionManager  GameServer/Utils/GameSessionManager.h and GameSessionManager.cpp, sessions by id.
--   GameServer      GameServer/GameServer.cpp: the accept loop with the sessions that it registers
--                   and starts. GameServer/Effects is what their handlers do to the registry, GameServer/Agreement
--                   and GameServer/Registry compare the registry with the sessions, and
--                   GameServer/Lifetime goes over any number of events.
--   AuctionServer   AuctionServer/AuctionServer.cpp: `main` with the workers, and the accept loop
--                   (AuctionServer/Accepts). AuctionServer/Connections says what the connection pool
--                   does, AuctionServer/Holding who holds which connection, AuctionServer/Shutdown
--                   goes from the start to the end.
--   Sql             the database connection, as a parameter; Sql/Transactions says what is relied on.
--                   Sql/Connector is how ServerCore/SqlUtils.h binds and executes statements, Sql/Texts
--                   their texts and arguments in all the servers, which Sql/Matching and Sql/Binding
--                   compare with the parameters that are set.
--   AuctionService  AuctionServer/AuctionService.h and AuctionService.cpp, what a worker does with a
--                   request. AuctionService/Transaction and AuctionService/Atomic take a
--                   purchase as a transaction, AuctionService/Returns says what has happened where
--                   a chain of calls returned, AuctionService/Settled that nothing is left pending,
--                   AuctionService/Attempts counts its attempts.
--   Market          the tables that AuctionService works on, with what its statements do to them, and
--                   a purchase as one step on them: Market/Store says what a connection to these
--                   tables does, Market/Sale and Market/Decided compare the two, Market/Stock and
--                   Market/Gold are about the listings and the gold, Market/Purses about what a purchase
--                   takes from each character, Market/History about many
--                   purchases, Market/Listed and Market/Precheck about the cache in front of it.
--   WorkerPool      AuctionServer/AuctionWorkerPool.h and AuctionWorkerPool.cpp: the queues of the
--                   workers (WorkerPool/Order), starting and stopping (WorkerPool/Lifetime).
--   Handlers        the messages of the auction path. Handlers/Game is
--                   GameServer/Network/Handlers/AuctionPacketHandler.cpp and
--                   AuctionServerPacketHandler.cpp, Handlers/Auction is
--                   AuctionServer/Network/Handlers/AuctionPacketHandler.cpp and the `Process`
--                   functions, Handlers/Routing the way of a request there and back, and
--                   Handlers/Purchases the one of a purchase.
--   Dispatch        the handler tables: Dispatch/Clients has those of the game, chat and login servers
--                   (GameServer/Network/Handlers/GamePacketHandler.h and its like), and Dispatch/Routes
--                   follows a request through them. Dispatch/Requests is the one of the auction server
--                   (AuctionServer/Network/Handlers/AuctionPacketHandler.h), Dispatch/Responses the
--                   one for its answers (GameServer/Network/Handlers/AuctionServerPacketHandler.h), and
--                   Dispatch/Stream takes requests from the send queue to the queues of the workers.
--   AuctionLink     GameServer/AuctionSession.h and AuctionSession.cpp, the connection between them.
--   Chat            ChatServer/ChatRoom.cpp and ChatServer/Network/Handlers/ChatPacketHandler.cpp: the
--                   room of the chat server. The order of `_members` is that of entering here.
--   Lobby           the handlers of GameServer/Network/Handlers/LobbyPacketHandler.cpp that create and
--                   delete characters (Lobby/Atomic, Lobby/Characters). Lobby/Queries are those that
--                   ask for a token, a list and a nickname; Lobby/Room is GameServer/GameRoom.cpp with
--                   the handlers that enter and leave it.
--   Login           LoginServer/SignManager.cpp, the handlers of
--                   LoginServer/Network/Handlers/LoginPacketHandler.cpp, and the passwords and tokens of
--                   ServerCore/SqlUtils.h (Login/Tokens, Login/Hex). Login/Accounts says what the
--                   account database does; Login/SignIn is about a sign in, Login/TokenLoop about its
--                   loop, and Login/SignUp goes from a new user to the token at the game server.
--   Prelude         shared helpers: lists, the integers and machine words, association lists.
--
-- Parameters: protobuf (`Protobuf`, `Client`), the database connection (`Connector` with the laws
-- `Prepares`, and `Connection` with the laws `IsTransactional`, `IsStore` and `IsAccountStore`), the
-- connection pool (`Pool` with the laws `Lends`), bcrypt (`Bcrypt`) and the random device are not part
-- of the repository's code.
--
-- Fuel and bounds: the loop of `Purchase` runs on fuel 3, the number of its attempts. Rounds of the
-- read cycle are counted by the number of messages, since every round consumes a header. Counters
-- of 64 bits wrap, and the theorems on ids say how many registrations they allow. The loop of a sign
-- in over its tokens has no bound; its fuel is an argument, and running out of it is a result.
--
-- Not modelled: threads and sockets (handlers are steps, asio is the order of the steps), logging,
-- generated protobuf code, the second thread of GameServer/GameServer.cpp, the `main` of the login
-- and the chat server, and the copy of the Active911 connection pool.
pub mod Prelude
pub mod Packet
pub mod Session
pub mod Cache
pub mod SessionManager
pub mod Sql
pub mod AuctionService
pub mod WorkerPool
pub mod Handlers
pub mod Dispatch
pub mod Chat
pub mod AuctionLink
pub mod GameServer
pub mod AuctionServer
pub mod Lobby
pub mod Login
pub mod Market
