-- ===== src/AuctionLink.antt =====
-- GameServer/AuctionSession.h and AuctionSession.cpp: the game server's connection to the auction
-- server. It is a session of ServerCore/Session.cpp with a flag `_connected`; when it connects, the
-- cache of GameServer/Utils/AuctionCache.cpp asks for its first refresh.
pub mod Disconnects
mod Tests
use j1_server.Prelude.{ℕ, Bool, true, false, List, [], ◌∷◌, ◌++◌, if◌then◌else◌}
use j1_server.Session.{Session, ErrorCode, success, failure, new_session, async_header_read}
use j1_server.Session as Core
use j1_server.Cache.{Cache, request_refresh}
use j1_server.Cache as Cached

pub record AuctionLink : Type 0 where
  pub session : Session
  pub connected : Bool
  pub cache : Cache

pub data Effect : Type 0 where
  async_connect : Effect
  shutdown_socket : Effect
  close_socket : Effect
  of_session : Core.Effect → Effect
  of_cache : Cached.Effect → Effect

abbrev pub Handled : Type 0
Handled = AuctionLink × List Effect

abbrev pub session_effects : List Core.Effect → List Effect
session_effects [] = []
session_effects (e ∷ es) = of_session e ∷ session_effects es

abbrev pub cache_effects : List Cached.Effect → List Effect
cache_effects [] = []
cache_effects (e ∷ es) = of_cache e ∷ cache_effects es

-- The constructor; the cache is the one of the game server.
unfoldable pub new_link : Cache → AuctionLink
new_link cache = record { session = new_session; connected = false; cache = cache }

-- `Connect`
unfoldable pub connect : AuctionLink → Handled
connect l = (l, async_connect ∷ [])

-- `Disconnect`: nothing unless the flag was set.
unfoldable pub disconnect : AuctionLink → Handled
disconnect l =
    if l.connected
    then (record l { connected = false }, shutdown_socket ∷ close_socket ∷ [])
    else (record l { connected = false }, [])

-- `OnConnect`, with the readings of the clock of `RequestRefresh`; `GAuctionSession` is this session.
unfoldable pub on_connect : ErrorCode → ℕ → ℕ → AuctionLink → Handled
on_connect failure now timeout_now l = (l, [])
on_connect success now timeout_now l =
    let (cache', asked) = request_refresh true now timeout_now l.cache in
    let (session', reading) = async_header_read l.session in
    (
      record l { session = session'; cache = cache' },
      cache_effects asked ++ session_effects reading,
    )
