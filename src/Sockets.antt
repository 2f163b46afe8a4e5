-- ===== src/Sockets.antt =====
-- libs/websocket/src/socket-state: the sockets of the accounts that are connected, and the events of
-- `bindClientConnect` that change them.
pub mod Connected
use astro_api_gateway.Common.{
  Bool, true, false, not, Option, none, some, List, [], ◌∷◌, ◌++◌, String, ◌==◌, filter,
  if◌then◌else◌,
}

-- A socket, with the account that the handshake authenticated.
pub record Socket : Type 0 where
  pub id : String
  pub auth : Option String

-- `Map<string, Socket[]>`, in the order of insertion
abbrev pub SocketState : Type 0
SocketState = List (String × List Socket)

abbrev pub get_entry : String → SocketState → Option (List Socket)
get_entry account_id [] = none
get_entry account_id ((key, sockets) ∷ state) =
    if key == account_id then some sockets else get_entry account_id state

abbrev pub set_entry : String → List Socket → SocketState → SocketState
set_entry account_id new [] = (account_id, new) ∷ []
set_entry account_id new ((key, sockets) ∷ state) =
    if key == account_id
    then (key, new) ∷ state
    else (key, sockets) ∷ set_entry account_id new state

abbrev pub delete_entry : String → SocketState → SocketState
delete_entry account_id [] = []
delete_entry account_id ((key, sockets) ∷ state) =
    if key == account_id then state else (key, sockets) ∷ delete_entry account_id state

abbrev pub or_none : Option (List Socket) → List Socket
or_none none = []
or_none (some sockets) = sockets

unfoldable pub get : String → SocketState → List Socket
get account_id state = or_none (get_entry account_id state)

unfoldable pub get_all : SocketState → List Socket
get_all [] = []
get_all ((key, sockets) ∷ state) = sockets ++ get_all state

unfoldable pub add : String → Socket → SocketState → SocketState
add account_id socket state =
    set_entry account_id (or_none (get_entry account_id state) ++ socket ∷ []) state

abbrev pub others : Socket → List Socket → List Socket
others socket sockets = filter (λ (s : Socket). not (s.id == socket.id)) sockets

abbrev pub store : String → List Socket → SocketState → SocketState
store account_id [] state = delete_entry account_id state
store account_id (s ∷ sockets) state = set_entry account_id (s ∷ sockets) state

unfoldable pub remove : String → Socket → SocketState → SocketState
remove account_id socket state = elim (get_entry account_id state) [
  | none ↦ state
  | some existing ↦ store account_id (others socket existing) state
]

pub data Event : Type 0 where
  connection disconnect : Socket → Event

abbrev pub add_if : Option String → Socket → SocketState → SocketState
add_if none socket state = state
add_if (some account_id) socket state = add account_id socket state

abbrev pub remove_if : Option String → Socket → SocketState → SocketState
remove_if none socket state = state
remove_if (some account_id) socket state = remove account_id socket state

-- The listeners of `bindClientConnect`.
unfoldable pub handle_event : Event → SocketState → SocketState
unfolding add remove
handle_event (connection socket) state = add_if socket.auth socket state
handle_event (disconnect socket) state = remove_if socket.auth socket state

-- A server's life: the first event is the last that happened.
unfoldable pub after_events : List Event → SocketState
unfolding handle_event
after_events [] = []
after_events (event ∷ earlier) = handle_event event (after_events earlier)
