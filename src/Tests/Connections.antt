-- ===== src/Tests/Connections.antt =====
-- The sockets of two accounts.
use astro_api_gateway.Common.{◌≡◌, refl, some, [], ◌∷◌, List, String}
use astro_api_gateway.Sockets.{Socket, Event, connection, disconnect, get, after_events}
use astro_api_gateway.Sockets.Connected.{connected, IsTidy, get-after_events}

abbrev socket : String → Socket
socket id = record { id = id; auth = some "alice.near" }

-- Two sockets connect, and then the first one leaves.
abbrev events : List Event
events = disconnect (socket "s1") ∷ connection (socket "s2") ∷ connection (socket "s1") ∷ []

get-after_events_example :
    IsTidy (after_events events) × ((a : String) → get a (after_events events) ≡ connected a events)
get-after_events_example = get-after_events events

alice_has_one : get "alice.near" (after_events events) ≡ socket "s2" ∷ []
unfolding get after_events
alice_has_one = refl
