-- ===== src/Sockets/Connected.antt =====
-- Which sockets an account has.
use astro_api_gateway.Common.{
  ◌≡◌, refl, ap, inl, inr, Bool, true, false, ◌||◌, Option, none, some, List, [], ◌∷◌, ◌++◌, String,
  ◌==◌, eq_iff, if◌then◌else◌, Bool-cases, Option-cases, arith,
}
use astro_api_gateway.Sockets.{
  Socket, SocketState, get_entry, set_entry, delete_entry, or_none, get, add, others, store, remove,
  add_if, remove_if, Event, connection, disconnect, handle_event, after_events,
}

abbrev has_entry : String → SocketState → Bool
has_entry a [] = false
has_entry a ((key, sockets) ∷ state) = key == a || has_entry a state

-- No account has two entries, and none has an entry without sockets.
abbrev pub IsTidy : SocketState → Type 0
IsTidy [] = Unit
IsTidy ((key, []) ∷ state) = ⊥
IsTidy ((key, s ∷ sockets) ∷ state) = (has_entry key state ≡ false) × IsTidy state

get_entry-set_entry :
    (a b : String) (new : List Socket) (state : SocketState)
    → get_entry b (set_entry a new state) ≡ (if a == b then some new else get_entry b state)
get_entry-set_entry a b new [] = refl
get_entry-set_entry a b new ((key, sockets) ∷ state) =
    ground (arith, get_entry-set_entry a b new state, eq_iff key a, eq_iff key b, eq_iff a b)

has_entry-set_entry :
    (a k : String) (new : List Socket) (state : SocketState)
    → has_entry k (set_entry a new state) ≡ (a == k || has_entry k state)
has_entry-set_entry a k new [] = ground arith
has_entry-set_entry a k new ((key, sockets) ∷ state) =
    ground (arith, has_entry-set_entry a k new state, eq_iff key a, eq_iff key k, eq_iff a k)

has_entry-delete_entry :
    (a k : String) (state : SocketState)
    → has_entry k state ≡ false
    → has_entry k (delete_entry a state) ≡ false
has_entry-delete_entry a k [] h = refl
has_entry-delete_entry a k ((key, sockets) ∷ state) h =
    ground (arith, has_entry-delete_entry a k state)

get_entry-none :
    (a : String) (state : SocketState) → has_entry a state ≡ false → get_entry a state ≡ none
get_entry-none a [] h = refl
get_entry-none a ((key, sockets) ∷ state) h = ground (arith, get_entry-none a state)

set_entry-IsTidy :
    (a : String) (s : Socket) (new : List Socket) (state : SocketState)
    → IsTidy state
    → IsTidy (set_entry a (s ∷ new) state)
set_entry-IsTidy a s new [] h = (refl, tt)
set_entry-IsTidy a s new ((key, []) ∷ state) h = elim h [ ]
set_entry-IsTidy a s new ((key, t ∷ sockets) ∷ state) (alone, tidy) = elim (Bool-cases (key == a)) [
  | inl same ↦ rw (same) (alone, tidy)
  | inr other ↦ rw (other) (
    ground (arith, has_entry-set_entry a key (s ∷ new) state, eq_iff a key, eq_iff key a),
    set_entry-IsTidy a s new state tidy,
  )
]

delete_entry-IsTidy :
    (a : String) (state : SocketState) → IsTidy state → IsTidy (delete_entry a state)
delete_entry-IsTidy a [] h = tt
delete_entry-IsTidy a ((key, []) ∷ state) h = elim h [ ]
delete_entry-IsTidy a ((key, t ∷ sockets) ∷ state) (alone, tidy) = elim (Bool-cases (key == a)) [
  | inl same ↦ rw (same) tidy
  | inr other ↦
      rw (other) (has_entry-delete_entry a key state alone, delete_entry-IsTidy a state tidy)
]

get_entry-delete_entry :
    (a b : String) (state : SocketState)
    → IsTidy state
    → get_entry b (delete_entry a state) ≡ (if a == b then none else get_entry b state)
get_entry-delete_entry a b [] h = ground arith
get_entry-delete_entry a b ((key, []) ∷ state) h = elim h [ ]
get_entry-delete_entry a b ((key, t ∷ sockets) ∷ state) (alone, tidy) = ground (
  arith,
  get_entry-delete_entry a b state tidy,
  get_entry-none key state alone,
  get_entry-none b state,
  eq_iff key a,
  eq_iff key b,
  eq_iff a b,
)

-- A state where `remove` stored what was left.
store_lem :
    (a b : String) (left : List Socket) (state : SocketState)
    → IsTidy state
    → IsTidy (store a left state)
      × (or_none (get_entry b (store a left state))
          ≡ (if a == b then left else or_none (get_entry b state)))
store_lem a b [] state h =
    (delete_entry-IsTidy a state h, ground (arith, get_entry-delete_entry a b state h))
store_lem a b (s ∷ left) state h =
    (set_entry-IsTidy a s left state h, ground (arith, get_entry-set_entry a b (s ∷ left) state))

remove_lem :
    (a b : String) (socket : Socket) (state : SocketState)
    → IsTidy state
    → IsTidy (remove a socket state)
      × (get b (remove a socket state)
          ≡ (if a == b then others socket (get b state) else get b state))
unfolding remove get
remove_lem a b socket state h = elim (Option-cases (get_entry a state)) [
  | inl missing ↦
      let e : remove a socket state ≡ state = ground arith in rw (e) (h, ground (arith, eq_iff a b))
  | inr (existing, found) ↦
      let (tidy, stored) = store_lem a b (others socket existing) state h in
      let e : remove a socket state ≡ store a (others socket existing) state = ground arith in
      let same : a == b ≡ true → get_entry a state ≡ get_entry b state =
        λ h. ap (λ k. get_entry k state) ((eq_iff a b).0 h) in
      rw (e) (tidy, ground arith)
]

append-IsTidy :
    (a : String) (sockets : List Socket) (socket : Socket) (state : SocketState)
    → IsTidy state
    → IsTidy (set_entry a (sockets ++ socket ∷ []) state)
append-IsTidy a [] socket state h = set_entry-IsTidy a socket [] state h
append-IsTidy a (s ∷ sockets) socket state h = set_entry-IsTidy a s (sockets ++ socket ∷ []) state h

add_lem :
    (a b : String) (socket : Socket) (state : SocketState)
    → IsTidy state
    → IsTidy (add a socket state)
      × (get b (add a socket state) ≡ (if a == b then get b state ++ socket ∷ [] else get b state))
unfolding add get
add_lem a b socket state h =
    let same : a == b ≡ true → get_entry a state ≡ get_entry b state =
      λ h. ap (λ k. get_entry k state) ((eq_iff a b).0 h) in
    (
      append-IsTidy a (or_none (get_entry a state)) socket state h,
      ground (arith, get_entry-set_entry a b (or_none (get_entry a state) ++ socket ∷ []) state),
    )

-- The account that the handshake authenticated.
abbrev is_auth : String → Option String → Bool
is_auth a none = false
is_auth a (some b) = b == a

abbrev is_of : String → Socket → Bool
is_of a socket = is_auth a socket.auth

-- The sockets of an account: a connection adds its socket at the end, a disconnection takes out those
-- with its id.
abbrev pub connected : String → List Event → List Socket
connected a [] = []
connected a (connection socket ∷ earlier) =
    if is_of a socket then connected a earlier ++ socket ∷ [] else connected a earlier
connected a (disconnect socket ∷ earlier) =
    if is_of a socket then others socket (connected a earlier) else connected a earlier

add_if_lem :
    (a : String) (auth : Option String) (socket : Socket) (state : SocketState)
    → IsTidy state
    → IsTidy (add_if auth socket state)
      × (get a (add_if auth socket state)
          ≡ (if is_auth a auth then get a state ++ socket ∷ [] else get a state))
add_if_lem a none socket state h = (h, refl)
add_if_lem a (some b) socket state h = add_lem b a socket state h

remove_if_lem :
    (a : String) (auth : Option String) (socket : Socket) (state : SocketState)
    → IsTidy state
    → IsTidy (remove_if auth socket state)
      × (get a (remove_if auth socket state)
          ≡ (if is_auth a auth then others socket (get a state) else get a state))
remove_if_lem a none socket state h = (h, refl)
remove_if_lem a (some b) socket state h = remove_lem b a socket state h

event_lem :
    (a : String) (event : Event) (earlier : List Event)
    → IsTidy (after_events earlier)
    → get a (after_events earlier) ≡ connected a earlier
    → IsTidy (after_events (event ∷ earlier))
      × (get a (after_events (event ∷ earlier)) ≡ connected a (event ∷ earlier))
unfolding after_events handle_event
event_lem a (connection socket) earlier tidy same =
    let (next, found) = add_if_lem a socket.auth socket (after_events earlier) tidy in
    (next, rw (← same) found)
event_lem a (disconnect socket) earlier tidy same =
    let (next, found) = remove_if_lem a socket.auth socket (after_events earlier) tidy in
    (next, rw (← same) found)

-- After any connections and disconnections, in any order, the service has for each account the
-- sockets that its events leave connected, in the order of their connection, and keeps one entry
-- for an account, none without sockets.
pub get-after_events :
    (events : List Event)
    → IsTidy (after_events events)
      × ((a : String) → get a (after_events events) ≡ connected a events)
unfolding after_events get
get-after_events [] = (tt, λ a. refl)
get-after_events (event ∷ earlier) =
    let (tidy, same) = get-after_events earlier in
    (
      (event_lem "" event earlier tidy (same "")).0,
      λ a. (event_lem a event earlier tidy (same a)).1,
    )
