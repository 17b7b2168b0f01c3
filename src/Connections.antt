-- ===== src/Connections.antt =====
-- packages/core/src/ocpp/connectionManager.ts: the socket of each connected station.
pub mod Laws
use pvpentech_core.Common.{
  ℕ, String, Bool, true, false, not, List, [], ◌∷◌, Option, none, some, ◌==◌, length, lookup,
  insert, remove, if◌then◌else◌,
}

-- A socket is known by its number.
abbrev pub Connections : Type 0
Connections = List (String × ℕ)

pub data ReadyState : Type 0 where
  connecting open_state closing closed : ReadyState

-- What is asked of the WebSocket library.
pub data SocketCall : Type 0 where
  close_replaced : ℕ → SocketCall
  terminate : ℕ → SocketCall
  terminate_later : ℕ → SocketCall

unfoldable pub get : String → Connections → Option ℕ
get station m = lookup station m

-- The calls on a socket that the new one replaces: a close, whose error is ignored, and the
-- timer of one second.
abbrev replace_calls : Option ℕ → ℕ → List SocketCall
replace_calls none ws = []
replace_calls (some existing) ws =
    if existing == ws then [] else close_replaced existing ∷ terminate_later existing ∷ []

unfoldable pub register : String → ℕ → Connections → Connections × List SocketCall
unfolding get
register station ws m = (insert station ws m, replace_calls (get station m) ws)

-- The timer of `register`, when it goes off.
unfoldable pub terminate_stale : ℕ → ReadyState → List SocketCall
terminate_stale ws closed = []
terminate_stale ws _ = terminate ws ∷ []

unfoldable pub unregister : String → Connections → Connections
unregister station m = remove station m

abbrev pub is_open : ReadyState → Bool
is_open open_state = true
is_open _ = false

abbrev pub open_socket : (ℕ → ReadyState) → Option ℕ → Bool
open_socket ready none = false
open_socket ready (some ws) = is_open (ready ws)

unfoldable pub is_connected : (ℕ → ReadyState) → String → Connections → Bool
unfolding get
is_connected ready station m = open_socket ready (get station m)

-- The stations of `among` that are connected, in the map's order.
unfoldable pub connected_among : (ℕ → ReadyState) → Connections → Connections → List String
unfolding is_connected
connected_among ready m [] = []
connected_among ready m ((station, ws) ∷ among) =
    let rest = connected_among ready m among in
    if is_connected ready station m then station ∷ rest else rest

unfoldable pub get_connected_station_ids : (ℕ → ReadyState) → Connections → List String
unfolding connected_among
get_connected_station_ids ready m = connected_among ready m m

unfoldable pub get_connection_count : (ℕ → ReadyState) → Connections → ℕ
unfolding get_connected_station_ids
get_connection_count ready m = length (get_connected_station_ids ready m)

-- gateway.impl.ts, `forceDisconnect`.
abbrev disconnect_calls : Option ℕ → List SocketCall
disconnect_calls none = []
disconnect_calls (some ws) = terminate ws ∷ []

unfoldable pub force_disconnect : String → Connections → Connections × List SocketCall
unfolding get unregister
force_disconnect station m = elim (get station m) [
  | none ↦ (m, [])
  | some ws ↦ (unregister station m, disconnect_calls (some ws))
]
