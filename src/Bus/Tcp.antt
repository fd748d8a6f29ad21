-- ===== src/Bus/Tcp.antt =====
-- lib/buses/tcp_bus/tcp_bus.cpp: the bus over a TCP connection, for the simulators. The client of the
-- Wi-Fi library is an input: whether it is connected, whether it connects, and how much it writes.
use io_t_firmware.Base.{
  ℕ, Bool, true, false, not, Option, List, [], ◌∷◌, ◌++◌, ◌==◌, if◌then◌else◌, length, get_elem?,
  take, drop,
}

-- What is asked of the client, in order: `connect` to the host, port and timeout of the config, and
-- `write` with the bytes that it took.
pub data Event : Type 0 where
  stop : Event
  connect : Event
  no_delay : Event
  write : List ℕ → Event

-- What the client reports in one call of the bus.
pub record Client : Type 0 where
  pub connected : Bool
  pub connects : Bool
  pub written : ℕ

-- The bytes that wait in the client.
pub record TcpBus : Type 0 where
  pub waiting : List ℕ

-- The loop that discards stale bytes.
unfoldable pub discard_loop : List ℕ → List ℕ
discard_loop [] = []
discard_loop (b ∷ bs) = discard_loop bs

-- ensureConnected; stop() drops what waits.
unfoldable pub ensure_connected : Client → TcpBus → List Event × Bool × TcpBus
ensure_connected x t =
    if x.connected
    then ([], true, t)
    else if not x.connects
    then (stop ∷ connect ∷ [], false, record { waiting = [] })
    else (stop ∷ connect ∷ no_delay ∷ [], true, record { waiting = [] })

-- init
unfoldable pub init : Client → TcpBus → List Event × Bool × TcpBus
init x t = ensure_connected x t

-- send
unfoldable pub send : Client → List ℕ → TcpBus → List Event × Bool × TcpBus
send x bytes t =
    let (events, up, t') = ensure_connected x (record { waiting = discard_loop t.waiting }) in
    let sent = take x.written bytes in
    if not up
    then (events, false, t')
    else (events ++ (write sent ∷ []), length sent == length bytes, t')

-- readByte
unfoldable pub read_byte : TcpBus → Option ℕ × TcpBus
read_byte t = (get_elem? t.waiting 0, record { waiting = drop 1 t.waiting })
