-- ===== src/Bus/Module/Buses.antt =====
-- lib/buses: the RS485 transceiver, the TCP bus and the HTTP bus behind the interface. What comes in
-- behind a send over a line or a connection is part of what the call meets.
use io_t_firmware.Base.{
  ℕ, zero, suc, ◌+◌, ◌≤◌, ◌≡◌, refl, sym, ◌∙◌, inl, inr, ◌&&◌, Option, none, some, List, [], ◌∷◌,
  ◌++◌, map, arith, ltb, ◌==◌, if◌then◌else◌, Bool-cases, length, get_elem?, get_or, drop, u8,
}
use io_t_firmware.Config.{HttpBusConfig}
use io_t_firmware.Bus.Module.{Module, Forgets, IsQueue, IsQueue-Forgets}
use io_t_firmware.Bus.Transceiver
use io_t_firmware.Bus.Transceiver.{Transceiver, drain_loop}
use io_t_firmware.Bus.Tcp
use io_t_firmware.Bus.Tcp.{TcpBus, Client, discard_loop}
use io_t_firmware.Bus.Http
use io_t_firmware.Bus.Http.{HttpBus, Web, request_for, http_code_ok}

-- The transceiver, whose UART takes so many bytes, and the bytes that come in behind the drain.
abbrev pub sp3485_module : Module
sp3485_module = record {
  Air = ℕ × List ℕ;
  State = Transceiver;
  send = λ x bytes t.
      let (es, ok, t') = Transceiver.send x.0 bytes t in
      (ok, record t' { waiting = t'.waiting ++ x.1 });
  read_byte = λ t. let (es, b, t') = Transceiver.read_byte t in (b, t');
}

-- The connection, and the bytes that come in over it behind the loop that discards.
abbrev pub tcp_module : Module
tcp_module = record {
  Air = Client × List ℕ;
  State = TcpBus;
  send = λ x bytes t.
      let (es, ok, t') = Tcp.send x.0 bytes t in (ok, record { waiting = t'.waiting ++ x.1 });
  read_byte = λ t. Tcp.read_byte t;
}

-- The bytes of the document, if the request was made and answered.
abbrev answered : HttpBusConfig → Web → List ℕ → List ℕ
answered c w bytes =
    let (status, body) = w.get (request_for c bytes) in
    if w.ap_up && w.has_stations && status == http_code_ok then map u8 body else []

abbrev pub http_module : HttpBusConfig → Module
http_module c = record {
  Air = Web;
  State = HttpBus;
  send = λ w bytes b. let (rs, ok, b') = Http.send c w bytes b in (ok, b');
  read_byte = λ b. Http.read_byte b;
}

drain_loop-empty : (bs : List ℕ) → drain_loop bs ≡ []
unfolding drain_loop
drain_loop-empty [] = refl
drain_loop-empty (b ∷ bs) = drain_loop-empty bs

discard_loop-empty : (bs : List ℕ) → discard_loop bs ≡ []
unfolding discard_loop
discard_loop-empty [] = refl
discard_loop-empty (b ∷ bs) = discard_loop-empty bs

first_of :
    (ws : List ℕ) → elim ws as (λ x. Option ℕ) [ [] ↦ none | b ∷ bs ↦ some b ] ≡ get_elem? ws 0
first_of [] = refl
first_of (b ∷ bs) = refl

tcp_send-empty : (x : Client) (bytes : List ℕ) (t : TcpBus) → (Tcp.send x bytes t).2.waiting ≡ []
unfolding Tcp.send Tcp.ensure_connected
tcp_send-empty x bytes t = ground (arith, discard_loop-empty t.waiting)

-- The next byte of a document, and the rest.
drop_first :
    (r : List ℕ) (n : ℕ)
    → get_elem? (drop n (map u8 r)) 0
      ≡ (if ltb n (length r) then some (u8 (get_or r n 0)) else none)
drop_first [] zero = refl
drop_first [] (suc n) = ground arith
drop_first (b ∷ bs) zero = ground arith
drop_first (b ∷ bs) (suc n) = ground (arith, drop_first bs n)

drop_next : (r : List ℕ) (n : ℕ) → drop 1 (drop n r) ≡ drop (n + 1) r
drop_next [] zero = refl
drop_next [] (suc n) = ground arith
drop_next (b ∷ bs) zero = refl
drop_next (b ∷ bs) (suc n) = ground (arith, drop_next bs n)

drop_end : (r : List ℕ) (n : ℕ) → length r ≤ n → drop n (map u8 r) ≡ []
drop_end [] zero l = refl
drop_end [] (suc n) l = refl
drop_end (b ∷ bs) zero l = absurd (omega arith)
drop_end (b ∷ bs) (suc n) l = drop_end bs n (omega arith)

sp3485-IsQueue : IsQueue sp3485_module (λ t. t.waiting)
unfolding Transceiver.send Transceiver.read_byte
sp3485-IsQueue = record {
  waiting-send = λ x bytes s t. rw (drain_loop-empty s.waiting, drain_loop-empty t.waiting) refl;
  read_first = λ t. first_of t.waiting;
  waiting-read_byte = λ t. refl;
}

tcp-IsQueue : IsQueue tcp_module (λ t. t.waiting)
unfolding Tcp.read_byte
tcp-IsQueue = record {
  waiting-send = λ x bytes s t. rw (tcp_send-empty x.0 bytes s, tcp_send-empty x.0 bytes t) refl;
  read_first = λ t. refl;
  waiting-read_byte = λ t. refl;
}

http_send-waiting :
    (c : HttpBusConfig) (w : Web) (bytes : List ℕ) (b : HttpBus)
    → let b' = (Http.send c w bytes b).2 in
      drop b'.read_index (map u8 b'.response) ≡ answered c w bytes
unfolding Http.send
http_send-waiting c w bytes b = ground arith

http_read_first :
    (b : HttpBus) → (Http.read_byte b).0 ≡ get_elem? (drop b.read_index (map u8 b.response)) 0
unfolding Http.read_byte
http_read_first b = ground (arith, drop_first b.response b.read_index)

http_read_rest :
    (b : HttpBus)
    → let b' = (Http.read_byte b).1 in
      drop b'.read_index (map u8 b'.response) ≡ drop 1 (drop b.read_index (map u8 b.response))
unfolding Http.read_byte
http_read_rest b = elim (Bool-cases (ltb b.read_index (length b.response))) [
  | inl more ↦ rw (more, Http.read_byte) (sym (drop_next (map u8 b.response) b.read_index))
  | inr over ↦ rw (over, Http.read_byte, drop_end b.response b.read_index (ground arith)) refl
]

http-IsQueue :
    (c : HttpBusConfig) → IsQueue (http_module c) (λ b. drop b.read_index (map u8 b.response))
http-IsQueue c = record {
  waiting-send = λ w bytes s t. http_send-waiting c w bytes s ∙ sym (http_send-waiting c w bytes t);
  read_first = λ b. http_read_first b;
  waiting-read_byte = λ b. http_read_rest b;
}

-- For the RS485 transceiver, the TCP bus and the HTTP bus alike, whatever waited to be read when send()
-- was called makes no difference to what is read behind it, also where the send fails. Over RS485 and
-- TCP, a late byte that comes in behind the discard is read; the theorem says nothing of it.
pub buses_forget :
    (c : HttpBusConfig) → Forgets sp3485_module × Forgets tcp_module × Forgets (http_module c)
buses_forget c = (
  IsQueue-Forgets sp3485_module (λ t. t.waiting) sp3485-IsQueue,
  IsQueue-Forgets tcp_module (λ t. t.waiting) tcp-IsQueue,
  IsQueue-Forgets (http_module c) (λ b. drop b.read_index (map u8 b.response)) (http-IsQueue c),
)
