-- ===== src/Relay/WebSocket/Tests.antt =====
-- Frames at concrete payloads.
use signalwire_agents_cpp.Prelude.{false, ◌-◌, ◌^◌, ◌≡◌, refl, ◌∷◌, [], ◌++◌, Bytes, codes, arith}
use signalwire_agents_cpp.Relay.WebSocket.{
  encode_frame, read_frame, receive, message, closed, pong, raw_read, from_big_endian, apply_mask,
  read_payload, extended, Connection, frame,
}
use signalwire_agents_cpp.Relay.WebSocket.RoundTrip.{
  read_frame-encode_frame, receive-stream, stream, delivered,
}

abbrev mask : Bytes
mask = 17 ∷ 34 ∷ 51 ∷ 68 ∷ []

-- A TLS connection on a machine of 64 bits.
abbrev tls : Connection
tls = record { is_plain = false; max_size = 2 ^ 63 - 1 }

-- A server's frames have no mask: a text, a ping, a pong, and a close with code 1000.
from_server :
    receive tls (
      129 ∷ 2 ∷ b'h' ∷ b'i' ∷ 137 ∷ 1 ∷ b'x' ∷ 138 ∷ 0 ∷ 136 ∷ 4 ∷ 3 ∷ 232 ∷ b'o' ∷ b'k' ∷ 129 ∷ [])
    ≡ message (codes "hi") ∷ pong (codes "x") ∷ closed 1000 (codes "ok") ∷ []
unfolding receive read_frame raw_read from_big_endian apply_mask read_payload extended
from_server = refl

read_frame-encode_frame_example :
    read_frame tls (encode_frame (codes "ping") mask ++ 129 ∷ [])
    ≡ frame 1 (codes "ping") (129 ∷ [])
read_frame-encode_frame_example =
    read_frame-encode_frame tls (codes "ping") mask (129 ∷ []) refl (omega arith)
      (omega arith, refl)

receive-stream_example :
    receive tls (stream ((codes "one", mask) ∷ (codes "two", mask) ∷ []))
    ≡ delivered ((codes "one", mask) ∷ (codes "two", mask) ∷ [])
receive-stream_example =
    receive-stream tls ((codes "one", mask) ∷ (codes "two", mask) ∷ [])
      ((refl, omega arith, (omega arith, refl)), ((refl, omega arith, (omega arith, refl)), tt))
