-- ===== src/Relay/WebSocket.antt =====
-- The frames of `WebSocketClient` in src/relay/websocket.cpp, and its loop over them. The socket is
-- the list of the bytes that arrive before it ends; the random mask of a frame is an argument, and
-- an `std::uint64_t` keeps its wrap-around. Allocation up to the greatest size does not fail.
pub mod RoundTrip
mod Tests
use Prim.Native.Nat.{bit_xor}
use signalwire_agents_cpp.Prelude.{
  ℕ, zero, suc, ◌+◌, ◌*◌, ◌/◌, ◌%◌, ◌^◌, Option, none, some, Bool, true, false, not, ◌∷◌, [], ◌++◌,
  List, Bytes, codes, if◌then◌else◌, ◌>>=◌, ltb, leb, ◌==◌, ◌&&◌, length, take, drop, get_or,
}

-- `payload[i] ^ mask[i % 4]`, from the position `i` on.
unfoldable pub apply_mask : ℕ → Bytes → Bytes → Bytes
apply_mask i mask [] = []
apply_mask i mask (b ∷ s) = bit_xor b (get_or mask (i % 4) 0) ∷ apply_mask (suc i) mask s

-- The lowest bytes of a number, the highest of them first: `(len >> (8 * i)) & 0xFF`.
unfoldable pub big_endian : ℕ → ℕ → Bytes
big_endian zero len = []
big_endian (suc i) len = len / 256 ^ i % 256 ∷ big_endian i len

-- The second byte with the mask bit set, and the extended length. `0x80 | n` is a sum for n < 128.
abbrev pub length_bytes : ℕ → Bytes
length_bytes len =
    if leb len 125
    then (128 + len) ∷ []
    else if leb len 65535
    then 254 ∷ big_endian 2 len
    else 255 ∷ big_endian 8 len

unfoldable pub encode_frame : Bytes → Bytes → Bytes
unfolding apply_mask big_endian
encode_frame payload mask =
    129 ∷ (length_bytes (length payload) ++ (mask ++ apply_mask 0 mask payload))

-- The answer to a ping, whose length has two bytes at most.
abbrev pub pong_length : ℕ → Bytes
pong_length len = if leb len 125 then (128 + len) ∷ [] else 254 ∷ big_endian 2 len

unfoldable pub pong_frame : Bytes → Bytes → Bytes
unfolding apply_mask big_endian
pong_frame payload mask =
    138 ∷ (pong_length (length payload) ++ (mask ++ apply_mask 0 mask payload))

-- Whether the socket is plain, and the greatest size of a `std::string`, above which `resize` throws.
pub record Connection : Type 0 where
  pub is_plain : Bool
  pub max_size : ℕ

-- `raw_read`: the next bytes and the rest, or none when the connection ends before. SSL_read takes
-- the size that is missing as an `int`: from 2 ^ 31 on, one of its calls gets a size that is not
-- positive, at the latest when the missing size is a multiple of 2 ^ 32, and reads nothing.
unfoldable pub raw_read : Bool → ℕ → Bytes → Option (Bytes × Bytes)
raw_read plain n s =
    if not plain && leb (2 ^ 31) n
    then none
    else if ltb (length s) n
    then none
    else some (take n s, drop n s)

-- `payload_len = (payload_len << 8) | ext[i];`
unfoldable pub from_big_endian : ℕ → Bytes → ℕ
from_big_endian acc [] = acc
from_big_endian acc (b ∷ s) = from_big_endian ((acc * 256 + b) % 2 ^ 64) s

pub extended : Bool → ℕ → Bytes → Option (ℕ × Bytes)
extended plain n s = raw_read plain n s >>= λ (ext, s). some (from_big_endian 0 ext, s)

abbrev pub read_length : Bool → ℕ → Bytes → Option (ℕ × Bytes)
read_length plain len s =
    if len == 126
    then extended plain 2 s
    else if len == 127
    then extended plain 8 s
    else some (len, s)

-- Without a mask the key stays zero and is not used.
abbrev pub read_mask : Bool → Bool → Bytes → Option (Bytes × Bytes)
read_mask plain true s = raw_read plain 4 s
read_mask plain false s = some (0 ∷ 0 ∷ 0 ∷ 0 ∷ [], s)

abbrev pub unmasked : Bool → Bytes → Bytes → Bytes
unmasked true mask s = apply_mask 0 mask s
unmasked false mask s = s

-- The opcode, the payload and what follows; or the read fails; or `resize` throws.
pub data Frame : Type 0 where
  frame : ℕ → Bytes → Bytes → Frame
  failed throws : Frame

abbrev pub finish : ℕ → Bool → Bytes → Option (Bytes × Bytes) → Frame
finish opcode masked mask none = failed
finish opcode masked mask (some (payload, s)) = frame opcode (unmasked masked mask payload) s

abbrev pub read_sized : Connection → ℕ → Bool → ℕ → Option (Bytes × Bytes) → Frame
read_sized conn opcode masked len none = failed
read_sized conn opcode masked len (some (mask, s)) =
    if leb len conn.max_size
    then finish opcode masked mask (raw_read conn.is_plain len s)
    else throws

-- The mask and the payload, behind the length.
unfoldable pub read_payload : Connection → ℕ → Bool → ℕ → Bytes → Frame
unfolding raw_read apply_mask
read_payload conn opcode masked len s =
    read_sized conn opcode masked len (read_mask conn.is_plain masked s)

abbrev pub read_rest : Connection → ℕ → ℕ → Option (ℕ × Bytes) → Frame
read_rest conn h0 h1 none = failed
read_rest conn h0 h1 (some (len, s)) = read_payload conn (h0 % 16) (leb 128 h1) len s

unfoldable pub read_frame : Connection → Bytes → Frame
read_frame conn [] = failed
read_frame conn (h0 ∷ []) = failed
read_frame conn (h0 ∷ h1 ∷ s) = read_rest conn h0 h1 (read_length conn.is_plain (h1 % 128) s)

-- What the loop does: it hands a message on, closes with a code and a reason, sends a pong, or is
-- left by an exception.
pub data Event : Type 0 where
  message : Bytes → Event
  closed : ℕ → Bytes → Event
  pong : Bytes → Event
  terminates : Event

-- A close frame without a code stands for 1000.
abbrev pub close_event : Bytes → Event
close_event [] = closed 1000 []
close_event (a ∷ []) = closed 1000 []
close_event (a ∷ b ∷ reason) = closed (a * 256 + b) reason

-- The loop on the bytes that arrive. Each frame has two bytes or more, so the number of bytes is
-- fuel enough. A frame with another opcode is passed over. A connection that is not being closed
-- ends with 1006.
unfoldable pub read_loop : Connection → ℕ → Bytes → List Event
unfolding read_frame
read_loop conn zero s = []
read_loop conn (suc fuel) s = elim (read_frame conn s) [
  | failed ↦ closed 1006 (codes "Connection lost") ∷ []
  | throws ↦ terminates ∷ []
  | frame opcode payload rest ↦
      let later = read_loop conn fuel rest in
      if opcode == 1
      then message payload ∷ later
      else if opcode == 8
      then close_event payload ∷ []
      else if opcode == 9
      then pong payload ∷ later
      else later
]

unfoldable pub receive : Connection → Bytes → List Event
unfolding read_loop
receive conn s = read_loop conn (suc (length s)) s
