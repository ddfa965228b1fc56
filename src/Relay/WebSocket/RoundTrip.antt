-- ===== src/Relay/WebSocket/RoundTrip.antt =====
-- A frame that is written is read back, and a sequence of them is received in order.
use signalwire_agents_cpp.Prelude.{
  ℕ, zero, suc, ◌+◌, ◌%◌, ◌^◌, ◌≤◌, ◌<◌, Option, some, Bool, true, false, not, ◌&&◌, ◌||◌, ltb, ◌≡◌,
  refl, ap, ap₂, ◌∙◌, ◌∷◌, [], ◌++◌, List, Bytes, codes, ◌>>=◌, leb, ◌==◌, length, get_or, arith,
  append_assoc, take-append, drop-append, length-append, Bool-cases, inl, inr,
}
use signalwire_agents_cpp.Prelude.Xor.{bit_xor-bit_xor}
use signalwire_agents_cpp.Relay.WebSocket.{
  apply_mask, big_endian, length_bytes, encode_frame, pong_length, pong_frame, raw_read, extended,
  read_payload, from_big_endian, Connection, frame, finish, read_sized, read_frame, Event, message,
  closed, read_loop, receive,
}

apply_mask-apply_mask : (i : ℕ) (mask s : Bytes) → apply_mask i mask (apply_mask i mask s) ≡ s
unfolding apply_mask
apply_mask-apply_mask i mask [] = refl
apply_mask-apply_mask i mask (b ∷ s) =
    ap₂ ◌∷◌ (bit_xor-bit_xor b (get_or mask (i % 4) 0)) (apply_mask-apply_mask (suc i) mask s)

length-apply_mask : (i : ℕ) (mask s : Bytes) → length (apply_mask i mask s) ≡ length s
unfolding apply_mask
length-apply_mask i mask [] = refl
length-apply_mask i mask (b ∷ s) = ap suc (length-apply_mask (suc i) mask s)

-- A size that `raw_read` can read at all: over TLS it has to be an `int`.
abbrev pub is_readable : Bool → ℕ → Bool
is_readable plain n = plain || ltb n (2 ^ 31)

raw_read-append :
    (plain : Bool) (n : ℕ) (s rest : Bytes)
    → is_readable plain n ≡ true
    → length s ≡ n
    → raw_read plain n (s ++ rest) ≡ some (s, rest)
unfolding raw_read
raw_read-append plain n s rest can h =
    let fits : (not plain && leb (2 ^ 31) n) ≡ false = ground arith in
    let enough : ltb (length (s ++ rest)) n ≡ false = ground (arith, length-append s rest) in
    rw (fits, enough, ← h, take-append s rest, drop-append s rest) refl

-- The lengths that are sent in two bytes and in eight.
two_bytes : (len : ℕ) → len < 65536 → from_big_endian 0 (big_endian 2 len) ≡ len
unfolding from_big_endian big_endian
two_bytes len h = omega arith

eight_bytes : (len : ℕ) → len < 2 ^ 64 → from_big_endian 0 (big_endian 8 len) ≡ len
unfolding from_big_endian big_endian
eight_bytes len h = omega arith

-- The header with its length, and the rest of the frame.
abbrev body : Bytes → Bytes → Bytes → Bytes
body payload mask rest = mask ++ (apply_mask 0 mask payload ++ rest)

module _ (conn : Connection) where
  -- A payload that a string holds and that can be read.
  abbrev pub Fits : Bytes → Type 0
  Fits payload =
      (length payload ≤ conn.max_size) × (is_readable conn.is_plain (length payload) ≡ true)

  small_readable : (n : ℕ) → n < 9 → is_readable conn.is_plain n ≡ true
  small_readable n h = ground arith

  read_body :
      (opcode len : ℕ) (payload mask rest : Bytes)
      → length mask ≡ 4
      → length payload ≡ len
      → Fits payload
      → read_payload conn opcode true len (body payload mask rest) ≡ frame opcode payload rest
  unfolding read_payload
  read_body opcode len payload mask rest hm hp (size, can) =
      let masked = apply_mask 0 mask payload in
      let fits : leb len conn.max_size ≡ true = rw (← hp) (ground arith) in
      ap (read_sized conn opcode true len)
        (raw_read-append conn.is_plain 4 mask (masked ++ rest) (small_readable 4 (omega arith)) hm)
      ∙ rw fits (
          ap (finish opcode true mask) (
            raw_read-append conn.is_plain len masked rest (rw (← hp) can)
              (length-apply_mask 0 mask payload ∙ hp))
          ∙ ap (λ p. frame opcode p rest) (apply_mask-apply_mask 0 mask payload))

  -- The lengths behind the header.
  read_extended :
      (n len : ℕ) (rest : Bytes)
      → n < 9
      → length (big_endian n len) ≡ n
      → from_big_endian 0 (big_endian n len) ≡ len
      → extended conn.is_plain n (big_endian n len ++ rest) ≡ some (len, rest)
  unfolding extended
  read_extended n len rest few hl h =
      ap (λ (o : Option (Bytes × Bytes)). o >>= λ r. some (from_big_endian 0 r.0, r.1))
        (raw_read-append conn.is_plain n (big_endian n len) rest (small_readable n few) hl)
      ∙ ap (λ k. some (k, rest)) h

  read_short :
      (h0 len : ℕ) (payload mask rest : Bytes)
      → length mask ≡ 4
      → length payload ≡ len
      → len ≤ 125
      → Fits payload
      → read_frame conn (h0 ∷ (128 + len) ∷ body payload mask rest) ≡ frame (h0 % 16) payload rest
  unfolding read_frame
  read_short h0 len payload mask rest hm hp h ok =
      let small : (128 + len) % 128 ≡ len = omega arith in
      let flag : leb 128 (128 + len) ≡ true = ground arith in
      let not_two : (len == 126) ≡ false = ground arith in
      let not_eight : (len == 127) ≡ false = ground arith in
      rw (small, not_two, not_eight, flag) (read_body (h0 % 16) len payload mask rest hm hp ok)

  read_two :
      (h0 : ℕ) (payload mask rest : Bytes)
      → length mask ≡ 4
      → length payload < 65536
      → Fits payload
      → read_frame conn (h0 ∷ 254 ∷ (big_endian 2 (length payload) ++ body payload mask rest))
        ≡ frame (h0 % 16) payload rest
  unfolding read_frame
  read_two h0 payload mask rest hm h ok =
      let len = length payload in
      rw
        (read_extended 2 len (body payload mask rest) (omega arith) (unfold big_endian in refl)
          (two_bytes len h))
        (read_body (h0 % 16) len payload mask rest hm refl ok)

  read_eight :
      (h0 : ℕ) (payload mask rest : Bytes)
      → length mask ≡ 4
      → length payload < 2 ^ 64
      → Fits payload
      → read_frame conn (h0 ∷ 255 ∷ (big_endian 8 (length payload) ++ body payload mask rest))
        ≡ frame (h0 % 16) payload rest
  unfolding read_frame
  read_eight h0 payload mask rest hm h ok =
      let len = length payload in
      rw
        (read_extended 8 len (body payload mask rest) (omega arith) (unfold big_endian in refl)
          (eight_bytes len h))
        (read_body (h0 % 16) len payload mask rest hm refl ok)

regroup : (l m p r : Bytes) → (l ++ (m ++ p)) ++ r ≡ l ++ (m ++ (p ++ r))
regroup l m p r = append_assoc l (m ++ p) r ∙ ap (λ t. l ++ t) (append_assoc m p r)

-- A frame that is sent is read as a text frame with its payload, and nothing behind it is touched,
-- for every mask of four bytes and every payload of less than 2 ^ 64 bytes that a string can hold and
-- that, over TLS, has less than 2 ^ 31 bytes: the three encodings of the length agree with their
-- reading.
pub read_frame-encode_frame :
    (conn : Connection) (payload mask rest : Bytes)
    → length mask ≡ 4
    → length payload < 2 ^ 64
    → Fits conn payload
    → read_frame conn (encode_frame payload mask ++ rest) ≡ frame 1 payload rest
unfolding encode_frame
read_frame-encode_frame conn payload mask rest hm h ok =
    let len = length payload in
    ap (λ t. read_frame conn (129 ∷ t))
      (regroup (length_bytes len) mask (apply_mask 0 mask payload) rest)
    ∙ elim (Bool-cases (leb len 125)) [
      | inl e ↦ rw e (read_short conn 129 len payload mask rest hm refl (ground arith) ok)
      | inr e ↦ elim (Bool-cases (leb len 65535)) [
        | inl f ↦ rw (e, f) (read_two conn 129 payload mask rest hm (ground arith) ok)
        | inr f ↦ rw (e, f) (read_eight conn 129 payload mask rest hm h ok)
      ]
    ]

-- The answer to a ping is read as a pong with the payload of the ping, which has less than 65536
-- bytes and which a string can hold.
pub read_frame-pong_frame :
    (conn : Connection) (payload mask rest : Bytes)
    → length mask ≡ 4
    → length payload < 65536
    → length payload ≤ conn.max_size
    → read_frame conn (pong_frame payload mask ++ rest) ≡ frame 10 payload rest
unfolding pong_frame
read_frame-pong_frame conn payload mask rest hm h size =
    let ok : Fits conn payload = (size, ground arith) in
    let len = length payload in
    ap (λ t. read_frame conn (138 ∷ t))
      (regroup (pong_length len) mask (apply_mask 0 mask payload) rest)
    ∙ elim (Bool-cases (leb len 125)) [
      | inl e ↦ rw e (read_short conn 138 len payload mask rest hm refl (ground arith) ok)
      | inr e ↦ rw e (read_two conn 138 payload mask rest hm h ok)
    ]

-- Payloads with their masks, and the bytes of their frames.
abbrev pub AreFrames : Connection → List (Bytes × Bytes) → Type 0
AreFrames conn [] = Unit
AreFrames conn ((payload, mask) ∷ fs) =
    ((length mask ≡ 4) × (length payload < 2 ^ 64) × Fits conn payload) × AreFrames conn fs

abbrev pub stream : List (Bytes × Bytes) → Bytes
stream [] = []
stream ((payload, mask) ∷ fs) = encode_frame payload mask ++ stream fs

abbrev pub delivered : List (Bytes × Bytes) → List Event
delivered [] = closed 1006 (codes "Connection lost") ∷ []
delivered ((payload, mask) ∷ fs) = message payload ∷ delivered fs

read_loop-stream :
    (conn : Connection) (fuel : ℕ) (fs : List (Bytes × Bytes))
    → length fs < fuel
    → AreFrames conn fs
    → read_loop conn fuel (stream fs) ≡ delivered fs
unfolding read_loop
read_loop-stream conn zero fs h ok = absurd (omega arith)
read_loop-stream conn (suc fuel) [] h ok = unfold read_frame in refl
read_loop-stream conn (suc fuel) ((payload, mask) ∷ fs) h ((hm, hp, hf), ok) =
    rw (read_frame-encode_frame conn payload mask (stream fs) hm hp hf, read_loop)
      (ap (◌∷◌ (message payload)) (read_loop-stream conn fuel fs (omega arith) ok))

frames-le-bytes : (fs : List (Bytes × Bytes)) → length fs ≤ length (stream fs)
unfolding encode_frame
frames-le-bytes [] = omega arith
frames-le-bytes ((payload, mask) ∷ fs) =
    let len = length payload in
    let tail = length_bytes len ++ (mask ++ apply_mask 0 mask payload) in
    omega (arith, length-append tail (stream fs), frames-le-bytes fs)

-- When frames of texts arrive one behind the other, with whatever masks, each text of less than 2 ^ 64
-- bytes, as long as a string can be, and over TLS of less than 2 ^ 31 bytes, and then the connection
-- ends, the loop hands on exactly these texts, in their order, and then reports that the connection is
-- lost.
pub receive-stream :
    (conn : Connection) (fs : List (Bytes × Bytes))
    → AreFrames conn fs
    → receive conn (stream fs) ≡ delivered fs
unfolding receive
receive-stream conn fs ok =
    read_loop-stream conn (suc (length (stream fs))) fs (omega (arith, frames-le-bytes fs)) ok
