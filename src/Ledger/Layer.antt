-- ===== src/Ledger/Layer.antt =====
-- ledger/ledgerLayer.c: a command is cut into packets of a fixed size, and a response is put together
-- from its packets. Buffers are lists of bytes; `room` is what is left of outLength.
pub mod Packets
pub mod Bounds
pub mod Empty
pub mod Fuel
pub mod Partial
pub mod RoundTrip
pub mod Sizes
pub mod Unwrap
mod Tests
use libaergo.Base.{
  ℕ, zero, suc, ◌+◌, ◌-◌, ◌*◌, ◌/◌, ◌%◌, ◌^◌, Bool, true, false, Option, none, some,
}
use libaergo.Base.{List, [], ◌∷◌, ◌++◌, ltb, ◌==◌, ◌&&◌, if◌then◌else◌, length, take, drop}

abbrev pub tag_apdu : ℕ
tag_apdu = 0x05

-- The five bytes in front of each packet.
abbrev pub packet_header : ℕ → ℕ → List ℕ
packet_header channel sequence =
    channel / 256 % 256 ∷ channel % 256 ∷ tag_apdu ∷ sequence / 256 % 256 ∷ sequence % 256 ∷ []

-- packetSize - n, of unsigned ints.
abbrev pub minus : ℕ → ℕ → ℕ
minus packet_size n = (packet_size + 2 ^ 32 - n) % 2 ^ 32

abbrev pub block_size : ℕ → ℕ → ℕ
block_size left limit = if ltb limit left then limit else left

-- `failed` is the result -1, `no_fuel` that the fuel ran out.
pub data Wrapped : Type 0 where
  wrapped : List ℕ → Wrapped
  failed no_fuel : Wrapped

-- The last loop: zeros up to a whole packet.
pub pad : ℕ → ℕ → List ℕ → Wrapped
pad packet_size zero out = if length out % packet_size == 0 then wrapped out else failed
pad packet_size (suc room) out =
    let rest = pad packet_size room (out ++ (0 ∷ [])) in
    if length out % packet_size == 0 then wrapped out else rest

-- The loop over the packets behind the first; `left` is the command from `offset` on.
pub wrap_loop : ℕ → ℕ → ℕ → ℕ → List ℕ → ℕ → List ℕ → Wrapped
unfolding pad
wrap_loop zero channel packet_size sequence left room out = no_fuel
wrap_loop (suc fuel) channel packet_size sequence [] room out = pad packet_size room out
wrap_loop (suc fuel) channel packet_size sequence (x ∷ xs) room out =
    let left : List ℕ = x ∷ xs in
    let block = block_size (length left) (minus packet_size 5) in
    let rest =
      wrap_loop fuel channel packet_size (sequence + 1) (drop block left) (room - 5 - block)
        (out ++ (packet_header channel sequence ++ take block left)) in
    if ltb room 5 then failed else if ltb (room - 5) block then failed else rest

-- Each round of the loop takes 5 bytes of the buffer, so its length is fuel enough.
pub wrap_command_apdu : ℕ → List ℕ → ℕ → ℕ → Wrapped
unfolding wrap_loop
wrap_command_apdu channel command packet_size out_length =
    let n = length command in
    let block = block_size n (minus packet_size 7) in
    if ltb packet_size 3
    then failed
    else if ltb out_length 7
    then failed
    else if ltb (out_length - 7) block
    then failed
    else wrap_loop (suc out_length) channel packet_size 1 (drop block command)
        (out_length - 7 - block)
        (packet_header channel 0 ++ (n / 256 % 256 ∷ n % 256 ∷ take block command))

-- `more` is the result 0, which asks for more data; `out_of_range` that bytes behind the data are
-- read.
pub data Unwrapped : Type 0 where
  unwrapped : List ℕ → Unwrapped
  rejected more out_of_range unwrap_no_fuel : Unwrapped

pub data HeaderCheck : Type 0 where
  matches differs too_short : HeaderCheck

-- The tests of the bytes in front of a packet, one after the other.
unfoldable pub check_header : List ℕ → List ℕ → HeaderCheck
check_header [] bytes = matches
check_header (e ∷ es) [] = too_short
check_header (e ∷ es) (b ∷ bytes) = if b == e then check_header es bytes else differs

abbrev pub after_check : HeaderCheck → Unwrapped → Unwrapped
after_check matches r = r
after_check differs r = rejected
after_check too_short r = out_of_range

-- The loop over the packets behind the first; `left` is what the response still wants, and the data
-- are those from `offset` on.
pub unwrap_loop : ℕ → ℕ → ℕ → ℕ → ℕ → List ℕ → List ℕ → Unwrapped
unfolding check_header
unwrap_loop zero channel packet_size sequence left bytes out = unwrap_no_fuel
unwrap_loop (suc fuel) channel packet_size sequence zero bytes out = unwrapped out
unwrap_loop (suc fuel) channel packet_size sequence (suc n) bytes out =
    let left = suc n in
    let payload : List ℕ = drop 5 bytes in
    let block = block_size left (minus packet_size 5) in
    let rest =
      unwrap_loop fuel channel packet_size (sequence + 1) (left - block) (drop block payload)
        (out ++ take block payload) in
    if length bytes == 0
    then more
    else after_check (check_header (packet_header channel sequence) bytes)
        (if ltb (length payload) block then more else rest)

abbrev unwrap_length : List ℕ → ℕ
unwrap_length (hi ∷ lo ∷ rest) = hi * 256 + lo
unwrap_length _ = 0

-- A response of no bytes has the result 0, as one that is not whole.
abbrev pub empty_is_more : Unwrapped → Unwrapped
empty_is_more (unwrapped []) = more
empty_is_more r = r

pub unwrap_response_apdu : ℕ → List ℕ → ℕ → ℕ → Unwrapped
unfolding unwrap_loop check_header
unwrap_response_apdu channel bytes packet_size out_length =
    let payload : List ℕ = drop 7 bytes in
    let response_length = unwrap_length (drop 5 bytes) in
    let block = block_size response_length (minus packet_size 7) in
    if ltb (length bytes) 12
    then more
    else after_check (check_header (packet_header channel 0) bytes) (
        if ltb out_length response_length
        then rejected
        else if ltb (length bytes) (7 + response_length)
        then more
        else empty_is_more (
            unwrap_loop (suc (length bytes)) channel packet_size 1 (response_length - block)
              (drop block payload) (take block payload)))
