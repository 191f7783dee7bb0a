-- ===== src/Ledger/Hid.antt =====
-- ledger/dongleCommHidapi.c and ledger/dongleComm.c: the HID library is loaded at run time, a command
-- goes to the device in reports of 64 bytes, and reports are read until the response is whole.
pub mod Endless
pub mod Exchange
pub mod Whole
mod Tests
use libaergo.Base.{
  ℕ, zero, suc, ◌+◌, ◌-◌, ◌*◌, ◌≤◌, Bool, true, false, Option, none, some, List, [], ◌∷◌, ◌++◌,
}
use libaergo.Base.{ltb, not, ◌==◌, ◌&&◌, if◌then◌else◌, length, take, drop, replicate, map, get_or}
use libaergo.Base.Text.{codes}
use libaergo.Ledger.Layer.{
  Wrapped, wrapped, failed, no_fuel, wrap_command_apdu, Unwrapped, unwrapped, rejected, more,
  out_of_range, unwrap_no_fuel, unwrap_response_apdu,
}

abbrev pub max_block : ℕ
max_block = 64

abbrev pub channel : ℕ
channel = 0x0101

-- The functions of the operating system that dynamic-lib.c calls: whether a library is found, whether
-- it has a function, and the text of the last error.
pub record Library : Type 0 where
  pub opens : List ℕ → Bool
  pub has : List ℕ → Bool
  pub message : List ℕ

-- The functions of hidapi, on the state of the device: `false` and `none` stand for the result -1 or
-- NULL. hid_read_timeout puts a report of at most as many bytes as it is told into the buffer, none
-- where the time is over.
pub record Hid (D : Type 0) : Type 0 where
  pub hid_init : D → D × Bool
  pub hid_exit : D → D
  pub hid_open : D → ℕ → ℕ → D × Bool
  pub hid_close : D → D
  pub hid_write : D → List ℕ → D × Bool
  pub hid_read_timeout : D → ℕ → D × Option (List ℕ)

-- Which of the six function pointers are not NULL.
pub record Pointers : Type 0 where
  pub init : Bool
  pub exit : Bool
  pub open_device : Bool
  pub close : Bool
  pub write : Bool
  pub read_timeout : Bool

abbrev pub all_are : Bool → Pointers
all_are b = record { init = b; exit = b; open_device = b; close = b; write = b; read_timeout = b }

-- snprintf into the caller's 256 bytes, where it passed them.
abbrev pub report : List ℕ → Option (List ℕ) → Option (List ℕ)
report text none = none
report text (some old) = some (take 255 text)

unfoldable pub get_function_pointer : Library → List ℕ → Option (List ℕ) → Option (List ℕ) × Bool
get_function_pointer lib name error = if lib.has name then (error, true) else (
  report
      (codes "failed to get function ["
        ++ (name ++ (codes "] pointer from hidapi library: " ++ take 255 lib.message)))
      error,
  false,
)

-- The calls of get_function_pointer, the first that fails being the last.
unfoldable pub get_functions : Library → List (List ℕ) → Option (List ℕ) → Option (List ℕ) × Bool
unfolding get_function_pointer
get_functions lib [] error = (error, true)
get_functions lib (name ∷ names) error =
    let (error', found) = get_function_pointer lib name error in
    let rest = get_functions lib names error' in if found then rest else (error', false)

abbrev pub functions : List (List ℕ)
functions =
    codes "hid_init"
    ∷ codes "hid_exit"
    ∷ codes "hid_open"
    ∷ codes "hid_close"
    ∷ codes "hid_write"
    ∷ codes "hid_read_timeout"
    ∷ []

-- The names under which the library is looked for, on Linux.
abbrev pub files : List (List ℕ)
files = codes "libhidapi.so" ∷ codes "libhidapi-hidraw.so" ∷ codes "libhidapi-libusb.so" ∷ []

unfoldable pub open_any : Library → List (List ℕ) → Bool
open_any lib [] = false
open_any lib (file ∷ others) =
    let rest = open_any lib others in if lib.opens file then true else rest

unfoldable pub load_hidapi_library :
    Library → Pointers → Option (List ℕ) → Pointers × Option (List ℕ) × Bool
unfolding open_any get_functions
load_hidapi_library lib p error =
    if p.init
    then (p, error, true)
    else if open_any lib files
    then (let (error', found) = get_functions lib functions error in (all_are found, error', found))
    else (
      p,
      report (codes "failed to load the hidapi library: " ++ take 255 lib.message) error,
      false,
    )

module _ {D : Type 0} (hid : Hid D) where
  unfoldable pub init_hidapi :
      Library → Pointers → D → Option (List ℕ) → Pointers × D × Option (List ℕ) × Bool
  unfolding load_hidapi_library
  init_hidapi lib p d error =
      let (p', error', loaded) = load_hidapi_library lib p error in
      let (d', ready) = hid.hid_init d in
      if loaded then (p', d', error', ready) else (p', d, error', false)

  -- Nano S, Nano S Plus and Nano X, in this order.
  unfoldable pub get_first_dongle : D → D × Bool
  get_first_dongle d =
      let (d1, nano_s) = hid.hid_open d 0x2c97 0x1011 in
      let (d2, nano_sp) = hid.hid_open d1 0x2c97 0x5011 in
      let (d3, nano_x) = hid.hid_open d2 0x2c97 0x4011 in
      if nano_s then (d1, true) else if nano_sp then (d2, true) else (d3, nano_x)

  pub data Written : Type 0 where
    written : D → Written
    write_failed write_no_fuel : D → Written

  -- The loop that writes; `left` are the bytes of the packets from `offset` on. A block is written
  -- from paddingBuffer, but only its own bytes.
  unfoldable pub write_loop : ℕ → D → List ℕ → Written
  write_loop zero d left = write_no_fuel d
  write_loop (suc fuel) d [] = written d
  write_loop (suc fuel) d (x ∷ xs) =
      let left : List ℕ = x ∷ xs in
      let (d', ok) = hid.hid_write d (take max_block left) in
      let rest = write_loop fuel d' (drop max_block left) in if ok then rest else write_failed d'

-- Bytes written into a buffer at an offset.
abbrev pub write_at : ℕ → List ℕ → List ℕ → List ℕ
write_at offset bytes buffer = take offset buffer ++ (bytes ++ drop (offset + length bytes) buffer)

-- What sendApduHidapi gives: the data of the response (its result is their number), the status word
-- and the whole output buffer; the result -1; an access outside of a buffer.
pub data Answer : Type 0 where
  answer : List ℕ → ℕ → List ℕ → Answer
  io_error out_of_bounds answer_no_fuel : Answer

-- The end of sendApduHidapi: the status word is the last two bytes of the response. A response of one
-- byte has its status word at out[-1].
unfoldable pub split_status : List ℕ → List ℕ → Answer
split_status response out =
    let n = length response in
    if ltb n 2
    then out_of_bounds
    else answer (take (n - 2) response)
        (get_or response (n - 2) 0 * 256 + get_or response (n - 1) 0) (write_at 0 response out)

-- The test of the result of hid_read_timeout.
abbrev pub after_read : {D : Type 0} → D × Option (List ℕ) → (D → List ℕ → D × Answer) → D × Answer
after_read (d, none) again = (d, io_error)
after_read (d, some bytes) again = again d bytes

-- Behind the buffer, the offset being the length that unwrapReponseAPDU is told: it stops before where
-- the response has no bytes, or more than that.
abbrev pub reads_behind : List ℕ → ℕ → Bool
reads_behind buffer offset =
    let n = get_or buffer 5 0 * 256 + get_or buffer 6 0 in
    ltb (length buffer) offset && not (n == 0) && not (ltb offset (7 + n))

abbrev pub writes_behind : List ℕ → ℕ → List ℕ → Bool
writes_behind buffer offset bytes =
    ltb 0 (length bytes) && ltb (length buffer) (offset + length bytes)

module _ {D : Type 0} (hid : Hid D) where
  -- The loop that reads: `offset` is 64 for each report. A report is read to buffer + offset; on a
  -- timeout it has no bytes and nothing is written, but the offset grows. The loop of the code has
  -- no end of its own: `answer_no_fuel` is that it still runs.
  unfoldable pub read_loop : ℕ → D → List ℕ → ℕ → List ℕ → D × Answer
  unfolding split_status
  read_loop zero d buffer offset out = (d, answer_no_fuel)
  read_loop (suc fuel) d buffer offset out =
      let again : D → List ℕ → D × Answer =
        λ d' bytes. read_loop fuel d' (write_at offset bytes buffer) (offset + max_block) out in
      elim (unwrap_response_apdu channel (take offset buffer) 64 (length out)) [
        | unwrapped response ↦ (d, split_status response out)
        | rejected ↦ (d, io_error)
        | out_of_range ↦ (d, out_of_bounds)
        | unwrap_no_fuel ↦ (d, answer_no_fuel)
        | more ↦
            if reads_behind buffer offset
            then (d, out_of_bounds)
            else after_read (hid.hid_read_timeout d max_block) (λ d' bytes.
              if writes_behind buffer offset bytes then (d', out_of_bounds) else again d' bytes)
      ]

  -- The reports of a response: the first is read to the start of the buffer. After 7 passes of the
  -- loop, one more than the buffer has room for reports, it is left running.
  unfoldable pub read_response : D → List ℕ → List ℕ → D × Answer
  unfolding read_loop
  read_response d buffer out =
      after_read (hid.hid_read_timeout d max_block)
        (λ d' bytes. read_loop 7 d' (write_at 0 bytes buffer) max_block out)

  -- `stack` is what the 400 bytes of `buffer` held, `out` what the output buffer holds.
  unfoldable pub send_apdu_hidapi : D → List ℕ → List ℕ → List ℕ → D × Answer
  unfolding write_loop read_response
  send_apdu_hidapi d apdu stack out = elim (wrap_command_apdu channel apdu 64 (length stack)) [
    | wrapped packets ↦ elim (write_loop hid (suc (length packets)) d packets) [
      | written d' ↦ read_response d' (write_at 0 packets stack) out
      | write_failed d' ↦ (d', io_error)
      | write_no_fuel d' ↦ (d', answer_no_fuel)
    ]
    | failed ↦ (d, io_error)
    | no_fuel ↦ (d, answer_no_fuel)
  ]
