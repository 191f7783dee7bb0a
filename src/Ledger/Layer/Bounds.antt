-- ===== src/Ledger/Layer/Bounds.antt =====
-- wrapCommandAPDU keeps to its output buffer.
use libaergo.Base.{
  ℕ, zero, suc, ◌+◌, ◌-◌, ◌/◌, ◌%◌, ◌≤◌, ◌≡◌, refl, arith, Bool, true, false, List, [], ◌∷◌, ◌++◌,
  take, drop, length, length-append, length-take, ltb, ◌==◌, if◌then◌else◌,
}
use libaergo.Ledger.Layer.{
  packet_header, minus, block_size, Wrapped, wrapped, failed, no_fuel, pad, wrap_loop,
  wrap_command_apdu,
}

-- What was written, if the function succeeds, is at most so long.
abbrev Fits : ℕ → Wrapped → Type 0
Fits n (wrapped bytes) = length bytes ≤ n
Fits n failed = Unit {0}
Fits n no_fuel = Unit {0}

if-Fits :
    (n : ℕ) (b : Bool) (s t : Wrapped)
    → (b ≡ true → Fits n s)
    → (b ≡ false → Fits n t)
    → Fits n (if b then s else t)
if-Fits n true s t h k = h refl
if-Fits n false s t h k = k refl

pad-Fits :
    (n packet_size room : ℕ) (out : List ℕ)
    → length out + room ≤ n
    → Fits n (pad packet_size room out)
unfolding pad
pad-Fits n packet_size zero out h =
    if-Fits n (length out % packet_size == 0) (wrapped out) failed (λ _. omega (arith, h)) (λ _. tt)
pad-Fits n packet_size (suc room) out h =
    if-Fits n (length out % packet_size == 0) (wrapped out) (pad packet_size room (out ++ (0 ∷ [])))
      (λ _. omega (arith, h))
      (λ _.
        pad-Fits n packet_size room (out ++ (0 ∷ []))
          (omega (arith, h, length-append out (0 ∷ []))))

wrap_loop-Fits :
    (n fuel channel packet_size sequence : ℕ) (left : List ℕ) (room : ℕ) (out : List ℕ)
    → length out + room ≤ n
    → Fits n (wrap_loop fuel channel packet_size sequence left room out)
unfolding wrap_loop
wrap_loop-Fits n zero channel packet_size sequence left room out h = tt
wrap_loop-Fits n (suc fuel) channel packet_size sequence [] room out h =
    pad-Fits n packet_size room out h
wrap_loop-Fits n (suc fuel) channel packet_size sequence (x ∷ xs) room out h =
    let left : List ℕ = x ∷ xs in
    let block = block_size (length left) (minus packet_size 5) in
    let added : List ℕ = packet_header channel sequence ++ take block left in
    if-Fits n (ltb room 5) failed _ (λ _. tt)
      (λ e1.
        if-Fits n (ltb (room - 5) block) failed _ (λ _. tt)
          (λ e2.
            wrap_loop-Fits n fuel channel packet_size (sequence + 1) (drop block left)
              (room - 5 - block) (out ++ added)
              (ground (
                arith,
                e1,
                e2,
                h,
                length-append out added,
                length-append (packet_header channel sequence) (take block left),
                length-take block left,
              ))))

wrap_command_apdu-Fits :
    (channel : ℕ) (command : List ℕ) (packet_size out_length : ℕ)
    → Fits out_length (wrap_command_apdu channel command packet_size out_length)
unfolding wrap_command_apdu
wrap_command_apdu-Fits channel command packet_size out_length =
    let n = length command in
    let block = block_size n (minus packet_size 7) in
    let first : List ℕ =
      packet_header channel 0 ++ (n / 256 % 256 ∷ n % 256 ∷ take block command) in
    if-Fits out_length (ltb packet_size 3) failed _ (λ _. tt)
      (λ _.
        if-Fits out_length (ltb out_length 7) failed _ (λ _. tt)
          (λ e1.
            if-Fits out_length (ltb (out_length - 7) block) failed _ (λ _. tt)
              (λ e2.
                wrap_loop-Fits out_length (suc out_length) channel packet_size 1
                  (drop block command) (out_length - 7 - block) first
                  (ground (arith, e1, e2, length-take block command)))))

-- What wrapCommandAPDU writes when it succeeds is not longer than the output buffer, whatever the
-- command and the size of a packet.
pub length-wrap_command_apdu :
    (channel : ℕ) (command : List ℕ) (packet_size out_length : ℕ) (bytes : List ℕ)
    → wrap_command_apdu channel command packet_size out_length ≡ wrapped bytes
    → length bytes ≤ out_length
length-wrap_command_apdu channel command packet_size out_length bytes e =
    let fits = wrap_command_apdu-Fits channel command packet_size out_length in rw e at fits
