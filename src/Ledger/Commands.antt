-- ===== src/Ledger/Commands.antt =====
-- ledger.c: the two commands that the library sends to the Ledger application.
pub mod Keys
pub mod Sign
mod Tests
use libaergo.Base.{
  ℕ, ◌+◌, ◌-◌, ◌/◌, ◌%◌, ◌^◌, Bool, true, false, Option, none, some, List, [], ◌∷◌, ◌++◌,
}
use libaergo.Base.{ltb, leb, ◌==◌, if◌then◌else◌, length, take, drop, replicate, ◌&&◌}
use libaergo.Base.Text.{codes}
use libaergo.Endianess.{le_bytes, copy_be32}
use libaergo.Ledger.Api.{
  Code, code, minus_one, Sent, sent, faulted, waiting, Dongle, ledger_send_apdu,
}

abbrev pub apdu_cla : ℕ
apdu_cla = 0xae

abbrev pub apdu_ins_get_public_key : ℕ
apdu_ins_get_public_key = 0x02

abbrev pub apdu_ins_sign_txn : ℕ
apdu_ins_sign_txn = 0x04

-- A digit of "%.4x".
abbrev hex_digit : ℕ → ℕ
hex_digit d = if ltb d 10 then 48 + d else 87 + d

-- A status word of two bytes has four digits.
abbrev pub hex4 : ℕ → List ℕ
hex4 sw =
    hex_digit (sw / 4096 % 16)
    ∷ hex_digit (sw / 256 % 16)
    ∷ hex_digit (sw / 16 % 16)
    ∷ hex_digit (sw % 16)
    ∷ []

-- A text is written only where the caller passed a buffer that is still empty.
abbrev pub write_error : List ℕ → Option (List ℕ) → Option (List ℕ)
write_error text none = none
write_error text (some []) = some text
write_error text (some (c ∷ cs)) = some (c ∷ cs)

unfoldable pub check_ledger_result : Code → Code → Option (List ℕ) → Option (List ℕ) × Bool
check_ledger_result minus_one minus_one error =
    (write_error (codes "No dongle found or application not open") error, false)
check_ledger_result minus_one (code sw) error =
    (write_error (codes "I/O error or library not found") error, false)
check_ledger_result (code n) minus_one error =
    (write_error (codes "Dongle application error : ffffffff") error, false)
check_ledger_result (code n) (code sw) error =
    if sw == 0x9000
    then (error, true)
    else (write_error (codes "Dongle application error : " ++ hex4 sw) error, false)

-- What a command gives: the caller's buffer, the text of an error and whether it succeeded.
pub data Result : Type 0 where
  result : List ℕ → Option (List ℕ) → Bool → Result
  fault no_result : Result

-- The error text that is already there counts, and the result of the check.
abbrev pub checked : List ℕ → Option (List ℕ) × Bool → Result
checked value (error, ok) = result value error ok

-- memcpy of `size - 32` bytes to the signature of the caller; below 32 the size is negative.
unfoldable pub copy_signature : ℕ → Code → List ℕ → List ℕ → Option (List ℕ) → Result
unfolding check_ledger_result
copy_signature n sw out sig error =
    if n == 0
    then checked sig (check_ledger_result (code n) sw error)
    else if ltb n 32
    then fault
    else if ltb (length sig) (n - 32)
    then fault
    else checked (take (n - 32) (drop 32 out)) (check_ledger_result (code n) sw error)

-- m / 44' / 441' / 0' / 0 / index
unfoldable pub ipath : ℕ → List ℕ
ipath account_index =
    0x8000002c ∷ 0x800001b9 ∷ 0x80000000 ∷ 0x00000000 ∷ account_index % 2 ^ 32 ∷ []

unfoldable pub convert_path : List ℕ → List ℕ
convert_path [] = []
convert_path (n ∷ ns) = copy_be32 (le_bytes 4 n) ++ convert_path ns

unfoldable pub get_account_derivation_path : ℕ → List ℕ
unfolding ipath convert_path
get_account_derivation_path account_index = convert_path (ipath account_index)

module _ {D : Type 0} (dongle : Dongle D) where
  abbrev pub after_sign : List ℕ → D × Option (List ℕ) × Sent → D × Result
  after_sign sig (d, error, sent (code n) sw out) = (d, copy_signature n sw out sig error)
  after_sign sig (d, error, sent minus_one sw out) =
      (d, checked sig (check_ledger_result minus_one sw error))
  after_sign sig (d, error, faulted) = (d, fault)
  after_sign sig (d, error, waiting) = (d, no_result)

  -- `stack` is what the 120 bytes of `out` held, `sig` the caller's signature, of *psigsize bytes,
  -- where no answer comes.
  unfoldable pub ledger_sign_transaction :
      ℕ → D → List ℕ → List ℕ → List ℕ → Option (List ℕ) → D × Result
  unfolding copy_signature
  ledger_sign_transaction fuel d txn stack sig error =
      after_sign sig (ledger_send_apdu dongle fuel d apdu_cla apdu_ins_sign_txn 0 txn stack error)

  abbrev pub after_key : List ℕ → D × Option (List ℕ) × Sent → D × Result
  after_key old (d, error, sent n sw out) =
      let (error', ok) = check_ledger_result n sw error in
      (d, if ok then result (take 33 out) error' true else result old error' false)
  after_key old (d, error, faulted) = (d, fault)
  after_key old (d, error, waiting) = (d, no_result)

  -- `old` is the public key that the account has.
  unfoldable pub ledger_get_account_public_key : ℕ → D → ℕ → List ℕ → Option (List ℕ) → D × Result
  unfolding get_account_derivation_path check_ledger_result
  ledger_get_account_public_key fuel d account_index old error = after_key old (
      ledger_send_apdu dongle fuel d apdu_cla apdu_ins_get_public_key 0
        (get_account_derivation_path account_index) (replicate 43 0) error)
