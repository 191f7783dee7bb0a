-- ===== src/Ledger/Commands/Sign.antt =====
-- The signature of a transaction, as the device gives it.
use libaergo.Base.{
  ℕ, suc, ◌-◌, ◌<◌, ◌≡◌, refl, arith, true, false, Option, some, List, [], take, drop, length, ltb,
  ◌==◌, if◌then◌else◌,
}
use libaergo.Ledger.Api.{Dongle}
use libaergo.Ledger.Api.Chunks.{apdus, Session, ledger_send_apdu-Session, Session-some}
use libaergo.Ledger.Commands.{
  result, fault, ledger_sign_transaction, copy_signature, check_ledger_result,
}

module _ {D : Type 0} (dongle : Dongle D) where
  -- A transaction that is not empty, on a device that is found and asks `n` times to start again,
  -- with more than `n` passes: if the device gives at least 32 bytes, and behind them no more than
  -- the caller has room for, the signature is what follows the first 32 and the call succeeds; if
  -- it gives fewer, memcpy is called with a negative size, and if it gives more, memcpy writes
  -- behind the signature of the caller.
  pub ledger_sign_transaction-Session :
      (n fuel : ℕ) {d d1 d2 d3 : D} (txn stack sig text : List ℕ) {message out' : List ℕ}
      {error' : Option (List ℕ)}
      → 0 < length txn
      → n < fuel
      → dongle.init_dongle d (some []) ≡ (d1, error', true)
      → dongle.get_first_dongle d1 ≡ (d2, true)
      → Session dongle n d2 stack (apdus (suc (length txn)) 0xae 4 1 txn) d3 message out'
      → ledger_sign_transaction dongle fuel d txn stack sig (some text) ≡ (
        dongle.exit_dongle (dongle.close_dongle d3),
        if ltb (length message) 32
            then fault
            else if ltb (length sig) (length message - 32)
            then fault
            else result (take (length message - 32) (drop 32 out')) error' true,
      )
  unfolding ledger_sign_transaction copy_signature check_ledger_result
  ledger_sign_transaction-Session n fuel txn stack sig text {message} p f ready found s =
      let runs = ledger_send_apdu-Session dongle 0xae 4 n fuel txn stack text p f ready found s in
      let some_data : (length message == 0) ≡ false = ground (arith, Session-some dongle s) in
      rw runs (rw some_data refl)
