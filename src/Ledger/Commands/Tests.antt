-- ===== src/Ledger/Commands/Tests.antt =====
-- The public key of account 3 from the device for runs.
use libaergo.Base.{ℕ, ◌≡◌, refl, arith, true, some, List, [], ◌∷◌, ◌++◌, replicate, append-nil}
use libaergo.Ledger.Layer.Packets.{packets}
use libaergo.Ledger.Layer.RoundTrip.{frame}
use libaergo.Ledger.Hid.{all_are}
use libaergo.Ledger.Hid.Exchange.{Reads, no_more, next, packets_of}
use libaergo.Ledger.Hid.Whole.{Writes, all_written, write}
use libaergo.Ledger.Device.{hid_dongle}
use libaergo.Ledger.Script.{script, no_library}
use libaergo.Ledger.Commands.{result, ledger_get_account_public_key}
use libaergo.Ledger.Commands.Keys.{key_apdu, ledger_get_account_public_key-device}

abbrev message : List ℕ
message = replicate 33 9

abbrev incoming : List (List ℕ)
incoming = packets_of (replicate 33 9 ++ (0x90 ∷ 0 ∷ [])) 400 ∷ []

reads : Reads script incoming incoming []
unfolding frame packets
reads = next refl refl no_more

writes : Writes script incoming (packets_of (key_apdu 3) 400 ∷ []) incoming
unfolding frame packets
writes = write refl refl all_written

ledger_get_account_public_key-device_example :
    ledger_get_account_public_key
      (hid_dongle script no_library (replicate 400 0))
      1
      (all_are true, incoming)
      3
      []
      (some [])
    ≡ ((all_are true, []), result (replicate 33 9) (some []) true)
ledger_get_account_public_key-device_example =
    ledger_get_account_public_key-device script no_library (replicate 400 0) 3 message [] []
      (packets_of (key_apdu 3) 400 ∷ []) incoming refl refl refl writes
      (append-nil (packets_of (key_apdu 3) 400)) reads
      (append-nil (packets_of (replicate 33 9 ++ (0x90 ∷ 0 ∷ [])) 400)) (omega arith) (omega arith)
      (omega arith)
