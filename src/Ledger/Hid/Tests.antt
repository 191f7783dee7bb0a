-- ===== src/Ledger/Hid/Tests.antt =====
-- Commands and responses of one packet on the device for runs.
use libaergo.Base.{some, ℕ, ◌≡◌, refl, arith, List, [], ◌∷◌, replicate, append-nil}
use libaergo.Ledger.Layer.Packets.{packets}
use libaergo.Ledger.Layer.RoundTrip.{frame}
use libaergo.Base.{length-replicate}
use libaergo.Ledger.Layer.Empty.{empty_response}
use libaergo.Ledger.Hid.Endless.{read_loop-endless}
use libaergo.Ledger.Hid.{
  Hid, channel, answer_no_fuel, read_loop, answer, write_at, send_apdu_hidapi,
}
use libaergo.Ledger.Hid.Exchange.{Reads, no_more, next, packets_of}
use libaergo.Ledger.Hid.Whole.{Writes, all_written, write, send_apdu_hidapi-answers}
use libaergo.Ledger.Script.{script}

abbrev apdu : List ℕ
apdu = 0xae ∷ 1 ∷ 0 ∷ 0 ∷ 0 ∷ []

abbrev message : List ℕ
message = 7 ∷ 8 ∷ []

abbrev response : List ℕ
response = 7 ∷ 8 ∷ 0x90 ∷ 0 ∷ []

abbrev incoming : List (List ℕ)
incoming = packets_of response 400 ∷ []

reads : Reads script incoming incoming []
unfolding frame packets
reads = next refl refl no_more

writes : Writes script incoming (packets_of apdu 400 ∷ []) incoming
unfolding frame packets
writes = write refl refl all_written

send_apdu_hidapi_run :
    send_apdu_hidapi script incoming apdu (replicate 400 0) (replicate 10 0)
    ≡ ([], answer message 0x9000 (write_at 0 response (replicate 10 0)))
send_apdu_hidapi_run =
    send_apdu_hidapi-answers script apdu message 0x90 0 (replicate 400 0) (replicate 10 0)
      (packets_of apdu 400 ∷ []) incoming refl (omega arith) (omega arith) (omega arith)
      (omega arith) writes (append-nil (packets_of apdu 400)) reads
      (append-nil (packets_of response 400)) (omega arith)

-- A device that never gives a report in time.
abbrev mute : Hid (List (List ℕ))
mute = record script { hid_read_timeout = λ d n. (d, some []) }

read_loop-endless_example :
    read_loop mute 1000 [] (empty_response channel (replicate 393 0)) 64 (replicate 10 0)
    ≡ ([], answer_no_fuel)
read_loop-endless_example =
    read_loop-endless mute [] refl 1000 64 (replicate 393 0) (replicate 10 0) (omega arith)
      (omega (arith, length-replicate {A = ℕ} 393 0))
