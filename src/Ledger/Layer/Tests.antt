-- ===== src/Ledger/Layer/Tests.antt =====
-- A command over two packets of 12 bytes.
use libaergo.Base.{ℕ, ◌≡◌, arith, List, [], ◌∷◌}
use libaergo.Ledger.Layer.{wrapped, unwrapped, wrap_command_apdu, unwrap_response_apdu}
use libaergo.Ledger.Layer.Packets.{packets, padded}
use libaergo.Ledger.Layer.RoundTrip.{frame, unwrap_response_apdu-wrap_command_apdu}

abbrev command : List ℕ
command = 0xe0 ∷ 2 ∷ 3 ∷ 4 ∷ 5 ∷ 6 ∷ 7 ∷ []

run : List ℕ
unfolding frame packets
run = padded 12 (frame 257 12 65 command)

unwrap_response_apdu-wrap_command_apdu_example :
    (wrap_command_apdu 257 command 12 64 ≡ wrapped (padded 12 (frame 257 12 65 command)))
    × (unwrap_response_apdu 257 (padded 12 (frame 257 12 65 command)) 12 7 ≡ unwrapped command)
unwrap_response_apdu-wrap_command_apdu_example =
    unwrap_response_apdu-wrap_command_apdu 257 12 (omega arith) (omega arith) command 64 7
      (omega arith) (omega arith) (omega arith) (unfold frame packets in omega arith) (omega arith)
