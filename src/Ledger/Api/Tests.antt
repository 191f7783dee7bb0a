-- ===== src/Ledger/Api/Tests.antt =====
-- A command of 251 bytes, over two APDUs, on a device that asks once to start again.
use libaergo.Base.{ℕ, suc, ◌≡◌, refl, arith, true, some, List, [], ◌∷◌, replicate, length}
use libaergo.Ledger.Hid.{Answer, answer, io_error}
use libaergo.Ledger.Api.{Dongle, code, sent, ledger_send_apdu}
use libaergo.Ledger.Api.Chunks.{
  apdus, last, confirm, restart, Session, done, again, ledger_send_apdu-Session,
}
use libaergo.Ledger.Commands.{result, ledger_sign_transaction}
use libaergo.Ledger.Commands.Sign.{ledger_sign_transaction-Session}

-- It gives the answers of a list, and its library writes them into the output.
abbrev next_answer : List Answer → List Answer × Answer
next_answer [] = ([], io_error)
next_answer (a ∷ rest) = (rest, a)

abbrev answering : Dongle (List Answer)
answering = record {
  init_dongle = λ d error. (d, error, true);
  get_first_dongle = λ d. (d, true);
  send_apdu_dongle = λ d apdu out. next_answer d;
  close_dongle = λ d. d;
  exit_dongle = λ d. d;
}

abbrev out : List ℕ
out = replicate 120 0

abbrev filled : List ℕ
filled = replicate 33 7

abbrev answers : List Answer
answers = answer [] 0x9001 out ∷ answer [] 0x9000 out ∷ answer (replicate 33 7) 0x9000 filled ∷ []

abbrev txn : List ℕ
txn = replicate 251 5

session : Session answering 1 answers out (apdus (suc (length txn)) 0xae 4 1 txn) [] filled filled
unfolding apdus
session = again (restart refl) (done (confirm refl (last (omega arith) refl)))

ledger_send_apdu-Session_example :
    ledger_send_apdu answering 2 answers 0xae 4 0 txn out (some [])
    ≡ ([], some [], sent (code 33) (code 0x9000) filled)
ledger_send_apdu-Session_example =
    ledger_send_apdu-Session answering 0xae 4 1 2 txn out [] (omega arith) (omega arith) refl refl
      session

ledger_sign_transaction-Session_example :
    ledger_sign_transaction answering 2 answers txn out (replicate 80 0) (some [])
    ≡ ([], result (7 ∷ []) (some []) true)
ledger_sign_transaction-Session_example =
    ledger_sign_transaction-Session answering 1 2 txn out (replicate 80 0) [] (omega arith)
      (omega arith) refl refl session
