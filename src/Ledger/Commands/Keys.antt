-- ===== src/Ledger/Commands/Keys.antt =====
-- The public key of an account, as the device gives it.
use libaergo.Base.{
  ℕ, ◌+◌, ◌*◌, ◌%◌, ◌^◌, ◌≤◌, ◌<◌, ◌≡◌, refl, ap, ◌∙◌, arith, true, some, List, [], ◌∷◌, ◌++◌, take,
  drop, flatten, length, replicate, take-append_le, append_assoc,
}
use libaergo.Endianess.{be32, copy_be32-be32}
use libaergo.Ledger.Hid.{
  Hid, Library, Pointers, Answer, write_at, get_first_dongle, send_apdu_hidapi, init_hidapi,
  load_hidapi_library, all_are,
}
use libaergo.Ledger.Hid.Exchange.{Reads, packets_of}
use libaergo.Ledger.Hid.Whole.{Writes, send_apdu_hidapi-answers}
use libaergo.Ledger.Api.Chunks.{apdus, last, Session, done, ledger_send_apdu-Session}
use libaergo.Ledger.Device.{hid_dongle, close_dongle_hidapi, exit_hidapi}
use libaergo.Ledger.Commands.{
  result, ledger_get_account_public_key, check_ledger_result, get_account_derivation_path, ipath,
  convert_path,
}

-- The path m/44'/441'/0'/0/index as the device wants it: five numbers, most significant byte first.
abbrev pub path_bytes : ℕ → List ℕ
path_bytes index =
    be32 (2 ^ 31 + 44)
    ++ (be32 (2 ^ 31 + 441) ++ (be32 (2 ^ 31) ++ (be32 0 ++ (be32 (index % 2 ^ 32) ++ []))))

pub get_account_derivation_path-path_bytes :
    (index : ℕ) → get_account_derivation_path index ≡ path_bytes index
unfolding get_account_derivation_path ipath convert_path
get_account_derivation_path-path_bytes index =
    rw
      (
        copy_be32-be32 (index % 2 ^ 32) (omega arith),
        copy_be32-be32 0x8000002c (omega arith),
        copy_be32-be32 0x800001b9 (omega arith),
        copy_be32-be32 0x80000000 (omega arith),
        copy_be32-be32 0 (omega arith),
      )
      refl

-- The only APDU of the command.
abbrev pub key_apdu : ℕ → List ℕ
key_apdu index = 0xae ∷ 2 ∷ 3 ∷ 0 ∷ 20 ∷ path_bytes index

apdus_key : (index : ℕ) → apdus 21 0xae 2 1 (path_bytes index) ≡ key_apdu index ∷ []
unfolding apdus
apdus_key index = refl

module _ {D : Type 0} (hid : Hid D) (lib : Library) (stack : List ℕ) where
  abbrev loaded : Pointers
  loaded = all_are true

  send_apdu_dongle_lem :
      (d : D) (apdu out : List ℕ) {d' : D} {a : Answer}
      → send_apdu_hidapi hid d apdu stack out ≡ (d', a)
      → (hid_dongle hid lib stack).send_apdu_dongle (loaded, d) apdu out ≡ ((loaded, d'), a)
  unfolding hid_dongle
  send_apdu_dongle_lem d apdu out e = rw e refl

  init_dongle_lem :
      {d d' : D}
      → hid.hid_init d ≡ (d', true)
      → (hid_dongle hid lib stack).init_dongle (loaded, d) (some []) ≡ ((loaded, d'), some [], true)
  unfolding hid_dongle init_hidapi load_hidapi_library
  init_dongle_lem e = rw e refl

  get_first_dongle_lem :
      {d d' : D}
      → hid.hid_open d 0x2c97 0x1011 ≡ (d', true)
      → (hid_dongle hid lib stack).get_first_dongle (loaded, d) ≡ ((loaded, d'), true)
  unfolding hid_dongle get_first_dongle
  get_first_dongle_lem e = rw e refl

  exit-close_lem :
      (d : D)
      → (hid_dongle hid lib stack).exit_dongle ((hid_dongle hid lib stack).close_dongle (loaded, d))
        ≡ (loaded, hid.hid_exit (hid.hid_close d))
  unfolding hid_dongle close_dongle_hidapi exit_hidapi
  exit-close_lem d = refl

  -- With the library loaded, a Nano S that opens, takes the packets of the command with the path
  -- m/44'/441'/0'/0/index and answers with the packets of a message of 33 to 41 bytes and the
  -- status word 0x9000, none more than needed: ledger_get_account_public_key succeeds and the
  -- account has the first 33 bytes of the message as its public key, the device is closed and the
  -- text of the error is empty.
  pub ledger_get_account_public_key-device :
      {d d1 d2 d3 d4 : D} (index : ℕ) (message old text : List ℕ) (requests replies : List (List ℕ))
      → length stack ≡ 400
      → hid.hid_init d ≡ (d1, true)
      → hid.hid_open d1 0x2c97 0x1011 ≡ (d2, true)
      → Writes hid d2 requests d3
      → flatten requests ≡ packets_of (key_apdu index) 400
      → Reads hid d3 replies d4
      → flatten replies ≡ packets_of (message ++ (0x90 ∷ 0 ∷ [])) 400
      → 64 * length replies < 73 + length message
      → 33 ≤ length message
      → length message ≤ 41
      → ledger_get_account_public_key (hid_dongle hid lib stack) 1 (loaded, d) index old (some text)
        ≡ ((loaded, hid.hid_exit (hid.hid_close d4)), result (take 33 message) (some []) true)
  unfolding ledger_get_account_public_key check_ledger_result
  ledger_get_account_public_key-device {d} {d1} {d2} {d3} {d4} index message old text requests
        replies size ready opens w ew r er few long short =
      let out : List ℕ = replicate 43 0 in
      let whole : List ℕ = message ++ (0x90 ∷ 0 ∷ []) in
      let sends = send_apdu_dongle_lem d2 (key_apdu index) out (
        send_apdu_hidapi-answers hid (key_apdu index) message 0x90 0 stack out requests replies size
          (omega arith) (omega arith) (omega (arith, short)) (omega (arith, short)) w ew r er
          few) in
      let session : Session (hid_dongle hid lib stack) 0 (loaded, d2) out
          (apdus 21 0xae 2 1 (path_bytes index)) (loaded, d4) message (write_at 0 whole out) =
        rw (apdus_key index) (done (last (omega (arith, long)) sends)) in
      let key : take 33 (write_at 0 whole out) ≡ take 33 message =
        ap (take 33) {x = write_at 0 whole out}
          {y = message ++ (0x90 ∷ 0 ∷ drop (0 + length whole) out)}
          (append_assoc message (0x90 ∷ 0 ∷ []) (drop (0 + length whole) out))
        ∙ take-append_le 33 message (0x90 ∷ 0 ∷ drop (0 + length whole) out) long in
      let runs =
        ledger_send_apdu-Session (hid_dongle hid lib stack) 0xae 2 0 1 (path_bytes index) out text
          (omega arith) (omega arith) (init_dongle_lem ready) (get_first_dongle_lem opens)
          session in
      rw (get_account_derivation_path-path_bytes index) (rw runs (rw (exit-close_lem d4, key) refl))
