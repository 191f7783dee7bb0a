-- ===== src/Ledger/Device.antt =====
-- ledger/dongleComm.c over the HID library: what the commands use of a device.
use libaergo.Base.{ℕ, List, if◌then◌else◌}
use libaergo.Ledger.Hid.{Hid, Library, Pointers, init_hidapi, get_first_dongle, send_apdu_hidapi}
use libaergo.Ledger.Api.{Dongle}

module _ {D : Type 0} (hid : Hid D) where
  -- closeDongleHidapi and exitHidapi, which do nothing where the library is not loaded.
  unfoldable pub close_dongle_hidapi : Pointers × D → Pointers × D
  close_dongle_hidapi (p, d) = (p, if p.close then hid.hid_close d else d)

  unfoldable pub exit_hidapi : Pointers × D → Pointers × D
  exit_hidapi (p, d) = (p, if p.exit then hid.hid_exit d else d)

  -- `stack` is what the buffer of sendApduHidapi holds when it is called.
  unfoldable pub hid_dongle : Library → List ℕ → Dongle (Pointers × D)
  unfolding close_dongle_hidapi exit_hidapi
  hid_dongle lib stack = record {
    init_dongle = λ s error.
        let (p, d, error', ready) = init_hidapi hid lib s.0 s.1 error in ((p, d), error', ready);
    get_first_dongle = λ s. let (d, found) = get_first_dongle hid s.1 in ((s.0, d), found);
    send_apdu_dongle =
        λ s apdu out. let (d, reply) = send_apdu_hidapi hid s.1 apdu stack out in ((s.0, d), reply);
    close_dongle = close_dongle_hidapi;
    exit_dongle = exit_hidapi;
  }
