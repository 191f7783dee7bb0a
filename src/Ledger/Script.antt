-- ===== src/Ledger/Script.antt =====
-- A device for runs: it takes every report, and gives the reports of a list.
use libaergo.Base.{ℕ, true, Option, none, some, List, [], ◌∷◌}
use libaergo.Base.Text.{codes}
use libaergo.Ledger.Hid.{Hid, Library}

abbrev read_script : List (List ℕ) → List (List ℕ) × Option (List ℕ)
read_script [] = ([], none)
read_script (report ∷ reports) = (reports, some report)

abbrev pub script : Hid (List (List ℕ))
script = record {
  hid_init = λ d. (d, true);
  hid_exit = λ d. d;
  hid_open = λ d vid pid. (d, true);
  hid_close = λ d. d;
  hid_write = λ d report. (d, true);
  hid_read_timeout = λ d n. read_script d;
}

abbrev pub no_library : Library
no_library = record { opens = λ name. true; has = λ name. true; message = codes "none" }
