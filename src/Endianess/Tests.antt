-- ===== src/Endianess/Tests.antt =====
-- Integers of 4 and 8 bytes.
use libaergo.Base.{◌≡◌, arith}
use libaergo.Endianess.{le_bytes, copy_be64, be64, copy_be64-be64}

copy_be64_run : copy_be64 (le_bytes 8 72623859790382856) ≡ be64 72623859790382856
copy_be64_run = copy_be64-be64 72623859790382856 (omega arith)
