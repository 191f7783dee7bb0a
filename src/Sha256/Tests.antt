-- ===== src/Sha256/Tests.antt =====
-- The digest of "abc".
use libaergo.Base.{ℕ, ◌≡◌, refl, arith, List, [], replicate}
use libaergo.Base.Text.{codes}
use libaergo.Sha256.Compress.{compress}
use libaergo.Sha256.{Ctx, sha256}
use libaergo.Sha256.Stream.{digest_of}
use libaergo.Sha256.Final.{sha256-digest}

abbrev junk : Ctx
junk = record { buffer = replicate 64 7; datalen = 5; bitlen = 6; state = [] }

digest : List ℕ
unfolding sha256 compress
digest = sha256 junk (codes "abc")

sha256-digest_example : sha256 junk (codes "abc") ≡ digest_of (codes "abc")
sha256-digest_example = sha256-digest junk (codes "abc") refl (omega arith)
