-- ===== src/Sha256.antt =====
-- sha256.c. A uint is a number below 2 ^ 32, bitlen one below 2 ^ 64, a byte array the list of its
-- bytes.
pub mod Compress
pub mod Padding
pub mod Final
pub mod Stream
mod Tests
use libaergo.Base.{ℕ, zero, suc, ◌+◌, ◌-◌, ◌*◌, ◌/◌, ◌%◌, ◌^◌}
use libaergo.Base.{
  List, [], ◌∷◌, ◌++◌, map, ltb, ◌==◌, if◌then◌else◌, set, drop, replicate, flatten,
}
use Compress.{compress}

-- SHA256_CTX
pub record Ctx : Type 0 where
  pub buffer : List ℕ
  pub datalen : ℕ
  pub bitlen : ℕ
  pub state : List ℕ

pub sha256_transform : Ctx → List ℕ → Ctx
sha256_transform ctx block = record ctx { state = compress ctx.state block }

abbrev pub initial_state : List ℕ
initial_state =
    0x6a09e667 ∷ 0xbb67ae85 ∷ 0x3c6ef372 ∷ 0xa54ff53a ∷ 0x510e527f ∷ 0x9b05688c ∷ 0x1f83d9ab
    ∷ 0x5be0cd19 ∷ []

-- The buffer keeps what the memory held.
pub sha256_init : Ctx → Ctx
sha256_init ctx = record ctx { datalen = 0; bitlen = 0; state = initial_state }

-- The body of the loop of sha256_update.
pub update_byte : Ctx → ℕ → Ctx
unfolding sha256_transform
update_byte ctx b =
    let filled : Ctx = record ctx {
      buffer = set ctx.buffer ctx.datalen b;
      datalen = ctx.datalen + 1;
    } in
    if filled.datalen == 64
    then record (sha256_transform filled filled.buffer) {
      bitlen = (filled.bitlen + 512) % 2 ^ 64;
      datalen = 0;
    }
    else filled

pub sha256_update : Ctx → List ℕ → Ctx
unfolding update_byte
sha256_update ctx [] = ctx
sha256_update ctx (b ∷ bytes) = sha256_update (update_byte ctx b) bytes

-- data[i++] = 0x00, `rounds` times.
pub zero_from : ℕ → ℕ → List ℕ → List ℕ
zero_from zero i bytes = bytes
zero_from (suc rounds) i bytes = zero_from rounds (i + 1) (set bytes i 0)

-- The padding of what is left in the buffer.
pub pad_buffer : Ctx → Ctx
unfolding zero_from sha256_transform
pad_buffer ctx =
    let i = ctx.datalen in
    let marked : List ℕ = set ctx.buffer i 0x80 in
    let full : Ctx = record ctx { buffer = zero_from (64 - (i + 1)) (i + 1) marked } in
    if ltb i 56
    then record ctx { buffer = zero_from (56 - (i + 1)) (i + 1) marked }
    else record (sha256_transform full full.buffer) {
      buffer = replicate 56 0 ++ drop 56 full.buffer;
    }

-- data[63] down to data[56]
pub put_length : ℕ → List ℕ → List ℕ
put_length n bytes =
    set
      (set
        (set
          (set
            (set (set (set (set bytes 63 (n % 256)) 62 (n / 2 ^ 8 % 256)) 61 (n / 2 ^ 16 % 256)) 60
              (n / 2 ^ 24 % 256))
            59 (n / 2 ^ 32 % 256))
          58 (n / 2 ^ 40 % 256))
        57 (n / 2 ^ 48 % 256))
      56 (n / 2 ^ 56 % 256)

-- The four bytes of a word of the state that the last loop writes, for `i` from 0 to 3.
pub hash_word : ℕ → List ℕ
hash_word w = w / 2 ^ 24 % 256 ∷ w / 2 ^ 16 % 256 ∷ w / 2 ^ 8 % 256 ∷ w % 256 ∷ []

pub hash_bytes : List ℕ → List ℕ
unfolding hash_word
hash_bytes state = flatten (map hash_word state)

pub sha256_final : Ctx → List ℕ
unfolding pad_buffer put_length sha256_transform hash_bytes
sha256_final ctx =
    let padded : Ctx = pad_buffer ctx in
    let bitlen = (padded.bitlen + padded.datalen * 8) % 2 ^ 64 in
    let last : Ctx = record padded { bitlen = bitlen; buffer = put_length bitlen padded.buffer } in
    hash_bytes (sha256_transform last last.buffer).state

-- sha256 of account.c, where the memory for the context holds `junk`.
pub sha256 : Ctx → List ℕ → List ℕ
unfolding sha256_init sha256_update sha256_final
sha256 junk bytes = sha256_final (sha256_update (sha256_init junk) bytes)
