-- ===== src/Convert/Printing.antt =====
-- bignum_to_string, and what string_to_bignum makes of its text.
use libaergo.Base.{
  ℕ, zero, suc, ◌+◌, ◌-◌, ◌*◌, ◌^◌, ◌≤◌, ◌<◌, ◌≡◌, refl, ap, sym, ◌∙◌, arith, false, some, List, [],
  ◌∷◌, ◌++◌, All, length, replicate, take, drop, ◌==◌, length-append, length-take, length-drop,
  length-map, length-replicate, take_all, take-append-drop, All-append, All-take, All-drop,
  All-replicate,
}
use libaergo.Base.Bytes.{IsByte, be_value, value_from}
use libaergo.Convert.{
  Mpi, converted, printed, fill_spaces, add_point, bignum_to_string, string_to_bignum, align_right,
}
use libaergo.Convert.Numbers.{
  IsDigit, ascii, dec_value, IsDocumented, value_from-append, value_from_shift, dec_value-zeros,
}
use libaergo.Convert.Amounts.{
  amount, string_to_bignum-amount, ascii-append, ascii-take, ascii-replicate,
}

ascii-drop : (n : ℕ) (xs : List ℕ) → drop n (ascii xs) ≡ ascii (drop n xs)
ascii-drop zero xs = refl
ascii-drop (suc n) [] = refl
ascii-drop (suc n) (x ∷ xs) = ascii-drop n xs

-- The spaces in front of digits become zeros, and are counted.
fill_spaces-align :
    (k : ℕ) (ds : List ℕ)
    → All IsDigit ds
    → fill_spaces (replicate k 32 ++ ascii ds) ≡ (replicate k 48 ++ ascii ds, k)
unfolding fill_spaces
fill_spaces-align zero [] h = refl
fill_spaces-align zero (d ∷ ds) (h, hs) =
    let digit : (48 + d == 32) ≡ false = ground arith in rw digit refl
fill_spaces-align (suc k) ds h = rw (fill_spaces-align k ds h) refl

-- The digits with zeros in front, 32 of them.
abbrev filled : List ℕ → List ℕ
filled ds = replicate (32 - length ds) 0 ++ ds

length-filled : (ds : List ℕ) → length ds ≤ 32 → length (filled ds) ≡ 32
length-filled ds h = omega (
  arith,
  h,
  length-append (replicate (32 - length ds) 0) ds,
  length-replicate {A = ℕ} (32 - length ds) 0,
)

add_point-filled :
    (outlen : ℕ) (ds : List ℕ)
    → All IsDigit ds
    → length ds ≤ 32
    → 34 ≤ outlen
    → add_point outlen (ascii ds)
      ≡ printed (amount (take 14 (filled ds)) (some (drop 14 (filled ds)))) 34
unfolding add_point
add_point-filled outlen ds h few room =
    let size : length (ascii ds) ≡ length ds = length-map (λ (d : ℕ). 48 + d) ds in
    let k = 32 - length ds in
    let spaces : List ℕ = replicate k 32 in
    let full = filled ds in
    let text : List ℕ = ascii (take 14 full) ++ (46 ∷ ascii (drop 14 full)) in
    let aligned : align_right (ascii ds) ≡ spaces ++ ascii ds =
      ap (λ (n : ℕ). take 35 (replicate (32 - n) 32 ++ ascii ds)) size
      ∙ take_all 35 (spaces ++ ascii ds) (
          omega
            (arith, few, size, length-append spaces (ascii ds), length-replicate {A = ℕ} k 32)) in
    let digits : replicate k 48 ++ ascii ds ≡ ascii full =
      ap (λ t. t ++ ascii ds) (sym (ascii-replicate k)) ∙ sym (ascii-append (replicate k 0) ds) in
    let fills : fill_spaces (align_right (ascii ds)) ≡ (ascii full, k) =
      ap fill_spaces aligned ∙ fill_spaces-align k ds h ∙ ap (λ t. (t, k)) digits in
    let whole : take (outlen - 1) text ≡ text = take_all (outlen - 1) text (
      omega (
        arith,
        room,
        length-append (ascii (take 14 full)) (46 ∷ ascii (drop 14 full)),
        length-map (λ (d : ℕ). 48 + d) (take 14 full),
        length-map (λ (d : ℕ). 48 + d) (drop 14 full),
        length-take 14 full,
        length-drop 14 full,
        length-filled ds few,
      )) in
    let count : length (ascii ds) + 1 + k + 1 ≡ 34 = omega (arith, size, few) in
    rw (fills, add_point) (rw (ascii-take 14 full, ascii-drop 14 full) (rw (whole, count) refl))

long_text :
    (whole decimals : List ℕ)
    → length (amount whole (some decimals)) ≡ length whole + 1 + length decimals
long_text whole decimals = omega (
  arith,
  length-append (ascii whole) (46 ∷ ascii decimals),
  length-map (λ (d : ℕ). 48 + d) whole,
  length-map (λ (d : ℕ). 48 + d) decimals,
)

module _ {V : Type 0} (mpi : Mpi V) (doc : IsDocumented mpi) where
  -- A number below 10 ^ 32 is printed, into a buffer of at least 34 bytes in which mbedtls can print
  -- it, with 14 digits before the point and 18 behind it, which are its value in units of 10 ^ -18,
  -- and the result counts these digits, the point and the terminator.
  pub bignum_to_string-amount :
      (buf : List ℕ) (outlen : ℕ)
      → All IsByte buf
      → be_value buf < 10 ^ 32
      → ((v : V) → mpi.read_binary buf ≡ some v → doc.room v ≤ outlen)
      → 34 ≤ outlen
      → (whole : List ℕ) × (decimals : List ℕ) × (bignum_to_string mpi buf outlen
          ≡ printed (amount whole (some decimals)) 34)
        × (length whole ≡ 14)
        × (length decimals ≡ 18)
        × All IsDigit whole
        × All IsDigit decimals
        × (dec_value whole * 10 ^ 18 + dec_value decimals ≡ be_value buf)
  unfolding bignum_to_string
  bignum_to_string-amount buf outlen bytes small room long =
      let (v, reads, val) = doc.read_binary-value buf bytes in
      let (ds, writes, digits, val', some_digits, least) =
        doc.write_string-digits v outlen (room v reads) in
      let few : length ds ≤ 32 = least 32 (omega arith) (omega (arith, val, small)) in
      let full = filled ds in
      let size = length-filled ds few in
      let all : All IsDigit full =
        All-append IsDigit (replicate (32 - length ds) 0) ds
          (All-replicate IsDigit (32 - length ds) 0 (omega arith)) digits in
      let back : length (drop 14 full) ≡ 18 = omega (arith, length-drop 14 full, size) in
      let split : dec_value full
          ≡ dec_value (take 14 full) * 10 ^ length (drop 14 full) + dec_value (drop 14 full) =
        ap dec_value (sym (take-append-drop 14 full))
        ∙ value_from-append 10 0 (take 14 full) (drop 14 full)
        ∙ value_from_shift (dec_value (take 14 full)) (drop 14 full) in
      let scale : dec_value (take 14 full) * 10 ^ length (drop 14 full)
          ≡ dec_value (take 14 full) * 10 ^ 18 =
        ap (λ (n : ℕ). dec_value (take 14 full) * 10 ^ n) back in
      let same : dec_value full ≡ dec_value ds =
        value_from-append 10 0 (replicate (32 - length ds) 0) ds
        ∙ ap (λ (n : ℕ). value_from 10 n ds) (dec_value-zeros (32 - length ds)) in
      (
        take 14 full,
        drop 14 full,
        rw (reads, bignum_to_string) (rw writes (add_point-filled outlen ds digits few long)),
        omega (arith, length-take 14 full, size),
        back,
        All-take IsDigit 14 full all,
        All-drop IsDigit 14 full all,
        omega (arith, split, scale, same, val, val'),
      )

  -- With mbedtls as documented: a number below 10 ^ 32 that is printed, into a buffer of at least
  -- 34 bytes in which mbedtls can print it, is a text of 33 bytes, the result 34 counting its
  -- terminator too, which converted back gives the same number.
  pub string_to_bignum-bignum_to_string :
      (buf : List ℕ) (outlen : ℕ)
      → All IsByte buf
      → be_value buf < 10 ^ 32
      → ((v : V) → mpi.read_binary buf ≡ some v → doc.room v ≤ outlen)
      → 34 ≤ outlen
      → (text : List ℕ) × (bytes : List ℕ) × (bignum_to_string mpi buf outlen ≡ printed text 34)
        × (length text ≡ 33)
        × (string_to_bignum mpi text ≡ converted bytes)
        × (be_value bytes ≡ be_value buf)
  string_to_bignum-bignum_to_string buf outlen are_bytes small room long =
      let (whole, decimals, prints, w, l, h, k, val) =
        bignum_to_string-amount buf outlen are_bytes small room long in
      let (bytes, reads, val', _, _) =
        string_to_bignum-amount mpi doc whole (some decimals) h k (omega (arith, w)) in
      let cut : take 18 decimals ≡ decimals = take_all 18 decimals (omega (arith, l)) in
      let scale : dec_value (take 18 decimals) * 10 ^ (18 - length decimals) ≡ dec_value decimals =
        ap (λ t. dec_value t * 10 ^ (18 - length decimals)) cut
        ∙ ap (λ (n : ℕ). dec_value decimals * 10 ^ (18 - n)) l
        ∙ omega arith in
      (
        amount whole (some decimals),
        bytes,
        prints,
        omega (arith, long_text whole decimals, w, l),
        reads,
        omega (arith, val', val, scale),
      )
