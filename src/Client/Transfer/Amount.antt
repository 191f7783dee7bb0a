-- ===== src/Client/Transfer/Amount.antt =====
-- The amount of aergo_transfer_int.
use libaergo.Base.{
  ℕ, ◌+◌, ◌-◌, ◌*◌, ◌^◌, ◌≤◌, ◌<◌, ◌≡◌, refl, ap, sym, ◌∙◌, arith, Bool, false, Option, some, List,
  ◌∷◌, ◌++◌, length, take, replicate, ltb, le→ltb, length-append, length-map, length-replicate,
  take_all, All-append, All-replicate,
}
use libaergo.Base.Bytes.{be_value, value_from}
use libaergo.Sha256.{Ctx}
use libaergo.Encode.{Message}
use libaergo.Engine.{Instance}
use libaergo.Engine.Process.{Env, Round}
use libaergo.Transaction.{Crypto}
use libaergo.Convert.{Mpi}
use libaergo.Convert.Numbers.{
  IsDigit, IsDocumented, ascii, dec_value, value_from-append, dec_value-zeros,
}
use libaergo.Convert.Amounts.{amount, string_to_bignum-amount, ascii-append, ascii-replicate}
use libaergo.Convert.Digits.{print_number, print_number-digits}
use libaergo.Client.Account.{Wallet, KeySource}
use libaergo.Client.Transfer.{aergo_transfer_bignum_async}
use libaergo.Client.Transfer.Wrappers.{
  amount_of, int_amount, aergo_transfer_str_async, aergo_transfer_int_async,
}

-- The decimals with zeros in front.
abbrev decimals : ℕ → List ℕ
decimals n = replicate (18 - length (print_number n)) 0 ++ print_number n

length-decimals : (n : ℕ) → n < 10 ^ 18 → length (decimals n) ≡ 18
length-decimals n h =
    let (_, _, _, least) = print_number-digits n in
    omega (
      arith,
      least 18 (omega arith) h,
      length-append (replicate (18 - length (print_number n)) 0) (print_number n),
      length-replicate {A = ℕ} (18 - length (print_number n)) 0,
    )

int_amount-amount :
    (integer decimal : ℕ)
    → integer < 10 ^ 16
    → decimal < 10 ^ 18
    → int_amount integer decimal ≡ amount (print_number integer) (some (decimals decimal))
unfolding int_amount
int_amount-amount integer decimal small low =
    let (_, _, _, least) = print_number-digits integer in
    let short = least 16 (omega arith) small in
    let whole : List ℕ = ascii (print_number integer) in
    let last : List ℕ = print_number decimal in
    let behind : List ℕ = ascii last in
    let size : length behind ≡ length last = length-map (λ (d : ℕ). 48 + d) last in
    let padded : replicate (18 - length behind) 48 ++ behind ≡ ascii (decimals decimal) =
      ap (λ (n : ℕ). replicate (18 - n) 48 ++ behind) size
      ∙ ap (λ t. t ++ behind) (sym (ascii-replicate (18 - length last)))
      ∙ sym (ascii-append (replicate (18 - length last) 0) last) in
    ap (λ t. take 35 (whole ++ (46 ∷ t))) padded
    ∙ take_all 35 (amount (print_number integer) (some (decimals decimal))) (
        omega (
          arith,
          short,
          length-append whole (46 ∷ ascii (decimals decimal)),
          length-map (λ (d : ℕ). 48 + d) (print_number integer),
          length-map (λ (d : ℕ). 48 + d) (decimals decimal),
          length-decimals decimal low,
        ))

dec_value-decimals : (n : ℕ) → dec_value (decimals n) ≡ n
dec_value-decimals n =
    let (_, val, _, _) = print_number-digits n in
    let k = 18 - length (print_number n) in
    value_from-append 10 0 (replicate k 0) (print_number n)
    ∙ ap (λ (m : ℕ). value_from 10 m (print_number n)) (dec_value-zeros k)
    ∙ val

-- With mbedtls as documented: aergo_transfer_int_async with fewer than 10 ^ 16 whole units and
-- fewer than 10 ^ 18 of the smallest ones is aergo_transfer_bignum_async with an amount of at most
-- 15 bytes that stand for all of them in the smallest unit.
pub aergo_transfer_int_async-bignum :
    {V : Type 0} (mpi : Mpi V) (doc : IsDocumented mpi) (env : Env)
    (pb_encode : ℕ → Message → Option (List ℕ)) (fuel : ℕ) (source : KeySource) (hash : List ℕ)
    (crypto : Crypto) (junk : Ctx) (cb : Bool) (w : Wallet) (to_account : Option (List ℕ))
    (integer decimal : ℕ) (s : Instance) (schedule : List Round)
    → integer < 10 ^ 16
    → decimal < 10 ^ 18
    → (bytes : List ℕ) × (aergo_transfer_int_async env pb_encode fuel source hash crypto junk mpi cb
          w to_account integer decimal s schedule
        ≡ aergo_transfer_bignum_async env pb_encode fuel source hash crypto junk cb w to_account
            (some bytes)
            s
            schedule)
      × (be_value bytes ≡ integer * 10 ^ 18 + decimal)
      × (length bytes ≤ 15)
unfolding aergo_transfer_int_async aergo_transfer_str_async amount_of
aergo_transfer_int_async-bignum mpi doc env pb_encode fuel source hash crypto junk cb w to_account
      integer decimal s schedule small low =
    let (digits, val, _, least) = print_number-digits integer in
    let (digits', _, _, _) = print_number-digits decimal in
    let ds : List ℕ = decimals decimal in
    let size = length-decimals decimal low in
    let (bytes, reads, val', _, few) =
      string_to_bignum-amount mpi doc (print_number integer) (some ds) digits
        (All-append IsDigit (replicate (18 - length (print_number decimal)) 0)
          (print_number decimal)
          (All-replicate IsDigit (18 - length (print_number decimal)) 0 (omega arith)) digits')
        (omega (arith, least 16 (omega arith) small)) in
    let fits : ltb 16 (length bytes) ≡ false = le→ltb 16 (length bytes) (omega (arith, few)) in
    let cut : take 18 ds ≡ ds = take_all 18 ds (omega (arith, size)) in
    let scale : dec_value (take 18 ds) * 10 ^ (18 - length ds) ≡ decimal =
      ap (λ t. dec_value t * 10 ^ (18 - length ds)) cut
      ∙ ap (λ (n : ℕ). dec_value ds * 10 ^ (18 - n)) size
      ∙ omega (arith, dec_value-decimals decimal) in
    let whole : dec_value (print_number integer) * 10 ^ 18 ≡ integer * 10 ^ 18 =
      ap (λ (n : ℕ). n * 10 ^ 18) val in
    (
      bytes,
      rw (int_amount-amount integer decimal small low) (rw reads (rw fits refl)),
      omega (arith, val', scale, whole),
      few,
    )
