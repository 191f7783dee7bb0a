-- ===== src/Client/Transfer/Wrappers.antt =====
-- aergo.c: the forms of the transfers and calls for other arguments. A double is printed by the C
-- library, a parameter; an unsigned long too large for its buffer is cut.
use libaergo.Base.{
  ℕ, ◌+◌, ◌-◌, Bool, true, false, Option, none, some, List, [], ◌∷◌, ◌++◌, length, take, replicate,
  map, ltb, if◌then◌else◌,
}
use libaergo.Sha256.{Ctx}
use libaergo.Encode.{Message}
use libaergo.Engine.{Instance}
use libaergo.Engine.Process.{Env, Run, done, fault, Finished, Round, ◌>>=◌}
use libaergo.Transaction.{Crypto}
use libaergo.Convert.{Mpi, Converted, converted, out_of_buffer, string_to_bignum}
use libaergo.Convert.Digits.{print_number}
use libaergo.Convert.Json.{Argument, Json, json, invalid, overrun, arguments_to_json}
use libaergo.Client.{aergo_query_smart_contract_json, aergo_query_smart_contract_json_async}
use libaergo.Client.Account.{Wallet, KeySource}
use libaergo.Client.Transfer.{
  Committed, not_committed, aergo_transfer_bignum, aergo_transfer_bignum_async,
  aergo_call_smart_contract__internal,
}

-- An amount of at most 16 bytes, `buf`; the result -1 is no length.
unfoldable pub amount_of : Converted → Run (Option (List ℕ))
amount_of (converted bytes) = if ltb 16 (length bytes) then fault else done (some bytes)
amount_of Converted.refused = done none
amount_of out_of_buffer = fault

-- "%" PRIu64 ".%018" PRIu64, cut to 35 bytes
unfoldable pub int_amount : ℕ → ℕ → List ℕ
int_amount integer decimal =
    let digits : ℕ → List ℕ = λ n. map (λ (d : ℕ). 48 + d) (print_number n) in
    let behind : List ℕ = digits decimal in
    take 35 (digits integer ++ (b'.' ∷ (replicate (18 - length behind) 48 ++ behind)))

-- The buffer of 512 bytes with the arguments is a C string.
abbrev pub with_arguments : {A : Type 0} → Json → A → (List ℕ → Run A) → Run A
with_arguments (json out) refused next = next (take (length out - 1) out)
with_arguments invalid refused next = done refused
with_arguments overrun refused next = fault

module _ (env : Env) (pb_encode : ℕ → Message → Option (List ℕ)) (fuel : ℕ) where
  -- No `types`, or empty ones, are the empty list.
  module _ {F : Type 0} (show_double : F → List ℕ) where
    unfoldable pub aergo_query_smart_contract :
        Option ℕ
        → Option (List ℕ)
        → Option (List ℕ)
        → List (Argument F)
        → Instance
        → List Round
        → Run Finished
    unfolding arguments_to_json aergo_query_smart_contract_json
    aergo_query_smart_contract result contract_address function [] s schedule =
        aergo_query_smart_contract_json env pb_encode fuel result contract_address function none s
          schedule
    aergo_query_smart_contract result contract_address function (a ∷ args) s schedule =
        with_arguments (arguments_to_json 512 show_double (a ∷ args))
          (record { state = s; schedule = schedule; value = none; success = false })
          (λ text.
            aergo_query_smart_contract_json env pb_encode fuel result contract_address function
              (some text) s schedule)

    unfoldable pub aergo_query_smart_contract_async :
        Bool
        → Option (List ℕ)
        → Option (List ℕ)
        → List (Argument F)
        → Instance
        → List Round
        → Run Finished
    unfolding arguments_to_json aergo_query_smart_contract_json_async
    aergo_query_smart_contract_async cb contract_address function [] s schedule =
        aergo_query_smart_contract_json_async env pb_encode fuel cb contract_address function none s
          schedule
    aergo_query_smart_contract_async cb contract_address function (a ∷ args) s schedule =
        with_arguments (arguments_to_json 512 show_double (a ∷ args))
          (record { state = s; schedule = schedule; value = none; success = false })
          (λ text.
            aergo_query_smart_contract_json_async env pb_encode fuel cb contract_address function
              (some text) s schedule)

  module _ (source : KeySource) (hash : List ℕ) (crypto : Crypto) (junk : Ctx) where
    abbrev call_internal :
        Bool
        → Bool
        → Wallet
        → Option (List ℕ)
        → Option (List ℕ)
        → Option (List ℕ)
        → Instance
        → List Round
        → Run Committed
    call_internal = aergo_call_smart_contract__internal env pb_encode fuel source hash crypto junk

    unfoldable pub aergo_call_smart_contract_json :
        Bool
        → Wallet
        → Option (List ℕ)
        → Option (List ℕ)
        → Option (List ℕ)
        → Instance
        → List Round
        → Run Committed
    unfolding aergo_call_smart_contract__internal
    aergo_call_smart_contract_json receipt w contract_address function args s schedule =
        if receipt
        then call_internal false true w contract_address function args s schedule
        else done (not_committed w s schedule false)

    unfoldable pub aergo_call_smart_contract_json_async :
        Bool
        → Wallet
        → Option (List ℕ)
        → Option (List ℕ)
        → Option (List ℕ)
        → Instance
        → List Round
        → Run Committed
    unfolding aergo_call_smart_contract__internal
    aergo_call_smart_contract_json_async cb w contract_address function args s schedule =
        if cb
        then call_internal true false w contract_address function args s schedule
        else done (not_committed w s schedule false)

    module _ {F : Type 0} (show_double : F → List ℕ) where
      unfoldable pub aergo_call_smart_contract :
          Bool
          → Wallet
          → Option (List ℕ)
          → Option (List ℕ)
          → List (Argument F)
          → Instance
          → List Round
          → Run Committed
      unfolding arguments_to_json aergo_call_smart_contract_json
      aergo_call_smart_contract receipt w contract_address function args s schedule =
          with_arguments (arguments_to_json 512 show_double args) (not_committed w s schedule false)
            (λ text.
              aergo_call_smart_contract_json receipt w contract_address function (some text) s
                schedule)

      unfoldable pub aergo_call_smart_contract_async :
          Bool
          → Wallet
          → Option (List ℕ)
          → Option (List ℕ)
          → List (Argument F)
          → Instance
          → List Round
          → Run Committed
      unfolding arguments_to_json aergo_call_smart_contract_json_async
      aergo_call_smart_contract_async cb w contract_address function args s schedule =
          with_arguments (arguments_to_json 512 show_double args) (not_committed w s schedule false)
            (λ text.
              aergo_call_smart_contract_json_async cb w contract_address function (some text) s
                schedule)

    module _ {V : Type 0} (mpi : Mpi V) where
      unfoldable pub aergo_transfer_str :
          Bool → Wallet → Option (List ℕ) → List ℕ → Instance → List Round → Run Committed
      unfolding string_to_bignum amount_of aergo_transfer_bignum
      aergo_transfer_str receipt w to_account value s schedule = do
        amount ← amount_of (string_to_bignum mpi value)
        aergo_transfer_bignum env pb_encode fuel source hash crypto junk receipt w to_account amount
            s schedule

      unfoldable pub aergo_transfer_str_async :
          Bool → Wallet → Option (List ℕ) → List ℕ → Instance → List Round → Run Committed
      unfolding string_to_bignum amount_of aergo_transfer_bignum_async
      aergo_transfer_str_async cb w to_account value s schedule = do
        amount ← amount_of (string_to_bignum mpi value)
        aergo_transfer_bignum_async env pb_encode fuel source hash crypto junk cb w to_account
            amount s schedule

      unfoldable pub aergo_transfer_int :
          Bool → Wallet → Option (List ℕ) → ℕ → ℕ → Instance → List Round → Run Committed
      unfolding int_amount aergo_transfer_str
      aergo_transfer_int receipt w to_account integer decimal =
          aergo_transfer_str receipt w to_account (int_amount integer decimal)

      unfoldable pub aergo_transfer_int_async :
          Bool → Wallet → Option (List ℕ) → ℕ → ℕ → Instance → List Round → Run Committed
      unfolding int_amount aergo_transfer_str_async
      aergo_transfer_int_async cb w to_account integer decimal =
          aergo_transfer_str_async cb w to_account (int_amount integer decimal)

      module _ {F : Type 0} (show_double : F → List ℕ) where
        unfoldable pub aergo_transfer :
            Bool → Wallet → Option (List ℕ) → F → Instance → List Round → Run Committed
        unfolding aergo_transfer_str
        aergo_transfer receipt w to_account value =
            aergo_transfer_str receipt w to_account (take 35 (show_double value))

        unfoldable pub aergo_transfer_async :
            Bool → Wallet → Option (List ℕ) → F → Instance → List Round → Run Committed
        unfolding aergo_transfer_str_async
        aergo_transfer_async cb w to_account value =
            aergo_transfer_str_async cb w to_account (take 35 (show_double value))
