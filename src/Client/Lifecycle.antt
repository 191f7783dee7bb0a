-- ===== src/Client/Lifecycle.antt =====
-- aergo.c and socket.c: making and freeing an instance, and the function that a user of asynchronous
-- calls runs. secp256k1 is a parameter.
use libaergo.Base.{
  ℕ, zero, suc, ◌<◌, ◌≡◌, refl, arith, Bool, true, Option, none, some, List, [], ◌∷◌, length, ltb,
  ◌==◌, if◌then◌else◌,
}
use libaergo.Engine.{Request, Instance, free_request, remove}
use libaergo.Engine.Process.{Env, Run, done, fault, Finished, Round, process_requests}
use libaergo.Client.Account.{Wallet}

-- `struct aergo`, less libcurl's handle and the context of secp256k1.
pub record Connection : Type 0 where
  pub host : List ℕ
  pub port : ℕ
  pub timeout : ℕ
  pub instance : Instance

-- host has 32 bytes, and strcpy does not test it; the result `none` is NULL.
unfoldable pub aergo_connect : Bool → ℕ → List ℕ → ℕ → Run (Option Connection)
aergo_connect allocated next_id host port =
    if allocated
    then if ltb (length host) 32
      then done (
          some (record {
            host = host;
            port = port;
            timeout = 5000;
            instance = record { requests = []; next_id = next_id; transfers = 0; notices = [] };
          }))
      else fault
    else done none

-- while (instance->requests)
unfoldable pub free_all : ℕ → Instance → Option Instance
unfolding free_request
free_all zero s = none
free_all (suc fuel) s = elim s.requests [
  | [] ↦ some s
  | (id, r) ∷ rs ↦ free_all fuel (free_request id s)
]

unfoldable pub aergo_free : Instance → Option Instance
unfolding free_all
aergo_free s = free_all (suc (length s.requests)) s

unfoldable pub aergo_check_privkey : (List ℕ → Bool) → Wallet → Bool
aergo_check_privkey seckey_verify w = seckey_verify w.account.privkey

unfoldable pub aergo_process_requests : Env → ℕ → Instance → List Round → Run Finished
aergo_process_requests env fuel s schedule = process_requests env fuel none s schedule

free_all-empty :
    (requests : List (ℕ × Request)) (s : Instance) (fuel : ℕ)
    → length requests < fuel
    → free_all fuel (record s { requests = requests }) ≡ some (record s { requests = [] })
unfolding free_all free_request remove
free_all-empty requests s zero h = absurd (omega arith)
free_all-empty [] s (suc fuel) h = refl
free_all-empty ((id, r) ∷ rs) s (suc fuel) h =
    let first : (id == id) ≡ true = ground arith in
    rw (first, remove) (free_all-empty rs s fuel (omega (arith, h)))

-- aergo_free frees every request of an instance.
pub aergo_free-empty : (s : Instance) → aergo_free s ≡ some (record s { requests = [] })
unfolding aergo_free
aergo_free-empty s = free_all-empty s.requests s (suc (length s.requests)) (omega arith)
