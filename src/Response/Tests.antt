-- ===== src/Response/Tests.antt =====
-- Runs of the callbacks on a handler that keeps the messages it gets.
use libaergo.Base.{
  ℕ, ◌≡◌, ◌≢◌, refl, arith, Bool, true, false, none, some, List, All, [], ◌∷◌, ◌++◌, inl, inr,
}
use libaergo.Response.{
  Rx, Handlers, returned, running, content_size, server_response_callback, server_header_callback,
  grpc_message, crlf,
}
use libaergo.Response.Headers.{Reported, server_header_callback-line}
use libaergo.Base.Text.{codes}
use libaergo.Response.Rounds.{IsMessage, IsPart, HasMemory, waiting}
use libaergo.Response.Delivery.{handle_all, server_response_callback-delivers}
use libaergo.Response.Failures.{
  first_remaining, server_response_callback_no_memory, server_response_callback_wrapped,
}
use libaergo.Response.Stream.{Cuts, end, part, feed, feed-delivers}

abbrev log_handlers : Bool → Handlers (List (List ℕ))
log_handlers memory = record {
  process_response = λ log bytes. (log ++ (bytes ∷ []), true);
  process_error = some (λ log text. (log ++ (text ∷ []), false));
  malloc = λ n. memory;
  reread = λ text. text;
}

abbrev fresh : Rx
fresh = record {
  response = none;
  response_size = 0;
  remaining_size = 0;
  received = 0;
  processed = false;
  success = false;
  error_msg = none;
}

abbrev message_a : List ℕ
message_a = 0 ∷ 0 ∷ 0 ∷ 0 ∷ 1 ∷ 7 ∷ []

abbrev part_b : List ℕ
part_b = 0 ∷ 0 ∷ 0 ∷ 0 ∷ 2 ∷ 8 ∷ []

abbrev message_b : List ℕ
message_b = 0 ∷ 0 ∷ 0 ∷ 0 ∷ 2 ∷ 8 ∷ 9 ∷ []

abbrev huge : List ℕ
huge = 0 ∷ 255 ∷ 255 ∷ 255 ∷ 251 ∷ 1 ∷ []

message_a-IsMessage : IsMessage message_a
unfolding content_size
message_a-IsMessage = record { sized = refl; fits = omega arith }

message_b-IsMessage : IsMessage message_b
unfolding content_size
message_b-IsMessage = record { sized = refl; fits = omega arith }

part_b-IsPart : IsPart part_b
unfolding content_size
part_b-IsPart = record { header = omega arith; short = omega arith; fits = omega arith }

parts_b : Cuts part_b ((9 ∷ []) ∷ []) (message_b ∷ []) []
parts_b =
    part (message_b ∷ []) (inr part_b-IsPart) (λ e. cc) (message_b-IsMessage, tt) refl
      (end [] (inl refl))

parts_ab : Cuts [] ((message_a ++ part_b) ∷ (9 ∷ []) ∷ []) (message_a ∷ message_b ∷ []) []
parts_ab = part (message_a ∷ []) (inl refl) (λ e. cc) (message_a-IsMessage, tt) refl parts_b

has_memory : HasMemory (log_handlers true)
has_memory n = refl

huge_size : content_size huge ≡ 4294967291
unfolding content_size
huge_size = refl

server_response_callback-delivers_example :
    server_response_callback (log_handlers true) 2 (waiting fresh []) [] (message_a ++ part_b)
    ≡ returned
        (waiting (handle_all (log_handlers true) fresh [] (message_a ∷ [])).0 part_b)
        (handle_all (log_handlers true) fresh [] (message_a ∷ [])).1
        12
server_response_callback-delivers_example =
    server_response_callback-delivers (log_handlers true) (message_a ∷ []) 2 fresh [] []
      (message_a ++ part_b) part_b has_memory (inl refl) (inr part_b-IsPart)
      (message_a-IsMessage, tt) (λ e. cc) refl (omega arith)

feed-delivers_example :
    feed (log_handlers true) 3 (waiting fresh []) [] ((message_a ++ part_b) ∷ (9 ∷ []) ∷ [])
    ≡ returned
        (waiting (handle_all (log_handlers true) fresh [] (message_a ∷ message_b ∷ [])).0 [])
        (handle_all (log_handlers true) fresh [] (message_a ∷ message_b ∷ [])).1
        0
feed-delivers_example =
    feed-delivers (log_handlers true) 3 fresh [] has_memory parts_ab (omega arith)

server_response_callback_no_memory_example :
    (rx' : Rx) × (w' : List (List ℕ)) × (server_response_callback
        (log_handlers false)
        1
        (waiting fresh [])
        []
        message_a
      ≡ returned rx' w' 0)
    × Reported
        (log_handlers false).process_error
        (record (waiting fresh []) { remaining_size = first_remaining message_a })
        []
        (codes "out of memory")
        (rx', w')
server_response_callback_no_memory_example =
    server_response_callback_no_memory (log_handlers false) 0 fresh [] message_a refl (omega arith)
      (λ n. refl)

server_response_callback_wrapped_example :
    server_response_callback (log_handlers true) 9 (waiting fresh []) [] huge ≡ running
server_response_callback_wrapped_example =
    server_response_callback_wrapped (log_handlers true) 9 fresh [] huge has_memory (omega arith)
      huge_size

not_found_line : All (λ (c : ℕ). c ≢ 13) (codes "no")
not_found_line = (λ e. omega arith, (λ e. omega arith, tt))

no_zero : All (λ (c : ℕ). c ≢ 0) (codes "no")
no_zero = (λ e. omega arith, (λ e. omega arith, tt))

server_header_callback-line_example :
    let (rx', w', n) =
      server_header_callback (log_handlers true) fresh [] (grpc_message ++ (codes "no" ++ crlf)) in
    Reported (log_handlers true).process_error fresh [] (codes "no") (rx', w') × (n ≡ 18)
server_header_callback-line_example =
    server_header_callback-line (log_handlers true) fresh [] (codes "no") refl (λ e. cc)
      not_found_line no_zero
