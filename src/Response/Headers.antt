-- ===== src/Response/Headers.antt =====
-- server_header_callback on the header line in which a server reports an error.
use libaergo.Base.{ℕ, suc, ◌≡◌, ◌≢◌, refl, ap, arith, true, false}
use libaergo.Base.{
  some, List, [], ◌∷◌, ◌++◌, ◌==◌, length, take, All, All-append, sym, length-append, none, Option,
  Bool, ◌∙◌, ◌+◌, lt→ltb, take-length_append,
}
use libaergo.Base.Text.{strstr, starts_with, c_string}
use mathlib.Core.Path.{subst}
use libaergo.Response.{
  Rx, Handlers, header_text, header_error, grpc_message, crlf, process_request_error,
  run_process_error, server_header_callback,
}

starts_with-append : (p s : List ℕ) → starts_with p (p ++ s) ≡ true
unfolding starts_with
starts_with-append [] s = refl
starts_with-append (x ∷ p) s = ground (arith, starts_with-append p s)

strstr_at_start : (needle s : List ℕ) → starts_with needle s ≡ true → strstr s needle ≡ some 0
unfolding strstr
strstr_at_start needle [] h = rw (h, strstr) refl
strstr_at_start needle (x ∷ s) h = rw (h, strstr) refl

-- A text without a carriage return ends where the line does.
strstr-crlf :
    (text : List ℕ) → All (λ c. c ≢ 13) text → strstr (text ++ crlf) crlf ≡ some (length text)
unfolding strstr starts_with
strstr-crlf [] h = refl
strstr-crlf (x ∷ text) (h, hs) =
    let no : (13 == x) ≡ false = ground (arith, h) in
    rw (no, strstr, starts_with, strstr-crlf text hs) refl

c_string-whole : (s : List ℕ) → All (λ c. c ≢ 0) s → c_string s ≡ s
unfolding c_string
c_string-whole [] h = refl
c_string-whole (c ∷ s) (h, hs) =
    let no : (c == 0) ≡ false = ground (arith, h) in rw no (ap (λ t. c ∷ t) (c_string-whole s hs))

line-c_string :
    (text : List ℕ)
    → All (λ c. c ≢ 0) text
    → c_string (grpc_message ++ (text ++ crlf)) ≡ grpc_message ++ (text ++ crlf)
unfolding c_string
line-c_string text h =
    ap (λ s. grpc_message ++ s)
      (c_string-whole (text ++ crlf)
        (All-append (λ c. c ≢ 0) text crlf h ((λ e. omega arith), (λ e. omega arith, tt))))

header_text-line :
    (text : List ℕ)
    → text ≢ []
    → All (λ c. c ≢ 13) text
    → header_text (grpc_message ++ (text ++ crlf)) ≡ some text
unfolding header_text
header_text-line [] h k = absurd (h refl)
header_text-line (x ∷ text) h k =
    let t : List ℕ = x ∷ text in
    rw
      (
        strstr_at_start grpc_message (grpc_message ++ (t ++ crlf))
            (starts_with-append grpc_message (t ++ crlf)),
        strstr-crlf t k,
      )
      (rw (lt→ltb 0 (suc (length (take (length text) (text ++ crlf)))) (omega arith))
        (ap some (take-length_append t crlf)))

pub header_error-line :
    (text : List ℕ)
    → text ≢ []
    → All (λ c. c ≢ 13) text
    → All (λ c. c ≢ 0) text
    → header_error (grpc_message ++ (text ++ crlf)) ≡ some text
unfolding header_error
header_error-line text h k z = ap header_text (line-c_string text z) ∙ header_text-line text h k

-- What is left of a request, and of the rest of the program, where an error is reported with no
-- text set before: by the handler of errors, whose value is the new `success`, if there is one.
abbrev pub Reported :
    {W : Type 0} → Option (W → List ℕ → W × Bool) → Rx → W → List ℕ → Rx × W → Type 0
Reported none rx w text (rx', w') =
    (rx' ≡ record rx { processed = true; error_msg = some text }) × (w' ≡ w)
Reported (some handle) rx w text (rx', w') =
    (rx' ≡ record rx { processed = true; error_msg = some text; success = (handle w text).1 })
    × (w' ≡ (handle w text).0)

run_process_error-Reported :
    {W : Type 0} (handle : Option (W → List ℕ → W × Bool)) (rx : Rx) (w : W) (text : List ℕ)
    → Reported handle rx w text
        (run_process_error handle (record rx { processed = true; error_msg = some text }) w text)
run_process_error-Reported none rx w text = (refl, refl)
run_process_error-Reported (some handle) rx w text = (refl, refl)

module _ {W : Type 0} (handlers : Handlers W) where
  pub process_request_error-Reported :
      (rx : Rx) (w : W) (text : List ℕ)
      → rx.error_msg ≡ none
      → Reported handlers.process_error rx w text (process_request_error handlers rx w text)
  unfolding process_request_error
  process_request_error-Reported rx w text e =
      subst
        (λ t. Reported handlers.process_error rx w text (
          run_process_error handlers.process_error
            (record rx { processed = true; error_msg = some t }) w t))
        (ap (λ o. elim o as (λ _. List ℕ) [ none ↦ text | some old ↦ handlers.reread old ]) (sym e))
        (run_process_error-Reported handlers.process_error rx w text)

  line_reported :
      (rx : Rx) (w : W) (text : List ℕ)
      → text ≢ []
      → All (λ c. c ≢ 13) text
      → All (λ c. c ≢ 0) text
      → let line : List ℕ = grpc_message ++ (text ++ crlf) in
        let (rx', w') = process_request_error handlers rx w text in
        server_header_callback handlers rx w line ≡ (rx', w', length line)
  unfolding server_header_callback
  line_reported rx w text h k z = rw (header_error-line text h k z, server_header_callback) refl

  -- A header line "grpc-message: " with a text that is not empty and has no carriage return and no
  -- zero, and then the end of the line, on a request with no error text: the request is processed,
  -- with the text as its error; the handler of errors, if there is one, gets the text, and its
  -- value is the new success of the request, which else is kept; no other field is changed, and the
  -- whole line is taken.
  pub server_header_callback-line :
      (rx : Rx) (w : W) (text : List ℕ)
      → rx.error_msg ≡ none
      → text ≢ []
      → All (λ c. c ≢ 13) text
      → All (λ c. c ≢ 0) text
      → let (rx', w', n) = server_header_callback handlers rx w (grpc_message ++ (text ++ crlf)) in
        Reported handlers.process_error rx w text (rx', w') × (n ≡ length text + 16)
  server_header_callback-line rx w text e h k z =
      subst (λ o. Reported handlers.process_error rx w text (o.0, o.1) × (o.2 ≡ length text + 16))
        (sym (line_reported rx w text h k z))
        (process_request_error-Reported rx w text e, omega (arith, length-append text crlf))
