-- ===== src/Response/Rounds.antt =====
-- One round of server_response_callback: a message that is complete, and a part of one.
use libaergo.Base.{ℕ, ◌+◌, ◌-◌, ◌%◌, ◌^◌, ◌≤◌, ◌<◌, ◌≡◌, ◌≢◌, ◌⊎◌, inl, inr, refl, sym}
use libaergo.Base.{
  Bool, true, false, Option, none, some, List, [], ◌∷◌, ◌++◌, ltb, ◌==◌, if◌then◌else◌,
}
use libaergo.Base.{length, arith}
use libaergo.Base.{length-append, take-append_le}
use libaergo.Base.{take_all, take-length_append, drop-length_append}
use libaergo.Response.{Block, Rx, Handlers, returned, Round, stop, again}
use libaergo.Response.{content_size, as_size, complete, append_part, first_part, next_part}
use libaergo.Response.{response_round}

-- The size of the message whose first bytes these are.
abbrev pub message_size : List ℕ → ℕ
message_size xs = content_size xs + 5

-- A whole message, with a size that an int holds.
pub record IsMessage (f : List ℕ) : Type 0 where
  pub sized : length f ≡ message_size f
  pub fits : message_size f < 2 ^ 31

-- The first bytes of a message that is not whole, its size among them.
pub record IsPart (p : List ℕ) : Type 0 where
  pub header : 5 ≤ length p
  pub short : length p < message_size p
  pub fits : message_size p < 2 ^ 31

-- What a request has received of the next message: nothing, or a part.
abbrev pub IsPending : List ℕ → Type 0
IsPending p = (p ≡ []) ⊎ IsPart p

-- The request between two calls, having received `p` of the next message.
unfoldable pub waiting : Rx → List ℕ → Rx
waiting rx [] = record rx { response = none; response_size = 0; remaining_size = 0; received = 0 }
waiting rx (x ∷ xs) =
    let p : List ℕ = x ∷ xs in
    record rx {
      response = some (record { capacity = message_size p; bytes = p });
      response_size = length p;
      remaining_size = message_size p - length p;
      received = length p;
    }

abbrev block : ℕ → List ℕ → Block
block m p = record { capacity = m; bytes = p }

-- In the midst of a message, `p` received and `left` to come.
abbrev receiving : Rx → Option Block → List ℕ → ℕ → Rx
receiving rx r p left = record rx {
  response = r;
  response_size = length p;
  remaining_size = left;
  received = length p;
}

-- The flags after a message was processed.
abbrev pub finished : Rx → Bool → Rx
finished rx b = record rx { processed = true; success = b }

pub content_size-append :
    (xs ys : List ℕ) → 5 ≤ length xs → content_size (xs ++ ys) ≡ content_size xs
unfolding content_size
content_size-append [] ys h = absurd (omega arith)
content_size-append (x ∷ xs) ys h = rw (take-append_le 4 xs ys (omega arith))

module _ {W : Type 0} (handlers : Handlers W) where
  open handlers use {process_response, malloc}

  -- Every block that is asked for is given.
  abbrev pub HasMemory : Type 0
  HasMemory = (n : ℕ) → malloc n ≡ true

  unfoldable pub after : Rx → W → List ℕ → ℕ → List ℕ → Round W
  after rx w f n rest =
      let (w', b) = process_response w f in
      let rx' : Rx = waiting (finished rx b) [] in
      if ltb 0 (length rest) then again rx' w' rest else stop (returned rx' w' n)

  -- The last part of a message, and one that is not the last.
  module _ (rx : Rx) (w : W) (n m : ℕ) (p q : List ℕ) (r : Option Block) (fits : m < 2 ^ 31) where
    append_part_whole :
        (rest : List ℕ)
        → length p + length q ≡ m
        → append_part handlers (receiving rx r p 0) w (block m p) n (length q) (q ++ rest)
          ≡ after rx w (p ++ q) n rest
    unfolding append_part complete waiting after
    append_part_whole rest e =
        let e' : (length p + length q) % 2 ^ 32 ≡ length (p ++ q) =
          omega (arith, length-append p q) in
        let room : ltb m (length p + length q) ≡ false = ground arith in
        rw
          (
            room,
            e',
            take-length_append q rest,
            drop-length_append q rest,
            take_all (length p) p (omega arith),
            take_all (length (p ++ q)) (p ++ q) (omega arith),
          )
          refl

    append_part_more :
        (left : ℕ)
        → left ≢ 0
        → length p + length q ≤ m
        → append_part handlers (receiving rx r p left) w (block m p) n (length q) q
          ≡ stop (returned (receiving rx (some (block m (p ++ q))) (p ++ q) left) w n)
    unfolding append_part complete
    append_part_more left more h =
        let e' : (length p + length q) % 2 ^ 32 ≡ length (p ++ q) =
          omega (arith, length-append p q) in
        let room : ltb m (length p + length q) ≡ false = ground arith in
        let go : (left == 0) ≡ false = ground arith in
        rw (room, e', go, take_all (length q) q (omega arith), take_all (length p) p (omega arith))
          refl

  -- A part of which `k` bytes belong to the message: what is left of it, and of the part.
  split_left : (k size : ℕ) → k ≤ size → (if ltb k size then 0 else k - size) ≡ 0
  split_left k size h = ground arith

  split_taken : (k size : ℕ) → k ≤ size → (if ltb k size then k else size) ≡ k
  split_taken k size h = ground arith

  first_part_whole :
      (rx : Rx) (w : W) (n : ℕ) (q rest : List ℕ)
      → HasMemory
      → IsMessage q
      → first_part handlers (waiting rx []) w n (q ++ rest) ≡ after rx w q n rest
  unfolding first_part waiting
  first_part_whole rx w n q rest memory message =
      let le : message_size q ≤ length (q ++ rest) =
        omega (arith, length-append q rest, message.sized) in
      let same : content_size (q ++ rest) ≡ content_size q =
        content_size-append q rest (omega (arith, message.sized)) in
      let wrap : message_size q % 2 ^ 32 ≡ length q = omega (arith, message.sized, message.fits) in
      let enough : ltb (length (q ++ rest)) 5 ≡ false =
        ground (arith, length-append q rest, message.sized) in
      rw
        (
          same,
          wrap,
          enough,
          memory (length q),
          split_left (length q) (length (q ++ rest)) (omega (arith, length-append q rest)),
          split_taken (length q) (length (q ++ rest)) (omega (arith, length-append q rest)),
        )
        (append_part_whole rx w n (length q) [] q none (omega (arith, message.fits, message.sized))
          rest (omega arith))

  next_part_whole :
      (rx : Rx) (w : W) (n x : ℕ) (xs q rest : List ℕ)
      → IsMessage ((x ∷ xs) ++ q)
      → 5 ≤ length (x ∷ xs)
      → next_part handlers
          (waiting rx (x ∷ xs))
          w
          (block (message_size (x ∷ xs)) (x ∷ xs))
          n
          (q ++ rest)
        ≡ after rx w ((x ∷ xs) ++ q) n rest
  unfolding next_part waiting
  next_part_whole rx w n x xs q rest message header =
      let p : List ℕ = x ∷ xs in
      let same : content_size p ≡ content_size (p ++ q) = sym (content_size-append p q header) in
      let sum : message_size p - length p ≡ length q =
        omega (arith, same, message.sized, length-append p q) in
      let signed : as_size (length q) ≡ length q =
        ground (arith, message.sized, message.fits, length-append p q) in
      let le : length q ≤ length (q ++ rest) = omega (arith, length-append q rest) in
      let left : (if ltb (length q) (length (q ++ rest))
            then 0
            else (length q - length (q ++ rest)) % 2 ^ 32)
          ≡ 0 =
        ground (arith, le) in
      rw (sum, signed, left, split_taken (length q) (length (q ++ rest)) le)
        (append_part_whole rx w n (message_size p) p q (some (block (message_size p) p))
          (omega (arith, message.fits, same)) rest
          (omega (arith, same, message.sized, length-append p q)))

  first_part_more :
      (rx : Rx) (w : W) (n : ℕ) (q : List ℕ)
      → HasMemory
      → IsPart q
      → first_part handlers (waiting rx []) w n q ≡ stop (returned (waiting rx q) w n)
  unfolding first_part waiting
  first_part_more rx w n [] memory part = absurd (omega (arith, part.header))
  first_part_more rx w n (y ∷ ys) memory part =
      let q : List ℕ = y ∷ ys in
      let wrap : message_size q % 2 ^ 32 ≡ message_size q = omega (arith, part.fits) in
      let enough : ltb (length q) 5 ≡ false = ground (arith, part.header) in
      let less : ltb (message_size q) (length q) ≡ false = ground (arith, part.short) in
      rw (wrap, enough, memory (message_size q), less)
        (append_part_more rx w n (message_size q) [] q none part.fits (message_size q - length q)
          (omega (arith, part.short)) (omega (arith, part.short)))

  next_part_more :
      (rx : Rx) (w : W) (n x : ℕ) (xs q : List ℕ)
      → IsPart ((x ∷ xs) ++ q)
      → 5 ≤ length (x ∷ xs)
      → next_part handlers (waiting rx (x ∷ xs)) w (block (message_size (x ∷ xs)) (x ∷ xs)) n q
        ≡ stop (returned (waiting rx ((x ∷ xs) ++ q)) w n)
  unfolding next_part waiting
  next_part_more rx w n x xs q part header =
      let p : List ℕ = x ∷ xs in
      let same : content_size (p ++ q) ≡ content_size p = content_size-append p q header in
      let signed : as_size (message_size p - length p) ≡ message_size p - length p =
        ground (arith, part.fits, same) in
      let less : ltb (message_size p - length p) (length q) ≡ false =
        ground (arith, part.short, same, length-append p q) in
      let left : (message_size p - length p - length q) % 2 ^ 32
          ≡ message_size p - length (p ++ q) =
        omega (arith, part.fits, same, length-append p q) in
      rw (signed, less, left, same)
        (append_part_more rx w n (message_size p) p q (some (block (message_size p) p))
          (omega (arith, part.fits, same)) (message_size p - length (p ++ q))
          (omega (arith, part.short, same)) (omega (arith, part.short, same, length-append p q)))

  pub round_whole :
      (rx : Rx) (w : W) (n : ℕ) (p q rest : List ℕ)
      → HasMemory
      → IsPending p
      → IsMessage (p ++ q)
      → response_round handlers (waiting rx p) w n (q ++ rest) ≡ after rx w (p ++ q) n rest
  unfolding response_round waiting
  round_whole rx w n [] q rest memory pending message =
      first_part_whole rx w n q rest memory message
  round_whole rx w n (x ∷ xs) q rest memory (inl e) message = cc
  round_whole rx w n (x ∷ xs) q rest memory (inr part) message =
      next_part_whole rx w n x xs q rest message part.header

  pub round_more :
      (rx : Rx) (w : W) (n : ℕ) (p c : List ℕ)
      → HasMemory
      → IsPending p
      → IsPart (p ++ c)
      → response_round handlers (waiting rx p) w n c ≡ stop (returned (waiting rx (p ++ c)) w n)
  unfolding response_round waiting
  round_more rx w n [] c memory pending part = first_part_more rx w n c memory part
  round_more rx w n (x ∷ xs) c memory (inl e) part = cc
  round_more rx w n (x ∷ xs) c memory (inr here) part =
      next_part_more rx w n x xs c part here.header
