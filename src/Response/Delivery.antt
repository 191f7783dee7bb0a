-- ===== src/Response/Delivery.antt =====
-- A call of server_response_callback on a part of a response.
use libaergo.Base.{ℕ, zero, suc, ◌≤◌, ◌<◌, ◌≡◌, ◌≢◌, inl, inr, refl, ap, sym, ◌∙◌}
use libaergo.Base.{true, List, [], ◌∷◌, ◌++◌, ltb}
use libaergo.Base.{length, arith, All, append_assoc}
use libaergo.Base.{flatten, split_prefix, append-eq-nil}
use libaergo.Response.{Rx, Handlers, Outcome, returned, stop, again}
use libaergo.Response.{content_size}
use libaergo.Response.{response_round, response_loop, server_response_callback}
use libaergo.Response.Rounds.{
  IsMessage, IsPending, waiting, finished, HasMemory, content_size-append, after, round_whole,
  round_more,
}

module _ {W : Type 0} (handlers : Handlers W) where
  open handlers use {process_response}

  -- What a request and the program are after messages were processed in order.
  unfoldable pub handle_all : Rx → W → List (List ℕ) → Rx × W
  handle_all rx w [] = (rx, w)
  handle_all rx w (f ∷ fs) = let (w', b) = process_response w f in handle_all (finished rx b) w' fs

  pub loop_stop :
      (fuel : ℕ) (rx : Rx) (w : W) (n : ℕ) (c : List ℕ) {o : Outcome W}
      → response_round handlers rx w n c ≡ stop o
      → response_loop handlers (suc fuel) rx w n c ≡ o
  unfolding response_loop
  loop_stop fuel rx w n c e = rw (e, response_loop) refl

  pub loop_again :
      (fuel : ℕ) (rx : Rx) (w : W) (n : ℕ) (c : List ℕ) {rx' : Rx} {w' : W} {c' : List ℕ}
      → response_round handlers rx w n c ≡ again rx' w' c'
      → response_loop handlers (suc fuel) rx w n c ≡ response_loop handlers fuel rx' w' n c'
  unfolding response_loop
  loop_again fuel rx w n c e = rw (e, response_loop) refl

  pending_start :
      (p c f g : List ℕ) → IsPending p → IsMessage f → p ++ c ≡ f ++ g → length p ≤ length f
  pending_start p c f g (inl e) message cut = rw e (omega arith)
  pending_start p c f g (inr part) message cut = omega (
    arith,
    part.short,
    message.sized,
    content_size-append p c part.header,
    content_size-append f g (omega (arith, message.sized)),
    ap content_size cut,
  )

  round_head :
      (rx : Rx) (w : W) (n : ℕ) (p q f c g : List ℕ)
      → HasMemory handlers
      → IsPending p
      → IsMessage f
      → f ≡ p ++ q
      → c ≡ q ++ g
      → response_round handlers (waiting rx p) w n c ≡ after handlers rx w f n g
  round_head rx w n p q f c g memory hp hf ef ec =
      ap (response_round handlers (waiting rx p) w n) ec
      ∙ round_whole handlers rx w n p q g memory hp (rw ef at hf)
      ∙ ap (λ x. after handlers rx w x n g) (sym ef)

  flatten-eq-nil : (fs : List (List ℕ)) → All IsMessage fs → flatten fs ≡ [] → fs ≡ []
  flatten-eq-nil [] h e = refl
  flatten-eq-nil ([] ∷ fs) (m, h) e = absurd (omega (arith, m.sized))
  flatten-eq-nil ((x ∷ f) ∷ fs) h e = cc

  -- The loop after a whole message, with `g` left.
  loop_after :
      (fs : List (List ℕ)) (fuel : ℕ) (rx0 rx : Rx) (w0 w : W) (n : ℕ) (f c g r : List ℕ)
      → All IsMessage fs
      → response_round handlers rx0 w0 n c ≡ after handlers rx w f n g
      → g ≡ flatten fs ++ r
      → let (w', b) = process_response w f in
        let rx' : Rx = finished rx b in
        (g ≢ []
          → response_loop handlers fuel (waiting rx' []) w' n g
            ≡ returned (waiting (handle_all rx' w' fs).0 r) (handle_all rx' w' fs).1 n)
        → response_loop handlers (suc fuel) rx0 w0 n c
          ≡ returned (waiting (handle_all rx' w' fs).0 r) (handle_all rx' w' fs).1 n
  unfolding after handle_all
  loop_after fs fuel rx0 rx w0 w n f c [] r hfs e eg ih =
      let (e1, e2) = append-eq-nil (flatten fs) r (sym eg) in
      rw (flatten-eq-nil fs hfs e1, e2) (loop_stop fuel rx0 w0 n c e)
  loop_after fs fuel rx0 rx w0 w n f c (y ∷ g) r hfs e eg ih =
      let more : ltb 0 (suc (length g)) ≡ true = ground arith in
      loop_again fuel rx0 w0 n c (e ∙ rw more refl) ∙ ih (λ x. cc)

  response_loop-delivers :
      (fs : List (List ℕ)) (fuel : ℕ) (rx : Rx) (w : W) (n : ℕ) (p c r : List ℕ)
      → HasMemory handlers
      → IsPending p
      → IsPending r
      → All IsMessage fs
      → c ≢ []
      → p ++ c ≡ flatten fs ++ r
      → length fs < fuel
      → response_loop handlers fuel (waiting rx p) w n c
        ≡ returned (waiting (handle_all rx w fs).0 r) (handle_all rx w fs).1 n
  unfolding response_loop handle_all
  response_loop-delivers fs zero rx w n p c r memory hp hr hfs ne e h = absurd (omega arith)
  response_loop-delivers [] (suc fuel) rx w n p c r memory hp (inl e') hfs ne e h =
      absurd (ne (append-eq-nil p c (e ∙ e')).1)
  response_loop-delivers [] (suc fuel) rx w n p c r memory hp (inr part) hfs ne e h =
      loop_stop fuel _ w n c (round_more handlers rx w n p c memory hp (rw (← e) at part))
      ∙ rw e refl
  response_loop-delivers (f ∷ fs) (suc fuel) rx w n p c r memory hp hr (hf, hfs) ne e h =
      let e' : p ++ c ≡ f ++ (flatten fs ++ r) = e ∙ append_assoc f (flatten fs) r in
      let (q, ef, ec) =
        split_prefix p c f (flatten fs ++ r) e' (pending_start p c f (flatten fs ++ r) hp hf e') in
      loop_after fs fuel (waiting rx p) rx w w n f c (flatten fs ++ r) r hfs
        (round_head rx w n p q f c (flatten fs ++ r) memory hp hf ef ec) refl
        (λ ne'.
          response_loop-delivers fs fuel (finished rx (process_response w f).1)
            (process_response w f).0 n [] (flatten fs ++ r) r memory (inl refl) hr hfs ne' refl
            (omega arith))

  -- One call of server_response_callback, where malloc gives every block: if `p`, nothing or a part
  -- of a message with its size in it, was received before, and `p` and the contents, which are not
  -- empty, are together the whole messages `fs`, each of a size that an int holds, and then `r`,
  -- again nothing or such a part, then with more fuel than there are messages the call returns the
  -- length of the contents, the handler got the messages one by one in their order, and the request
  -- is left holding `r`.
  pub server_response_callback-delivers :
      (fs : List (List ℕ)) (fuel : ℕ) (rx : Rx) (w : W) (p contents r : List ℕ)
      → HasMemory handlers
      → IsPending p
      → IsPending r
      → All IsMessage fs
      → contents ≢ []
      → p ++ contents ≡ flatten fs ++ r
      → length fs < fuel
      → server_response_callback handlers fuel (waiting rx p) w contents
        ≡ returned (waiting (handle_all rx w fs).0 r) (handle_all rx w fs).1 (length contents)
  unfolding server_response_callback
  server_response_callback-delivers fs fuel rx w p contents =
      response_loop-delivers fs fuel rx w (length contents) p contents
