-- ===== src/Ledger/Api/Chunks.antt =====
-- Which APDUs ledger_send_apdu sends.
use libaergo.Base.{
  ℕ, zero, suc, ◌+◌, ◌≤◌, ◌<◌, ◌≡◌, ◌≢◌, ◌⊎◌, refl, ap, ◌∙◌, arith, true, false, Option, some, inl,
  inr, le-cases, List, [], ◌∷◌, ltb, ◌==◌, if◌then◌else◌, length, take, drop, length-drop, le→ltb,
  lt→ltb, take_all,
}
use libaergo.Ledger.Hid.{answer}
use libaergo.Ledger.Api.{
  Dongle, Sent, code, sent, flags, chunk, build_apdu, passes, pass, send_loop, ledger_send_apdu,
  after_pass,
}

-- The APDUs of a command: its data cut after each 250 bytes, the first marked by 1, the last by 2.
unfoldable pub apdus : ℕ → ℕ → ℕ → ℕ → List ℕ → List (List ℕ)
apdus zero cla ins mark bytes = []
apdus (suc fuel) cla ins mark bytes =
    let others = apdus fuel cla ins 0 (drop 250 bytes) in
    if ltb 250 (length bytes)
    then (cla ∷ ins ∷ mark ∷ 0 ∷ 250 ∷ take 250 bytes) ∷ others
    else (cla ∷ ins ∷ (mark + 2) ∷ 0 ∷ length bytes ∷ bytes) ∷ []

module _ {D : Type 0} (dongle : Dongle D) where
  -- The device confirms the APDUs one after the other, and gives data after the last.
  pub data Confirms : D → List ℕ → List (List ℕ) → D → List ℕ → List ℕ → Type 0 where
    last :
        {d d' : D} {out out' apdu message : List ℕ}
        → 0 < length message
        → dongle.send_apdu_dongle d apdu out ≡ (d', answer message 0x9000 out')
        → Confirms d out (apdu ∷ []) d' message out'
    confirm :
        {d d1 d' : D} {out out1 out' apdu message : List ℕ} {others : List (List ℕ)}
        → dongle.send_apdu_dongle d apdu out ≡ (d1, answer [] 0x9000 out1)
        → Confirms d1 out1 others d' message out'
        → Confirms d out (apdu ∷ others) d' message out'

  -- The device confirms some of the APDUs, and then asks to start again, by the status word 0x9001.
  pub data Restarts : D → List ℕ → List (List ℕ) → D → List ℕ → Type 0 where
    restart :
        {d d' : D} {out out' apdu message : List ℕ} {others : List (List ℕ)}
        → dongle.send_apdu_dongle d apdu out ≡ (d', answer message 0x9001 out')
        → Restarts d out (apdu ∷ others) d' out'
    go_on :
        {d d1 d' : D} {out out1 out' apdu : List ℕ} {others : List (List ℕ)}
        → dongle.send_apdu_dongle d apdu out ≡ (d1, answer [] 0x9000 out1)
        → Restarts d1 out1 others d' out'
        → Restarts d out (apdu ∷ others) d' out'

  -- Some restarts, as many as the number says, and then the whole command.
  pub data Session : ℕ → D → List ℕ → List (List ℕ) → D → List ℕ → List ℕ → Type 0 where
    done :
        {d d' : D} {out message out' : List ℕ} {commands : List (List ℕ)}
        → Confirms d out commands d' message out'
        → Session 0 d out commands d' message out'
    again :
        {n : ℕ} {d d1 d' : D} {out out1 message out' : List ℕ} {commands : List (List ℕ)}
        → Restarts d out commands d1 out1
        → Session n d1 out1 commands d' message out'
        → Session (suc n) d out commands d' message out'

abbrev mark_of : ℕ → ℕ
mark_of offset = if offset == 0 then 1 else 0

-- The APDU that is built, by the place of its data.
build_apdu_last :
    (cla ins datalen offset : ℕ) (left : List ℕ)
    → offset + length left ≡ datalen
    → length left ≤ 250
    → build_apdu cla ins 0 datalen offset left
      ≡ cla ∷ ins ∷ (mark_of offset + 2) ∷ 0 ∷ length left ∷ left
unfolding build_apdu flags
build_apdu_last cla ins datalen offset left e few =
    let small : ltb 250 (length left) ≡ false = le→ltb 250 (length left) few in
    let full : (offset + length left == datalen) ≡ true = ground (arith, e) in
    rw (small, full, take_all (length left) left (omega arith)) refl

build_apdu_other :
    (cla ins datalen offset : ℕ) (left : List ℕ)
    → offset + length left ≡ datalen
    → 250 < length left
    → build_apdu cla ins 0 datalen offset left
      ≡ cla ∷ ins ∷ mark_of offset ∷ 0 ∷ 250 ∷ take 250 left
unfolding build_apdu flags
build_apdu_other cla ins datalen offset left e many =
    let large : ltb 250 (length left) ≡ true = lt→ltb 250 (length left) many in
    let open_end : (offset + 250 == datalen) ≡ false = ground (arith, e, many) in
    rw (large, open_end)
      (ap (λ (n : ℕ). cla ∷ ins ∷ n ∷ 0 ∷ 250 ∷ take 250 left) {x = mark_of offset + 0}
        (omega arith))

module _ {D : Type 0} (dongle : Dongle D) (cla ins datalen : ℕ) where
  -- One APDU that the device confirms, one after which it gives data, and one after which it asks to
  -- start again.
  pass_confirmed :
      (fuel : ℕ) {d d1 : D} (offset x : ℕ) (xs : List ℕ) (sw : ℕ) {out out1 : List ℕ}
      → dongle.send_apdu_dongle d (build_apdu cla ins 0 datalen offset (x ∷ xs)) out
        ≡ (d1, answer [] 0x9000 out1)
      → pass dongle (suc fuel) cla ins 0 datalen d offset (x ∷ xs) sw out
        ≡ pass dongle fuel cla ins 0 datalen d1
            (offset + chunk (length (x ∷ xs)))
            (drop (chunk (length (x ∷ xs))) (x ∷ xs))
            0x9000
            out1
  unfolding pass
  pass_confirmed fuel offset x xs sw e = rw e refl

  pass_answered :
      (fuel : ℕ) {d d1 : D} (offset x : ℕ) (xs : List ℕ) (sw : ℕ) {message out out1 : List ℕ}
      → 0 < length message
      → dongle.send_apdu_dongle d (build_apdu cla ins 0 datalen offset (x ∷ xs)) out
        ≡ (d1, answer message 0x9000 out1)
      → pass dongle (suc fuel) cla ins 0 datalen d offset (x ∷ xs) sw out
        ≡ passes d1 (length message) 0x9000 out1
  unfolding pass
  pass_answered fuel offset x xs sw {message = message} p e =
      let some_data : (length message == 0) ≡ false = ground (arith, p) in rw e (rw some_data refl)

  pass_restarted :
      (fuel : ℕ) {d d1 : D} (offset x : ℕ) (xs : List ℕ) (sw : ℕ) {message out out1 : List ℕ}
      → dongle.send_apdu_dongle d (build_apdu cla ins 0 datalen offset (x ∷ xs)) out
        ≡ (d1, answer message 0x9001 out1)
      → pass dongle (suc fuel) cla ins 0 datalen d offset (x ∷ xs) sw out ≡ passes d1 0 0x9001 out1
  unfolding pass
  pass_restarted fuel offset x xs sw e = rw e refl

  Confirms-ne-nil :
      {d d' : D} {out message out' : List ℕ} → ¬ (Confirms dongle d out [] d' message out')
  Confirms-ne-nil c = elim c [ ]

  Confirms-cases :
      {d d' : D} {out apdu message out' : List ℕ} {others : List (List ℕ)}
      → Confirms dongle d out (apdu ∷ others) d' message out'
      → ((others ≡ [])
          × (0 < length message)
          × (dongle.send_apdu_dongle d apdu out ≡ (d', answer message 0x9000 out')))
        ⊎ ((d1 : D) × (out1 : List ℕ) × (dongle.send_apdu_dongle d apdu out
              ≡ (d1, answer [] 0x9000 out1))
            × Confirms dongle d1 out1 others d' message out')
  Confirms-cases (last some_data step) = inl (refl, some_data, step)
  Confirms-cases (confirm step others) = inr (_, _, step, others)

  apdus-ne-nil : (fuel mark : ℕ) (left : List ℕ) → 0 < fuel → apdus fuel cla ins mark left ≢ []
  unfolding apdus
  apdus-ne-nil zero mark left p e = absurd (omega (arith, p))
  apdus-ne-nil (suc fuel) mark left p e = ground arith

  apdus_last :
      (fuel offset : ℕ) (left : List ℕ)
      → offset + length left ≡ datalen
      → length left ≤ 250
      → apdus (suc fuel) cla ins (mark_of offset) left
        ≡ build_apdu cla ins 0 datalen offset left ∷ []
  unfolding apdus
  apdus_last fuel offset left e few =
      rw (le→ltb 250 (length left) few, build_apdu_last cla ins datalen offset left e few) refl

  apdus_other :
      (fuel offset : ℕ) (left : List ℕ)
      → offset + length left ≡ datalen
      → 250 < length left
      → apdus (suc fuel) cla ins (mark_of offset) left
        ≡ build_apdu cla ins 0 datalen offset left
          ∷ apdus fuel cla ins
              (mark_of (offset + chunk (length left)))
              (drop (chunk (length left)) left)
  unfolding apdus
  apdus_other fuel offset left e many =
      let later : mark_of (offset + 250) ≡ 0 = ground arith in
      rw (lt→ltb 250 (length left) many, build_apdu_other cla ins datalen offset left e many, later)
        refl

  chunk_less :
      (offset x : ℕ) (xs : List ℕ) (fuel : ℕ)
      → let left : List ℕ = x ∷ xs in
        let rest : List ℕ = drop (chunk (length left)) left in
        offset + length left ≡ datalen
        → length left < suc fuel
        → 250 < length left
        → (0 < length rest)
          × (offset + chunk (length left) + length rest ≡ datalen)
          × (length rest < fuel)
  chunk_less offset x xs fuel e f many =
      ground (arith, e, f, many, length-drop (chunk (length (x ∷ xs))) (x ∷ xs))

  -- A pass over data that the device confirms ends with what it gave for the last.
  pass-Confirms :
      (fuel : ℕ) {d d' : D} (offset : ℕ) (left : List ℕ) (sw : ℕ) {out message out' : List ℕ}
      → 0 < length left
      → offset + length left ≡ datalen
      → length left < fuel
      → Confirms dongle d out (apdus fuel cla ins (mark_of offset) left) d' message out'
      → pass dongle fuel cla ins 0 datalen d offset left sw out
        ≡ passes d' (length message) 0x9000 out'
  pass-Confirms zero offset left sw p e f c = absurd (omega arith)
  pass-Confirms (suc fuel) offset [] sw p e f c = absurd (omega arith)
  pass-Confirms (suc fuel) {d} {d'} offset (x ∷ xs) sw {out} {message} {out'} p e f c =
      let left : List ℕ = x ∷ xs in
      elim (le-cases (length left) 250) [
        | inl few ↦ elim (Confirms-cases (rw (apdus_last fuel offset left e few) at c)) [
          | inl (_, some_data, step) ↦ pass_answered fuel offset x xs sw some_data step
          | inr (d1, out1, step, others) ↦ absurd (Confirms-ne-nil others)
        ]
        | inr many ↦
            let (p', e', f') = chunk_less offset x xs fuel e f many in
            elim (Confirms-cases (rw (apdus_other fuel offset left e many) at c)) [
              | inl (no_others, _, _) ↦
                  absurd (apdus-ne-nil fuel _ _ (omega (arith, f', p')) no_others)
              | inr (d1, out1, step, others) ↦
                  pass_confirmed fuel offset x xs sw step
                  ∙ pass-Confirms fuel (offset + chunk (length left))
                      (drop (chunk (length left)) left) 0x9000 p' e' f' others
            ]
      ]

  Restarts-ne-nil : {d d' : D} {out out' : List ℕ} → ¬ (Restarts dongle d out [] d' out')
  Restarts-ne-nil c = elim c [ ]

  Restarts-cases :
      {d d' : D} {out apdu out' : List ℕ} {others : List (List ℕ)}
      → Restarts dongle d out (apdu ∷ others) d' out'
      → ((message : List ℕ) × (dongle.send_apdu_dongle d apdu out
            ≡ (d', answer message 0x9001 out')))
        ⊎ ((d1 : D) × (out1 : List ℕ) × (dongle.send_apdu_dongle d apdu out
              ≡ (d1, answer [] 0x9000 out1))
            × Restarts dongle d1 out1 others d' out')
  Restarts-cases (restart step) = inl (_, step)
  Restarts-cases (go_on step others) = inr (_, _, step, others)

  -- A pass in which the device asks to start again gives no result.
  pass-Restarts :
      (fuel : ℕ) {d d' : D} (offset : ℕ) (left : List ℕ) (sw : ℕ) {out out' : List ℕ}
      → 0 < length left
      → offset + length left ≡ datalen
      → length left < fuel
      → Restarts dongle d out (apdus fuel cla ins (mark_of offset) left) d' out'
      → pass dongle fuel cla ins 0 datalen d offset left sw out ≡ passes d' 0 0x9001 out'
  pass-Restarts zero offset left sw p e f c = absurd (omega arith)
  pass-Restarts (suc fuel) offset [] sw p e f c = absurd (omega arith)
  pass-Restarts (suc fuel) offset (x ∷ xs) sw p e f c =
      let left : List ℕ = x ∷ xs in
      elim (le-cases (length left) 250) [
        | inl few ↦ elim (Restarts-cases (rw (apdus_last fuel offset left e few) at c)) [
          | inl (_, step) ↦ pass_restarted fuel offset x xs sw step
          | inr (d1, out1, step, others) ↦ absurd (Restarts-ne-nil others)
        ]
        | inr many ↦
            let (p', e', f') = chunk_less offset x xs fuel e f many in
            elim (Restarts-cases (rw (apdus_other fuel offset left e many) at c)) [
              | inl (_, step) ↦ pass_restarted fuel offset x xs sw step
              | inr (d1, out1, step, others) ↦
                  pass_confirmed fuel offset x xs sw step
                  ∙ pass-Restarts fuel (offset + chunk (length left))
                      (drop (chunk (length left)) left) 0x9000 p' e' f' others
            ]
      ]

after_pass-some :
    {D : Type 0} (d : D) (n sw : ℕ) (out : List ℕ) (next : D → ℕ → List ℕ → D × Sent)
    → 0 < n
    → after_pass (passes d n sw out) next ≡ (d, sent (code n) (code sw) out)
after_pass-some d zero sw out next p = absurd (omega (arith, p))
after_pass-some d (suc n) sw out next p = refl

module _ {D : Type 0} (dongle : Dongle D) where
  Confirms-some :
      {d d' : D} {out message out' : List ℕ} {commands : List (List ℕ)}
      → Confirms dongle d out commands d' message out'
      → 0 < length message
  Confirms-some (last some_data step) = some_data
  Confirms-some (confirm step others) = Confirms-some others

  pub Session-some :
      {n : ℕ} {d d' : D} {out message out' : List ℕ} {commands : List (List ℕ)}
      → Session dongle n d out commands d' message out'
      → 0 < length message
  Session-some (done c) = Confirms-some c
  Session-some (again r s) = Session-some s

module _ {D : Type 0} (dongle : Dongle D) (cla ins : ℕ) where
  send_loop-Session :
      (n fuel : ℕ) {d d' : D} (bytes : List ℕ) (sw : ℕ) {out message out' : List ℕ}
      → 0 < length bytes
      → n < fuel
      → 0 < length message
      → Session dongle n d out (apdus (suc (length bytes)) cla ins 1 bytes) d' message out'
      → send_loop dongle fuel cla ins 0 bytes d sw out
        ≡ (d', sent (code (length message)) (code 0x9000) out')
  unfolding send_loop
  send_loop-Session n zero bytes sw p f m s = absurd (omega arith)
  send_loop-Session zero (suc fuel) bytes sw p f m (done c) =
      rw
        (pass-Confirms dongle cla ins (length bytes) (suc (length bytes)) 0 bytes sw p (omega arith)
          (omega arith) c)
        (after_pass-some _ _ _ _ _ m)
  send_loop-Session (suc n) (suc fuel) bytes sw p f m (again r s) =
      rw
        (pass-Restarts dongle cla ins (length bytes) (suc (length bytes)) 0 bytes sw p (omega arith)
          (omega arith) r)
        (send_loop-Session n fuel bytes 0x9001 p (omega (arith, f)) m s)

  -- Data that are not empty, on a device that is found, sent with no flags of the caller: if the
  -- device asks `n` times to start again, each time after it has confirmed some of the APDUs, and
  -- then confirms each but the last and gives data after the last, then ledger_send_apdu gives the
  -- length of these data and the status word 0x9000, and the output as it was written last. The
  -- APDUs are the data cut after each 250 bytes, the first and the last marked, and more than `n`
  -- passes are enough.
  pub ledger_send_apdu-Session :
      (n fuel : ℕ) {d d1 d2 d3 : D} (bytes out text : List ℕ) {message out' : List ℕ}
      {error' : Option (List ℕ)}
      → 0 < length bytes
      → n < fuel
      → dongle.init_dongle d (some []) ≡ (d1, error', true)
      → dongle.get_first_dongle d1 ≡ (d2, true)
      → Session dongle n d2 out (apdus (suc (length bytes)) cla ins 1 bytes) d3 message out'
      → ledger_send_apdu dongle fuel d cla ins 0 bytes out (some text) ≡ (
        dongle.exit_dongle (dongle.close_dongle d3),
        error',
        sent (code (length message)) (code 0x9000) out',
      )
  unfolding ledger_send_apdu
  ledger_send_apdu-Session n fuel bytes out text p f ready found s =
      rw (ready, ledger_send_apdu)
        (rw found (rw (send_loop-Session n fuel bytes 0 p f (Session-some dongle s) s) refl))
