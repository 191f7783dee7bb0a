-- ===== src/Engine/Handlers/Receipt.antt =====
-- handle_receipt_response on a receipt request, as the engine calls it.
use libaergo.Base.{
  [], ◌∷◌, ◌++◌, inl, inr, Option-cases, sym, append-nil, ℕ, ◌≡◌, refl, ap, ◌∙◌, Bool, true, false,
  ◌||◌, none, some, List, if◌then◌else◌,
}
use libaergo.Engine.{called, filled, Request, Instance, receipt, find, modify}
use libaergo.Engine.Store.{write-find}
use libaergo.Engine.Handlers.{
  Decoder, process_response, response_of, handle_receipt_response, read_receipt, release_parent,
  tell,
}

-- The parent waits for its receipt no longer.
abbrev pub with_receipt : Request → Request
with_receipt q = record q { need_receipt = false; processing_receipt = false }

module _ (pb : Decoder) (malloc : ℕ → Bool) (id p : ℕ) (s : Instance) (r q : Request)
    (bytes : List ℕ) (here : find id s.requests ≡ some r) (child : r.parent ≡ some p)
    (kind : r.process_response ≡ receipt) (parent : find p s.requests ≡ some q)
    (target : (r.callback || r.return_ptr) ≡ true) where
  release_parent-some :
      (t : Instance)
      → t.requests ≡ s.requests
      → release_parent pb malloc id r.parent t
        ≡ some (record t { requests = modify p with_receipt t.requests })
  unfolding release_parent
  release_parent-some t e =
      ap (λ o. release_parent pb malloc id o t) child
      ∙ write-find p with_receipt t (ap (find p) e ∙ parent)

  respond : process_response pb malloc id (some s) bytes ≡ read_receipt pb malloc id r s bytes
  unfolding process_response response_of handle_receipt_response
  respond =
      rw (here, process_response)
        (ap (λ h. response_of pb malloc id h r s bytes) kind
          ∙ ap (λ b. if b then read_receipt pb malloc id r s bytes else (none, false)) target)

  -- The message of a request for a receipt that has a parent in the instance and a callback or a
  -- pointer for the receipt, if the receipt decodes: it is told through the callback if there is
  -- one, else through the pointer, the parent needs the receipt no longer, and the handler
  -- succeeds.
  pub process_response-receipt :
      {text : List ℕ}
      → pb.receipt_text bytes ≡ some text
      → process_response pb malloc id (some s) bytes ≡ (
        some (record (tell id r true text s) { requests = modify p with_receipt s.requests }),
        true,
      )
  unfolding read_receipt tell
  process_response-receipt {text} e =
      respond
      ∙ rw (e, read_receipt)
          (ap (λ o. (o, true)) (release_parent-some (tell id r true text s) refl))

  -- The message of a request for a receipt that has a parent in the instance and a callback or a
  -- pointer for the receipt, if the receipt does not decode: the handler fails, the parent needs
  -- the receipt no longer all the same, and nobody is told.
  pub process_response-bad_receipt :
      pb.receipt_text bytes ≡ none
      → process_response pb malloc id (some s) bytes
        ≡ (some (record s { requests = modify p with_receipt s.requests }), false)
  unfolding read_receipt
  process_response-bad_receipt e =
      respond ∙ rw (e, read_receipt) (ap (λ o. (o, false)) (release_parent-some s refl))

  -- The message of a request for a receipt that has a parent in the instance and a callback or a
  -- pointer for the receipt. In each case the parent waits for the receipt no longer. If the
  -- receipt decodes, the handler succeeds and the user is told once, with the text, through the
  -- callback if there is one, else through the pointer; if not, it fails and nobody is told. No
  -- other request is changed.
  pub process_response-receipt_cases : process_response pb malloc id (some s) bytes ≡ (
    some (record s {
      requests =
          modify p (λ o. record o { need_receipt = false; processing_receipt = false }) s.requests;
      notices = s.notices ++ (elim (pb.receipt_text bytes) [
        | none ↦ []
        | some text ↦ (if r.callback then called id true text else filled id true text) ∷ []
      ]);
    }),
    elim (pb.receipt_text bytes) [ none ↦ false | some text ↦ true ],
  )
  unfolding tell
  process_response-receipt_cases = elim (Option-cases (pb.receipt_text bytes)) [
    | inl e ↦
        process_response-bad_receipt e
        ∙ rw e (
            ap
              (λ n. (
                some (record s { requests = modify p with_receipt s.requests; notices = n }),
                false,
              ))
              (sym (append-nil s.notices)))
    | inr (text, e) ↦ process_response-receipt e ∙ rw e refl
  ]
