-- ===== src/Server/Calls/Batches.antt =====
-- What a batch is answered, against the calls of its entries one after the other.
use jsonrpseex.Prelude.{
  ◌≤◌, ◌<◌, ◌≡◌, ◌⊎◌, refl, List, [], ◌∷◌, Bool, true, false, ◌||◌, length, if◌then◌else◌, inl, inr,
  arith,
}
use jsonrpseex.Types.Result.{Result, ok, err, Result-cases}
use jsonrpseex.Types.Ids.{RequestId}
use jsonrpseex.Types.Error
use jsonrpseex.Types.Error.{ErrorCode}
use jsonrpseex.Server.Runtime.{Runtime}
use jsonrpseex.Server.Response.{MethodResponse, error, error_json, reject_too_big_batch_response}
use jsonrpseex.Server.Response.Batch.{BatchResponseBuilder, new_with_limit, append}
use jsonrpseex.Server.Response.Batch.Text.{array, jsons, append_all, append_all_lem}
use jsonrpseex.Server.Rpc.{BatchEntry, BatchEntryErr, call}
use jsonrpseex.Server.Calls.{
  RpcService, Connection, service_call, service_notification, service_batch, entries_loop,
}

module _ (rt : Runtime) {St : Type 0} (s : RpcService rt St) where
  -- The responses to the entries, one after the other, whatever their size.
  unfoldable pub answers :
      List (Result BatchEntryErr (BatchEntry rt))
      → Connection St
      → List (MethodResponse rt) × Connection St
  unfolding service_call
  answers [] c = ([], c)
  answers (ok (call req) ∷ es) c =
      let (r, c1) = service_call rt s req c in let (rs, c2) = answers es c1 in (r ∷ rs, c2)
  answers (ok (BatchEntry.notification n) ∷ es) c = answers es c
  answers (err e ∷ es) c = let (rs, c2) = answers es c in (error rt e.id e.err ∷ rs, c2)

  unfoldable pub has_notification : List (Result BatchEntryErr (BatchEntry rt)) → Bool
  has_notification [] = false
  has_notification (ok (BatchEntry.notification n) ∷ es) = true
  has_notification (_ ∷ es) = has_notification es

  entries_loop-ok :
      (es : List (Result BatchEntryErr (BatchEntry rt))) (b b' : BatchResponseBuilder rt)
      (got : Bool) (c : Connection St)
      → append_all rt b (answers es c).0 ≡ ok b'
      → entries_loop rt s es b got c ≡ (ok (b', got || has_notification es), (answers es c).1)
  unfolding entries_loop answers has_notification append_all service_notification
  entries_loop-ok [] b b' got c h = ground (arith, h)
  entries_loop-ok (ok (call req) ∷ es) b b' got c h =
      elim (Result-cases (append rt b (service_call rt s req c).0).0) [
        | inl (tt, e) ↦ ground (
          arith,
          e,
          h,
          entries_loop-ok es (append rt b (service_call rt s req c).0).1 b' got
              (service_call rt s req c).1,
        )
        | inr (x, e) ↦ absurd (ground (arith, e, h))
      ]
  entries_loop-ok (ok (BatchEntry.notification n) ∷ es) b b' got c h =
      ground (arith, entries_loop-ok es b b' true c h)
  entries_loop-ok (err e ∷ es) b b' got c h =
      elim (Result-cases (append rt b (error rt e.id e.err)).0) [
        | inl (tt, q) ↦
            ground (arith, q, h, entries_loop-ok es (append rt b (error rt e.id e.err)).1 b' got c)
        | inr (x, q) ↦ absurd (ground (arith, q, h))
      ]

  entries_loop-err :
      (es : List (Result BatchEntryErr (BatchEntry rt))) (b : BatchResponseBuilder rt) (got : Bool)
      (c : Connection St) (x : MethodResponse rt)
      → append_all rt b (answers es c).0 ≡ err x
      → (entries_loop rt s es b got c).0 ≡ err x
  unfolding entries_loop answers append_all service_notification
  entries_loop-err [] b got c x h = ground (arith, h)
  entries_loop-err (ok (call req) ∷ es) b got c x h =
      elim (Result-cases (append rt b (service_call rt s req c).0).0) [
        | inl (tt, e) ↦ ground (
          arith,
          e,
          h,
          entries_loop-err es (append rt b (service_call rt s req c).0).1 got
              (service_call rt s req c).1 x,
        )
        | inr (y, e) ↦ ground (arith, e, h)
      ]
  entries_loop-err (ok (BatchEntry.notification n) ∷ es) b got c x h =
      ground (arith, entries_loop-err es b true c x h)
  entries_loop-err (err e ∷ es) b got c x h =
      elim (Result-cases (append rt b (error rt e.id e.err)).0) [
        | inl (tt, q) ↦
            ground (arith, q, h, entries_loop-err es (append rt b (error rt e.id e.err)).1 got c x)
        | inr (y, q) ↦ ground (arith, q, h)
      ]

  -- A batch that has a call or an invalid entry is answered with the JSON array of the responses to
  -- its calls and invalid entries, run in their order, if the array has at most
  -- `max_response_body_size` bytes; else with the error for a batch response that is too big.
  pub service_batch_lem :
      (es : List (Result BatchEntryErr (BatchEntry rt))) (c : Connection St) (r : MethodResponse rt)
      (rs : List (MethodResponse rt))
      → (answers es c).0 ≡ r ∷ rs
      → let (a, c') = service_batch rt s es c in
        let text = array (jsons rt (r ∷ rs)) in
        ((length text ≤ s.max_response_body_size) × (a.json ≡ text) × (c' ≡ (answers es c).1))
        ⊎ ((s.max_response_body_size < length text)
            × (a
                ≡ error rt RequestId.null
                    (reject_too_big_batch_response rt s.max_response_body_size)))
  unfolding service_batch
  service_batch_lem es c r rs h = elim (append_all_lem rt s.max_response_body_size r rs) [
    | inl (b, e, text, size, full) ↦
        let l =
          entries_loop-ok es (new_with_limit rt s.max_response_body_size) b false c
            (ground (arith, e, h)) in
        inl (ground (arith, size, text), ground (arith, l, full, text), ground (arith, l, full))
    | inr (big, e) ↦
        let l =
          entries_loop-err es (new_with_limit rt s.max_response_body_size) false c
            (error rt RequestId.null (reject_too_big_batch_response rt s.max_response_body_size))
            (ground (arith, e, h)) in
        inr (big, ground (arith, l))
  ]

  answers-nil :
      (es : List (Result BatchEntryErr (BatchEntry rt))) (c : Connection St)
      → (answers es c).0 ≡ []
      → (answers es c).1 ≡ c
  unfolding answers
  answers-nil [] c h = refl
  answers-nil (ok (call req) ∷ es) c h = absurd (cc h)
  answers-nil (ok (BatchEntry.notification n) ∷ es) c h = answers-nil es c h
  answers-nil (err e ∷ es) c h = absurd (cc h)

  -- A batch without calls and invalid entries changes nothing; it has no response if it has a
  -- notification, and is an invalid request if it is empty.
  pub service_batch_empty :
      (es : List (Result BatchEntryErr (BatchEntry rt))) (c : Connection St)
      → (answers es c).0 ≡ []
      → let (a, c') = service_batch rt s es c in
        (a.json ≡ (
          if has_notification es
          then rt.null_json
          else error_json rt RequestId.null (Error.from_error_code ErrorCode.invalid_request)))
        × (c' ≡ c)
  unfolding service_batch new_with_limit append_all
  service_batch_empty es c h =
      let b = new_with_limit rt s.max_response_body_size in
      let l = entries_loop-ok es b b false c (ground (arith, h)) in
      (ground (arith, l), ground (arith, l, answers-nil es c h))
