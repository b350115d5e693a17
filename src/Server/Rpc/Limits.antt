-- ===== src/Server/Rpc/Limits.antt =====
-- When a body reaches the service.
use jsonrpseex.Prelude.{
  ℕ, ◌≤◌, ◌<◌, ◌≡◌, ◌⊎◌, refl, ap, suc, ◌^◌, none, some, List, [], ◌∷◌, false, length, ltb, arith,
  inl, inr, Bool-cases,
}
use jsonrpseex.Types.Ids.{RequestId}
use jsonrpseex.Types.Error.{Json}
use jsonrpseex.Server.Runtime.{Runtime}
use jsonrpseex.Types.Error
use jsonrpseex.Prelude.Int.{neg}
use jsonrpseex.Server.Response.{MethodResponse, error, reject_too_big_batch_request}
use jsonrpseex.Server.Rpc.{
  Reader, RpcServiceT, BatchRequestConfig, disabled, usize_max, read_entries, handle_rpc_call,
}

-- Whether a batch of so many elements is allowed.
abbrev pub Fits : BatchRequestConfig → ℕ → Type 0
Fits disabled n = ⊥
Fits (BatchRequestConfig.limit max) n = n ≤ max
Fits BatchRequestConfig.unlimited n = Unit {0}

module _ (rt : Runtime) (rd : Reader rt) where
  -- The answer to a batch that is not allowed; without a limit there is none.
  unfoldable pub refusal : BatchRequestConfig → MethodResponse rt
  unfolding Error.new
  refusal (BatchRequestConfig.limit max) =
      error rt RequestId.null (reject_too_big_batch_request rt max)
  refusal _ =
      error rt RequestId.null
        (Error.new (neg 32005) "Batched requests are not supported by this server" none)

  length-read_entries :
      (ext : rt.Ext) (js : List Json) → length (read_entries rt rd ext js) ≡ length js
  unfolding read_entries
  length-read_entries ext [] = refl
  length-read_entries ext (j ∷ js) = ap suc (length-read_entries ext js)

  module _ {St : Type 0} (service : RpcServiceT rt St) where
    -- A batch of fewer than 2^64 elements reaches the service, with an entry for each of its elements,
    -- exactly if batches are allowed without a limit or with a limit that it keeps; else the state is
    -- as before and the answer is the error for the configuration.
    pub handle_rpc_call_batch :
        (body : Json) (config : BatchRequestConfig) (ext : rt.Ext) (st : St) (js : List Json)
        → rd.read_array body ≡ some js
        → length js < 2 ^ 64
        → let (r, st') = handle_rpc_call rt rd service body false config ext st in
          (Fits config (length js)
            × (length (read_entries rt rd ext js) ≡ length js)
            × ((r, st') ≡ service.batch (read_entries rt rd ext js) st))
          ⊎ ((Fits config (length js) → ⊥) × (st' ≡ st) × (r ≡ refusal config))
    unfolding handle_rpc_call refusal
    handle_rpc_call_batch body disabled ext st js h k = inr (λ f. f, refl, refl)
    handle_rpc_call_batch body (BatchRequestConfig.limit n) ext st js h k =
        elim (Bool-cases (ltb n (length js))) [
          | inl t ↦ inr (λ f. ground (arith, f, t), ground (arith, h, t), ground (arith, h, t))
          | inr t ↦ inl (ground (arith, t), length-read_entries ext js, ground (arith, h, t))
        ]
    handle_rpc_call_batch body BatchRequestConfig.unlimited ext st js h k =
        let t : ltb usize_max (length js) ≡ false = ground (arith, k) in
        inl (tt, length-read_entries ext js, ground (arith, h, t))
