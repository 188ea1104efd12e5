-- ===== src/Sbi.antt =====
-- src/arch/riscv/riscv-sbi.c and include/vart/riscv-sbi.h: the handlers of SBI calls.
pub mod Order
mod Tests
use vart.Common.{
  ℕ, ◌-◌, ◌^◌, Bool, not, ◌||◌, Option, none, some, List, [], ◌∷◌, ltb, leb, if◌then◌else◌, is_null,
  ok, err, Errno, Result, Status, done,
}

-- `VartRiscvSbiHandler`; the list of a dispatcher stands for the `next` pointers.
pub record Handler : Type 0 where
  pub extension_start : ℕ
  pub extension_end : ℕ
  pub callback : Option ℕ
  pub opaque : ℕ

-- `VartRiscvSbiResponse`; `error` is the 64-bit pattern of the signed number.
pub record Response : Type 0 where
  pub error : ℕ
  pub value : ℕ

-- `vart_riscv_sbi_handler_init`
abbrev pub handler_init : ℕ → ℕ → Option ℕ → ℕ → Handler
handler_init extension_start extension_end callback opaque = record {
  extension_start = extension_start;
  extension_end = extension_end;
  callback = callback;
  opaque = opaque;
}

-- The loop of `vart_riscv_sbi_add_handler`, with the link that it sets after it
unfoldable pub insert : Handler → List Handler → Result (List Handler)
insert handler [] = ok (handler ∷ [])
insert handler (k ∷ ks) =
    let rest = insert handler ks in
    if ltb handler.extension_end k.extension_start
    then ok (handler ∷ k ∷ ks)
    else if leb handler.extension_start k.extension_end
    then err Errno.eexist
    else elim rest [ err e ↦ err e | ok l ↦ ok (k ∷ l) ]

-- `vart_riscv_sbi_add_handler`, with a dispatcher and a handler that are there; `linked` says that
-- the handler's `next` is not NULL.
unfoldable pub add_handler : List Handler → Handler → Bool → Result (List Handler)
add_handler handlers handler linked =
    if is_null handler.callback || ltb handler.extension_end handler.extension_start || linked
    then err Errno.einval
    else insert handler handlers

-- The loop of `vart_riscv_sbi_dispatch`: the handler that is called
unfoldable pub select : ℕ → List Handler → Option Handler
select extension [] = none
select extension (h ∷ hs) =
    let rest = select extension hs in
    if ltb extension h.extension_start
    then none
    else if leb extension h.extension_end
    then some h
    else rest

-- What calls of handlers and `vart_vcpu_complete_sbi` do on a world `W`: a handler's function gets its
-- opaque value and the response so far, and returns the response it leaves; the exit that both are
-- about is part of the world.
pub record SbiCallbacks (W : Type 0) : Type 0 where
  pub call : ℕ → ℕ → Response → W → W × Response × Status
  pub complete : Response → W → W × Status

-- The response that `vart_riscv_sbi_dispatch` begins with: -2 and 0
abbrev pub not_supported : Response
not_supported = record { error = 2 ^ 64 - 2; value = 0 }

module _ {W : Type 0} (c : SbiCallbacks W) where
  -- The end of `vart_riscv_sbi_dispatch`, after the handler's function
  unfoldable pub dispatch_finish : W × Response × Status → W × Status
  dispatch_finish (w, response, err e) = (w, err e)
  dispatch_finish (w, response, ok _) = c.complete response w

  -- The call of a handler; `add_handler` admits none without a function.
  unfoldable pub call_handler : Handler → W → W × Response × Status
  call_handler h w = elim h.callback [
    | none ↦ (w, not_supported, err Errno.efault)
    | some f ↦ c.call f h.opaque not_supported w
  ]

  -- `vart_riscv_sbi_dispatch`, for an SBI exit that calls `extension`, its pointers not NULL
  unfoldable pub dispatch : List Handler → ℕ → W → W × Status
  dispatch handlers extension w = elim (select extension handlers) [
    | none ↦ dispatch_finish (w, not_supported, done)
    | some h ↦ dispatch_finish (call_handler h w)
  ]
