-- ===== src/Sbi/Tests.antt =====
-- Runs of the handlers of SBI calls, and the theorem at a concrete input.
use vart.Common.{ℕ, ◌≡◌, refl, false, ◌&&◌, some, List, [], ◌∷◌, arith, leb, if◌then◌else◌, done}
use vart.Sbi.{
  Handler, handler_init, insert, add_handler, select, SbiCallbacks, dispatch, dispatch_finish,
  call_handler,
}
use vart.Sbi.Order.{IsSorted, select-add_handler}

abbrev base : Handler
base = handler_init 0x10 0x10 (some 1) 0

abbrev timer : Handler
timer = handler_init 0x54 0x5f (some 2) 7

abbrev early : Handler
early = handler_init 0 8 (some 3) 0

-- The world lists the functions called and the errors completed.
abbrev callbacks : SbiCallbacks (List ℕ)
callbacks = record {
  call = λ f opaque response w. (f ∷ w, record response { error = opaque }, done);
  complete = λ response w. (response.error ∷ w, done);
}

timer_called : dispatch callbacks (base ∷ timer ∷ []) 0x55 [] ≡ (7 ∷ 2 ∷ [], done)
unfolding dispatch dispatch_finish call_handler select
timer_called = refl

select-add_handler_example :
    IsSorted (early ∷ base ∷ timer ∷ [])
    × ((extension : ℕ)
        → select extension (early ∷ base ∷ timer ∷ []) ≡ (
            if leb 0 extension && leb extension 8
            then some early
            else select extension (base ∷ timer ∷ [])))
unfolding add_handler insert
select-add_handler_example =
    select-add_handler (base ∷ timer ∷ []) (early ∷ base ∷ timer ∷ []) early false
      (omega arith, (omega arith, tt), (omega arith, tt, tt)) refl
