-- ===== src/Common/Codes.antt =====
-- Status codes: an `int` that is negative on error, with the `errno` names that the code returns.
use mathlib.Core.Path.{◌≡◌, refl}
use mathlib.Core.Logic.{◌⊎◌, inl, inr}
use mathlib.Core.Bool.{Bool, true, false}

pub data Errno : Type 0 where
  eperm enoent eio eagain enomem eacces efault ebusy eexist enodev einval enotty enospc : Errno
  epipe erange enosys eloop eproto eoverflow enotsup ealready efbig etimedout ecanceled : Errno
  -- any other negative value, as a callback may return one
  other : Errno

-- A function that returns 0 and leaves a value behind, or returns a negative code.
pub data Result {ℓ} (A : Type ℓ) : Type ℓ where
  ok : A → Result A
  err : Errno → Result A

abbrev pub Status : Type 0
Status = Result (Unit {0})

abbrev pub done : Status
done = ok tt

abbrev pub is_ok {ℓ} : {A : Type ℓ} → Result A → Bool
is_ok (ok a) = true
is_ok (err e) = false

pub Result-cases {ℓ} :
    {A : Type ℓ} (r : Result A) → ((a : A) × (r ≡ ok a)) ⊎ ((e : Errno) × (r ≡ err e))
Result-cases (ok a) = inl (a, refl)
Result-cases (err e) = inr (e, refl)
