-- ===== src/Common/Results.antt =====
-- What a call of the program can come to: Go's `(value, error)` pair, and two outcomes that are
-- no Go value: `panic`, a run-time panic, and `stuck`, where the call has no result in the model: a
-- loop whose fuel ran out, a read that never returns, or a use of a buffer that was handed back to
-- the pool.
use Prim.Native.Nat.{ℕ}
use mathlib.Core.Path.{◌≡◌, refl}

-- `not_exist` to `invalid` are the errors of package os, `eisdir` to `enotsup` system calls' errors;
-- `nfs_error` is `msg.Error` and `auth_error` is `auth.AuthError`.
pub data Error : Type 0 where
  eof unexpected_eof : Error
  bad_union_mode : Error
  fragmented not_a_call bad_header : Error
  bad_create_mode bad_claim not_implemented : Error
  not_exist exist permission invalid invalid_handle eisdir enotdir enotsup : Error
  auth_error : ℕ → Error
  nfs_error : ℕ → Error

pub data Result {ℓ} (A : Type ℓ) : Type ℓ where
  ok : A → Result A
  err : Error → Result A
  panic : Result A
  stuck : Result A

-- Only a value goes on to the next step of a chain.
infixl 5 ◌>>=◌ ◌>>◌
abbrev pub ◌>>=◌ {ℓ κ} : {A : Type ℓ} {B : Type κ} → Result A → (A → Result B) → Result B
stuck >>= next = stuck
panic >>= next = panic
err x >>= next = err x
ok value >>= next = next value

abbrev pub ◌>>◌ {ℓ} : {B : Type ℓ} → Result (Unit {0}) → Result B → Result B
first >> rest = first >>= λ _. rest

pub ok-injective {ℓ} : {A : Type ℓ} {a b : A} → ok a ≡ ok b → a ≡ b
ok-injective e = cc

-- A chain that ends with a value had one at its first step.
pub >>=-eq-ok {ℓ κ} :
    {A : Type ℓ} {B : Type κ} (r : Result A) (next : A → Result B) {end : B}
    → (r >>= next) ≡ ok end
    → (value : A) × (r ≡ ok value) × (next value ≡ ok end)
>>=-eq-ok stuck next e = cc
>>=-eq-ok panic next e = cc
>>=-eq-ok (err x) next e = cc
>>=-eq-ok (ok value) next e = (value, refl, e)
