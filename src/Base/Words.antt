-- ===== src/Base/Words.antt =====
-- 64-bit words (std::size_t and std::uintptr_t), and the standard exceptions that the code throws.
use Prim.Native.Nat.{ℕ, ◌+◌, ◌-◌, ◌*◌, ◌%◌, ◌^◌}
use mathlib.Core.Logic.{◌⊎◌, inl, inr}
use mathlib.Core.Path.{◌≡◌, refl}
use mathlib.Core.Bool.{Bool, true, false}

abbrev pub word_mod : ℕ
word_mod = 2 ^ 64

-- std::numeric_limits<std::size_t>::max()
abbrev pub max_word : ℕ
max_word = 2 ^ 64 - 1

-- Unsigned arithmetic wraps.
abbrev pub add_word : ℕ → ℕ → ℕ
add_word a b = (a + b) % 2 ^ 64

abbrev pub sub_word : ℕ → ℕ → ℕ
sub_word a b = (a + 2 ^ 64 - b) % 2 ^ 64

abbrev pub mul_word : ℕ → ℕ → ℕ
mul_word a b = (a * b) % 2 ^ 64

-- The classes of <stdexcept> and <new>, and `UnsupportedOperation` of src/iom_internal.hpp; the texts
-- of the messages are left out.
pub data Exception : Type 0 where
  invalid_argument overflow_error out_of_range bad_alloc runtime_error logic_error : Exception
  unsupported_operation : Exception

-- What a call yields: a value, or an exception that it leaves to its caller.
pub data Result {ℓ} (S : Type ℓ) : Type ℓ where
  throws : Exception → Result S
  ok : S → Result S

infixl 5 ◌>>=◌ ◌>>◌
abbrev pub ◌>>=◌ {ℓ μ} : {S : Type ℓ} {T : Type μ} → Result S → (S → Result T) → Result T
throws x >>= next = throws x
ok value >>= next = next value

-- A check before the rest of the body.
abbrev pub ◌>>◌ {μ} : {T : Type μ} → Result (Unit {0}) → Result T → Result T
check >> rest = check >>= λ _. rest

-- `if (!condition) throw e;`
abbrev pub require : Bool → Exception → Result (Unit {0})
require true e = ok tt
require false e = throws e

-- If the whole returns, so does each part.
pub >>=-eq-ok {ℓ μ} :
    {S : Type ℓ} {T : Type μ} (call : Result S) (next : S → Result T) {t : T}
    → (call >>= next) ≡ ok t
    → (s : S) × (call ≡ ok s) × (next s ≡ ok t)
>>=-eq-ok (throws x) next returned = cc
>>=-eq-ok (ok value) next returned = (value, refl, returned)

pub require-eq-ok : (b : Bool) (x : Exception) {u : Unit {0}} → require b x ≡ ok u → b ≡ true
require-eq-ok true x e = refl
require-eq-ok false x e = cc

pub ok-injective {ℓ} : {A : Type ℓ} (a b : A) → ok a ≡ ok b → a ≡ b
ok-injective a b e = cc

pub Result-cases {ℓ} :
    {A : Type ℓ} (r : Result A) → ((a : A) × (r ≡ ok a)) ⊎ ((x : Exception) × (r ≡ throws x))
Result-cases (ok a) = inl (a, refl)
Result-cases (throws x) = inr (x, refl)
