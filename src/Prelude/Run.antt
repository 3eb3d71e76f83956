-- ===== src/Prelude/Run.antt =====
-- How a call ends: with a value, by an abort (a failed assertion or an access
-- outside of memory), by reading a variable that was never set, which C leaves undefined, waiting forever for a mutex that is never unlocked, or, in the models alone,
-- because the fuel of a loop ran out.
use mathlib.Core.Path.{◌≡◌, refl, ap}
use mathlib.Core.Logic.{◌⊎◌, inl, inr}
use mathlib.Core.Bool.{Bool, true, false}
use mathlib.Core.Option.{Option, none, some}
use tp_2021_1c_en_c_errados.Prelude.Tests.{if◌then◌else◌}

pub data Run {ℓ} (A : Type ℓ) : Type ℓ where
  done : A → Run A
  abort : Run A
  undefined : Run A
  deadlock : Run A
  stuck : Run A

infixl 5 ◌>>=◌
abbrev pub ◌>>=◌ {ℓ κ} : {A : Type ℓ} {B : Type κ} → Run A → (A → Run B) → Run B
done a >>= f = f a
abort >>= f = abort
undefined >>= f = undefined
deadlock >>= f = deadlock
stuck >>= f = stuck

abbrev pub or_abort {ℓ} : {A : Type ℓ} → Option A → Run A
or_abort none = abort
or_abort (some a) = done a

done_value {ℓ} : {A : Type ℓ} → A → Run A → A
done_value default (done x) = x
done_value default abort = default
done_value default undefined = default
done_value default deadlock = default
done_value default stuck = default

pub done_injective {ℓ} : {A : Type ℓ} {x y : A} → done x ≡ done y → x ≡ y
unfolding done_value
done_injective {x = x} e = ap (done_value x) e

-- Inversion of a bind.
pub >>=-eq-done {ℓ κ} :
    {A : Type ℓ} {B : Type κ} (r : Run A) (f : A → Run B) {b : B}
    → (r >>= f) ≡ done b
    → (x : A) × (r ≡ done x) × (f x ≡ done b)
>>=-eq-done (done x) f h = (x, refl, h)
>>=-eq-done abort f h = cc
>>=-eq-done undefined f h = cc
>>=-eq-done deadlock f h = cc
>>=-eq-done stuck f h = cc

pub or_abort-eq-done {ℓ} : {A : Type ℓ} (o : Option A) {x : A} → or_abort o ≡ done x → o ≡ some x
or_abort-eq-done none h = cc
or_abort-eq-done (some x) h = cc

-- It neither waits forever nor runs out of fuel.
unfoldable pub Ends {ℓ} : {A : Type ℓ} → Run A → Type ℓ
Ends {A = A} r = (r ≡ abort) ⊎ ((x : A) × (r ≡ done x))

pub or_abort-Ends {ℓ} : {A : Type ℓ} (o : Option A) → Ends (or_abort o)
unfolding Ends
or_abort-Ends none = inl refl
or_abort-Ends (some x) = inr (x, refl)

pub >>=-Ends {ℓ κ} :
    {A : Type ℓ} {B : Type κ} (r : Run A) (f : A → Run B)
    → Ends r
    → ((x : A) → r ≡ done x → Ends (f x))
    → Ends (r >>= f)
unfolding Ends
>>=-Ends r f (inl h) k = inl (rw h refl)
>>=-Ends r f (inr (x, h)) k = rw h (k x h)

pub if-Ends {ℓ} :
    {A : Type ℓ} (c : Bool) (r s : Run A) → Ends r → Ends s → Ends (if c then r else s)
if-Ends true r s hr hs = hr
if-Ends false r s hr hs = hs

pub done-Ends {ℓ} : {A : Type ℓ} (x : A) → Ends (done x)
unfolding Ends
done-Ends x = inr (x, refl)
