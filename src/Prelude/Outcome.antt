-- ===== src/Prelude/Outcome.antt =====
-- Fallible code: a result that carries the error's code, and its chains.
use mathlib.Core.Path.{◌≡◌, refl, subst}
use mathlib.Core.Bool.{Bool, true, false}
use mathlib.Core.Option.{Option, none, some}
use aiops_runner.Prelude.Tests.{if◌then◌else◌}

pub data Result {ℓ} (E A : Type ℓ) : Type ℓ where
  ok : A → Result E A
  err : E → Result E A

infixl 5 ◌>>=◌ ◌>>◌
abbrev pub ◌>>=◌ {ℓ} : {E A B : Type ℓ} → Result E A → (A → Result E B) → Result E B
ok a >>= f = f a
err e >>= f = err e

abbrev pub ◌>>◌ {ℓ} : {E A B : Type ℓ} → Result E A → Result E B → Result E B
m >> k = m >>= λ _. k

-- `if not test: raise`.
abbrev pub require : {E : Type 0} → Bool → E → Result E (Unit {0})
require true e = ok tt
require false e = err e

-- `if test: raise`.
abbrev pub refuse : {E : Type 0} → Bool → E → Result E (Unit {0})
refuse true e = err e
refuse false e = ok tt

-- What a call that may raise answers.
abbrev pub raised : {E : Type 0} → Option E → Result E (Unit {0})
raised none = ok tt
raised (some e) = err e

-- `try: … except` that turns a missing value into an error.
abbrev pub found {ℓ} : {E A : Type ℓ} → Option A → E → Result E A
found none e = err e
found (some a) e = ok a

pub bind-eq-ok {ℓ} :
    {E A B : Type ℓ} (m : Result E A) (f : A → Result E B) {b : B}
    → (m >>= f) ≡ ok b
    → (a : A) × (m ≡ ok a) × (f a ≡ ok b)
bind-eq-ok (ok a) f h = (a, refl, h)
bind-eq-ok (err e) f h = cc

pub require-eq-ok : {E : Type 0} (b : Bool) (e : E) {u : Unit {0}} → require b e ≡ ok u → b ≡ true
require-eq-ok true e h = refl
require-eq-ok false e h = cc

pub refuse-eq-ok : {E : Type 0} (b : Bool) (e : E) {u : Unit {0}} → refuse b e ≡ ok u → b ≡ false
refuse-eq-ok false e h = refl
refuse-eq-ok true e h = cc

pub found-eq-ok {ℓ} : {E A : Type ℓ} (o : Option A) (e : E) {a : A} → found o e ≡ ok a → o ≡ some a
found-eq-ok none e h = cc
found-eq-ok (some b) e h = cc

pub ok-injective {ℓ} : {E A : Type ℓ} {a b : A} → ◌≡◌ {A = Result E A} (ok a) (ok b) → a ≡ b
ok-injective h = cc

-- Where the code returns, the value has a property.
pub data Ensures {E A : Type 0} (P : A → Type 0) : Result E A → Type 0 where
  returns : (a : A) → P a → Ensures P (ok a)
  raises : (e : E) → Ensures P (err e)

pub require-Ensures :
    {E A : Type 0} {P : A → Type 0} {b : Bool} {rest : Result E A} (e : E)
    → (b ≡ true → Ensures P rest)
    → Ensures P (require b e >> rest)
require-Ensures {b = true} e f = f refl
require-Ensures {b = false} e f = raises e

pub refuse-Ensures :
    {E A : Type 0} {P : A → Type 0} {b : Bool} {rest : Result E A} (e : E)
    → (b ≡ false → Ensures P rest)
    → Ensures P (refuse b e >> rest)
refuse-Ensures {b = true} e f = raises e
refuse-Ensures {b = false} e f = f refl

pub if-Ensures :
    {E A : Type 0} {P : A → Type 0} {b : Bool} {m n : Result E A}
    → (b ≡ true → Ensures P m)
    → (b ≡ false → Ensures P n)
    → Ensures P (if b then m else n)
if-Ensures {b = true} f g = f refl
if-Ensures {b = false} f g = g refl

pub bind-Ensures :
    {E A B : Type 0} {P : A → Type 0} {Q : B → Type 0} {m : Result E A} {f : A → Result E B}
    → Ensures P m
    → ((a : A) → P a → Ensures Q (f a))
    → Ensures Q (m >>= f)
bind-Ensures (returns a p) g = g a p
bind-Ensures (raises e) g = raises e

pub any-Ensures : {E A : Type 0} (m : Result E A) → Ensures (λ _. Unit {0}) m
any-Ensures (ok a) = returns a tt
any-Ensures (err e) = raises e

pub weaken-Ensures :
    {E A : Type 0} {P Q : A → Type 0} {m : Result E A}
    → ((a : A) → P a → Q a)
    → Ensures P m
    → Ensures Q m
weaken-Ensures g (returns a p) = returns a (g a p)
weaken-Ensures g (raises e) = raises e

pub found-Ensures :
    {E A B : Type 0} {P : B → Type 0} {o : Option A} {f : A → Result E B} (e : E)
    → ((a : A) → o ≡ some a → Ensures P (f a))
    → Ensures P (found o e >>= f)
found-Ensures {o = none} e g = raises e
found-Ensures {o = some a} e g = g a refl

-- The guards in a chain are tried from the left.
pub chain-Ensures :
    {E A B C : Type 0} {P : C → Type 0} (m : Result E A) (n : Result E B) (f : B → Result E C)
    → Ensures P (m >> (n >>= f))
    → Ensures P ((m >> n) >>= f)
chain-Ensures (ok a) n f e = e
chain-Ensures (err c) n f e = raises c

pub ruleset ensures_rules = (
  returns, chain-Ensures, require-Ensures, refuse-Ensures, if-Ensures, bind-Ensures, found-Ensures,
)

pub Ensures-ok :
    {E A : Type 0} {P : A → Type 0} {m : Result E A} {a : A} → Ensures P m → m ≡ ok a → P a
Ensures-ok {P} (returns b p) h = subst P (ok-injective h) p
Ensures-ok (raises e) h = cc
