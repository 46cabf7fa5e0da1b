-- ===== src/Prelude/Effects.antt =====
-- What a fallible operation does: it returns a value, returns an error, or panics.
use mathlib.Core.Path.{◌≡◌, refl, ap, subst}
use mathlib.Core.Logic.{◌≢◌}
use mathlib.Core.Option.{Option, none, some}
use mathlib.Core.Bool.{Bool, true, false}
use temnion.Prelude.Tests.{if◌then◌else◌}

pub data Outcome {ℓ κ} (E : Type κ) (A : Type ℓ) : Type (ℓ ⊔ κ) where
  ok : A → Outcome E A
  err : E → Outcome E A
  panic : Outcome E A

-- The rest of a function after `?`, an index or an `unwrap`.
abbrev pub and_then {ℓ κ μ} :
    {E : Type κ} {A : Type ℓ} {B : Type μ} → Outcome E A → (A → Outcome E B) → Outcome E B
and_then (ok a) f = f a
and_then (err e) f = err e
and_then panic f = panic

-- An access that panics out of range.
abbrev pub expect {ℓ κ} : {E : Type κ} {A : Type ℓ} → Option A → Outcome E A
expect none = panic
expect (some a) = ok a

-- `Option::ok_or`
abbrev pub ok_or {ℓ κ} : {E : Type κ} {A : Type ℓ} → Option A → E → Outcome E A
ok_or none e = err e
ok_or (some a) e = ok a

-- A method on `&mut self`: the state it leaves stands beside its outcome, errors included.
abbrev pub Exec {ℓ κ μ} : Type μ → Type κ → Type ℓ → Type (ℓ ⊔ κ ⊔ μ)
Exec S E A = S → Outcome E A × S

abbrev pub resume {ℓ κ μ ν} :
    {S : Type μ} {E : Type κ} {A : Type ℓ} {B : Type ν}
    → Outcome E A × S
    → (A → Exec S E B)
    → Outcome E B × S
resume (ok a, s) f = f a s
resume (err e, s) f = (err e, s)
resume (panic, s) f = (panic, s)

infixl 5 ◌>>=◌ ◌>>◌
abbrev pub ◌>>=◌ {ℓ κ μ ν} :
    {S : Type μ} {E : Type κ} {A : Type ℓ} {B : Type ν} → Exec S E A → (A → Exec S E B) → Exec S E B
◌>>=◌ m f s = resume (m s) f

abbrev pub ◌>>◌ {ℓ κ μ} :
    {S : Type μ} {E : Type κ} {B : Type ℓ} → Exec S E (Unit {0}) → Exec S E B → Exec S E B
m >> k = m >>= λ _. k

abbrev pub pure {ℓ κ μ} : {S : Type μ} {E : Type κ} {A : Type ℓ} → A → Exec S E A
pure a s = (ok a, s)

abbrev pub fail {ℓ κ μ} : {S : Type μ} {E : Type κ} {A : Type ℓ} → E → Exec S E A
fail e s = (err e, s)

-- A method on `&self`, called from one on `&mut self`.
abbrev pub asks {ℓ κ μ} : {S : Type μ} {E : Type κ} {A : Type ℓ} → (S → Outcome E A) → Exec S E A
asks f s = (f s, s)

abbrev pub modify {κ μ} : {S : Type μ} {E : Type κ} → (S → S) → Exec S E (Unit {0})
modify f s = (ok tt, f s)

module _ {ℓ κ} {E : Type κ} {A : Type ℓ} where
  pub err≢ok : {e : E} {a : A} → ◌≢◌ {A = Outcome E A} (err e) (ok a)
  err≢ok h = cc

  pub panic≢ok : {a : A} → ◌≢◌ {A = Outcome E A} panic (ok a)
  panic≢ok h = cc

-- What a successful chain went through.
pub and_then-ok {ℓ κ μ} :
    {E : Type κ} {A : Type ℓ} {B : Type μ} (m : Outcome E A) (f : A → Outcome E B) {b : B}
    → and_then m f ≡ ok b
    → (a : A) × (m ≡ ok a) × (f a ≡ ok b)
and_then-ok (ok a) f h = (a, refl, h)
and_then-ok (err e) f h = absurd (err≢ok h)
and_then-ok panic f h = absurd (panic≢ok h)

-- One step of a chain, by what its first action did.
module _ {ℓ κ μ ν} {S : Type μ} {E : Type κ} {A : Type ℓ} {B : Type ν} (m : Exec S E A)
    (f : A → Exec S E B) {s s' : S} where
  pub bind-ok : {a : A} → m s ≡ (ok a, s') → (m >>= f) s ≡ f a s'
  bind-ok e = ap (λ r. resume r f) e

  pub bind-err : {e : E} → m s ≡ (err e, s') → (m >>= f) s ≡ (err e, s')
  bind-err e = ap (λ r. resume r f) e

  pub bind-panic : m s ≡ (panic, s') → (m >>= f) s ≡ (panic, s')
  bind-panic e = ap (λ r. resume r f) e

ok_value {ℓ κ} : {E : Type κ} {A : Type ℓ} → A → Outcome E A → A
ok_value d (ok a) = a
ok_value d _ = d

-- Two successful runs that are equal return the same value and the same state.
pub ok_pair {ℓ κ μ} :
    {S : Type μ} {E : Type κ} {A : Type ℓ} {a b : A} {s t : S}
    → ◌≡◌ {A = Outcome E A × S} (ok a, s) (ok b, t)
    → (a ≡ b) × (s ≡ t)
unfolding ok_value
ok_pair {a} e = (ap (λ r. ok_value a r.0) e, ap (λ r. r.1) e)

pub err≢ok_pair {ℓ κ μ} :
    {S : Type μ} {E : Type κ} {A : Type ℓ} {e : E} {b : A} {s t : S}
    → ◌≢◌ {A = Outcome E A × S} (err e, s) (ok b, t)
err≢ok_pair h = err≢ok (ap (λ r. r.0) h)

-- To split on an outcome and keep the equation.
pub data Ended {ℓ κ} {E : Type κ} {A : Type ℓ} (r : Outcome E A) : Type (ℓ ⊔ κ) where
  returned : (a : A) → r ≡ ok a → Ended r
  failed : (e : E) → r ≡ err e → Ended r
  panicked : r ≡ panic → Ended r

pub ended {ℓ κ} : {E : Type κ} {A : Type ℓ} (r : Outcome E A) → Ended r
ended (ok a) = returned a refl
ended (err e) = failed e refl
ended panic = panicked refl

pub expect-ok {ℓ κ} :
    {E : Type κ} {A : Type ℓ} (o : Option A) {a : A} → expect {E = E} o ≡ ok a → o ≡ some a
unfolding ok_value
expect-ok none h = absurd (panic≢ok h)
expect-ok (some b) h = ap (λ r. some (ok_value b r)) h

pub ok_injective {ℓ κ} :
    {E : Type κ} {A : Type ℓ} {a b : A} → ◌≡◌ {A = Outcome E A} (ok a) (ok b) → a ≡ b
unfolding ok_value
ok_injective {a} e = ap (ok_value a) e

-- A chain panics only where one of its steps does.
pub and_then-no_panic {ℓ κ μ} :
    {E : Type κ} {A : Type ℓ} {B : Type μ} (m : Outcome E A) (f : A → Outcome E B)
    → m ≢ panic
    → ((a : A) → m ≡ ok a → f a ≢ panic)
    → and_then m f ≢ panic
and_then-no_panic (ok a) f h k = k a refl
and_then-no_panic (err e) f h k = λ e. cc
and_then-no_panic panic f h k = absurd (h refl)

pub ok≢panic {ℓ κ} : {E : Type κ} {A : Type ℓ} {a : A} → ◌≢◌ {A = Outcome E A} (ok a) panic
ok≢panic h = cc

pub err≢panic {ℓ κ} : {E : Type κ} {A : Type ℓ} {e : E} → ◌≢◌ {A = Outcome E A} (err e) panic
err≢panic h = cc

-- A test that returns an error was passed by a run that succeeds.
pub past_guard {ℓ κ} :
    {E : Type κ} {A : Type ℓ} (b : Bool) (e : E) {m : Outcome E A} {a : A}
    → (if b then err e else m) ≡ ok a
    → (b ≡ false) × (m ≡ ok a)
past_guard true e h = absurd (err≢ok h)
past_guard false e h = (refl, h)

pub ok_or-ok {ℓ κ} :
    {E : Type κ} {A : Type ℓ} (o : Option A) (e : E) {a : A} → ok_or o e ≡ ok a → o ≡ some a
unfolding ok_value
ok_or-ok none e h = absurd (err≢ok h)
ok_or-ok (some b) e h = ap (λ r. some (ok_value b r)) h

-- What a successful chain of actions went through.
pub bind_inv {ℓ κ μ ν} :
    {S : Type μ} {E : Type κ} {A : Type ℓ} {B : Type ν} (m : Exec S E A) (f : A → Exec S E B)
    (s : S) {b : B} {t : S}
    → (m >>= f) s ≡ (ok b, t)
    → (a : A) × (u : S) × (m s ≡ (ok a, u)) × (f a u ≡ (ok b, t))
bind_inv {S} {E} {A} m f s {b} {t} h = from_run (m s) refl h
  where
    from_run :
        (r : Outcome E A × S)
        → m s ≡ r
        → resume r f ≡ (ok b, t)
        → (a : A) × (u : S) × (m s ≡ (ok a, u)) × (f a u ≡ (ok b, t))
    from_run (ok a, u) e h = (a, u, e, h)
    from_run (err x, u) e h = absurd (err≢ok_pair h)
    from_run (panic, u) e h = absurd (panic≢ok (ap (λ r. r.0) h))

-- What an action that succeeds returns has the property `P`.
abbrev pub Ensures {ℓ κ μ ν} :
    {S : Type μ} {E : Type κ} {A : Type ℓ} → (A → Type ν) → Exec S E A → Type (ℓ ⊔ κ ⊔ μ ⊔ ν)
Ensures {S} {A = A} P m = (s : S) (a : A) (t : S) → m s ≡ (ok a, t) → P a

module _ {ℓ κ μ ν} {S : Type μ} {E : Type κ} {A : Type ℓ} {B : Type ν} where
  -- A chain ensures what its last action does, given what its first one returned.
  pub bind-Ensures {o p} :
      (m : Exec S E A) (Q : A → Type o) (P : B → Type p) (f : A → Exec S E B)
      → Ensures Q m
      → ((a : A) → Q a → Ensures P (f a))
      → Ensures P (m >>= f)
  bind-Ensures m Q P f first next s b t h =
      let (a, u, e, h) = bind_inv m f s h in next a (first s a u e) u b t h

  pub bind-Ensures_last {p} :
      (m : Exec S E A) (P : B → Type p) (f : A → Exec S E B)
      → ((a : A) → Ensures P (f a))
      → Ensures P (m >>= f)
  bind-Ensures_last m P f next s b t h = let (a, u, e, h) = bind_inv m f s h in next a u b t h

pub pure-Ensures {ℓ κ μ ν} :
    {S : Type μ} {E : Type κ} {A : Type ℓ} (P : A → Type ν) (a : A)
    → P a
    → Ensures {S = S} {E = E} P (pure a)
pure-Ensures P a p s b t h = subst P (ok_pair h).0 p
