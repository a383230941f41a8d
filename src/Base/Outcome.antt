-- ===== src/Base/Outcome.antt =====
-- Exceptions as values: `need` and `require` of the source throw a runtime error with a fixed text.
use Prim.Native.String.{String}
use mathlib.Core.Path.{◌≡◌, refl}
use mathlib.Core.Bool.{Bool, true, false}

pub data Result {ℓ} (A : Type ℓ) : Type ℓ where
  ok : A → Result A
  err : String → Result A

module _ {ℓ κ} {B : Type κ} where
  infixl 5 ◌>>=◌ ◌>>◌
  abbrev pub ◌>>=◌ : {A : Type ℓ} → Result A → (A → Result B) → Result B
  err message >>= next = err message
  ok value >>= next = next value

  abbrev pub ◌>>◌ : Result (Unit {ℓ}) → Result B → Result B
  first >> second = first >>= λ _. second

abbrev pub need : Bool → String → Result (Unit {0})
need true e = ok tt
need false e = err e

-- A check that was passed held, and the rest went on.
pub need-eq-ok {ℓ} :
    {B : Type ℓ} (c : Bool) (e : String) (k : Result B) {b : B}
    → (need c e >> k) ≡ ok b
    → (c ≡ true) × (k ≡ ok b)
need-eq-ok true e k h = (refl, h)
need-eq-ok false e k h = cc

pub need-ok : (c : Bool) (e : String) {u : Unit {0}} → need c e ≡ ok u → c ≡ true
need-ok true e h = refl
need-ok false e h = cc

pub >>=_assoc {ℓ κ μ} :
    {A : Type ℓ} {B : Type κ} {C : Type μ} (m : Result A) (f : A → Result B) (g : B → Result C)
    → ((m >>= f) >>= g) ≡ (m >>= λ a. f a >>= g)
>>=_assoc (ok a) f g = refl
>>=_assoc (err e) f g = refl

-- A check that holds is passed.
pub need_then {ℓ} :
    {B : Type ℓ} (c : Bool) (e : String) (k : Result B) (r : Result B)
    → c ≡ true
    → k ≡ r
    → (need c e >> k) ≡ r
need_then c e k r h g = rw h g

pub ok_then {ℓ κ} :
    {A : Type ℓ} {B : Type κ} {m : Result A} {a : A} (f : A → Result B) (r : Result B)
    → m ≡ ok a
    → f a ≡ r
    → (m >>= f) ≡ r
ok_then f r h g = rw h g

pub ok-injective {ℓ} : {A : Type ℓ} {a b : A} → ok a ≡ ok b → a ≡ b
ok-injective h = cc

-- The inversions with a goal: what they find is bound by a λ, so long chains stay small.
module _ {ℓ κ} {B : Type ℓ} {b : B} {G : Type κ} where
  pub need_elim :
      (c : Bool) (e : String) (k : Result B)
      → (need c e >> k) ≡ ok b
      → (c ≡ true → k ≡ ok b → G)
      → G
  need_elim c e k h g = let (t, r) = need-eq-ok c e k h in g t r

  pub bind_elim {μ} :
      {A : Type μ} (m : Result A) (f : A → Result B)
      → (m >>= f) ≡ ok b
      → ((a : A) → m ≡ ok a → f a ≡ ok b → G)
      → G
  bind_elim (ok a) f h g = g a refl h
  bind_elim (err e) f h g = cc

-- What a chain that returned went through.
pub >>=-eq-ok {ℓ κ} :
    {B : Type ℓ} {b : B} {A : Type κ} (m : Result A) (f : A → Result B)
    → (m >>= f) ≡ ok b
    → (a : A) × (m ≡ ok a) × (f a ≡ ok b)
>>=-eq-ok m f h = bind_elim m f h (λ a p q. (a, p, q))
