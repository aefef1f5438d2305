-- ===== src/Services/Keeps/Rules.antt =====
-- Whatever an operation returns has a property: a rule for each way to build an operation.
use omega_services.Prelude.{◌≡◌, refl, Bool, true, false, Option, none, some, if◌then◌else◌}
use omega_services.Network.{◌>>=◌}
use omega_services.Network.Members.{IsCounted}
use omega_services.Services.{Services}

pub record Gives {ℓ κ} {A : Type ℓ} (P : A → Type κ) (o : Option A) : Type (ℓ ⊔ κ) where
  pub at : (a : A) → o ≡ some a → P a

-- The users of each channel are counted.
abbrev pub Counted : Services → Type 0
Counted st = IsCounted st.links.net

module _ {ℓ κ} {A : Type ℓ} {P : A → Type κ} where
  pub Gives-none : Gives P none
  Gives-none = record { at = λ a e. cc }

  pub Gives-some : (a : A) → P a → Gives P (some a)
  Gives-some a h = record { at = λ b e. (let same : a ≡ b = cc e in rw (← same) h) }

  pub Gives-if : (b : Bool) {m n : Option A} → Gives P m → Gives P n → Gives P (if b then m else n)
  Gives-if true km kn = km
  Gives-if false km kn = kn

  pub Gives-bind {μ} :
      {B : Type μ} (m : Option B) (f : B → Option A)
      → ((b : B) → m ≡ some b → Gives P (f b))
      → Gives P (m >>= f)
  Gives-bind none f k = Gives-none
  Gives-bind (some b) f k = k b refl

  -- The answer of a search.
  pub Gives-found {μ} :
      {B : Type μ} (r : Option B) (m : Option A) (f : B → Option A)
      → Gives P m
      → ((b : B) → Gives P (f b))
      → Gives P (elim r [ none ↦ m | some b ↦ f b ])
  Gives-found none m f km k = km
  Gives-found (some b) m f km k = k b

  -- The first part of a chain has a property that the rest is given.
  pub Gives-then {μ ν} :
      {B : Type μ} {Q : B → Type ν} (m : Option B) (f : B → Option A)
      → Gives Q m
      → ((b : B) → Q b → Gives P (f b))
      → Gives P (m >>= f)
  Gives-then m f km k = Gives-bind m f (λ b e. k b (km.at b e))
