-- ===== src/Att/Action.antt =====
-- Fallible calls in sequence: the `?` of the transports of rust/src, over the world that they act on.
use jbl_aura_play_together.Base.{
  ◌≡◌, ◌∙◌, refl, Bool, true, false, Option, none, some, arith, Result, ok, err,
}

abbrev pub Action : Type 0 → Type 0 → Type 0 → Type 0
Action W E A = W → Result A E × W

abbrev pub after : {W E A B : Type 0} → (A → Action W E B) → Result A E × W → Result B E × W
after f (ok a, w) = f a w
after f (err e, w) = (err e, w)

infixl 5 ◌>>=◌ ◌>>◌
abbrev pub ◌>>=◌ : {W E A B : Type 0} → Action W E A → (A → Action W E B) → Action W E B
◌>>=◌ m f w = after f (m w)

abbrev pub ◌>>◌ : {W E A B : Type 0} → Action W E A → Action W E B → Action W E B
m >> k = m >>= λ _. k

abbrev pub pure : {W E A : Type 0} → A → Action W E A
pure a w = (ok a, w)

-- A call that fails, or misses its deadline, with one reason.
abbrev pub answer : {W E A : Type 0} → E → Option A × W → Result A E × W
answer e (some a, w) = (ok a, w)
answer e (none, w) = (err e, w)

abbrev pub ask : {W E A : Type 0} → (W → Option A × W) → E → Action W E A
ask call e w = answer e (call w)

abbrev pub ensure : {W E : Type 0} → Bool → E → Action W E (Unit {0})
ensure true e w = (ok tt, w)
ensure false e w = (err e, w)

-- An action that leaves a reading of the world as it is.
module _ {W X : Type 0} (reading : W → X) where
  abbrev pub Keeps : {E A : Type 0} → Action W E A → Type 0
  Keeps m = (w : W) → reading (m w).1 ≡ reading w

  pub after-Keeps :
      {E A B : Type 0} (f : A → Action W E B) (r : Result A E × W)
      → ((a : A) → Keeps (f a))
      → reading (after f r).1 ≡ reading r.1
  after-Keeps f (ok a, w) h = h a w
  after-Keeps f (err e, w) h = refl

  answer-Keeps : {E A : Type 0} (e : E) (r : Option A × W) → reading (answer e r).1 ≡ reading r.1
  answer-Keeps e (some a, w) = refl
  answer-Keeps e (none, w) = refl

  pub bind-Keeps :
      {E A B : Type 0} (m : Action W E A) (f : A → Action W E B)
      → Keeps m
      → ((a : A) → Keeps (f a))
      → Keeps (m >>= f)
  bind-Keeps m f hm hf w = after-Keeps f (m w) hf ∙ hm w

  pub ask-Keeps :
      {E A : Type 0} (call : W → Option A × W) (e : E)
      → ((w : W) → reading (call w).1 ≡ reading w)
      → Keeps (ask call e)
  ask-Keeps call e h w = answer-Keeps e (call w) ∙ h w

  pub ensure-Keeps : {E : Type 0} (b : Bool) (e : E) → Keeps (ensure b e)
  ensure-Keeps true e w = refl
  ensure-Keeps false e w = refl

-- What holds of every value that an action returns.
module _ {A : Type 0} (P : A → Type 0) where
  abbrev pub Ensures : {W E : Type 0} → Action W E A → Type 0
  Ensures {W = W} m = (w : W) (a : A) → (m w).0 ≡ ok a → P a

  pub after-Ensures :
      {W E B : Type 0} (f : B → Action W E A) (r : Result B E × W)
      → ((b : B) → Ensures (f b))
      → (a : A) → (after f r).0 ≡ ok a
      → P a
  after-Ensures f (ok b, w) h a e = h b w a e
  after-Ensures f (err x, w) h a e = absurd (ground arith)

pub after_ok :
    {W E A B : Type 0} (f : B → Action W E A) (r : Result B E × W) (a : A)
    → (after f r).0 ≡ ok a
    → (b : B) × (r.0 ≡ ok b) × ((f b r.1).0 ≡ ok a)
after_ok f (ok b, w) a h = (b, refl, h)
after_ok f (err x, w) a h = absurd (ground arith)
