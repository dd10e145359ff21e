-- ===== src/Base/Action.antt =====
-- A method that works on a shared object and may return an error or panic. What was written
-- before an error stays written.
use still_blockchain.Base.{subst}
use mathlib.Core.Path.{◌≡◌, refl, ap, subst}
use mathlib.Core.Bool.{Bool, true, false}
use mathlib.Core.Option.{Option, none, some}
use still_blockchain.Base.Result.{Result, ok, err, panic, Error}

abbrev pub Action {ℓ κ} : Type ℓ → Type κ → Type (ℓ ⊔ κ)
Action S A = S → Result A × S

module _ {ℓ κ} {S : Type ℓ} {A : Type κ} where
  abbrev pub pure : A → Action S A
  pure a s = (ok a, s)

  abbrev pub lift : Result A → Action S A
  lift r s = (r, s)

  abbrev pub gets : (S → A) → Action S A
  gets f s = (ok (f s), s)

  abbrev pub or_err : Option A → Error → Action S A
  or_err none e s = (err e, s)
  or_err (some a) e s = (ok a, s)

infixl 5 ◌>>=◌ ◌>>◌
abbrev pub ◌>>=◌ {ℓ κ λ₁} :
    {S : Type ℓ} {A : Type κ} {B : Type λ₁} → Action S A → (A → Action S B) → Action S B
◌>>=◌ m f s =
    let (r, s') = m s in elim r [ ok a ↦ f a s' | err e ↦ (err e, s') | panic ↦ (panic, s') ]

abbrev pub ◌>>◌ {ℓ κ λ₁} :
    {S : Type ℓ} {A : Type κ} {B : Type λ₁} → Action S A → Action S B → Action S B
m >> k = m >>= λ _. k

module _ {ℓ} {S : Type ℓ} where
  abbrev pub modify : (S → S) → Action S (Unit {0})
  modify f s = (ok tt, f s)

  -- `if bad { return err }`
  abbrev pub fail_if : Bool → Error → Action S (Unit {0})
  fail_if true e s = (err e, s)
  fail_if false e s = (ok tt, s)

-- What holds of the answer and the state after a success; nothing is asked after an error.
abbrev pub After : {S A : Type 0} → (A → S → Type 0) → Result A × S → Type 0
After P (ok a, s) = P a s
After P (err e, s) = Unit
After P (panic, s) = Unit

-- The rule for a call that follows another, and the rule where only the last call matters.
module _ {S A B : Type 0} where
  pub After-elim :
      (P : A → S → Type 0) (Q : B → S → Type 0) (r : Result A × S) (k : A → Action S B)
      → After P r
      → ((a : A) (s : S) → P a s → After Q (k a s))
      → After Q (elim r.0 [ ok a ↦ k a r.1 | err e ↦ (err e, r.1) | panic ↦ (panic, r.1) ])
  After-elim P Q (ok a, s) k first next = next a s first
  After-elim P Q (err e, s) k first next = tt
  After-elim P Q (panic, s) k first next = tt

  pub After-last :
      (Q : B → S → Type 0) (m : Action S A) (k : A → Action S B) (s : S)
      → ((a : A) (s : S) → After Q (k a s))
      → After Q ((m >>= k) s)
  After-last Q m k s next = After-elim (λ _ _. Unit) Q (m s) k (always (m s)) (λ a s' _. next a s')
    where
      always : (r : Result A × S) → After (λ _ _. Unit {0}) r
      always (ok a, s') = tt
      always (err e, s') = tt
      always (panic, s') = tt

pub After-mono :
    {S A : Type 0} (P Q : A → S → Type 0) (r : Result A × S)
    → After P r
    → ((a : A) (s : S) → P a s → Q a s)
    → After Q r
After-mono P Q (ok a, s) p f = f a s p
After-mono P Q (err e, s) p f = tt
After-mono P Q (panic, s) p f = tt

-- The state after a call that follows another, whatever both answer.
module _ {S A B : Type 0} where
  pub bind-state :
      (P Q : S → Type 0) (r : Result A × S) (k : A → Action S B)
      → P r.1
      → ((s : S) → P s → Q s)
      → ((a : A) (s : S) → P s → Q (k a s).1)
      → Q
          (elim r.0 as (λ _. Result B × S) [
            | ok a ↦ k a r.1
            | err e ↦ (err e, r.1)
            | panic ↦ (panic, r.1)
          ]).1
  bind-state P Q (ok a, s) k p stop go = go a s p
  bind-state P Q (err e, s) k p stop go = stop s p
  bind-state P Q (panic, s) k p stop go = stop s p

  -- Two continuations that agree where the first call leads.
  pub bind-cong :
      (P : S → Type 0) (r : Result A × S) (k k' : A → Action S B)
      → P r.1
      → ((a : A) (s : S) → P s → k a s ≡ k' a s)
      → elim r.0 [ ok a ↦ k a r.1 | err e ↦ (err e, r.1) | panic ↦ (panic, r.1) ]
        ≡ elim r.0 [ ok a ↦ k' a r.1 | err e ↦ (err e, r.1) | panic ↦ (panic, r.1) ]
  bind-cong P (ok a, s) k k' p same = same a s p
  bind-cong P (err e, s) k k' p same = refl
  bind-cong P (panic, s) k k' p same = refl

-- What holds after a success, and what holds of the state after an error or a panic.
abbrev pub Ends : {S A : Type 0} → (S → Type 0) → (A → S → Type 0) → Result A × S → Type 0
Ends P Q (ok a, s) = Q a s
Ends P Q (err e, s) = P s
Ends P Q (panic, s) = P s

module _ {S A B : Type 0} where
  pub lift-Ends :
      (P : S → Type 0) (Q : B → S → Type 0) (r : Result A) (k : A → Action S B) (s : S)
      → P s
      → ((a : A) → r ≡ ok a → Ends P Q (k a s))
      → Ends P Q ((lift r >>= k) s)
  lift-Ends P Q (ok a) k s p next = next a refl
  lift-Ends P Q (err e) k s p next = p
  lift-Ends P Q panic k s p next = p

  -- The rule for the state after a call that follows one of which more is known.
  pub Ends-state :
      (P : S → Type 0) (Q : A → S → Type 0) (m : Action S A) (k : A → Action S B) (s : S)
      → Ends P Q (m s)
      → ((a : A) (s : S) → Q a s → P (k a s).1)
      → P ((m >>= k) s).1
  Ends-state P Q m k s first next = go (m s) first
    where
      go :
          (r : Result A × S)
          → Ends P Q r
          → P
              (elim r.0 as (λ _. Result B × S) [
                | ok a ↦ k a r.1
                | err e ↦ (err e, r.1)
                | panic ↦ (panic, r.1)
              ]).1
      go (ok a, s') q = next a s' q
      go (err e, s') q = q
      go (panic, s') q = q

module _ {S A B : Type 0} where
  -- A call that succeeds, and goes on.
  pub bind-ok :
      (m : Action S A) (k : A → Action S B) (s : S) {a : A} {s' : S}
      → m s ≡ (ok a, s')
      → (m >>= k) s ≡ k a s'
  bind-ok m k s e =
      ap
        (λ (r : Result A × S). elim r.0 as (λ _. Result B × S) [
          | ok a ↦ k a r.1
          | err x ↦ (err x, r.1)
          | panic ↦ (panic, r.1)
        ])
        e

  pub lift-After :
      (Q : B → S → Type 0) (r : Result A) (k : A → Action S B) (s : S)
      → ((a : A) → r ≡ ok a → After Q (k a s))
      → After Q ((lift r >>= k) s)
  lift-After Q (ok a) k s next = next a refl
  lift-After Q (err e) k s next = tt
  lift-After Q panic k s next = tt

-- What holds after a success holds of this one.
pub After-ok :
    {S A : Type 0} (P : A → S → Type 0) (r : Result A × S) {a : A} {s : S}
    → After P r
    → r ≡ (ok a, s)
    → P a s
After-ok P r h e = subst (After P) e h

-- What holds of the state holds after a success.
pub state-After : {S A : Type 0} (P : S → Type 0) (r : Result A × S) → P r.1 → After (λ _ s. P s) r
state-After P (ok a, s) p = p
state-After P (err e, s) p = tt
state-After P (panic, s) p = tt

module _ {S A B : Type 0} where
  pub lift-state :
      (P : S → Type 0) (r : Result A) (k : A → Action S B) (s : S)
      → P s
      → ((a : A) → r ≡ ok a → P (k a s).1)
      → P ((lift r >>= k) s).1
  lift-state P (ok a) k s p next = next a refl
  lift-state P (err e) k s p next = p
  lift-state P panic k s p next = p
