-- ===== src/Prelude/Io.antt =====
-- Actions on a state that may fail, as `Exec` with a bind that stays shut, and what they keep true.
use lact.Prelude.{String, Bool, true, false, if◌then◌else◌, ◌≡◌, refl, arith}
use lact.Prelude.Exec.{Exec, Error, Result, ok, err, is_ok, continue, with_context}

module _ {S A : Type 0} where
  unfoldable pub pure : A → Exec S A
  pure a s = (ok a, s)

  unfoldable pub raise : Error → Exec S A
  raise e s = (err e, s)

  unfoldable pub lift : Result A → Exec S A
  lift r s = (r, s)

  unfoldable pub attempt : Exec S A → Exec S (Result A)
  attempt m s = (ok (m s).0, (m s).1)

  unfoldable pub in_context : String → Exec S A → Exec S A
  in_context c m s = (with_context c (m s).0, (m s).1)

module _ {S A B : Type 0} where
  infixl 10 ◌>>=◌ ◌>>◌
  unfoldable pub ◌>>=◌ : Exec S A → (A → Exec S B) → Exec S B
  unfolding pure raise lift attempt in_context
  ◌>>=◌ m f s = continue (m s).0 f (m s).1

  abbrev pub ◌>>◌ : Exec S A → Exec S B → Exec S B
  m >> n = m >>= λ _. n

-- Where `P` holds before `act`, it holds after, success or not.
pub record Upholds {S A : Type 0} (P : S → Type 0) (act : Exec S A) : Type 0 where
  pub after : (before : S) → P before → P (act before).1

module _ {S A B : Type 0} (P : S → Type 0) (rest : A → Exec S B) where
  Upholds-continue :
      (answer : Result A) (before : S)
      → ((value : A) → Upholds P (rest value))
      → P before
      → P (continue answer rest before).1
  Upholds-continue (ok value) before every holds = (every value).after before holds
  Upholds-continue (err e) before every holds = holds

module _ {S : Type 0} {P : S → Type 0} where
  pub Upholds-bind :
      {A B : Type 0} (act : Exec S A) (rest : A → Exec S B)
      → Upholds P act
      → ((value : A) → Upholds P (rest value))
      → Upholds P (act >>= rest)
  unfolding ◌>>=◌
  Upholds-bind act rest first every = record {
    after = λ before holds.
        Upholds-continue P rest (act before).0 (act before).1 every (first.after before holds);
  }

  pub Upholds-lift : {A : Type 0} (answer : Result A) → Upholds P (lift answer)
  unfolding lift
  Upholds-lift answer = record { after = λ before holds. holds }

  pub Upholds-pure : {A : Type 0} (value : A) → Upholds P (pure value)
  unfolding pure lift
  Upholds-pure value = Upholds-lift (ok value)

  pub Upholds-raise : {A : Type 0} (e : Error) → Upholds P (raise {A = A} e)
  unfolding raise lift
  Upholds-raise e = Upholds-lift (err e)

  pub Upholds-in_context :
      {A : Type 0} (c : String) (act : Exec S A) → Upholds P act → Upholds P (in_context c act)
  unfolding in_context
  Upholds-in_context c act first = record { after = first.after }

  pub Upholds-attempt : {A : Type 0} (act : Exec S A) → Upholds P act → Upholds P (attempt act)
  unfolding attempt
  Upholds-attempt act first = record { after = first.after }

  pub Upholds-if :
      {A : Type 0} (test : Bool) (this that : Exec S A)
      → Upholds P this
      → Upholds P that
      → Upholds P (if test then this else that)
  Upholds-if true this that first second = first
  Upholds-if false this that first second = second

-- However `act` ends, its result and the state it leaves are in `Q`.
pub record Ends {S A : Type 0} (Q : Result A → S → Type 0) (act : Exec S A) : Type 0 where
  pub ending : (before : S) → Q (act before).0 (act before).1

module _ {S A B : Type 0} {Q : Result B → S → Type 0} where
  -- A failure of the first action is the failure of both.
  pub Ends-bind :
      (act : Exec S A) (rest : A → Exec S B)
      → ((e : Error) (s : S) → Q (err e) s)
      → ((value : A) → Ends Q (rest value))
      → Ends Q (act >>= rest)
  unfolding ◌>>=◌
  Ends-bind act rest fails every = record {
    ending = λ before.
        elim (act before).0
          as (λ r. Q (continue r rest (act before).1).0 (continue r rest (act before).1).1) [
            | ok value ↦ (every value).ending (act before).1
            | err e ↦ fails e (act before).1
          ];
  }

module _ {S A B : Type 0} where
  continue_ok :
      (r : Result A) (f : A → Exec S B) (s : S)
      → is_ok (continue r f s).0 ≡ true
      → (a : A) × ((r ≡ ok a) × (continue r f s ≡ f a s))
  continue_ok (ok a) f s p = (a, (refl, refl))
  continue_ok (err e) f s p = ground arith

  pub bind_ok :
      (m : Exec S A) (f : A → Exec S B) (s : S)
      → is_ok ((m >>= f) s).0 ≡ true
      → (a : A) × (((m s).0 ≡ ok a) × ((m >>= f) s ≡ f a (m s).1))
  unfolding ◌>>=◌
  bind_ok m f s p = continue_ok (m s).0 f (m s).1 p

  pub bind_step :
      (m : Exec S A) (f : A → Exec S B) (s : S) (a : A) (s' : S)
      → m s ≡ (ok a, s')
      → (m >>= f) s ≡ f a s'
  unfolding ◌>>=◌
  bind_step m f s a s' q = rw q refl

  pub bind_err :
      (m : Exec S A) (f : A → Exec S B) (s : S) (e : Error)
      → (m s).0 ≡ err e
      → (m >>= f) s ≡ (err e, (m s).1)
  unfolding ◌>>=◌
  bind_err m f s e p = rw p

pub ruleset upholds_rules = (
  Upholds-pure, Upholds-raise, Upholds-lift, Upholds-attempt, Upholds-in_context, Upholds-if,
  Upholds-bind,
)
