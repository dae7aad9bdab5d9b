-- ===== src/Setup/Ensures.antt =====
-- setup-railway.js: what a script does and returns, with one rule for each way to build a script.
use pe_hackathon.Base.{
  ◌≡◌, refl, sym, subst, Bool, true, false, Option, none, some, String, List, [], ◌∷◌, ◌++◌,
  Outcome, returned, threw, if◌then◌else◌,
}
use pe_hackathon.Base.Store.{Store}
use pe_hackathon.Setup.Client.{
  Request, GqlReply, Script, pure, lift, note, attempt, gql, send, need, read_gql, get_auth_headers,
  ◌>>=◌, Settings, Remote, mutate,
}

abbrev pub Everything : (Request → Type 0) → List Request → Type 0
Everything P [] = Unit {0}
Everything P (r ∷ h) = P r × Everything P h

-- A result that is returned has the property.
abbrev pub Holds : {A : Type 0} → (A → Type 0) → Outcome A → Type 0
Holds Q (threw msg) = Unit {0}
Holds Q (returned a) = Q a

-- All that the script does has the property `P`, and what it returns has the property `Q`.
pub record Ensures {A : Type 0} (P : Request → Type 0) (Q : A → Type 0) (m : Script A)
    : Type 0 where
  pub at : (h : List Request) → Everything P h → Everything P (m h).1 × Holds Q (m h).0

abbrev pub Anything : {A : Type 0} → A → Type 0
Anything a = Unit {0}

Everything-snoc :
    (P : Request → Type 0) (h : List Request) (r : Request)
    → Everything P h
    → P r
    → Everything P (h ++ r ∷ [])
Everything-snoc P [] r k p = (p, tt)
Everything-snoc P (q ∷ h) r (kq, k) p = (kq, Everything-snoc P h r k p)

module _ {P : Request → Type 0} where
  pub Ensures-note : (r : Request) → P r → Ensures P Anything (note r)
  unfolding note
  Ensures-note r p = record { at = λ h k. (Everything-snoc P h r k p, tt) }

  module _ {A : Type 0} {Q : A → Type 0} where
    pub Ensures-pure : (a : A) → Q a → Ensures P Q (pure a)
    unfolding pure
    Ensures-pure a q = record { at = λ h k. (k, q) }

    pub Ensures-lift : (r : Outcome A) → Holds Q r → Ensures P Q (lift r)
    unfolding lift
    Ensures-lift r q = record { at = λ h k. (k, q) }

    pub Ensures-attempt : (m : Script A) → Ensures P Q m → Ensures P Anything (attempt m)
    unfolding attempt
    Ensures-attempt m e = record { at = λ h k. ((e.at h k).0, tt) }

    pub Ensures-if :
        (b : Bool) (m n : Script A)
        → (b ≡ true → Ensures P Q m)
        → (b ≡ false → Ensures P Q n)
        → Ensures P Q (if b then m else n)
    Ensures-if true m n em en = em refl
    Ensures-if false m n em en = en refl

    pub Ensures-skip :
        (b : Bool) (m n : Script A) → b ≡ true → Ensures P Q m → Ensures P Q (if b then m else n)
    Ensures-skip b m n h e = subst (λ b. Ensures P Q (if b then m else n)) (sym h) e

  module _ {A : Type 0} {Q : Option A → Type 0} (r : Request)
      (reply : List Request → GqlReply A) where
    Ensures-send :
        (headers : Outcome (String × String))
        → P r
        → ((h : List Request) → Holds Q (read_gql (reply (h ++ r ∷ []))))
        → Ensures P Q (send headers r reply)
    unfolding send
    Ensures-send (threw msg) p q = record { at = λ h k. (k, tt) }
    Ensures-send (returned _) p q = record { at = λ h k. (Everything-snoc P h r k p, q h) }

    -- A request whose answer has the property, whatever the history.
    pub Ensures-gql :
        (env : Store String)
        → P r
        → ((h : List Request) → Holds Q (read_gql (reply (h ++ r ∷ []))))
        → Ensures P Q (gql env r reply)
    unfolding gql
    Ensures-gql env p q = Ensures-send (get_auth_headers env) p q

module _ {A B : Type 0} {P : Request → Type 0} {Q : A → Type 0} {R : B → Type 0} where
  Ensures-bind-lift :
      (r : Outcome A) (f : A → Script B)
      → Holds Q r
      → ((a : A) → Q a → Ensures P R (f a))
      → Ensures P R (lift r >>= f)
  unfolding ◌>>=◌ lift
  Ensures-bind-lift (returned a) f q ef = ef a q
  Ensures-bind-lift (threw msg) f q ef = record { at = λ h k. (k, tt) }

  pub Ensures-bind :
      (m : Script A) (f : A → Script B)
      → Ensures P Q m
      → ((a : A) → Q a → Ensures P R (f a))
      → Ensures P R (m >>= f)
  unfolding ◌>>=◌ lift
  Ensures-bind m f em ef = record {
    at = λ h k. let (k', q) = em.at h k in (Ensures-bind-lift (m h).0 f q ef).at (m h).1 k';
  }

Holds-Anything : {A : Type 0} (r : Outcome A) → Holds Anything r
Holds-Anything (returned a) = tt
Holds-Anything (threw msg) = tt

-- A change, whatever Railway answers.
pub Ensures-mutate :
    {P : Request → Type 0} (s : Settings) (w : Remote) (r : Request)
    → P r
    → Ensures P Anything (mutate s w r)
unfolding mutate
Ensures-mutate s w r p =
    Ensures-bind _ _ (Ensures-gql {Q = Anything} r w.change s.env p (λ h. Holds-Anything _))
      (λ a _. Ensures-pure tt tt)

module _ {A B : Type 0} {P : Request → Type 0} {Q : B → Type 0} where
  pub Ensures-option :
      (o : Option A) (n : Script B) (f : A → Script B)
      → Ensures P Q n
      → ((a : A) → o ≡ some a → Ensures P Q (f a))
      → Ensures P Q (elim o [ none ↦ n | some a ↦ f a ])
  Ensures-option none n f en ef = en
  Ensures-option (some a) n f en ef = ef a refl

  pub Ensures-some :
      (o : Option A) (n : Script B) (f : A → Script B) (a : A)
      → o ≡ some a
      → Ensures P Q (f a)
      → Ensures P Q (elim o [ none ↦ n | some a ↦ f a ])
  Ensures-some o n f a same e =
      subst (λ o. Ensures P Q (elim o [ none ↦ n | some a ↦ f a ])) (sym same) e

module _ {A B : Type 0} {P : Request → Type 0} where
  -- Two scripts in a row, of which the second does not depend on what is known of the first's result.
  pub Ensures-then :
      (m : Script A) (f : A → Script B)
      → Ensures P Anything m
      → ((a : A) → Ensures P Anything (f a))
      → Ensures P Anything (m >>= f)
  Ensures-then m f em ef = Ensures-bind m f em (λ a _. ef a)

module _ {P : Request → Type 0} {A : Type 0} where
  pub Ensures-done : (a : A) → Ensures P Anything (pure a)
  Ensures-done a = Ensures-pure a tt

  pub Ensures-outcome : (r : Outcome A) → Ensures P Anything (lift r)
  Ensures-outcome r = Ensures-lift r (Holds-Anything r)

-- A query, whatever Railway answers.
pub Ensures-query :
    {A : Type 0} {P : Request → Type 0} (env : Store String) (r : Request)
    (reply : List Request → GqlReply A)
    → P r
    → Ensures P Anything (gql env r reply)
Ensures-query env r reply p = Ensures-gql r reply env p (λ h. Holds-Anything _)

pub Holds-known :
    {A : Type 0} (Q : A → Type 0) (o : Outcome A) → ((a : A) → o ≡ returned a → Q a) → Holds Q o
Holds-known Q (threw msg) k = tt
Holds-known Q (returned a) k = k a refl

-- The data of a reply, where there is data.
abbrev pub Given : {A : Type 0} → (A → Type 0) → Option A → Type 0
Given Q none = Unit {0}
Given Q (some a) = Q a

pub Given-known :
    {A : Type 0} (Q : A → Type 0) (o : Option A) → ((a : A) → o ≡ some a → Q a) → Given Q o
Given-known Q none k = tt
Given-known Q (some a) k = k a refl

pub Ensures-need :
    {A : Type 0} {P : Request → Type 0} (Q : A → Type 0) (field : String) (o : Option A)
    → Given Q o
    → Ensures P Q (lift (need field o))
Ensures-need Q field none q = Ensures-lift _ tt
Ensures-need Q field (some a) q = Ensures-lift _ q
