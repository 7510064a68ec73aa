-- ===== src/Execution/Triple.antt =====
-- Hoare triples for the actions of execution/executor.py, one rule for each way to build an action.
use technical_test_mitus_ai.Prelude.{◌≡◌, refl, Bool, true, false, if◌then◌else◌, Result, ok, err}
use technical_test_mitus_ai.Execution.Action.{
  World, Outcome, Exception, returned, raised, Action, pure, raise, lift, try_except, ◌>>=◌,
  continue, handled,
}

-- `Post` of a returned value, `Failed` after an exception
abbrev pub Holds {ℓ} :
    {A : Type ℓ} → (A → World → Type 0) → (World → Type 0) → Outcome A → World → Type 0
Holds Post Failed (returned a) w = Post a w
Holds Post Failed (raised e) w = Failed w

pub record Triple {ℓ} {A : Type ℓ} (Pre : World → Type 0) (m : Action A) (Post : A → World → Type 0)
    (Failed : World → Type 0) : Type ℓ where
  pub at : (w : World) → Pre w → Holds Post Failed (m w).0 (m w).1

module _ {ℓ κ} {A : Type ℓ} {B : Type κ} where
  Holds-continue :
      (Failed : World → Type 0) (Mid : A → World → Type 0) (Post : B → World → Type 0)
      (f : A → Action B)
      → ((a : A) → Triple (Mid a) (f a) Post Failed)
      → (o : Outcome A) (w : World) → Holds Mid Failed o w
      → Holds Post Failed (continue o f w).0 (continue o f w).1
  Holds-continue Failed Mid Post f tf (returned a) w h = (tf a).at w h
  Holds-continue Failed Mid Post f tf (raised e) w h = h

  pub Triple-bind :
      {Pre Failed : World → Type 0} (Mid : A → World → Type 0) {Post : B → World → Type 0}
      (m : Action A) (f : A → Action B)
      → Triple Pre m Mid Failed
      → ((a : A) → Triple (Mid a) (f a) Post Failed)
      → Triple Pre (m >>= f) Post Failed
  unfolding ◌>>=◌
  Triple-bind {Failed} Mid {Post} m f tm tf = record {
    at = λ w h. Holds-continue Failed Mid Post f tf (m w).0 (m w).1 (tm.at w h);
  }

module _ {ℓ} {A : Type ℓ} {G : World → Type 0} where
  pub Triple-pure :
      (R : A → World → Type 0) (a : A) → ((w : World) → G w → R a w) → Triple G (pure a) R G
  unfolding pure
  Triple-pure R a h = record { at = h }

  pub Triple-raise : (R : A → World → Type 0) (e : Exception) → Triple G (raise {A = A} e) R G
  unfolding raise
  Triple-raise R e = record { at = λ w h. h }

  pub Triple-if :
      (R : A → World → Type 0) (b : Bool) (m n : Action A)
      → (b ≡ true → Triple G m R G)
      → (b ≡ false → Triple G n R G)
      → Triple G (if b then m else n) R G
  Triple-if R true m n tm tn = tm refl
  Triple-if R false m n tm tn = tn refl

  Holds-handled :
      (R : A → World → Type 0) (handler : Exception → Action A)
      → ((e : Exception) → Triple G (handler e) R G)
      → (o : Outcome A) (w : World) → Holds R G o w
      → Holds R G (handled o handler w).0 (handled o handler w).1
  Holds-handled R handler th (returned a) w h = h
  Holds-handled R handler th (raised e) w h = (th e).at w h

  pub Triple-try_except :
      (R : A → World → Type 0) (body : Action A) (handler : Exception → Action A)
      → Triple G body R G
      → ((e : Exception) → Triple G (handler e) R G)
      → Triple G (try_except body handler) R G
  unfolding try_except
  Triple-try_except R body handler tb th = record {
    at = λ w h. Holds-handled R handler th (body w).0 (body w).1 (tb.at w h);
  }

module _ {ℓ} {A : Type ℓ} (Failed : World → Type 0) where
  Holds-post :
      (Post Post' : A → World → Type 0)
      → ((a : A) (w : World) → Post a w → Post' a w)
      → (o : Outcome A) (w : World) → Holds Post Failed o w
      → Holds Post' Failed o w
  Holds-post Post Post' weaken (returned a) w h = weaken a w h
  Holds-post Post Post' weaken (raised e) w h = h

  Holds-any :
      (Post : A → World → Type 0) (o : Outcome A) (w : World)
      → Holds Post Failed o w
      → Holds Post (λ w. Unit) o w
  Holds-any Post (returned a) w h = h
  Holds-any Post (raised e) w h = tt

  Holds-both :
      (Failed' : World → Type 0) (Post Post' : A → World → Type 0) (o : Outcome A) (w : World)
      → Holds Post Failed o w
      → Holds Post' Failed' o w
      → Holds (λ a w. Post a w × Post' a w) (λ w. Failed w × Failed' w) o w
  Holds-both Failed' Post Post' (returned a) w h h' = (h, h')
  Holds-both Failed' Post Post' (raised e) w h h' = (h, h')

module _ {ℓ} {A : Type ℓ} where
  pub Triple-weaken :
      {Pre Pre' Failed : World → Type 0} (Post : A → World → Type 0) (m : Action A)
      → ((w : World) → Pre' w → Pre w)
      → Triple Pre m Post Failed
      → Triple Pre' m Post Failed
  Triple-weaken Post m weaken t = record { at = λ w h. t.at w (weaken w h) }

  pub Triple-post :
      {Pre Failed : World → Type 0} (Post Post' : A → World → Type 0) (m : Action A)
      → ((a : A) (w : World) → Post a w → Post' a w)
      → Triple Pre m Post Failed
      → Triple Pre m Post' Failed
  Triple-post {Failed} Post Post' m weaken t = record {
    at = λ w h. Holds-post Failed Post Post' weaken (m w).0 (m w).1 (t.at w h);
  }

  pub Triple-any :
      {Pre Failed : World → Type 0} (Post : A → World → Type 0) (m : Action A)
      → Triple Pre m Post Failed
      → Triple Pre m Post (λ w. Unit)
  Triple-any {Failed} Post m t = record {
    at = λ w h. Holds-any Failed Post (m w).0 (m w).1 (t.at w h);
  }

  -- Two triples of one action
  pub Triple-both :
      {Pre Pre' Failed Failed' : World → Type 0} (Post Post' : A → World → Type 0) (m : Action A)
      → Triple Pre m Post Failed
      → Triple Pre' m Post' Failed'
      → Triple (λ w. Pre w × Pre' w) m (λ a w. Post a w × Post' a w) (λ w. Failed w × Failed' w)
  Triple-both {Failed} {Failed'} Post Post' m t t' = record {
    at = λ w h. Holds-both Failed Failed' Post Post' (m w).0 (m w).1 (t.at w h.0) (t'.at w h.1);
  }

  -- A fact about values that holds in the world before
  pub Triple-assume :
      {Pre Failed : World → Type 0} (V : Type 0) (Post : A → World → Type 0) (m : Action A)
      → (V → Triple Pre m Post Failed)
      → Triple (λ w. Pre w × V) m Post Failed
  Triple-assume V Post m t = record { at = λ w h. (t h.1).at w h.0 }

-- An action that keeps `G` whatever happens.
abbrev pub Keeps {ℓ} : {A : Type ℓ} → (World → Type 0) → Action A → Type ℓ
Keeps G m = Triple G m (λ a. G) G

module _ {ℓ κ} {A : Type ℓ} {B : Type κ} {G : World → Type 0} where
  pub Triple-then :
      (R : B → World → Type 0) (m : Action A) (f : A → Action B)
      → Keeps G m
      → ((a : A) → Triple G (f a) R G)
      → Triple G (m >>= f) R G
  Triple-then R m f tm tf = Triple-bind (λ a. G) m f tm tf

  -- The rest of the block may use that `r` did not raise.
  pub Triple-lift :
      (R : B → World → Type 0) (r : Result A) (f : A → Action B)
      → ((a : A) → r ≡ ok a → Triple G (f a) R G)
      → Triple G (lift r >>= f) R G
  unfolding ◌>>=◌ lift
  Triple-lift R (ok a) f tf = record { at = (tf a refl).at }
  Triple-lift R (err e) f tf = record { at = λ w h. h }

module _ {ℓ κ} {A : Type ℓ} {B : Type κ} where
  pub Triple-lift_any :
      {Pre : World → Type 0} (R : B → World → Type 0) (r : Result A) (f : A → Action B)
      → ((a : A) → r ≡ ok a → Triple Pre (f a) R (λ w. Unit))
      → Triple Pre (lift r >>= f) R (λ w. Unit)
  unfolding ◌>>=◌ lift
  Triple-lift_any R (ok a) f tf = record { at = (tf a refl).at }
  Triple-lift_any R (err e) f tf = record { at = λ w h. tt }

module _ {ℓ} {A : Type ℓ} {G : World → Type 0} where
  pub Keeps-pure : (a : A) → Keeps G (pure a)
  Keeps-pure a = Triple-pure (λ a. G) a (λ w h. h)

  pub Keeps-raise : (e : Exception) → Keeps G (raise {A = A} e)
  Keeps-raise e = Triple-raise (λ a. G) e

  pub Keeps-lift : (r : Result A) → Keeps G (lift r)
  unfolding lift
  Keeps-lift (ok a) = record { at = λ w h. h }
  Keeps-lift (err e) = record { at = λ w h. h }

  pub Keeps-if : (b : Bool) (m n : Action A) → Keeps G m → Keeps G n → Keeps G (if b then m else n)
  Keeps-if true m n tm tn = tm
  Keeps-if false m n tm tn = tn

module _ {ℓ κ} {A : Type ℓ} {B : Type κ} {G : World → Type 0} where
  pub Keeps-bind :
      (m : Action A) (f : A → Action B) → Keeps G m → ((a : A) → Keeps G (f a)) → Keeps G (m >>= f)
  Keeps-bind m f tm tf = Triple-then (λ a. G) m f tm tf

pub ruleset keeps_rules = (Keeps-pure, Keeps-raise, Keeps-lift, Keeps-if, Keeps-bind)
