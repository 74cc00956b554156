-- ===== src/Injector/Multi/Order.antt =====
-- A list of injectors is run from its first to its last, and stops where one fails.
use toda.Base.{◌∙◌, sym, ◌≡◌, refl, ap, [], ◌∷◌, ◌++◌}
use toda.Action.{Action, Result, ok, err, panic, ◌>>=◌, ◌>>◌, after_step}
use toda.FilePath.{FilePath}
use toda.External.{External}
use toda.Injector.Context.{Context}
use toda.Injector.Method.{Method}
use toda.Injector.Multi.{MultiInjector, inject_one, inject}

module _ (x : External) where
  after_after :
      {A B C : Type 0} (f : A → Action (Context x) B) (g : B → Action (Context x) C) (r : Result A)
      (c : Context x)
      → (after_step f r >>= g) c ≡ after_step (λ a. f a >>= g) r c
  unfolding ◌>>=◌
  after_after f g (ok a) c = refl
  after_after f g (err e) c = refl
  after_after f g panic c = refl

  >>=_assoc :
      {A B C : Type 0} (m : Action (Context x) A) (f : A → Action (Context x) B)
      (g : B → Action (Context x) C) (c : Context x)
      → ((m >>= f) >>= g) c ≡ (m >>= λ a. f a >>= g) c
  unfolding ◌>>=◌
  >>=_assoc m f g c = after_after f g (m c).0 (m c).1

  -- Two lists of injectors after one another do what the first does and then, unless it failed, what
  -- the second does.
  pub inject-append :
      (is js : MultiInjector x) (method : Method) (path : FilePath) (c : Context x)
      → inject x (is ++ js) method path c ≡ (inject x is method path >> inject x js method path) c
  unfolding inject ◌>>◌ ◌>>=◌
  inject-append [] js method path c = refl
  inject-append (i ∷ is) js method path c =
      ap (λ k. (inject_one x i method path >>= λ u. k) c)
        (λ t c'. inject-append is js method path c' t)
      ∙ sym (>>=_assoc (inject_one x i method path) _ _ c)
