-- ===== src/System/Rules.antt =====
-- Rules for what holds between the world before an action and the world after it, however the
-- action ends: for any relation that is reflexive and transitive.
use mco_louna_task.Exec.{Action, World, catch, lift, ◌>>=◌}
use mco_louna_task.Errors.{Error, Result, err, ok}
use mco_louna_task.Base.{Bool, false, if◌then◌else◌, true}

abbrev pub Keeps : (World → World → Type 0) → {A : Type 0} → Action A → Type 0
Keeps R m = (w : World) → R w (m w).1

module _ (R : World → World → Type 0) (here : (w : World) → R w w)
    (trans : (u v w : World) → R u v → R v w → R u w) where
  module _ {A B : Type 0} (f : A → Action B) (h : (a : A) → Keeps R (f a)) where
    bind_rest :
        (w : World) (x : Result A × World) → R w x.1 → R w (((λ (_ : World). x) >>= f) x.1).1
    bind_rest w (ok a, w') k = trans w w' (f a w').1 k (h a w')
    bind_rest w (err e, w') k = k

    pub bind-Keeps : (m : Action A) → Keeps R m → Keeps R (m >>= f)
    bind-Keeps m hm w = bind_rest w (m w) (hm w)

    pub lift-Keeps : (r : Result A) → Keeps R (lift r >>= f)
    lift-Keeps r w = bind_rest w (r, w) (here w)

  module _ {A : Type 0} (handler : Error → Action A) (h : (e : Error) → Keeps R (handler e)) where
    catch_rest :
        (w : World) (x : Result A × World) → R w x.1 → R w (catch (λ (_ : World). x) handler x.1).1
    catch_rest w (ok a, w') k = k
    catch_rest w (err e, w') k = trans w w' (handler e w').1 k (h e w')

    pub catch-Keeps : (m : Action A) → Keeps R m → Keeps R (catch m handler)
    catch-Keeps m hm w = catch_rest w (m w) (hm w)

pub choose-Keeps :
    {A : Type 0} (R : World → World → Type 0) (b : Bool) (m n : Action A)
    → Keeps R m
    → Keeps R n
    → Keeps R (if b then m else n)
choose-Keeps R true m n hm hn = hm
choose-Keeps R false m n hm hn = hn
