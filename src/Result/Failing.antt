-- ===== src/Result/Failing.antt =====
-- What a call returns, unless it fails: a property of its result and of the state that it leaves.
use dnswire.Exec.{Exec, ret, fault, Allows}
use dnswire.Result.{Result, ok, error}

-- The call fails, or it returns what `P` allows.
abbrev pub Or {ℓ} : {S : Type ℓ} → (Result → S → Type 0) → Result → S → Type 0
Or P error s = Unit
Or P r s = P r s

pub of_P {ℓ} : {S : Type ℓ} (P : Result → S → Type 0) (r : Result) (s : S) → P r s → Or P r s
of_P P error s p = tt
of_P P _ s p = p

Or-map {ℓ} :
    {S : Type ℓ} (P Q : Result → S → Type 0) (r : Result) (s : S)
    → ((r : Result) (s : S) → P r s → Q r s)
    → Or P r s
    → Or Q r s
Or-map P Q error s f p = tt
Or-map P Q ok s f p = f ok s p
Or-map P Q _ s f p = f _ s p

-- `state` is where the state is in what the call leaves.
pub Or-Allows {ℓ κ} :
    {S : Type ℓ} {X : Type κ} (state : X → S) (P Q : Result → S → Type 0) (m : Exec (Result × X))
    → ((r : Result) (s : S) → P r s → Q r s)
    → Allows (λ x. Or P x.0 (state x.1)) m
    → Allows (λ x. Or Q x.0 (state x.1)) m
Or-Allows state P Q (ret x) f h = Or-map P Q x.0 (state x.1) f h
Or-Allows state P Q (fault e) f h = tt
