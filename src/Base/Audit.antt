-- ===== src/Base/Audit.antt =====
-- The lifecycle objects of the platforms keep one kind of history: a list of dicts with the keys
-- `from`, `to`, `actor`, `reason` and `at`.
use Prim.Native.Nat.{suc}
use Prim.Native.String.{String}
use mathlib.Core.Path.{◌≡◌, refl, sym, ◌∙◌}
use mathlib.Core.List.{List, [], ◌∷◌, ◌++◌}
use native.Mathlib.Omega.{arith}
use openmodelops.Base.Lists.{length, length-append}

pub record Entry : Type 0 where
  pub from : String
  pub to : String
  pub actor : String
  pub reason : String
  pub at : String

-- The entries lead from one stage to another, each from the stage that the one before it entered.
abbrev pub Chain : String → List Entry → String → Type 0
Chain a [] b = a ≡ b
Chain a (e ∷ es) b = (e.from ≡ a) × Chain e.to es b

pub Chain-append :
    (a b : String) (es : List Entry) (e : Entry)
    → Chain a es b
    → e.from ≡ b
    → Chain a (es ++ e ∷ []) e.to
Chain-append a b [] e h k = (k ∙ sym h, refl)
Chain-append a b (f ∷ es) e h k = ground (arith, Chain-append f.to b es e h.1)

pub length-audit : (es : List Entry) (e : Entry) → length (es ++ e ∷ []) ≡ suc (length es)
length-audit es e = omega (arith, length-append es (e ∷ []))
