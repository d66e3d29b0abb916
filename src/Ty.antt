-- ===== src/Ty.antt =====
-- crates/core/src/ty.rs: proofs at the type level that two types are the same. The types are those of a universe,
-- and `Self == T` is a path between them.
use Prim.Native.String.{String, ◌++◌}
use gulf.Prelude.{◌≡◌, sym, ap, ◌∙◌}

-- `Identity::This`, by the only implementation.
abbrev pub This : Type 0 → Type 0
This T = T

-- `SameAs`, whose bound is that `Self::This` is the other type.
abbrev pub SameAs : Type 0 → Type 0 → Type 1
SameAs A B = This A ≡ B

-- `AssertSame`, with the implementation of `SameAs` that its bound asks for.
pub record AssertSame (A B : Type 0) : Type 1 where
  pub same : SameAs A B

unfoldable pub new : {A B : Type 0} → SameAs A B → AssertSame A B
new bound = record { same = bound }

unfoldable pub of : (A B : Type 0) → SameAs A B → AssertSame A B
unfolding new
of A B bound = new bound

-- `of_val`, which looks at none of its arguments.
unfoldable pub of_val : {A B A' B' : Type 0} → A' → B' → SameAs A B → AssertSame A B
unfolding new
of_val a b bound = new bound

unfoldable pub clone : {A B : Type 0} → AssertSame A B → AssertSame A B
clone assertion = assertion

unfoldable pub default : {A B : Type 0} → SameAs A B → AssertSame A B
unfolding new
default bound = new bound

-- What `Debug` writes, over `any::type_name`.
unfoldable pub debug : (type_name : Type 0 → String) (A B : Type 0) → AssertSame A B → String
debug type_name A B assertion = type_name A ++ " == " ++ type_name B

-- Where an assertion can be made, the two types are the same, and `Debug` names one type
-- twice.
pub assertion-same :
    (type_name : Type 0 → String) (A B : Type 0) (assertion : AssertSame A B)
    → (A ≡ B) × (debug type_name A B assertion ≡ type_name B ++ " == " ++ type_name B)
unfolding debug
assertion-same type_name A B assertion =
    (assertion.same, ap (λ T. type_name T ++ " == " ++ type_name B) assertion.same)

-- Assertions can be turned round and chained, as equality is.
pub assertion_sym : {A B : Type 0} → AssertSame A B → AssertSame B A
assertion_sym assertion = record { same = sym assertion.same }

pub assertion_trans : {A B C : Type 0} → AssertSame A B → AssertSame B C → AssertSame A C
assertion_trans p q = record { same = p.same ∙ q.same }
