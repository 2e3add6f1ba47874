-- ===== src/Base/Eq.antt =====
-- Equality tests as an interface: the keys of a table are texts, or pairs of texts.
use Prim.Native.String.{String}
use mathlib.Core.Path.{◌≡◌, refl}
use mathlib.Core.Logic.{◌↔◌}
use mathlib.Core.Bool.{Bool, true, ◌&&◌}
use native.Mathlib.Omega.{arith}
use text.Mathlib.Text.{◌==◌ as same_text}
use text.Mathlib.TextEquality.{eq_iff}

-- A test whose answer is that of the path type.
pub record Eq {κ} (K : Type κ) : Type κ where
  pub same : K → K → Bool
  pub same_iff : (x y : K) → (same x y ≡ true) ↔ (x ≡ y)

infix 50 ◌==◌
abbrev pub ◌==◌ {κ} : {K : Type κ} ⦃e : Eq K⦄ → K → K → Bool
◌==◌ ⦃e⦄ x y = e.same x y

instance abbrev pub string_eq : Eq String
string_eq = record { same = same_text; same_iff = eq_iff }

-- A primary key of two columns.
pub record Key2 : Type 0 where
  pub major : String
  pub minor : String

abbrev pub key2_same : Key2 → Key2 → Bool
key2_same a b = same_text a.major b.major && same_text a.minor b.minor

pub key2_same_iff : (a b : Key2) → (key2_same a b ≡ true) ↔ (a ≡ b)
key2_same_iff a b = ground (arith, eq_iff a.major b.major, eq_iff a.minor b.minor)

instance abbrev pub key2_eq : Eq Key2
key2_eq = record { same = key2_same; same_iff = key2_same_iff }

pub same_refl {ℓ} : {A : Type ℓ} ⦃e : Eq A⦄ (a : A) → e.same a a ≡ true
same_refl ⦃e⦄ a = (e.same_iff a a).1 refl
