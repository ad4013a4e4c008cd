-- ===== src/Base/Texts.antt =====
-- Texts that the code compares.
use Prim.Native.String.{String}
use text.Mathlib.Text.{◌==◌ as str_eq}
use text.Mathlib.TextEquality.{eq_iff}
use mathlib.Core.Path.{◌≡◌}
use mathlib.Core.Logic.{◌≢◌, inl, inr}
use mathlib.Core.Bool.{false}
use qemu_bmc.Base.Tests.{Bool-cases}

-- `==` on texts that differ.
pub text_differs : (a b : String) → a ≢ b → str_eq a b ≡ false
text_differs a b ne = elim (Bool-cases (str_eq a b)) [
  | inl same ↦ absurd (ne ((eq_iff a b).0 same))
  | inr other ↦ other
]
