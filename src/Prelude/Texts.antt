-- ===== src/Prelude/Texts.antt =====
-- Equality tests on native texts: identifiers, addresses and names are compared whole.
use Prim.Native.String.{String}
use mathlib.Core.Path.{◌≡◌, refl}
use mathlib.Core.Bool.{Bool, true, false}
use mathlib.Core.Logic.{◌↔◌, ◌≢◌}
use native.Mathlib.Omega.{arith}
use text.Mathlib.Text.{◌==◌}
use text.Mathlib.TextEquality.{eq_iff}

infix 50 ◌=?◌
abbrev pub ◌=?◌ : String → String → Bool
s =? t = s == t

pub =?_iff : (s t : String) → ((s =? t) ≡ true) ↔ (s ≡ t)
=?_iff s t = eq_iff s t

pub =?_refl : (s : String) → (s =? s) ≡ true
=?_refl s = (eq_iff s s).1 refl

pub =?_false : (s t : String) → s ≢ t → (s =? t) ≡ false
=?_false s t h = ground (arith, eq_iff s t)
