-- ===== src/Common/Words.antt =====
-- The `as_str` / `from_str` pairs of the enums that SQLite columns and the IPC wire spell as words.
-- Every `from_str` is a `match` on the whole word, so it is a table of words.
use Prim.Native.String.{String}
use mathlib.Core.Path.{◌≡◌}
use mathlib.Core.Option.{Option, none, some}
use mathlib.Core.List.{List, [], ◌∷◌}
use native.Mathlib.Omega.{arith}
use text.Mathlib.Text.{◌==◌}
use text.Mathlib.TextEquality.{eq_iff}
use auwsx.Common.Tests.{if◌then◌else◌}

module _ {ℓ} {A : Type ℓ} where
  -- `Some(match s { word => value, …, _ => return None })`: the first arm that fits
  unfoldable pub match_word : List (String × A) → String → Option A
  match_word [] s = none
  match_word ((w, a) ∷ table) s = if s == w then some a else match_word table s

  -- Every value of the table stands beside its own word.
  abbrev pub Spells : (A → String) → List (String × A) → Type 0
  Spells as_str [] = Unit
  Spells as_str ((w, a) ∷ table) = (as_str a ≡ w) × Spells as_str table

  pub match_word-as_str :
      (as_str : A → String) (table : List (String × A)) (s : String) {a : A}
      → Spells as_str table
      → match_word table s ≡ some a
      → as_str a ≡ s
  unfolding match_word
  match_word-as_str as_str [] s h e = cc
  match_word-as_str as_str ((w, b) ∷ table) s {a} h e =
      ground (arith, eq_iff s w, match_word-as_str as_str table s {a = a} h.1)
