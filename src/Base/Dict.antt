-- ===== src/Base/Dict.antt =====
-- A map with text keys, environment variables or the files of a folder: the newest entry for a key
-- comes first, and is the one that counts.
use Prim.Native.String.{String}
use mathlib.Core.Option.{Option, none, some}
use mathlib.Core.List.{List, [], ◌∷◌}
use text.Mathlib.Text.{◌==◌}
use near_sandbox_rs.Base.Tests.{if◌then◌else◌}

abbrev pub Dict {ℓ} : Type ℓ → Type ℓ
Dict V = List (String × V)

module _ {ℓ} {V : Type ℓ} where
  abbrev pub at_key : Dict V → String → Option V
  at_key [] name = none
  at_key (entry ∷ older) name = if entry.0 == name then some entry.1 else at_key older name

  abbrev pub store : Dict V → String → V → Dict V
  store dict name value = (name, value) ∷ dict
