-- ===== src/Runner/Names.antt =====
-- `normalize_name`: the name of a version as a part of a path.
use near_sandbox_rs.Base.{Bool, false, refl, ap, ◌≡◌, ◌∙◌, String, ◌<>◌, ◌==◌, ◌||◌, arith}
use Prim.Native.Char.{code}
use Prim.Native.String.append
use near_sandbox_rs.Runner.Paths.{normalize_name}

-- Whether there is a slash in a text.
abbrev pub has_slash : String → Bool
has_slash String.[] = false
has_slash (String.◌∷◌ c rest) = (code c == b'/') || has_slash rest

underscored : (s : String) → has_slash ("_" <> s) ≡ has_slash s
underscored s = ap has_slash (append.cons _ _ s) ∙ ap has_slash (append.nil s)

has_slash-normalize_name : (s : String) → has_slash (normalize_name s) ≡ false
unfolding normalize_name
has_slash-normalize_name String.[] = refl
has_slash-normalize_name (String.◌∷◌ c rest) =
    ground (arith, underscored (normalize_name rest), has_slash-normalize_name rest)

normalize_name-same : (s : String) → has_slash s ≡ false → normalize_name s ≡ s
unfolding normalize_name
normalize_name-same String.[] h = refl
normalize_name-same (String.◌∷◌ c rest) h = ground (arith, normalize_name-same rest)

-- The name of a version becomes a single part of a path: there is no slash in it, and normalizing it
-- again changes nothing.
pub normalize_name_safe :
    (s : String)
    → (has_slash (normalize_name s) ≡ false)
      × (normalize_name (normalize_name s) ≡ normalize_name s)
normalize_name_safe s = (
  has_slash-normalize_name s,
  normalize_name-same (normalize_name s) (has_slash-normalize_name s),
)
