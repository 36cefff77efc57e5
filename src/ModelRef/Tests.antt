-- ===== src/ModelRef/Tests.antt =====
-- Model references at concrete inputs.
use text.Mathlib.TextEquality.{eq_iff}
use moon_bridge.Prelude.{ℕ, String, ◌≡◌, refl, Bool, true, ◌&&◌, arith}
use Prim.Native.Char.{code}
use moon_bridge.ModelRef.{parse, is_space}
use moon_bridge.ModelRef.Forms.{
  IsName, AllChars, is_not, is_dark, with_parens, with_slash, parse-with_parens, parse-with_slash,
}

abbrev all_chars : (ℕ → Bool) → String → Bool
all_chars test String.[] = true
all_chars test (String.◌∷◌ c s) = test (code c) && all_chars test s

checked : (test : ℕ → Bool) (s : String) → all_chars test s ≡ true → AllChars test s
checked test String.[] h = tt
checked test (String.◌∷◌ c s) h = (ground arith, checked test s (ground arith))

provider-IsName : IsName "openrouter"
unfolding is_space
provider-IsName = record {
  nonempty = λ e. ground (arith, eq_iff "openrouter" "");
  dark = checked is_dark "openrouter" refl;
}

model-IsName : IsName "z-ai/glm-5.1"
unfolding is_space
model-IsName = record {
  nonempty = λ e. ground (arith, eq_iff "z-ai/glm-5.1" "");
  dark = checked is_dark "z-ai/glm-5.1" refl;
}

parse-with_parens_example :
    parse (with_parens "z-ai/glm-5.1" "openrouter") ≡ ("openrouter", "z-ai/glm-5.1")
parse-with_parens_example =
    parse-with_parens "z-ai/glm-5.1" "openrouter" model-IsName provider-IsName
      (checked (is_not b'(') "openrouter" refl)

parse-with_slash_example :
    parse (with_slash "openrouter" "z-ai/glm-5.1") ≡ ("openrouter", "z-ai/glm-5.1")
parse-with_slash_example =
    parse-with_slash "openrouter" "z-ai/glm-5.1" provider-IsName model-IsName
      (checked (is_not b'/') "openrouter" refl) (checked (is_not b')') "openrouter" refl)
      (checked (is_not b')') "z-ai/glm-5.1" refl)

-- An empty provider is no reference: the text is read by its slash, or whole.
parse_empty_parens : parse "model()" ≡ ("", "model()")
unfolding parse moon_bridge.ModelRef.parse_parens moon_bridge.ModelRef.split_last
    moon_bridge.ModelRef.trim_space moon_bridge.ModelRef.strip_last moon_bridge.ModelRef.parse_slash
    moon_bridge.ModelRef.cut
parse_empty_parens = refl
