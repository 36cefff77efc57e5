-- ===== src/ModelRef/Forms.antt =====
-- What `Parse` makes of the two forms of a reference, and of a text in neither form.
use Prim.Native.Char.{Char, code}
use Prim.Native.String.{◌++◌ as append}
use text.Mathlib.TextEquality.{eq_iff}
use text.Mathlib.TextLemmas.{nil-append, cons-append}
use mathlib.Core.Path.{ap₂, ◌∙◌}
use moon_bridge.Prelude.{
  ℕ, String, ◌≡◌, refl, ◌≢◌, inl, inr, Bool, true, false, not, ◌&&◌, none, some, ◌==◌,
  nat_comparable, string_comparable, arith, Bool-cases, Option-cases,
}
use moon_bridge.ModelRef.{
  is_space, trim_left, trim_right, trim_space, split_last, cut, strip_last, parse_slash,
  parse_parens, parse,
}

-- Every character of the text passes the test.
abbrev pub AllChars : (ℕ → Bool) → String → Type 0
AllChars test String.[] = Unit
AllChars test (String.◌∷◌ c s) = (test (code c) ≡ true) × AllChars test s

-- A character other than white space.
abbrev pub is_dark : ℕ → Bool
is_dark c = not (is_space c)

-- A character other than the given one.
abbrev pub is_not : ℕ → ℕ → Bool
is_not x c = not (c == x)

-- A name: not empty, and without white space.
pub record IsName (s : String) : Type 0 where
  pub nonempty : s ≢ ""
  pub dark : AllChars is_dark s

trim_left_dark : (s : String) → AllChars is_dark s → trim_left s ≡ s
unfolding trim_left
trim_left_dark String.[] h = refl
trim_left_dark (String.◌∷◌ c s) h = ground (arith, h.0)

trim_right_dark : (s : String) → AllChars is_dark s → trim_right s ≡ s
unfolding trim_right
trim_right_dark String.[] h = refl
trim_right_dark (String.◌∷◌ c s) h = ground (arith, h.0, trim_right_dark s h.1)

-- A text without white space is trimmed already.
trim_space_dark : (s : String) → AllChars is_dark s → trim_space s ≡ s
trim_space_dark s h = unfold trim_space in rw (trim_left_dark s h) (trim_right_dark s h)

AllChars-append :
    (t : ℕ → Bool) (a b : String) → AllChars t a → AllChars t b → AllChars t (append a b)
AllChars-append t String.[] b h k = rw nil-append k
AllChars-append t (String.◌∷◌ c a) b h k = rw cons-append (h.0, AllChars-append t a b h.1 k)

split_last_absent : (x : ℕ) (s : String) → AllChars (is_not x) s → split_last x s ≡ none
unfolding split_last
split_last_absent x String.[] h = refl
split_last_absent x (String.◌∷◌ c s) h = ground (arith, h.0, split_last_absent x s h.1)

-- The last occurrence is the one behind which the character is absent.
split_last-append :
    (x : ℕ) (c : Char) (a b : String)
    → code c ≡ x
    → AllChars (is_not x) b
    → split_last x (append a (String.◌∷◌ c b)) ≡ some (a, b)
unfolding split_last
split_last-append x c String.[] b e h = rw nil-append (ground (arith, split_last_absent x b h))
split_last-append x c (String.◌∷◌ d a) b e h =
    rw cons-append (ground (arith, split_last-append x c a b e h))

cut_absent : (x : ℕ) (s : String) → AllChars (is_not x) s → cut x s ≡ none
unfolding cut
cut_absent x String.[] h = refl
cut_absent x (String.◌∷◌ c s) h = ground (arith, h.0, cut_absent x s h.1)

cut-append :
    (x : ℕ) (c : Char) (a b : String)
    → code c ≡ x
    → AllChars (is_not x) a
    → cut x (append a (String.◌∷◌ c b)) ≡ some (a, b)
unfolding cut
cut-append x c String.[] b e h = rw nil-append (ground arith)
cut-append x c (String.◌∷◌ d a) b e h =
    rw cons-append (ground (arith, h.0, cut-append x c a b e h.1))

strip_last_absent : (x : ℕ) (s : String) → AllChars (is_not x) s → strip_last x s ≡ none
unfolding strip_last
strip_last_absent x String.[] h = refl
strip_last_absent x (String.◌∷◌ c s) h = ground (arith, h.0, strip_last_absent x s h.1)

strip_last-append :
    (x : ℕ) (c : Char) (a : String)
    → code c ≡ x
    → strip_last x (append a (String.◌∷◌ c "")) ≡ some a
unfolding strip_last
strip_last-append x c String.[] e = rw nil-append (ground arith)
strip_last-append x c (String.◌∷◌ d a) e =
    rw cons-append (ground (arith, strip_last-append x c a e))

parse_of_parens :
    (ref : String) (r : String × String) → parse_parens (trim_space ref) ≡ some r → parse ref ≡ r
unfolding parse
parse_of_parens ref r h = rw (h, parse)

parse_of_slash :
    (ref : String)
    → parse_parens (trim_space ref) ≡ none
    → parse ref ≡ parse_slash ref (trim_space ref)
unfolding parse
parse_of_slash ref h = rw (h, parse)

-- The three marks are no white space.
marks_dark : AllChars is_dark "(" × AllChars is_dark ")" × AllChars is_dark "/"
unfolding is_space
marks_dark = ((refl, tt), (refl, tt), (refl, tt))

parse_slash_found :
    (ref s a b : String)
    → cut b'/' s ≡ some (a, b)
    → parse_slash ref s ≡ (trim_space a, trim_space b)
unfolding parse_slash
parse_slash_found ref s a b h = rw (h, parse_slash)

parse_slash_absent : (ref s : String) → cut b'/' s ≡ none → parse_slash ref s ≡ ("", ref)
unfolding parse_slash
parse_slash_absent ref s h = rw (h, parse_slash)

abbrev pub with_parens : String → String → String
with_parens model provider = append model (append "(" (append provider ")"))

abbrev pub with_slash : String → String → String
with_slash provider model = append provider (append "/" model)

one_char : (c : Char) (s : String) → append (String.◌∷◌ c "") s ≡ String.◌∷◌ c s
one_char c s = rw cons-append (rw nil-append)

ne_beq : (s : String) → s ≢ "" → (s == "") ≡ false
ne_beq s h = ground (arith, eq_iff s "")

AllChars-trim_left : (t : ℕ → Bool) (s : String) → AllChars t s → AllChars t (trim_left s)
unfolding trim_left
AllChars-trim_left t String.[] h = tt
AllChars-trim_left t (String.◌∷◌ c s) h = elim (Bool-cases (is_space (code c))) [
  | inl sp ↦ rw sp (AllChars-trim_left t s h.1)
  | inr ch ↦ rw ch h
]

AllChars-trim_right : (t : ℕ → Bool) (s : String) → AllChars t s → AllChars t (trim_right s)
unfolding trim_right
AllChars-trim_right t String.[] h = tt
AllChars-trim_right t (String.◌∷◌ c s) h =
    elim (Bool-cases (is_space (code c) && trim_right s == "")) [
      | inl sp ↦ rw sp tt
      | inr ch ↦ rw ch (h.0, AllChars-trim_right t s h.1)
    ]

AllChars-trim_space : (t : ℕ → Bool) (s : String) → AllChars t s → AllChars t (trim_space s)
AllChars-trim_space t s h =
    unfold trim_space in AllChars-trim_right t (trim_left s) (AllChars-trim_left t s h)

split_last_keeps :
    (t : ℕ → Bool) (x : ℕ) (s a b : String)
    → split_last x s ≡ some (a, b)
    → AllChars t s
    → AllChars t b
split_last_keeps t x String.[] a b e h = unfold split_last in cc
split_last_keeps t x (String.◌∷◌ c s) a b e h = elim (Option-cases (split_last x s)) [
  | inl none_there ↦ let same : b ≡ s = unfold split_last in ground arith in rw same h.1
  | inr ((a', b'), found) ↦
      let same : b ≡ b' = unfold split_last in ground arith in
      rw same (split_last_keeps t x s a' b' found h.1)
]

-- Without a ")" a text is not of the form model(provider).
parse_parens_absent : (s : String) → AllChars (is_not b')') s → parse_parens s ≡ none
unfolding parse_parens
parse_parens_absent s h = elim (Option-cases (split_last b'(' s)) [
  | inl none_there ↦ rw (none_there, parse_parens)
  | inr ((a, b), found) ↦
      rw (found, parse_parens)
        (rw (strip_last_absent b')' b (split_last_keeps (is_not b')') b'(' s a b found h)))
]

parse_parens-with_parens :
    (model provider : String)
    → model ≢ ""
    → provider ≢ ""
    → AllChars (is_not b'(') provider
    → parse_parens (with_parens model provider) ≡ some (trim_space provider, trim_space model)
unfolding parse_parens
parse_parens-with_parens model provider m p no_paren =
    let closed = append provider ")" in
    let found : split_last b'(' (with_parens model provider) ≡ some (model, closed) =
      rw (one_char "(" closed) (
        split_last-append b'(' "(" model closed refl
          (AllChars-append (is_not b'(') provider ")" no_paren (refl, tt))) in
    rw (found, parse_parens)
      (rw (strip_last-append b')' ")" provider refl) (rw (ne_beq provider p) (rw (ne_beq model m))))

-- "model(provider)" is read as the provider and the model, for names that are not empty and have
-- no white space, and of which the provider has no "(". The model may hold parentheses and
-- slashes.
pub parse-with_parens :
    (model provider : String)
    → IsName model
    → IsName provider
    → AllChars (is_not b'(') provider
    → parse (with_parens model provider) ≡ (provider, model)
parse-with_parens model provider m p no_paren =
    let dark : AllChars is_dark (with_parens model provider) =
      AllChars-append is_dark model _ m.dark (
        AllChars-append is_dark "(" _ marks_dark.0
          (AllChars-append is_dark provider ")" p.dark marks_dark.1)) in
    parse_of_parens _ _ (
      rw (trim_space_dark _ dark) (
        rw (parse_parens-with_parens model provider m.nonempty p.nonempty no_paren)
          (rw (trim_space_dark provider p.dark) (rw (trim_space_dark model m.dark)))))

-- "provider/model" is read as the provider and the model, for names that are not empty and have
-- no white space, of which the provider has no "/" and neither holds a ")". The model may hold
-- slashes.
pub parse-with_slash :
    (provider model : String)
    → IsName provider
    → IsName model
    → AllChars (is_not b'/') provider
    → AllChars (is_not b')') provider
    → AllChars (is_not b')') model
    → parse (with_slash provider model) ≡ (provider, model)
parse-with_slash provider model p m no_slash no_paren no_paren' =
    let dark : AllChars is_dark (with_slash provider model) =
      AllChars-append is_dark provider _ p.dark
        (AllChars-append is_dark "/" model marks_dark.2 m.dark) in
    let unclosed : AllChars (is_not b')') (with_slash provider model) =
      AllChars-append (is_not b')') provider _ no_paren
        (AllChars-append (is_not b')') "/" model (refl, tt) no_paren') in
    let found : cut b'/' (with_slash provider model) ≡ some (provider, model) =
      rw (one_char "/" model) (cut-append b'/' "/" provider model refl no_slash) in
    parse_of_slash _ (rw (trim_space_dark _ dark) (parse_parens_absent _ unclosed))
    ∙ rw (trim_space_dark _ dark) (
        parse_slash_found _ _ provider model found
        ∙ ap₂ (λ a b. (a, b)) (trim_space_dark provider p.dark) (trim_space_dark model m.dark))

-- A text with neither a "/" nor a ")" is a bare model name: there is no provider, and the text is
-- left untrimmed.
pub parse_bare :
    (ref : String) → AllChars (is_not b'/') ref → AllChars (is_not b')') ref → parse ref ≡ ("", ref)
parse_bare ref no_slash no_paren =
    parse_of_slash ref
      (parse_parens_absent (trim_space ref) (AllChars-trim_space (is_not b')') ref no_paren))
    ∙ parse_slash_absent ref (trim_space ref)
        (cut_absent b'/' (trim_space ref) (AllChars-trim_space (is_not b'/') ref no_slash))
