-- ===== src/Session/Separate.antt =====
-- No session stands under two keys, and a new one is unlike all before it.
use text.Mathlib.TextEquality.{eq_iff}
use moon_bridge.Prelude.{
  ℕ, suc, ◌<◌, String, ◌≡◌, sym, ◌∙◌, ◌≢◌, ◌⊎◌, inl, inr, some, ◌==◌, nat_comparable,
  string_comparable, arith, Bool-cases,
}
use moon_bridge.Prelude.GoMap.{GoMap, get, put, get-put}
use moon_bridge.Session.{ServerSession}

module _ (Data : Type 0) where
  -- Every session was made before, and no session stands under two keys.
  pub record IsSeparate (made : ℕ) (m : GoMap String (ServerSession Data)) : Type 0 where
    pub made_before :
        (k : String) (e : ServerSession Data) → get k m ≡ some e → e.sess.identity < made
    pub isolated :
        (k j : String) (e f : ServerSession Data)
        → get k m ≡ some e
        → get j m ≡ some f
        → e.sess.identity ≡ f.sess.identity
        → k ≡ j

  pub IsSeparate-sub :
      {made : ℕ} {a b : GoMap String (ServerSession Data)}
      → ((k : String) (e : ServerSession Data) → get k b ≡ some e → get k a ≡ some e)
      → IsSeparate made a
      → IsSeparate made b
  IsSeparate-sub kept s = record {
    made_before = λ k e h. s.made_before k e (kept k e h);
    isolated = λ k j e f h g same. s.isolated k j e f (kept k e h) (kept j f g) same;
  }

  pub get-put_cases :
      (k j : String) (e f : ServerSession Data) (m : GoMap String (ServerSession Data))
      → get j (put k e m) ≡ some f
      → ((k ≡ j) × (f ≡ e)) ⊎ ((k ≢ j) × (get j m ≡ some f))
  get-put_cases k j e f m h = elim (Bool-cases (k == j)) [
    | inl here ↦ inl (ground (arith, eq_iff k j), ground (arith, get-put k j e m))
    | inr there ↦ inr ((λ p. ground (arith, eq_iff k j)), ground (arith, get-put k j e m))
  ]

  -- A new session under any key keeps the sessions apart.
  pub IsSeparate-put_new :
      (made : ℕ) (k : String) (e : ServerSession Data) (m : GoMap String (ServerSession Data))
      → e.sess.identity ≡ made
      → IsSeparate made m
      → IsSeparate (suc made) (put k e m)
  IsSeparate-put_new made k e m new s = record {
    made_before = λ j f h. elim (get-put_cases k j e f m h) [
      | inl (at, same) ↦ rw (same, new) (omega arith)
      | inr (away, old) ↦ let before = s.made_before j f old in omega arith
    ];
    isolated = λ i j f g h h' same. elim (get-put_cases k i e f m h) [
      | inl (at, is_e) ↦ elim (get-put_cases k j e g m h') [
        | inl (at', is_e') ↦ cc
        | inr (away, old) ↦
            let before = s.made_before j g old in
            let clash : g.sess.identity ≡ made = cc in absurd (omega arith)
      ]
      | inr (away, old) ↦ elim (get-put_cases k j e g m h') [
        | inl (at', is_e') ↦
            let before = s.made_before i f old in
            let clash : f.sess.identity ≡ made = cc in absurd (omega arith)
        | inr (away', old') ↦ s.isolated i j f g old old' same
      ]
    ];
  }

  -- A session put back under its own key keeps the sessions apart.
  pub IsSeparate-put_same :
      (made : ℕ) (k : String) (e f : ServerSession Data) (m : GoMap String (ServerSession Data))
      → get k m ≡ some e
      → f.sess.identity ≡ e.sess.identity
      → IsSeparate made m
      → IsSeparate made (put k f m)
  IsSeparate-put_same made k e f m found kept s = record {
    made_before = λ j g h. elim (get-put_cases k j f g m h) [
      | inl (at, same) ↦ rw (same, kept) (s.made_before k e found)
      | inr (away, old) ↦ s.made_before j g old
    ];
    isolated = λ i j g h p q same. elim (get-put_cases k i f g m p) [
      | inl (at, is_f) ↦ elim (get-put_cases k j f h m q) [
        | inl (at', is_f') ↦ cc
        | inr (away, old) ↦ sym at ∙ s.isolated k j e h found old (cc)
      ]
      | inr (away, old) ↦ elim (get-put_cases k j f h m q) [
        | inl (at', is_f') ↦ s.isolated i k g e old found (cc) ∙ at'
        | inr (away', old') ↦ s.isolated i j g h old old' same
      ]
    ];
  }
