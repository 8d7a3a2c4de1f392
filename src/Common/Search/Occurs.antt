-- ===== src/Common/Search/Occurs.antt =====
-- What `needle in s` finds: a place where the needle stands.
use lando_api.Common.{◌≡◌, refl, sym, ap, ◌∙◌, inl, inr, true, ◌↔◌, Bool-cases, String, arith}
use lando_api.Common.Search.{starts_with, contains}
use package.text.Mathlib.TextLemmas.{cons-append, nil-append}
use package.text.Mathlib.TextEquality.{Char-path}
use Prim.Native.String
use Prim.Native.Char.{code}

-- The needle stands somewhere in the text.
abbrev pub Occurs : (needle s : String) → Type 0
Occurs needle s =
    (before : String) × (after : String) × (s ≡ String.◌++◌ before (String.◌++◌ needle after))

starts_with-append :
    (prefix s : String)
    → starts_with prefix s ≡ true
    → (rest : String) × (s ≡ String.◌++◌ prefix rest)
unfolding starts_with
starts_with-append String.[] s h = (s, sym (nil-append s))
starts_with-append (String.◌∷◌ p prefix) String.[] h = absurd (cc)
starts_with-append (String.◌∷◌ p prefix) (String.◌∷◌ c s) h =
    let same : code p ≡ code c = ground arith in
    let more : starts_with prefix s ≡ true = ground arith in
    let (rest, e) = starts_with-append prefix s more in
    (
      rest,
      ap (λ d. String.◌∷◌ d s) (sym (Char-path p c same))
          ∙ ap (String.◌∷◌ p) e
          ∙ sym (cons-append p prefix rest),
    )

append-starts_with : (prefix rest : String) → starts_with prefix (String.◌++◌ prefix rest) ≡ true
unfolding starts_with
append-starts_with String.[] rest = refl
append-starts_with (String.◌∷◌ p prefix) rest =
    let more = append-starts_with prefix rest in
    ap (starts_with (String.◌∷◌ p prefix)) (cons-append p prefix rest) ∙ ground arith

contains-Occurs : (needle s : String) → contains needle s ≡ true → Occurs needle s
unfolding contains
contains-Occurs needle String.[] h =
    let (rest, e) = starts_with-append needle "" h in
    ("", rest, e ∙ sym (nil-append (String.◌++◌ needle rest)))
contains-Occurs needle (String.◌∷◌ c s) h =
    elim (Bool-cases (starts_with needle (String.◌∷◌ c s))) [
      | inl t ↦
          let (rest, e) = starts_with-append needle (String.◌∷◌ c s) t in
          ("", rest, e ∙ sym (nil-append (String.◌++◌ needle rest)))
      | inr f ↦
          let (before, after, e) = contains-Occurs needle s (rw f at h) in
          (
            String.◌∷◌ c before,
            after,
            ap (String.◌∷◌ c) e ∙ sym (cons-append c before (String.◌++◌ needle after)),
          )
    ]

contains_at_start : (needle s : String) → starts_with needle s ≡ true → contains needle s ≡ true
unfolding contains
contains_at_start needle String.[] h = h
contains_at_start needle (String.◌∷◌ c s) h = rw h refl

contains-append :
    (needle before after : String)
    → contains needle (String.◌++◌ before (String.◌++◌ needle after)) ≡ true
unfolding contains
contains-append needle String.[] after =
    ap (contains needle) (nil-append (String.◌++◌ needle after))
    ∙ contains_at_start needle (String.◌++◌ needle after) (append-starts_with needle after)
contains-append needle (String.◌∷◌ c before) after =
    let more = contains-append needle before after in
    ap (contains needle) (cons-append c before (String.◌++◌ needle after)) ∙ ground arith

-- The test finds the needle exactly if it stands somewhere.
pub contains_iff : (needle s : String) → (contains needle s ≡ true) ↔ Occurs needle s
contains_iff needle s = (
  contains-Occurs needle s,
  λ (before, after, e). ap (contains needle) e ∙ contains-append needle before after,
)
