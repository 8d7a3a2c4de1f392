-- ===== src/Submission/Request/Printed.antt =====
-- A landing path as the API prints it is read back, and the revision that stands for a path.
use Prim.Native.String
use package.text.Mathlib.TextLemmas.{append-nil}
use Prim.Native.Nat.{◌/◌}
use Prim.Native.Char.{Char, code}
use lando_api.Common.{
  none, Option, nat_beq, inr, length-append, ◌∙◌, ◌-◌, inl, zero, suc, ap, ◌+◌, ◌*◌, ◌⊎◌, arith,
  false, refl, some, ◌∷◌, ◌++◌, map, length, [], String, ◌<◌, All, ◌≡◌, List, ℕ,
}
use lando_api.Submission.Request.{
  PathItem, positive_to_end, revision_number, get_elem?, parse_landing_path,
  choose_middle_revision_from_path, revision_id_to_int, number_to_end,
}
use lando_api.Common.Int.{scan_digits, ℤ}
use lando_api.Common.Int.Decimal.{cons_onto, decimal-positive, IsDigit, AllChars}
use lando_api.Common.Text.{decimal, text}
use lando_api.Common.Exec.{problem, Outcome, value_error, raised, returned}

-- An item of `serialized_landing_path` in landoapi/models/landing_job.py.
pub print_item : ℕ × ℤ → PathItem
print_item (id, diff_id) = record { revision_id = text ("D" ∷ decimal id ∷ []); diff_id = diff_id }

number_to_end-digits :
    (n : ℕ) (s : String) → AllChars IsDigit s → number_to_end n s ≡ scan_digits n false s
unfolding number_to_end scan_digits
number_to_end-digits n String.[] h = refl
number_to_end-digits n (String.◌∷◌ c s) h =
    rw h.0 (number_to_end-digits (n * 10 + (code c - 48)) s h.1)

positive_to_end-digits :
    (n : ℕ) (c : Char) (s : String)
    → 48 < code c
    → IsDigit c
    → AllChars IsDigit s
    → scan_digits (code c - 48) false s ≡ some n
    → positive_to_end (String.◌∷◌ c s) ≡ some n
unfolding positive_to_end
positive_to_end-digits n c s v k ks r =
    let z : nat_beq (code c) 48 ≡ false = ground arith in
    rw (k, positive_to_end) (rw (z, positive_to_end) (number_to_end-digits (code c - 48) s ks ∙ r))

printed : Option ℕ → Outcome ℕ
printed none = raised (problem 400 "Bad Request")
printed (some n) = returned n

revision_id_to_int-printed :
    (n : ℕ) → 0 < n → revision_id_to_int (text ("D" ∷ decimal n ∷ [])) ≡ returned n
unfolding revision_id_to_int revision_number text printed
revision_id_to_int-printed n h =
    let (c, s, e, v, k, ks, r) = decimal-positive n h in
    let behind : text ("D" ∷ decimal n ∷ []) ≡ String.◌∷◌ "D" (String.◌∷◌ c s) =
      ap (String.◌++◌ "D") (append-nil (decimal n) ∙ e) ∙ cons_onto "D" (String.◌∷◌ c s) in
    ap revision_id_to_int behind ∙ ap printed (positive_to_end-digits n c s v k ks r)

-- The landing path that the API prints of pairs of a positive revision id and a diff id is read as
-- those pairs, in the same order.
pub parse_landing_path-printed :
    (path : List (ℕ × ℤ))
    → All (λ p. 0 < p.0) path
    → parse_landing_path (map print_item path) ≡ returned path
unfolding parse_landing_path print_item
parse_landing_path-printed [] h = refl
parse_landing_path-printed ((id, diff_id) ∷ path) h =
    rw (revision_id_to_int-printed id h.0) (rw (parse_landing_path-printed path h.1) refl)

get_elem?-split :
    {A : Type 0} (xs : List A) (i : ℕ)
    → i < length xs
    → (front : List A) × (x : A) × (back : List A) × (xs ≡ front ++ x ∷ back)
      × (length front ≡ i)
      × (get_elem? xs i ≡ some x)
unfolding get_elem?
get_elem?-split [] i h = absurd (omega arith)
get_elem?-split (x ∷ xs) zero h = ([], x, xs, refl, refl, refl)
get_elem?-split (x ∷ xs) (suc i) h =
    let (front, y, back, e, l, g) = get_elem?-split xs i (omega arith) in
    (x ∷ front, y, back, ap (λ t. x ∷ t) e, ap suc l, g)

-- The choice from an empty path is a ValueError, and else the id of an item in the middle.
abbrev pub InMiddle : List (ℕ × ℤ) → Outcome ℕ → Type 0
InMiddle path chosen =
    ((path ≡ []) × (chosen ≡ raised (value_error "path must not be empty")))
    ⊎ ((front : List (ℕ × ℤ)) × (p : ℕ × ℤ) × (back : List (ℕ × ℤ)) × (path ≡ front ++ p ∷ back)
        × ((length front ≡ length back) ⊎ (length front ≡ suc (length back)))
        × (chosen ≡ returned p.0))

-- The revision that stands for a path with an item is in it: as many items are in front of it as
-- behind it, or one more, so no index is out of range. Without items, the choice raises a ValueError.
pub choose_middle-InMiddle :
    (path : List (ℕ × ℤ)) → InMiddle path (choose_middle_revision_from_path path)
unfolding choose_middle_revision_from_path
choose_middle-InMiddle [] = inl (refl, refl)
choose_middle-InMiddle (q ∷ rest) =
    let (front, p, back, e, l, g) =
      get_elem?-split (q ∷ rest) (length (q ∷ rest) / 2) (omega arith) in
    let total : length (q ∷ rest) ≡ length front + suc (length back) =
      ap length e ∙ length-append front (p ∷ back) in
    inr (front, p, back, e, ground arith, rw g refl)
