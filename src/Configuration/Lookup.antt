-- ===== src/Configuration/Lookup.antt =====
-- What a variable reads as, and what setting one changes.
use lando_api.Common.{
  subst, refl, sym, ap, ◌∙◌, ==-eq, ==-refl, ==-ne, Bool-cases, inl, inr, ◌≡◌, ◌≢◌, All,
  nat_beq_iff, some, none, String, List, true, false, [], ◌∷◌, Bool, ◌&&◌, Option, ◌==◌, string_eq,
  if◌then◌else◌,
}
use lando_api.Common.Exec.{Error, returned, raised, Outcome, continue, pure, modify, ◌>>◌, lift}
use lando_api.Configuration.{
  value_or, set, ConfigurationKey, ConfigurationValue, ConfigurationVariable, VariableType,
  Variables, Memo, key_name, same_type, same_value, find_row, put_row, read, find_memo, recall,
  keep_found, get, log_value, log_previous, is_unchanged, write_row, parsed_value, bool_value,
  int_value, str_value, bool_type, int_type, str_type,
}
use lando_api.Common.Text.{is_truthy}
use lando_api.Common.Int.{ℤ, pos, negsuc}

find_row-put_row :
    (row : ConfigurationVariable) (rows : List ConfigurationVariable)
    → find_row row.key (put_row row rows) ≡ some row
unfolding find_row put_row
find_row-put_row row [] = rw (==-refl row.key) refl
find_row-put_row row (r ∷ rows) = elim (Bool-cases (r.key == row.key)) [
  | inl t ↦ rw t (rw (==-refl row.key) refl)
  | inr f ↦ rw f (rw f (find_row-put_row row rows))
]

find_row-put_row_other :
    (key : String) (row : ConfigurationVariable) (rows : List ConfigurationVariable)
    → row.key ≢ key
    → find_row key (put_row row rows) ≡ find_row key rows
unfolding find_row put_row
find_row-put_row_other key row [] h = rw (==-ne row.key key h) refl
find_row-put_row_other key row (r ∷ rows) h = elim (Bool-cases (r.key == row.key)) [
  | inl t ↦
      let n : (r.key == key) ≡ false = ==-ne r.key key (λ e. h (sym (==-eq r.key row.key t) ∙ e)) in
      rw t (rw (==-ne row.key key h) (rw n refl))
  | inr f ↦
      rw f (ap (λ x. if r.key == key then some r else x) (find_row-put_row_other key row rows h))
]

same_type-eq : (a b : VariableType) → same_type a b ≡ true → a ≡ b
same_type-eq bool_type bool_type e = refl
same_type-eq int_type int_type e = refl
same_type-eq str_type str_type e = refl
same_type-eq bool_type int_type e = cc
same_type-eq bool_type str_type e = cc
same_type-eq int_type bool_type e = cc
same_type-eq int_type str_type e = cc
same_type-eq str_type bool_type e = cc
same_type-eq str_type int_type e = cc

same_value-eq : (a b : ConfigurationValue) → same_value a b ≡ true → a ≡ b
same_value-eq (bool_value true) (bool_value true) e = refl
same_value-eq (bool_value false) (bool_value false) e = refl
same_value-eq (bool_value true) (bool_value false) e = cc
same_value-eq (bool_value false) (bool_value true) e = cc
same_value-eq (int_value (pos m)) (int_value (pos n)) e =
    ap (λ k. int_value (pos k)) ((nat_beq_iff m n).0 e)
same_value-eq (int_value (negsuc m)) (int_value (negsuc n)) e =
    ap (λ k. int_value (negsuc k)) ((nat_beq_iff m n).0 e)
same_value-eq (int_value (pos m)) (int_value (negsuc n)) e = cc
same_value-eq (int_value (negsuc m)) (int_value (pos n)) e = cc
same_value-eq (str_value a) (str_value b) e = ap str_value (==-eq a b e)
same_value-eq (bool_value true) (int_value n) e = cc
same_value-eq (bool_value false) (int_value n) e = cc
same_value-eq (bool_value true) (str_value n) e = cc
same_value-eq (bool_value false) (str_value n) e = cc
same_value-eq (int_value (pos m)) (bool_value b) e = cc
same_value-eq (int_value (negsuc m)) (bool_value b) e = cc
same_value-eq (int_value (pos m)) (str_value b) e = cc
same_value-eq (int_value (negsuc m)) (str_value b) e = cc
same_value-eq (str_value a) (bool_value b) e = cc
same_value-eq (str_value a) (int_value n) e = cc

both : (a b : Bool) → (a && b) ≡ true → (a ≡ true) × (b ≡ true)
both true b e = (refl, e)
both false b e = cc

module _ (int_of : String → Option ℤ) where
  -- The cache agrees with the table.
  abbrev pub IsCoherent : Variables → Type 0
  IsCoherent s =
      All (λ m. read int_of s.rows (key_name m.key) m.default_value ≡ returned m.value) s.memo

  find_memo-read :
      (rows : List ConfigurationVariable) (memo : List Memo) (key : ConfigurationKey)
      (d v : ConfigurationValue)
      → All (λ m. read int_of rows (key_name m.key) m.default_value ≡ returned m.value) memo
      → find_memo int_of key d memo ≡ some v
      → read int_of rows (key_name key) d ≡ returned v
  unfolding find_memo
  find_memo-read rows [] key d v h e = cc
  find_memo-read rows (m ∷ memo) key d v h e =
      elim (Bool-cases (key_name m.key == key_name key && same_value m.default_value d)) [
        | inl t ↦
            let (k, same) =
              both (key_name m.key == key_name key) (same_value m.default_value d) t in
            let e' : some m.value ≡ some v = rw t at e in
            let p = ==-eq (key_name m.key) (key_name key) k in
            let q = same_value-eq m.default_value d same in
            let w : m.value ≡ v = cc in
            (λ i. read int_of rows (sym p i) (sym q i)) ∙ h.0 ∙ ap returned w
        | inr f ↦ find_memo-read rows memo key d v h.1 (rw f at e)
      ]

  -- The result of a reading, and what it leaves.
  abbrev pub IsRead :
      ConfigurationKey
      → ConfigurationValue
      → Variables
      → Outcome ConfigurationValue × Variables
      → Type 0
  IsRead key d s (o, s') =
      (o ≡ read int_of s.rows (key_name key) d) × IsCoherent s' × (s'.rows ≡ s.rows)

  keep_found-IsRead :
      (key : ConfigurationKey) (d : ConfigurationValue) (s : Variables)
      (o : Outcome ConfigurationValue)
      → IsCoherent s
      → read int_of s.rows (key_name key) d ≡ o
      → IsRead key d s (continue o (keep_found int_of key d) s)
  unfolding keep_found
  keep_found-IsRead key d s (returned v) h e = (sym e, (e, h), refl)
  keep_found-IsRead key d s (raised x) h e = (sym e, h, refl)

  recall-IsRead :
      (key : ConfigurationKey) (d : ConfigurationValue) (s : Variables)
      (found : Option ConfigurationValue)
      → IsCoherent s
      → find_memo int_of key d s.memo ≡ found
      → IsRead key d s (recall int_of key d found s)
  unfolding recall
  recall-IsRead key d s (some v) h e = (sym (find_memo-read s.rows s.memo key d v h e), h, refl)
  recall-IsRead key d s none h e =
      keep_found-IsRead key d s (read int_of s.rows (key_name key) d) h refl

  -- If the cache agrees with the table, reading a variable gives what the table answers, an exception
  -- included, whether the value is in the cache or not; it leaves the table alone and the cache in
  -- agreement with it.
  pub get-IsRead :
      (key : ConfigurationKey) (d : ConfigurationValue) (s : Variables)
      → IsCoherent s
      → IsRead key d s (get int_of key d s)
  unfolding get
  get-IsRead key d s h = recall-IsRead key d s (find_memo int_of key d s.memo) h refl

  written :
      (a b : Outcome (Unit {0})) (row : ConfigurationVariable) (s s' : Variables)
      {r : Option ConfigurationVariable}
      → (lift a
            >> (modify (λ (v : Variables). record { rows = put_row row v.rows; memo = [] })
                >> (lift b >> pure (some row))))
          s
        ≡ (returned r, s')
      → s' ≡ record { rows = put_row row s.rows; memo = [] }
  written (returned _) (returned _) row s s' e = sym (ap (λ p. p.1) e)
  written (returned _) (raised x) row s s' e = absurd (cc)
  written (raised x) b row s s' e = absurd (cc)

  write_row-rows :
      (before : Option ConfigurationVariable) (row : ConfigurationVariable) (s s' : Variables)
      {r : Option ConfigurationVariable}
      → write_row int_of before row s ≡ (returned r, s')
      → s' ≡ record { rows = put_row row s.rows; memo = [] }
  unfolding write_row
  write_row-rows before row s s' e =
      written (log_previous int_of before) (log_value int_of row) row s s' e

  -- A row that `set` leaves as it is has the type and the text that it was to get.
  read-unchanged :
      (key : ConfigurationKey) (t : VariableType) (raw : String) (d : ConfigurationValue)
      (rows : List ConfigurationVariable) (before : Option ConfigurationVariable)
      → find_row (key_name key) rows ≡ before
      → is_unchanged int_of before t raw ≡ true
      → read int_of rows (key_name key) d ≡ parsed_value int_of t raw
  unfolding is_unchanged read value_or
  read-unchanged key t raw d rows none b e = absurd (cc)
  read-unchanged key t raw d rows (some row) b e =
      let (k, same) = both (same_type row.variable_type t) (row.raw_value == raw) e in
      let p = same_type-eq row.variable_type t k in
      let q = ==-eq row.raw_value raw same in rw b (λ i. parsed_value int_of (p i) (q i))

  -- The other variables read as in an earlier table.
  abbrev pub KeepsOthers : ConfigurationKey → List ConfigurationVariable → Variables → Type 0
  KeepsOthers key rows s' =
      (other : ConfigurationKey) (d : ConfigurationValue)
      → key_name key ≢ key_name other
      → (get int_of other d s').0 ≡ read int_of rows (key_name other) d

  set_cases :
      (b : Bool) (key : ConfigurationKey) (t : VariableType) (raw : String) (s s' : Variables)
      {r : Option ConfigurationVariable}
      → IsCoherent s
      → is_unchanged int_of (find_row (key_name key) s.rows) t raw ≡ b
      → (if b
          then (returned none, s)
          else write_row int_of
              (find_row (key_name key) s.rows)
              (record { key = key_name key; raw_value = raw; variable_type = t })
              s)
        ≡ (returned r, s')
      → IsCoherent s'
        × ((d : ConfigurationValue)
            → read int_of s'.rows (key_name key) d ≡ parsed_value int_of t raw)
        × ((other : ConfigurationKey) (d : ConfigurationValue)
            → key_name key ≢ key_name other
            → read int_of s'.rows (key_name other) d ≡ read int_of s.rows (key_name other) d)
  unfolding read value_or
  set_cases true key t raw s s' h c e =
      let same : s ≡ s' = ap (λ p. p.1) e in
      (
        subst IsCoherent same h,
        λ d.
            sym (ap (λ (v : Variables). read int_of v.rows (key_name key) d) same)
            ∙ read-unchanged key t raw d s.rows (find_row (key_name key) s.rows) refl c,
        λ other d n. sym (ap (λ (v : Variables). read int_of v.rows (key_name other) d) same),
      )
  set_cases false key t raw s s' h c e =
      let row : ConfigurationVariable = record {
        key = key_name key;
        raw_value = raw;
        variable_type = t;
      } in
      let w = write_row-rows _ _ s s' e in
      (
        rw w tt,
        λ d. rw w (ap (value_or int_of d) (find_row-put_row row s.rows)),
        λ other d n.
            rw w (ap (value_or int_of d) (find_row-put_row_other (key_name other) row s.rows n)),
      )

  -- If the cache agrees with the table and `set` returns, then the cache agrees with the table again,
  -- every reading of the variable gives what the new text and type stand for, with an exception if the
  -- text does not parse, and every other variable reads as the table said before.
  pub set-get :
      (key : ConfigurationKey) (t : VariableType) (raw : String) (s s' : Variables)
      {r : Option ConfigurationVariable}
      → IsCoherent s
      → set int_of key t raw s ≡ (returned r, s')
      → IsCoherent s'
        × ((d : ConfigurationValue) → (get int_of key d s').0 ≡ parsed_value int_of t raw)
        × KeepsOthers key s.rows s'
  unfolding set
  set-get key t raw s s' h e =
      let (c, new, others) = set_cases _ key t raw s s' h refl e in
      (
        c,
        λ d. (get-IsRead key d s' c).0 ∙ new d,
        λ other d n. (get-IsRead other d s' c).0 ∙ others other d n,
      )

  -- A variable whose text is not empty and does not parse, like an integer that is no number, stays as
  -- it is: `set` with another text or type raises the exception of the parsing, and changes neither
  -- the table nor the cache.
  pub set-stuck :
      (key : ConfigurationKey) (t : VariableType) (raw : String) (s : Variables)
      (row : ConfigurationVariable) {x : Error}
      → find_row (key_name key) s.rows ≡ some row
      → is_truthy row.raw_value ≡ true
      → parsed_value int_of row.variable_type row.raw_value ≡ raised x
      → is_unchanged int_of (some row) t raw ≡ false
      → set int_of key t raw s ≡ (raised x, s)
  unfolding set write_row log_previous log_value
  set-stuck key t raw s row f truthy p c = rw f (rw c (rw truthy (rw p refl)))

  set_returns :
      (b : Bool) (before : Option ConfigurationVariable) (row : ConfigurationVariable)
      (s : Variables) {v : ConfigurationValue}
      → log_previous int_of before ≡ returned tt
      → parsed_value int_of row.variable_type row.raw_value ≡ returned v
      → (r : Option ConfigurationVariable) × (s' : Variables) × ((if b
            then (returned none, s)
            else write_row int_of before row s)
          ≡ (returned r, s'))
  unfolding write_row log_value
  set_returns true before row s p q = (none, s, refl)
  set_returns false before row s p q =
      (some row, record { rows = put_row row s.rows; memo = [] }, rw p (rw q refl))

  -- If the cache agrees with the table, the new text parses, and there is no row yet or one whose text
  -- is empty or parses, then `set` returns, and every reading of the variable gives the new value.
  pub set_total :
      (key : ConfigurationKey) (t : VariableType) (raw : String) (s : Variables)
      {v : ConfigurationValue}
      → IsCoherent s
      → log_previous int_of (find_row (key_name key) s.rows) ≡ returned tt
      → parsed_value int_of t raw ≡ returned v
      → (r : Option ConfigurationVariable) × (s' : Variables) × (set int_of key t raw s
          ≡ (returned r, s'))
        × ((d : ConfigurationValue) → (get int_of key d s').0 ≡ returned v)
  unfolding set
  set_total key t raw s h p q =
      let (r, s', e) =
        set_returns _ (find_row (key_name key) s.rows)
          (record { key = key_name key; raw_value = raw; variable_type = t }) s p q in
      (r, s', e, λ d. (set-get key t raw s s' h e).1 d ∙ q)
