-- ===== src/Treestatus/Store/View.antt =====
-- What is shown of a tree, and how an update of its status changes that.
use lando_api.Common.{
  ◌∙◌, [], refl, ap, inr, ==-eq, none, inl, ◌∷◌, sym, map, Bool-cases, not, ==-ne, find, some,
  string_eq, is_some, true, All, ◌==◌, if◌then◌else◌, keep, ◌≢◌, ◌≡◌, List, String, Option, Bool,
}
use lando_api.Treestatus.Tree.{state_of, Log, Tree, CombinedTree, TreeStatus, TreeState}
use lando_api.Treestatus.Store.{last_log, write_tree, Tables, find_tree, revised}

-- The status, the reason and the tags.
abbrev pub Shown : Type 0
Shown = TreeStatus × (String × List String)

abbrev pub shown : TreeState → Shown
shown s = (s.status, (s.reason, s.tags))

-- What the tables show of the tree with a name.
abbrev pub shown_by : Option Tree → Option Log → Option Shown
shown_by none l = none
shown_by (some t) l = some (shown (state_of t l))

abbrev pub view : String → Tables → Option Shown
view name d = shown_by (find_tree name d) (last_log name d)

abbrev pub IsKnown : String → Tables → Type 0
IsKnown name d = is_some (find_tree name d) ≡ true

module _ {A : Type 0} (p : A → Bool) (f : A → A) (keeps : (x : A) → p (f x) ≡ p x) where
  is_some-find-map : (xs : List A) → is_some (find p (map f xs)) ≡ is_some (find p xs)
  is_some-find-map [] = refl
  is_some-find-map (x ∷ xs) = elim (Bool-cases (p x)) [
    | inl t ↦ rw (keeps x) (rw t refl)
    | inr n ↦ rw (keeps x) (rw n (is_some-find-map xs))
  ]

  find-map : ((x : A) → p x ≡ true → f x ≡ x) → (xs : List A) → find p (map f xs) ≡ find p xs
  find-map same [] = refl
  find-map same (x ∷ xs) = elim (Bool-cases (p x)) [
    | inl t ↦ rw (keeps x) (rw t (ap some (same x t)))
    | inr n ↦ rw (keeps x) (rw n (find-map same xs))
  ]

module _ (name : String) (status : Option TreeStatus) (reason message : Option String) where
  rewritten : Tree → Tree
  unfolding revised
  rewritten t = if t.tree == name then revised status reason message t else t

  rewritten-tree : (n : String) (t : Tree) → ((rewritten t).tree == n) ≡ (t.tree == n)
  unfolding rewritten revised
  rewritten-tree n t = elim (Bool-cases (t.tree == name)) [ inl e ↦ rw e refl | inr e ↦ rw e refl ]

  rewritten-other : (n : String) → n ≢ name → (t : Tree) → (t.tree == n) ≡ true → rewritten t ≡ t
  unfolding rewritten
  rewritten-other n h t e = rw (==-ne t.tree name (λ q. h (sym (==-eq t.tree n e) ∙ q))) refl

  pub find_tree-write_tree :
      (n : String) (d : Tables)
      → n ≢ name
      → find_tree n (write_tree name (revised status reason message) d) ≡ find_tree n d
  unfolding find_tree write_tree rewritten
  find_tree-write_tree n d h =
      find-map (λ t. t.tree == n) rewritten (rewritten-tree n) (rewritten-other n h) d.trees

  pub IsKnown-write_tree :
      (n : String) (d : Tables)
      → is_some (find_tree n (write_tree name (revised status reason message) d))
        ≡ is_some (find_tree n d)
  unfolding find_tree write_tree rewritten
  IsKnown-write_tree n d = is_some-find-map (λ t. t.tree == n) rewritten (rewritten-tree n) d.trees

-- The model of each cached tree has the name under which it is cached.
abbrev pub IsCached : List CombinedTree → Type 0
IsCached cs = All (λ c. c.model.tree ≡ c.tree) cs

pub IsCached-forget :
    (name : String) (cs : List CombinedTree)
    → IsCached cs
    → IsCached (keep (λ c. not (c.tree == name)) cs)
IsCached-forget name [] h = tt
IsCached-forget name (c ∷ cs) h = elim (Bool-cases (c.tree == name)) [
  | inl e ↦ rw e (IsCached-forget name cs h.1)
  | inr e ↦ rw e (h.0, IsCached-forget name cs h.1)
]
