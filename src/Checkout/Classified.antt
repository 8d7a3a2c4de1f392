-- ===== src/Checkout/Classified.antt =====
-- Which exception an error of Mercurial becomes.
use lando_api.Common.{
  arith, refl, ◌≡◌, ◌⊎◌, inl, inr, List, String, [], ◌∷◌, true, false, Bool-cases, any, ◌||◌, Bool,
}
use lando_api.Common.Search.{contains, rstrip}
use lando_api.Common.Search.Occurs.{Occurs, contains_iff}
use lando_api.Common.Text.{join, text}
use lando_api.Common.Exec.{
  Error, hg_command_error, lost_push_race, patch_conflict, tree_closed, tree_approval_required,
  push_timeout, hgmo_internal_server_error,
}
use lando_api.Checkout.{ErrorClass, error_classes, shows, classify, error_message, from_hglib_error}

-- One of the texts stands in the output or in the error output.
abbrev pub ShowsOne : (out err : String) → List String → Type 0
ShowsOne out err [] = ⊥
ShowsOne out err (s ∷ rest) = (Occurs s err ⊎ Occurs s out) ⊎ ShowsOne out err rest

abbrev pub race_texts : List String
race_texts = "abort: push creates new remote head" ∷ "repository changed while pushing" ∷ []

abbrev pub conflict_texts : List String
conflict_texts =
    "unresolved conflicts (see hg resolve" ∷ "hunk FAILED -- saving rejects to file"
    ∷ "hunks FAILED -- saving rejects to file" ∷ []

abbrev pub closed_texts : List String
closed_texts = "is CLOSED!" ∷ "treating as if CLOSED." ∷ []

abbrev pub approval_texts : List String
approval_texts = "APPROVAL REQUIRED!" ∷ []

abbrev pub timeout_texts : List String
timeout_texts = "timed out waiting for lock held by" ∷ []

abbrev pub server_texts : List String
server_texts =
    "abort: HTTP Error 500:" ∷ "abort: error: Connection timed out"
    ∷ "remote: Connection to hg.mozilla.org closed by remote host"
    ∷ "remote: could not complete push due to pushlog operational errors" ∷ []

-- None of the texts of these lists stands in either output.
abbrev pub LacksAll : (out err : String) → List (List String) → Type 0
LacksAll out err [] = Unit
LacksAll out err (texts ∷ rest) = (ShowsOne out err texts → ⊥) × LacksAll out err rest

-- The exceptions by what stands in the two outputs, each with what does not stand there.
pub data IsClassified (out err msg : String) : Error → Type 0 where
  race : ShowsOne out err race_texts → IsClassified out err msg (lost_push_race msg)
  conflict :
      LacksAll out err (race_texts ∷ [])
      → ShowsOne out err conflict_texts
      → IsClassified out err msg (patch_conflict msg)
  closed :
      LacksAll out err (race_texts ∷ conflict_texts ∷ [])
      → ShowsOne out err closed_texts
      → IsClassified out err msg (tree_closed msg)
  approval :
      LacksAll out err (race_texts ∷ conflict_texts ∷ closed_texts ∷ [])
      → ShowsOne out err approval_texts
      → IsClassified out err msg (tree_approval_required msg)
  timeout :
      LacksAll out err (race_texts ∷ conflict_texts ∷ closed_texts ∷ approval_texts ∷ [])
      → ShowsOne out err timeout_texts
      → IsClassified out err msg (push_timeout msg)
  server :
      LacksAll out err
        (race_texts ∷ conflict_texts ∷ closed_texts ∷ approval_texts ∷ timeout_texts ∷ [])
      → ShowsOne out err server_texts
      → IsClassified out err msg (hgmo_internal_server_error msg)
  unknown :
      LacksAll out err (
        race_texts ∷ conflict_texts ∷ closed_texts ∷ approval_texts ∷ timeout_texts ∷ server_texts
        ∷ [])
      → IsClassified out err msg (hg_command_error msg)

module _ (out err : String) where
  abbrev found : String → Bool
  found s = contains s err || contains s out

  any-ShowsOne : (snippets : List String) → any found snippets ≡ true → ShowsOne out err snippets
  any-ShowsOne [] h = absurd (cc)
  any-ShowsOne (s ∷ rest) h = elim (Bool-cases (contains s err)) [
    | inl t ↦ inl (inl ((contains_iff s err).0 t))
    | inr f ↦ elim (Bool-cases (contains s out)) [
      | inl t ↦ inl (inr ((contains_iff s out).0 t))
      | inr g ↦ let r : any found rest ≡ true = ground arith in inr (any-ShowsOne rest r)
    ]
  ]

  ShowsOne-any : (snippets : List String) → ShowsOne out err snippets → any found snippets ≡ true
  ShowsOne-any [] m = absurd m
  ShowsOne-any (s ∷ rest) (inl (inl o)) = rw ((contains_iff s err).1 o) refl
  ShowsOne-any (s ∷ rest) (inl (inr o)) = let t = (contains_iff s out).1 o in ground arith
  ShowsOne-any (s ∷ rest) (inr m) = let t = ShowsOne-any rest m in ground arith

  shows-cases :
      (c : ErrorClass)
      → ((shows out err c ≡ true) × ShowsOne out err c.1)
        ⊎ ((shows out err c ≡ false) × (ShowsOne out err c.1 → ⊥))
  unfolding shows
  shows-cases c = elim (Bool-cases (any found c.1)) [
    | inl t ↦ inl (t, any-ShowsOne c.1 t)
    | inr f ↦ inr (f, λ m. let t = ShowsOne-any c.1 m in absurd (cc))
  ]

  -- An error of Mercurial becomes a LostPushRace if a text of a lost race stands in the output or the
  -- error output; else a PatchConflict if one of a conflict does; else, in this order, a TreeClosed, a
  -- TreeApprovalRequired, a PushTimeoutException or an HgmoInternalServerError; and an HgCommandError
  -- if none of these texts stands in either. The message is the command with both outputs,
  -- without spaces at the end.
  pub from_hglib_error-IsClassified :
      (args : List String)
      → IsClassified out err
          (rstrip (text ("hg error in cmd: hg " ∷ join " " args ∷ ": " ∷ out ∷ "\n" ∷ err ∷ [])))
          (from_hglib_error args out err)
  unfolding from_hglib_error classify error_classes error_message
  from_hglib_error-IsClassified args = elim (shows-cases (lost_push_race, race_texts)) [
    | inl (t, m) ↦ rw t (race m)
    | inr (f₁, n₁) ↦ elim (shows-cases (patch_conflict, conflict_texts)) [
      | inl (t, m) ↦ rw f₁ (rw t (conflict (n₁, tt) m))
      | inr (f₂, n₂) ↦ elim (shows-cases (tree_closed, closed_texts)) [
        | inl (t, m) ↦ rw f₁ (rw f₂ (rw t (closed (n₁, (n₂, tt)) m)))
        | inr (f₃, n₃) ↦ elim (shows-cases (tree_approval_required, approval_texts)) [
          | inl (t, m) ↦ rw f₁ (rw f₂ (rw f₃ (rw t (approval (n₁, (n₂, (n₃, tt))) m))))
          | inr (f₄, n₄) ↦ elim (shows-cases (push_timeout, timeout_texts)) [
            | inl (t, m) ↦
                rw f₁ (rw f₂ (rw f₃ (rw f₄ (rw t (timeout (n₁, (n₂, (n₃, (n₄, tt)))) m)))))
            | inr (f₅, n₅) ↦ elim (shows-cases (hgmo_internal_server_error, server_texts)) [
              | inl (t, m) ↦
                  rw f₁ (
                    rw f₂
                      (rw f₃ (rw f₄ (rw f₅ (rw t (server (n₁, (n₂, (n₃, (n₄, (n₅, tt))))) m))))))
              | inr (f₆, n₆) ↦ rw f₁ (
                  rw f₂ (
                    rw f₃ (rw f₄ (rw f₅ (rw f₆ (unknown (n₁, (n₂, (n₃, (n₄, (n₅, (n₆, tt))))))))))))
            ]
          ]
        ]
      ]
    ]
  ]
