-- ===== src/Submission/Request/Examples.antt =====
-- Requests as a client sends them.
use lando_api.Submission.Request.{
  choose_middle_revision_from_path, positive_to_end, revision_number, revision_id_to_int,
  parse_landing_path,
}
use lando_api.Common.Int.{pos}
use lando_api.Common.{arith, refl, ◌≡◌, [], ◌∷◌, map}
use lando_api.Submission.Request.Printed.{
  choose_middle-InMiddle, InMiddle, parse_landing_path-printed, print_item,
}
use lando_api.Common.Exec.{problem, returned, raised}

parse_landing_path-printed_example :
    parse_landing_path (map print_item ((12, pos 34) ∷ (7, pos 5) ∷ []))
    ≡ returned ((12, pos 34) ∷ (7, pos 5) ∷ [])
parse_landing_path-printed_example =
    parse_landing_path-printed ((12, pos 34) ∷ (7, pos 5) ∷ []) (omega arith, (omega arith, tt))

choose_middle-InMiddle_example :
    InMiddle
      ((12, pos 34) ∷ (7, pos 5) ∷ [])
      (choose_middle_revision_from_path ((12, pos 34) ∷ (7, pos 5) ∷ []))
choose_middle-InMiddle_example = choose_middle-InMiddle ((12, pos 34) ∷ (7, pos 5) ∷ [])

path_test :
    parse_landing_path (record { revision_id = "D012"; diff_id = pos 1 } ∷ [])
    ≡ raised (problem 400 "Bad Request")
unfolding parse_landing_path revision_id_to_int revision_number positive_to_end
path_test = refl
