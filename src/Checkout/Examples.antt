-- ===== src/Checkout/Examples.antt =====
-- A push that lost a race.
use lando_api.Common.{[], ◌∷◌}
use lando_api.Common.Text.{join, text}
use lando_api.Common.Search.{rstrip}
use lando_api.Checkout.{from_hglib_error}
use lando_api.Checkout.Classified.{IsClassified, from_hglib_error-IsClassified}

from_hglib_error-IsClassified_example :
    IsClassified "" "abort: push creates new remote head"
      (rstrip (
        text (
          "hg error in cmd: hg "
          ∷ join " " ("push" ∷ [])
          ∷ ": "
          ∷ ""
          ∷ "\n"
          ∷ "abort: push creates new remote head"
          ∷ [])))
      (from_hglib_error ("push" ∷ []) "" "abort: push creates new remote head")
from_hglib_error-IsClassified_example =
    from_hglib_error-IsClassified "" "abort: push creates new remote head" ("push" ∷ [])
