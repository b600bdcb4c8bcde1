-- ===== src/Docs/Page.antt =====
-- render_compatibility of scripts/audit-docs.py: the whole page.
use cekat_event_sdk.Base.{Text, List, [], ◌∷◌, ◌++◌, map, codes}
use cekat_event_sdk.Json.{Members, obj}
use cekat_event_sdk.Matrix.Rendering.{join}
use cekat_event_sdk.Docs.Compatibility.{language_row, language_sections}
use cekat_event_sdk.Matrix.Rendering.{said, items_at}

abbrev page_top : (verified_on : Text) → List Text
page_top verified_on =
    codes "# SDK compatibility"
    ∷ []
    ∷ codes
        "<!-- Generated from ci/compatibility-matrix.json by scripts/audit-docs.py --write-compatibility. Do not edit by hand. -->"
    ∷ []
    ∷ (codes "Verified on "
        ++ verified_on
        ++ codes
            ". Each SDK's evidence document records the official sources, exact observed versions, and test results; [`ci/compatibility-matrix.json`](../ci/compatibility-matrix.json) is checked against package metadata, CI, and that evidence by [`scripts/validate-compatibility-matrix.py`](../scripts/validate-compatibility-matrix.py).")
    ∷ []
    ∷ codes "| SDK | Runtime floor | Tested in CI (minimum → current) | Evidence |"
    ∷ codes "| --- | --- | --- | --- |"
    ∷ []

abbrev page_end : List Text
page_end =
    []
    ∷ codes "## Keeping this current"
    ∷ []
    ∷ codes
        "When a runtime floor, CI row, or framework range changes, update the package metadata, the CI workflow, the language's evidence document, and `ci/compatibility-matrix.json` together, then regenerate this page with `python3 scripts/audit-docs.py --write-compatibility`. The release readiness preflight fails when a listed line has reached end of support or the matrix was verified more than 30 days earlier."
    ∷ []
    ∷ []

unfoldable pub render_compatibility : Members → Text
unfolding said items_at language_row language_sections join
render_compatibility matrix =
    let entries = items_at (codes "languages") (obj matrix) in
    join (codes "\n") (
      page_top (said (codes "verified_on") (obj matrix))
      ++ map language_row entries
      ++ language_sections entries
      ++ page_end)
