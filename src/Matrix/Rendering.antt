-- ===== src/Matrix/Rendering.antt =====
-- The texts that are printed from a matrix: markdown of scripts/validate-compatibility-matrix.py. The
-- matrix is one that `validate` accepts, so the members that are read are there and have the types
-- that are read; another value stands for the empty text or list.
use cekat_event_sdk.Base.{Text, List, [], ◌∷◌, ◌++◌, codes, map}
use cekat_event_sdk.Json.{Json, null, str, arr, obj, Items, nil, cons, Members, end}
use cekat_event_sdk.Package.Listings.{value_of}

-- str.join
unfoldable pub join : (separator : Text) → List Text → Text
join separator [] = []
join separator (t ∷ []) = t
join separator (t ∷ u ∷ ts) = t ++ (separator ++ join separator (u ∷ ts))

abbrev pub text_of : Json → Text
text_of (str t) = t
text_of null = []
text_of _ = []

abbrev pub members_of : Json → Members
members_of (obj members) = members
members_of null = end
members_of _ = end

unfoldable pub listed_items : Items → List Json
listed_items nil = []
listed_items (cons item items) = item ∷ listed_items items

abbrev pub items_of : Json → List Json
items_of (arr items) = listed_items items
items_of null = []
items_of _ = []

-- value[key], as a text, and as a list.
unfoldable pub said : (key : Text) → Json → Text
said key value = text_of (value_of key (members_of value))

unfoldable pub items_at : (key : Text) → Json → List Json
unfolding listed_items
items_at key value = items_of (value_of key (members_of value))

floor_text : Json → Text
unfolding said
floor_text runtime = said (codes "name") runtime ++ codes " " ++ said (codes "declared") runtime

framework_text : Json → Text
unfolding said
framework_text framework =
    said (codes "name") framework ++ codes " " ++ said (codes "supported") framework

unfoldable pub observed_versions : List Json → Text
unfolding said
observed_versions [] = []
observed_versions (least ∷ []) = []
observed_versions (least ∷ newest ∷ rest) =
    said (codes "observed") least ++ codes " → " ++ said (codes "observed") newest

summary_row : Json → Text
unfolding said items_at floor_text framework_text observed_versions join
summary_row entry =
    codes "| "
    ++ said (codes "language") entry
    ++ codes " | "
    ++ join (codes ", ") (map floor_text (items_at (codes "runtimes") entry))
    ++ codes " | "
    ++ observed_versions (items_at (codes "profiles") entry)
    ++ codes " | "
    ++ join (codes ", ") (map framework_text (items_at (codes "frameworks") entry))
    ++ codes " |"

unfoldable pub markdown : Members → Text
unfolding said items_at summary_row join
markdown matrix =
    codes "### SDK compatibility (verified "
    ++ said (codes "verified_on") (obj matrix)
    ++ codes ")\n\n"
    ++ join (codes "\n") (
        codes "| Language | Runtime floor | CI minimum → current (observed) | Frameworks |"
        ∷ codes "| --- | --- | --- | --- |"
        ∷ map summary_row (items_at (codes "languages") (obj matrix)))
    ++ codes "\n"
