-- ===== src/Utils/Httputils.antt =====
-- utils/httputils/httpUtils.go: the text of a URL. The queries come in the order in which the map is
-- iterated.
use tp_ssoo_1c.Prelude.{List, [], ◌∷◌, ◌++◌, ◌==◌, if◌then◌else◌}
use tp_ssoo_1c.Prelude.Int.{ℤ}
use tp_ssoo_1c.Utils.Text.{Text, codes, itoa_int}

pub record UrlData : Type 0 where
  pub ip : Text
  pub port : ℤ
  pub endpoint : Text
  pub queries : List (Text × Text)

-- `strings.CutSuffix(text, "&")`
unfoldable pub cut_ampersand : Text → Text
cut_ampersand [] = []
cut_ampersand (c ∷ []) = if c == b'&' then [] else c ∷ []
cut_ampersand (c ∷ d ∷ s) = c ∷ cut_ampersand (d ∷ s)

-- The loop over the queries.
unfoldable pub add_queries : Text → List (Text × Text) → Text
add_queries url [] = url
add_queries url ((key, value) ∷ queries) =
    add_queries (url ++ (key ++ (b'=' ∷ (value ++ codes "&")))) queries

unfoldable pub build_url : UrlData → Text
unfolding cut_ampersand add_queries itoa_int
build_url u =
    let url = codes "http://" ++ (u.ip ++ (b':' ∷ (itoa_int u.port ++ (b'/' ∷ u.endpoint)))) in
    elim (u.queries) [ [] ↦ url | q ∷ qs ↦ cut_ampersand (add_queries (url ++ codes "?") (q ∷ qs)) ]
