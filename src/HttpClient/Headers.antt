-- ===== src/HttpClient/Headers.antt =====
-- Go's http.Header.Set and the functions on strings that backend/internal/mcp/client.go uses.
use reflow_gateway.Base.{
  ℕ, ◌+◌, ◌-◌, Bool, true, false, ◌&&◌, ◌||◌, [], ◌∷◌, leb, eqb, any, if◌then◌else◌,
}
use reflow_gateway.Base.Text.{Text, codes}
use reflow_gateway.Base.Maps.{Map, insert}

abbrev between : ℕ → ℕ → ℕ → Bool
between low high c = leb low c && leb c high

-- A byte of a header's name.
unfoldable pub is_token : ℕ → Bool
is_token c =
    between b'a' b'z' c
    || between b'A' b'Z' c
    || between b'0' b'9' c
    || any (λ d. eqb c d) (codes "!#$%&'*+-.^_`|~")

unfoldable pub all_tokens : Text → Bool
all_tokens [] = true
all_tokens (c ∷ s) = is_token c && all_tokens s

unfoldable pub case_byte : Bool → ℕ → ℕ
case_byte upper c =
    if upper
    then if between b'a' b'z' c then c - 32 else c
    else if between b'A' b'Z' c
    then c + 32
    else c

-- Upper case at the start and behind a dash, lower case elsewhere.
unfoldable pub dashed : Bool → Text → Text
dashed upper [] = []
dashed upper (c ∷ s) = case_byte upper c ∷ dashed (eqb c b'-') s

-- textproto.CanonicalMIMEHeaderKey
unfoldable pub canonical : Text → Text
canonical key = if all_tokens key then dashed true key else key

unfoldable pub header_set : Text → Text → Map Text → Map Text
header_set key value headers = insert (canonical key) value headers

-- strings.TrimLeft of one byte, and TrimRight.
unfoldable pub trim_left : ℕ → Text → Text
trim_left b [] = []
trim_left b (c ∷ s) = let rest = trim_left b s in if eqb c b then rest else c ∷ s

-- A byte in front of a text that is trimmed on the right.
unfoldable pub keep_unless : Bool → ℕ → Text → Text
keep_unless drop c [] = if drop then [] else c ∷ []
keep_unless drop c (d ∷ s) = c ∷ d ∷ s

unfoldable pub trim_right : ℕ → Text → Text
trim_right b [] = []
trim_right b (c ∷ s) = keep_unless (eqb c b) c (trim_right b s)

abbrev is_space : ℕ → Bool
is_space c = eqb c b' ' || leb 9 c && leb c 13

unfoldable pub trim_space_left : Text → Text
trim_space_left [] = []
trim_space_left (c ∷ s) = let rest = trim_space_left s in if is_space c then rest else c ∷ s

unfoldable pub trim_space_right : Text → Text
trim_space_right [] = []
trim_space_right (c ∷ s) = keep_unless (is_space c) c (trim_space_right s)

-- strings.TrimSpace, of ASCII white space.
unfoldable pub trim_space : Text → Text
trim_space s = trim_space_right (trim_space_left s)

-- strings.HasPrefix
unfoldable pub starts_with : Text → Text → Bool
starts_with [] s = true
starts_with (c ∷ p) [] = false
starts_with (c ∷ p) (d ∷ s) = eqb c d && starts_with p s
