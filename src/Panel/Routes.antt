-- ===== src/Panel/Routes.antt =====
-- api/panel/node.go: the routes and the intervals that the panel sends with a node, as GetNodeInfo and
-- intervalToTime read them. A number of JSON is the word that Go converts it to.
pub mod Blocked
pub mod Dns
use Prim.Native.Char.{code}
use v2bx_outbound.Base.{
  ℕ, suc, ◌+◌, ◌-◌, ◌*◌, ◌%◌, String, ◌<>◌, ◌==◌, Bool, true, false, not, ◌&&◌, Option, none, some,
  List, [], ◌∷◌, ◌++◌, leb, ltb, mul_int, slt, int_mod, int_half, if◌then◌else◌,
}
use v2bx_outbound.Base.Map.{insert, string_key}
use v2bx_outbound.Base.Text.{after_prefix, trim_prefix}
use v2bx_outbound.Base.Text.Decimal.{itoa}
use v2bx_outbound.Panel.{Rules}
use v2bx_outbound.Panel.Vless.{split}

-- The field Match: a text, a list of texts, a list of anything with `none` for what is no text, or
-- something else.
pub data Match : Type 0 where
  text : String → Match
  texts : List String → Match
  items : List (Option String) → Match
  unknown : Match

pub record Route : Type 0 where
  pub id : ℕ
  pub match_field : Match
  pub action : String
  pub action_value : String

-- DNSMap, with the address and the domains of an entry.
pub record RawDns : Type 0 where
  pub dns_map : List (String × (String × List String))
  pub dns_json : String

-- The loop over value; `none` is an error.
unfoldable pub all_texts : List (Option String) → Option (List String)
all_texts [] = some []
all_texts (none ∷ rest) = none
all_texts (some item ∷ rest) = elim (all_texts rest) [ none ↦ none | some l ↦ some (item ∷ l) ]

unfoldable pub read_match : Match → Option (List String)
read_match (text value) = some (split 44 value)
read_match (texts value) = some value
read_match (items value) = all_texts value
read_match unknown = none

-- The loop of the action "block".
unfoldable pub add_blocked : List String → Rules → Rules
add_blocked [] rules = rules
add_blocked (v ∷ matchs) rules = add_blocked matchs (elim (after_prefix "protocol:" v) [
  | some protocol ↦ record rules { protocol = rules.protocol ++ protocol ∷ [] }
  | none ↦ record rules { regexp = rules.regexp ++ trim_prefix "regexp:" v ∷ [] }
])

-- strings.Join with an empty separator.
abbrev pub concat : List String → String
concat [] = ""
concat (s ∷ rest) = s <> concat rest

-- The body of the action "dns", for the route at index i; there is a match.
unfoldable pub add_dns : ℕ → String → List String → RawDns → RawDns
add_dns i action_value [] dns = dns
add_dns i action_value (first ∷ rest) dns =
    if first == "main"
    then record dns { dns_json = concat rest }
    else record dns { dns_map = insert (itoa i) (action_value, first ∷ rest) dns.dns_map }

abbrev pub is_empty : {A : Type 0} → List A → Bool
is_empty [] = true
is_empty (x ∷ xs) = false

-- A round of the loop over the routes.
unfoldable pub read_route : ℕ → Route → Rules × RawDns → Option (Rules × RawDns)
read_route i route (rules, dns) = elim (read_match route.match_field) [
  | none ↦ none
  | some matchs ↦
      if is_empty matchs
      then none
      else if route.action == "block"
      then some (add_blocked matchs rules, dns)
      else if route.action == "dns"
      then some (rules, add_dns i route.action_value matchs dns)
      else some (rules, dns)
]

-- The loop, from index i on.
unfoldable pub read_routes : ℕ → List Route → Rules × RawDns → Option (Rules × RawDns)
read_routes i [] read = some read
read_routes i (route ∷ routes) read = elim (read_route i route read) [
  | none ↦ none
  | some read' ↦ read_routes (suc i) routes read'
]

-- strconv.Atoi. The scan of the digits stops at 2^64, and an error gives 0 or the nearest word.
unfoldable pub scan_digits : ℕ → String → Option ℕ
scan_digits n String.[] = some n
scan_digits n (String.◌∷◌ c s) =
    let next = n * 10 + (code c - 48) in
    let rest = scan_digits next s in
    if leb 48 (code c) && leb (code c) 57
    then if ltb next int_mod then rest else some int_mod
    else none

abbrev pub at_most : ℕ → Option ℕ → ℕ
at_most limit none = 0
at_most limit (some n) = if ltb limit n then limit else n

unfoldable pub magnitude : ℕ → String → ℕ
magnitude limit s = if s == "" then 0 else at_most limit (scan_digits 0 s)

unfoldable pub atoi : String → ℕ
atoi s = elim (after_prefix "-" s) [
  | some t ↦ (int_mod - magnitude int_half t) % int_mod
  | none ↦ magnitude (int_half - 1) (trim_prefix "+" s)
]

-- An interval: missing, an int, a text, a number of JSON, or something else.
pub data Interval : Type 0 where
  missing : Interval
  int : ℕ → Interval
  string : String → Interval
  float64 : ℕ → Interval
  other : Interval

-- In nanoseconds.
unfoldable pub interval_to_time : Interval → ℕ
interval_to_time missing = 0
interval_to_time (int i) = mul_int i 1_000_000_000
interval_to_time (string s) = mul_int (atoi s) 1_000_000_000
interval_to_time (float64 i) = mul_int i 1_000_000_000
interval_to_time other = 0

-- `if value := intervalToTime(i); value > 0`, with the interval that is kept otherwise.
unfoldable pub positive_or : ℕ → Interval → ℕ
positive_or kept i = if slt 0 (interval_to_time i) then interval_to_time i else kept
