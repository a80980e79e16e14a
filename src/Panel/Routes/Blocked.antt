-- ===== src/Panel/Routes/Blocked.antt =====
-- What a node blocks is what its block routes list, whatever routes stand between.
use mathlib.Core.List.{append-nil, append_assoc}
use v2bx_outbound.Base.{
  ℕ, suc, String, ◌==◌, Bool, true, false, Option, none, some, List, [], ◌∷◌, ◌++◌, ◌≡◌, ap, sym,
  refl, arith, Option-cases, inl, inr, if◌then◌else◌,
}
use v2bx_outbound.Base.Text.{after_prefix, trim_prefix}
use v2bx_outbound.Panel.{Rules}
use v2bx_outbound.Panel.Routes.{
  Route, RawDns, read_match, add_dns, add_blocked, read_route, read_routes, is_empty,
}

-- What a match says of the protocols, and of the rest.
abbrev pub protocols : List String → List String
protocols [] = []
protocols (v ∷ matchs) = elim (after_prefix "protocol:" v) [
  | some protocol ↦ protocol ∷ protocols matchs
  | none ↦ protocols matchs
]

abbrev pub regexps : List String → List String
regexps [] = []
regexps (v ∷ matchs) = elim (after_prefix "protocol:" v) [
  | some protocol ↦ regexps matchs
  | none ↦ trim_prefix "regexp:" v ∷ regexps matchs
]

-- All that the block routes list, in their order.
abbrev pub blocked : List Route → List String
blocked [] = []
blocked (route ∷ routes) =
    (if route.action == "block"
      then (elim (read_match route.match_field) [ none ↦ [] | some l ↦ l ])
      else [])
    ++ blocked routes

-- Each route lists something.
abbrev pub are_readable : List Route → Bool
are_readable [] = true
are_readable (route ∷ routes) = elim (read_match route.match_field) [
  | none ↦ false
  | some l ↦ if is_empty l then false else are_readable routes
]

-- What block routes list, added to rules.
abbrev pub with_blocked : List String → Rules → Rules
with_blocked matchs rules = record {
  regexp = rules.regexp ++ regexps matchs;
  protocol = rules.protocol ++ protocols matchs;
}

protocols-append : (xs ys : List String) → protocols (xs ++ ys) ≡ protocols xs ++ protocols ys
protocols-append [] ys = refl
protocols-append (v ∷ xs) ys = ground (arith, protocols-append xs ys)

regexps-append : (xs ys : List String) → regexps (xs ++ ys) ≡ regexps xs ++ regexps ys
regexps-append [] ys = refl
regexps-append (v ∷ xs) ys = ground (arith, regexps-append xs ys)

with_blocked-append :
    (xs ys : List String) (rules : Rules)
    → with_blocked ys (with_blocked xs rules) ≡ with_blocked (xs ++ ys) rules
with_blocked-append xs ys rules =
    rw
      (
        regexps-append xs ys,
        protocols-append xs ys,
        ← append_assoc rules.regexp (regexps xs) (regexps ys),
        ← append_assoc rules.protocol (protocols xs) (protocols ys),
      )
      refl

with_blocked-nil : (rules : Rules) → with_blocked [] rules ≡ rules
with_blocked-nil rules = rw (append-nil rules.regexp, append-nil rules.protocol) refl

add_blocked_lem :
    (matchs : List String) (rules : Rules) → add_blocked matchs rules ≡ with_blocked matchs rules
unfolding add_blocked
add_blocked_lem [] rules = sym (with_blocked-nil rules)
add_blocked_lem (v ∷ matchs) rules =
    let one = with_blocked (v ∷ []) rules in
    let first = with_blocked-append (v ∷ []) matchs rules in
    elim (Option-cases (after_prefix "protocol:" v)) [
      | inl e ↦ ground (arith, e, add_blocked_lem matchs one, first, append-nil rules.protocol)
      | inr (p, e) ↦ ground (arith, e, add_blocked_lem matchs one, first, append-nil rules.regexp)
    ]

-- The rules after the loop.
abbrev pub rules_of : Option (Rules × RawDns) → Option Rules
rules_of none = none
rules_of (some read) = some read.0

-- The loop over the routes fails exactly if a route lists nothing; otherwise the rules grow by what the
-- block routes list, the protocols apart from the rest, in their order.
pub read_routes-blocked :
    (i : ℕ) (routes : List Route) (rules : Rules) (dns : RawDns)
    → rules_of (read_routes i routes (rules, dns))
      ≡ (if are_readable routes then some (with_blocked (blocked routes) rules) else none)
unfolding read_routes read_route
read_routes-blocked i [] rules dns = ap some (sym (with_blocked-nil rules))
read_routes-blocked i (route ∷ routes) rules dns =
    elim (Option-cases (read_match route.match_field)) [
      | inl e ↦ ground (arith, e)
      | inr ([], e) ↦ ground (arith, e)
      | inr (m ∷ matchs, e) ↦
          let all = m ∷ matchs in
          ground (
            arith,
            e,
            add_blocked_lem all rules,
            with_blocked-append all (blocked routes) rules,
            read_routes-blocked (suc i) routes (with_blocked all rules) dns,
            read_routes-blocked (suc i) routes rules dns,
            read_routes-blocked (suc i) routes rules (add_dns i route.action_value all dns),
          )
    ]
