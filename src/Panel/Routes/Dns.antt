-- ===== src/Panel/Routes/Dns.antt =====
-- The entries of the DNS map stand at the indices of the routes that they come from.
use v2bx_outbound.Base.{
  ℕ, zero, suc, ◌+◌, ◌<◌, String, ◌==◌, eq_iff, eq_refl, eqb, eqb_iff, true, false, Option, none,
  some, List, [], ◌∷◌, ◌≡◌, refl, sym, subst, ap, ◌∙◌, arith, Option-cases, Bool-cases, inl, inr,
  if◌then◌else◌, length, get_elem?, int_mod,
}
use v2bx_outbound.Base.Map.{lookup, lookup-insert, string_key}
use v2bx_outbound.Base.Text.Decimal.{itoa, itoa-injective}
use v2bx_outbound.Panel.{Rules}
use v2bx_outbound.Panel.Routes.Blocked.{are_readable}
use v2bx_outbound.Panel.Routes.{
  Route, RawDns, read_match, add_blocked, add_dns, read_route, read_routes,
}

abbrev pub Entry : Type 0
Entry = String × List String

-- The entry that a list of matches gives, unless it is that of "main".
abbrev pub entry_for : String → List String → Option Entry
entry_for address [] = none
entry_for address (first ∷ rest) = if first == "main" then none else some (address, first ∷ rest)

-- The entry of a route.
abbrev pub dns_entry : Route → Option Entry
dns_entry route =
    if route.action == "dns"
    then (elim (read_match route.match_field) [
      | none ↦ none
      | some l ↦ entry_for route.action_value l
    ])
    else none

abbrev entry_at : ℕ → List Route → ℕ → Option Entry
entry_at i [] n = none
entry_at i (route ∷ routes) n = if eqb n i then dns_entry route else entry_at (suc i) routes n

abbrev or_else : {A : Type 0} → Option A → Option A → Option A
or_else none o = o
or_else (some a) o = some a

entry_at-early : (i : ℕ) (routes : List Route) (n : ℕ) → n < i → entry_at i routes n ≡ none
entry_at-early i [] n h = refl
entry_at-early i (route ∷ routes) n h =
    ground (arith, eqb_iff n i, entry_at-early (suc i) routes n (omega arith))

entry_at-get_elem :
    (i : ℕ) (routes : List Route) (n : ℕ)
    → entry_at i routes (i + n)
      ≡ (elim (get_elem? routes n) [ none ↦ none | some route ↦ dns_entry route ])
entry_at-get_elem i [] n = refl
entry_at-get_elem i (route ∷ routes) zero = ground (arith, eqb_iff (i + 0) i)
entry_at-get_elem i (route ∷ routes) (suc n) =
    ground (arith, eqb_iff (i + suc n) i, entry_at-get_elem (suc i) routes n)

same_index : (i n : ℕ) → i < int_mod → n < int_mod → (itoa i == itoa n) ≡ eqb n i
same_index i n small small' = ground (
  arith,
  eqb_iff n i,
  eq_iff (itoa i) (itoa n),
  eq_refl (itoa i),
  itoa-injective i n small small',
)

-- The action "dns".
add_dns_lem :
    (i n : ℕ) (address m : String) (matchs : List String) (dns : RawDns)
    → i < int_mod
    → n < int_mod
    → lookup (itoa n) (add_dns i address (m ∷ matchs) dns).dns_map ≡ (
        if eqb n i
        then or_else (entry_for address (m ∷ matchs)) (lookup (itoa n) dns.dns_map)
        else lookup (itoa n) dns.dns_map)
unfolding add_dns
add_dns_lem i n address m matchs dns small small' = elim (Bool-cases (m == "main")) [
  | inl e ↦ ground (arith, e)
  | inr e ↦ ground (
    arith,
    e,
    same_index i n small small',
    lookup-insert (itoa i) (itoa n) (address, m ∷ matchs) dns.dns_map,
  )
]

-- The entry at an index, after the loop.
abbrev pub found_at : ℕ → Option (Rules × RawDns) → Option Entry
found_at n none = none
found_at n (some read) = lookup (itoa n) read.1.dns_map

-- What one readable route makes of the DNS settings.
abbrev dns_after : ℕ → Route → String → List String → RawDns → RawDns
dns_after i route m matchs dns =
    if route.action == "dns" then add_dns i route.action_value (m ∷ matchs) dns else dns

dns_after_lem :
    (i n : ℕ) (route : Route) (m : String) (matchs : List String) (dns : RawDns)
    → i < int_mod
    → n < int_mod
    → read_match route.match_field ≡ some (m ∷ matchs)
    → lookup (itoa n) (dns_after i route m matchs dns).dns_map ≡ (
        if eqb n i
        then or_else (dns_entry route) (lookup (itoa n) dns.dns_map)
        else lookup (itoa n) dns.dns_map)
dns_after_lem i n route m matchs dns small small' e =
    ground (arith, e, add_dns_lem i n route.action_value m matchs dns small small')

-- The actions exclude each other.
not_dns : (action : String) → (action == "block") ≡ true → (action == "dns") ≡ false
not_dns action e = subst (λ a. (a == "dns") ≡ false) (sym ((eq_iff action "block").0 e)) refl

read_route-readable :
    (i : ℕ) (route : Route) (m : String) (matchs : List String) (rules : Rules) (dns : RawDns)
    → read_match route.match_field ≡ some (m ∷ matchs)
    → read_route i route (rules, dns)
      ≡ some (
        if route.action == "block" then add_blocked (m ∷ matchs) rules else rules,
        dns_after i route m matchs dns,
      )
unfolding read_route
read_route-readable i route m matchs rules dns e = ground (arith, e, not_dns route.action)

read_routes-found_at :
    (i n : ℕ) (routes : List Route) (rules : Rules) (dns : RawDns)
    → i + length routes < int_mod
    → n < int_mod
    → found_at n (read_routes i routes (rules, dns)) ≡ (
        if are_readable routes
        then or_else (entry_at i routes n) (lookup (itoa n) dns.dns_map)
        else none)
unfolding read_routes read_route
read_routes-found_at i n [] rules dns small small' = refl
read_routes-found_at i n (route ∷ routes) rules dns small small' =
    elim (Option-cases (read_match route.match_field)) [
      | inl e ↦ ground (arith, e)
      | inr ([], e) ↦ ground (arith, e)
      | inr (m ∷ matchs, e) ↦
          let rules' = if route.action == "block" then add_blocked (m ∷ matchs) rules else rules in
          let dns' = dns_after i route m matchs dns in
          let small'' : i < int_mod = omega arith in
          let rest : Option (Rules × RawDns) → Option Entry = λ read.
            found_at n
              (elim read [ none ↦ none | some read' ↦ read_routes (suc i) routes read' ]) in
          ap rest (read_route-readable i route m matchs rules dns e)
          ∙ (read_routes-found_at (suc i) n routes rules' dns' (omega arith) small'
              ∙ ground (
                arith,
                e,
                eqb_iff n i,
                entry_at-early (suc i) routes n,
                dns_after_lem i n route m matchs dns small'' small' e,
              ))
    ]

-- The loop over the routes fails exactly if a route lists nothing; otherwise the DNS map has, under the
-- number of each index below 2^64, the entry of the route at that index: its address and its matches,
-- for a route with the action "dns" whose first match is not "main". The map was empty.
pub read_routes-entries :
    (n : ℕ) (routes : List Route) (rules : Rules) (dns : RawDns)
    → length routes < int_mod
    → n < int_mod
    → dns.dns_map ≡ []
    → found_at n (read_routes 0 routes (rules, dns)) ≡ (
        if are_readable routes
        then (elim (get_elem? routes n) [ none ↦ none | some route ↦ dns_entry route ])
        else none)
unfolding lookup
read_routes-entries n routes rules dns small small' empty =
    read_routes-found_at 0 n routes rules dns (omega arith) small'
    ∙ ground (arith, empty, entry_at-get_elem 0 routes n)
