-- ===== src/Sing/Legacy/Stable.antt =====
-- A migrated configuration is migrated to itself.
use v2bx_outbound.Base.{
  String, ◌==◌, eqb, Bool, true, false, not, ◌||◌, Option, none, some, List, [], ◌∷◌, ◌≡◌, refl,
  sym, ap, subst, ◌∙◌, arith, if◌then◌else◌, Option-cases, Bool-cases, inl, inr,
}
use v2bx_outbound.Sing.Legacy.{
  Value, Items, Fields, null, bool, number, string, array, object, nil, cons, get, put, remove, len,
  as_string, as_array, as_object, is_text, split_outbound, split_outbounds, migrate_server,
  migrate_entry, migrate_servers, with_entry, object_of, migrate_dns, is_legacy_server,
}
use v2bx_outbound.Sing.Legacy.Lookups.{
  get-remove, put-get, as_object-some, as_array-some, get-put_self,
}

-- A migration, where it succeeds, leaves its own result as it is.
abbrev pub IsStable : {A : Type 0} → (A → Option A) → Option A → Type 0
IsStable f none = Unit
IsStable f (some a) = f a ≡ some a

pub if_holds :
    {A : Type 0} (Q : A → Type 0) (b : Bool) (x y : A) → Q x → Q y → Q (if b then x else y)
if_holds Q true x y h k = h
if_holds Q false x y h k = k

pub option_holds :
    {A B : Type 0} (Q : B → Type 0) (o : Option A) (d : B) (f : A → B)
    → Q d
    → ((a : A) → Q (f a))
    → Q (elim o [ none ↦ d | some a ↦ f a ])
option_holds Q none d f h k = h
option_holds Q (some a) d f h k = k a

-- What is kept of the outbounds has no block.
abbrev pub IsKept : Option (Items × List String) → Type 0
IsKept none = Unit
IsKept (some (kept, blocks)) = split_outbounds kept ≡ some (kept, [])

split_outbound-other :
    (outbound : Fields) (kept : Items) (blocks : List String)
    → is_text "block" (as_string (get "type" outbound)) ≡ false
    → split_outbound outbound (some (kept, blocks)) ≡ some (cons (object outbound) kept, blocks)
unfolding split_outbound
split_outbound-other outbound kept blocks other = ground (arith, other)

-- A block goes, or is an error.
split_outbound-block :
    (outbound : Fields) (kept : Items) (blocks : List String)
    → is_text "block" (as_string (get "type" outbound)) ≡ true
    → IsKept (some (kept, blocks))
    → IsKept (split_outbound outbound (some (kept, blocks)))
unfolding split_outbound
split_outbound-block outbound kept blocks block h =
    elim (Option-cases (as_string (get "tag" outbound))) [
      | inl e ↦
          let fails : split_outbound outbound (some (kept, blocks)) ≡ none =
            ground (arith, block, e) in
          subst IsKept (sym fails) tt
      | inr (tag, e) ↦ elim (Bool-cases (tag == "" || not (eqb (len outbound) 2))) [
        | inl bad ↦
            let fails : split_outbound outbound (some (kept, blocks)) ≡ none =
              ground (arith, block, e, bad) in
            subst IsKept (sym fails) tt
        | inr good ↦
            let goes : split_outbound outbound (some (kept, blocks)) ≡ some (kept, tag ∷ blocks) =
              ground (arith, block, e, good) in
            subst IsKept (sym goes) h
      ]
    ]

split_outbound-IsKept :
    (outbound : Fields) (o : Option (Items × List String))
    → IsKept o
    → IsKept (split_outbound outbound o)
unfolding split_outbounds split_outbound
split_outbound-IsKept outbound none h = tt
split_outbound-IsKept outbound (some (kept, blocks)) h =
    elim (Bool-cases (is_text "block" (as_string (get "type" outbound)))) [
      | inl block ↦ split_outbound-block outbound kept blocks block h
      | inr other ↦
          let this = split_outbound-other outbound kept blocks other in
          let again = split_outbound-other outbound kept [] other in
          subst IsKept (sym this) (ap (split_outbound outbound) h ∙ again)
    ]

pub split_outbounds-IsKept : (items : Items) → IsKept (split_outbounds items)
unfolding split_outbounds
split_outbounds-IsKept nil = refl
split_outbounds-IsKept (cons (object outbound) rest) =
    split_outbound-IsKept outbound (split_outbounds rest) (split_outbounds-IsKept rest)
split_outbounds-IsKept (cons null rest) = tt
split_outbounds-IsKept (cons (bool b) rest) = tt
split_outbounds-IsKept (cons (number n) rest) = tt
split_outbounds-IsKept (cons (string s) rest) = tt
split_outbounds-IsKept (cons (array items) rest) = tt

module _ (is_addr : String → Bool) where
  migrate_entry-new :
      (server : Fields)
      → as_string (get "address" server) ≡ none
      → migrate_entry is_addr (object server) ≡ some (object server)
  unfolding migrate_entry
  migrate_entry-new server new = ground (arith, new)

  migrate_entry-legacy :
      (server : Fields) (address : String)
      → as_string (get "address" server) ≡ some address
      → migrate_entry is_addr (object server) ≡ object_of (migrate_server is_addr address server)
  unfolding migrate_entry
  migrate_entry-legacy server address legacy = ground (arith, legacy)

  -- A server that was migrated has no address of the old form.
  removed-IsStable :
      (f : Fields) → IsStable (migrate_entry is_addr) (some (object (remove "address" f)))
  unfolding as_string
  removed-IsStable f =
      migrate_entry-new (remove "address" f) (ap as_string (get-remove "address" "address" f))

  migrate_server-IsStable :
      (address : String) (server : Fields)
      → IsStable (migrate_entry is_addr) (object_of (migrate_server is_addr address server))
  unfolding migrate_server
  migrate_server-IsStable address server =
      let Q : Option Fields → Type 0 = λ o. IsStable (migrate_entry is_addr) (object_of o) in
      let typed = put "type" (string "local") server in
      let udp = put "server" (string address) (put "type" (string "udp") server) in
      if_holds Q (not (is_legacy_server server)) none _ tt (
        if_holds Q (address == "local") _ _ (removed-IsStable typed)
          (if_holds Q (is_addr address) _ none (removed-IsStable udp) tt))

  migrate_entry-IsStable : (v : Value) → IsStable (migrate_entry is_addr) (migrate_entry is_addr v)
  unfolding migrate_entry
  migrate_entry-IsStable (object server) = elim (Option-cases (as_string (get "address" server))) [
    | inl new ↦
        let same = migrate_entry-new server new in
        subst (IsStable (migrate_entry is_addr)) (sym same) same
    | inr (address, legacy) ↦
        subst (IsStable (migrate_entry is_addr)) (sym (migrate_entry-legacy server address legacy))
          (migrate_server-IsStable address server)
  ]
  migrate_entry-IsStable null = refl
  migrate_entry-IsStable (bool b) = refl
  migrate_entry-IsStable (number b) = refl
  migrate_entry-IsStable (string b) = refl
  migrate_entry-IsStable (array b) = refl

  with_entry-IsStable :
      (v : Option Value) (rest : Option Items)
      → IsStable (migrate_entry is_addr) v
      → IsStable (migrate_servers is_addr) rest
      → IsStable (migrate_servers is_addr) (with_entry v rest)
  unfolding migrate_servers
  with_entry-IsStable none rest h k = tt
  with_entry-IsStable (some v) none h k = tt
  with_entry-IsStable (some v) (some rest) h k = rw (h, k) refl

  migrate_servers-IsStable :
      (items : Items) → IsStable (migrate_servers is_addr) (migrate_servers is_addr items)
  unfolding migrate_servers
  migrate_servers-IsStable nil = refl
  migrate_servers-IsStable (cons v rest) =
      with_entry-IsStable (migrate_entry is_addr v) (migrate_servers is_addr rest)
        (migrate_entry-IsStable v) (migrate_servers-IsStable rest)

  -- The part on "dns" leaves its result as it is, and the outbounds.
  migrate_dns-made :
      (config dns : Fields) (servers : Items)
      → as_object (get "dns" config) ≡ some dns
      → as_array (get "servers" dns) ≡ some servers
      → migrate_servers is_addr servers ≡ some servers
      → migrate_dns is_addr config ≡ some config
  unfolding migrate_dns
  migrate_dns-made config dns servers d s m =
      let dns' =
        put-get "servers" (array servers) dns (as_array-some (get "servers" dns) servers s) in
      let config' = put-get "dns" (object dns) config (as_object-some (get "dns" config) dns d) in
      ground (arith, d, s, m, dns', config')

  -- What is stored of migrated servers.
  migrate_dns-stored :
      (config dns : Fields) (servers : Items)
      → migrate_servers is_addr servers ≡ some servers
      → let stored = put "dns" (object (put "servers" (array servers) dns)) config in
        migrate_dns is_addr stored ≡ some stored
  unfolding as_object as_array
  migrate_dns-stored config dns servers m =
      let dns' = put "servers" (array servers) dns in
      migrate_dns-made (put "dns" (object dns') config) dns' servers
        (ap as_object (get-put_self "dns" (object dns') config))
        (ap as_array (get-put_self "servers" (array servers) dns)) m

  -- A configuration that is left as it is.
  left-IsStable :
      (config : Fields)
      → migrate_dns is_addr config ≡ some config
      → IsStable (migrate_dns is_addr) (migrate_dns is_addr config)
  left-IsStable config e = subst (IsStable (migrate_dns is_addr)) (sym e) e

  pub migrate_dns-IsStable :
      (config : Fields) → IsStable (migrate_dns is_addr) (migrate_dns is_addr config)
  unfolding migrate_dns
  migrate_dns-IsStable config = elim (Option-cases (as_object (get "dns" config))) [
    | inl e ↦ left-IsStable config (ground (arith, e))
    | inr (dns, e) ↦ elim (Option-cases (as_array (get "servers" dns))) [
      | inl e' ↦ left-IsStable config (ground (arith, e, e'))
      | inr (servers, e') ↦ elim (Option-cases (migrate_servers is_addr servers)) [
        | inl e'' ↦
            let fails : migrate_dns is_addr config ≡ none = ground (arith, e, e', e'') in
            subst (IsStable (migrate_dns is_addr)) (sym fails) tt
        | inr (servers', e'') ↦
            let stored = put "dns" (object (put "servers" (array servers') dns)) config in
            let made : migrate_dns is_addr config ≡ some stored = ground (arith, e, e', e'') in
            let stable =
              subst (IsStable (migrate_servers is_addr)) e'' (migrate_servers-IsStable servers) in
            subst (IsStable (migrate_dns is_addr)) (sym made)
              (migrate_dns-stored config dns servers' stable)
      ]
    ]
  ]
