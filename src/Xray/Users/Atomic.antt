-- ===== src/Xray/Users/Atomic.antt =====
-- AddUsers of the Xray core installs all users or none of them.
use v2bx_outbound.Base.{
  ℕ, String, ◌==◌, eq_iff, Bool, true, false, not, ◌&&◌, ◌||◌, Option, none, some, List, [], ◌∷◌,
  ◌++◌, ◌≡◌, inl, inr, refl, arith, map, ap, sym, ◌∙◌, if◌then◌else◌, Bool-cases, Option-cases,
}
use v2bx_outbound.Base.Map.{lookup, insert, delete, lookup-insert, string_key}
use v2bx_outbound.Panel.{UserInfo, user_tag}
use v2bx_outbound.Xray.Users.Build.{
  AddUsersParams, User, build_users, build_vmess_user, build_vless_user, build_trojan_user,
  build_ss_user,
}
use v2bx_outbound.Xray.Users.{
  UserManager, Server, register_users, to_memory_users, remove_installed, install_users, add_users,
}

module _ {U M : Type 0} (man : UserManager U M) where
  -- One of the emails is the library's same.
  abbrev pub is_one : String → List String → Bool
  is_one e [] = false
  is_one e (x ∷ emails) = if man.key x == man.key e then true else is_one e emails

  abbrev pub emails_of : List U → List String
  emails_of [] = []
  emails_of (u ∷ us) = man.email u ∷ emails_of us

  is_one-append :
      (e x : String) (emails : List String)
      → is_one e (emails ++ x ∷ []) ≡ (is_one e emails || man.key x == man.key e)
  is_one-append e x [] = ground arith
  is_one-append e x (y ∷ emails) = ground (arith, is_one-append e x emails)

  get_user-remove_installed :
      (e : String) (installed : List String) (m : M)
      → man.get_user e (remove_installed man installed m)
        ≡ (not (is_one e installed) && man.get_user e m)
  unfolding remove_installed
  get_user-remove_installed e [] m = refl
  get_user-remove_installed e (x ∷ installed) m = ground (
    arith,
    get_user-remove_installed e installed (man.remove_user x m).0,
    man.remove_user-removes x m e,
  )

  -- After some users were installed in `m₀`, none of which was there.
  abbrev Installed : M → List String → M → Type 0
  Installed m0 installed m =
      (e : String)
      → (man.get_user e m ≡ (is_one e installed || man.get_user e m0))
        × (is_one e installed ≡ true → man.get_user e m0 ≡ false)

  Installed-add_user :
      (m0 : M) (installed : List String) (m : M) (u : U)
      → Installed m0 installed m
      → (man.add_user u m).1 ≡ true
      → Installed m0 (installed ++ man.email u ∷ []) (man.add_user u m).0
  Installed-add_user m0 installed m u h ok e =
      let grown = is_one-append e (man.email u) installed in
      let absent : (man.key (man.email u) == man.key e) ≡ true → man.get_user e m ≡ false = λ same.
        sym
          (man.get_user-key (man.email u) e m ((eq_iff (man.key (man.email u)) (man.key e)).0 same))
        ∙ man.add_user-refuses u m ok in
      (
        ground (arith, ok, grown, h e, man.add_user-adds u m e),
        λ one. elim (Bool-cases (man.key (man.email u) == man.key e)) [
          | inl same ↦ ground (arith, h e, absent same)
          | inr other ↦ ground (arith, h e, grown, one, other)
        ],
      )

  install_users-all :
      (m0 : M) (installed : List String) (us : List U) (m : M) (e : String)
      → Installed m0 installed m
      → let r = install_users man installed us m in
        man.get_user e r.0
        ≡ (r.1 && (is_one e installed || is_one e (emails_of us)) || man.get_user e m0)
  unfolding install_users
  install_users-all m0 installed [] m e h = ground (arith, h e)
  install_users-all m0 installed (u ∷ us) m e h = elim (Bool-cases (man.add_user u m).1) [
    | inl ok ↦ ground (
      arith,
      ok,
      is_one-append e (man.email u) installed,
      install_users-all m0 (installed ++ man.email u ∷ []) us (man.add_user u m).0 e
          (Installed-add_user m0 installed m u h ok),
    )
    | inr bad ↦ ground (
      arith,
      bad,
      h e,
      get_user-remove_installed e installed (man.add_user u m).0,
      man.add_user-adds u m e,
    )
  ]

module _ {U M : Type 0} (man : UserManager U M) (to_lower : String → String)
    (encode_to_string : ℕ → String → String) where
  to_memory_users-emails :
      (users : List User) (memory_users : List U)
      → to_memory_users man users ≡ some memory_users
      → emails_of man memory_users ≡ map (λ u. u.email) users
  unfolding to_memory_users
  to_memory_users-emails [] memory_users e = ground (arith, e)
  to_memory_users-emails (u ∷ users) memory_users e = elim (Option-cases (man.to_memory_user u)) [
    | inl e1 ↦ ground (arith, e, e1)
    | inr (v, e1) ↦ elim (Option-cases (to_memory_users man users)) [
      | inl e2 ↦ ground (arith, e, e1, e2)
      | inr (vs, e2) ↦
          ground
            (arith, e, e1, e2, man.to_memory_user-email u v e1, to_memory_users-emails users vs e2)
    ]
  ]

  built_by :
      (tag : String) (f : UserInfo → User) (us : List UserInfo) (users : List User)
      → ((u : UserInfo) → (f u).email ≡ user_tag tag u.uuid)
      → some (map f us) ≡ some users
      → map (λ u. u.email) users ≡ map (λ u. user_tag tag u.uuid) us
  built_by tag f us users tagged e = ap emails_built (sym e) ∙ map-map us
    where
      emails_built : Option (List User) → List String
      emails_built none = []
      emails_built (some l) = map (λ u. u.email) l

      map-map :
          (l : List UserInfo) → map (λ u. u.email) (map f l) ≡ map (λ u. user_tag tag u.uuid) l
      map-map [] = refl
      map-map (u ∷ l) = cc (tagged u, map-map l)

  -- The users that the library gets have the tags of the users.
  build_users-emails :
      (p : AddUsersParams) (users : List User)
      → build_users to_lower encode_to_string p ≡ some users
      → map (λ u. u.email) users ≡ map (λ u. user_tag p.tag u.uuid) p.users
  unfolding build_users build_vmess_user build_vless_user build_trojan_user build_ss_user
  build_users-emails p users e = elim (Bool-cases (p.kind == "vmess")) [
    | inl k ↦
        built_by p.tag (build_vmess_user p.tag) p.users users (λ u. refl) (ground (arith, e, k))
    | inr k ↦ elim (Bool-cases (p.kind == "vless")) [
      | inl l ↦
          built_by p.tag (build_vless_user p.tag p.flow) p.users users (λ u. refl)
            (ground (arith, e, k, l))
      | inr l ↦ elim (Bool-cases (p.kind == "trojan")) [
        | inl t ↦
            built_by p.tag (build_trojan_user p.tag) p.users users (λ u. refl)
              (ground (arith, e, k, l, t))
        | inr t ↦
            built_by p.tag (build_ss_user to_lower encode_to_string p.tag p.cipher p.server_key)
              p.users users (λ u. refl) (ground (arith, e, k, l, t))
      ]
    ]
  ]

abbrev pub tags_of : AddUsersParams → List String
tags_of p = map (λ u. user_tag p.tag u.uuid) p.users

abbrev pub elem : String → List String → Bool
elem k [] = false
elem k (j ∷ ks) = if j == k then true else elem k ks

abbrev pub is_some : {A : Type 0} → Option A → Bool
is_some none = false
is_some (some a) = true

-- The email is among the allowed users.
abbrev pub is_allowed : String → Server → Bool
is_allowed e c = is_some (lookup e c.allowed_users)

is_allowed-register_users :
    (e tag : String) (us : List UserInfo) (c : Server)
    → is_allowed e (register_users tag us c)
      ≡ (elem e (map (λ u. user_tag tag u.uuid) us) || is_allowed e c)
unfolding register_users
is_allowed-register_users e tag [] c = refl
is_allowed-register_users e tag (u ∷ us) c =
    let email = user_tag tag u.uuid in
    let next = record c {
      uid_map = insert email u.id c.uid_map;
      link_managers = delete email c.link_managers;
      allowed_users = insert email tt c.allowed_users;
    } in
    ground
      (arith, is_allowed-register_users e tag us next, lookup-insert email e tt c.allowed_users)

-- AddUsers of the Xray core installs all users or none of them: if it succeeds, the inbound has the
-- users it had and the new ones, and these are allowed; if it fails, the inbound and who is allowed
-- are as before. What the user manager of the library does is that of its interface.
pub add_users-installs :
    {U M : Type 0} (man : UserManager U M) (to_lower : String → String)
    (encode_to_string : ℕ → String → String) (has_manager : Bool) (p : AddUsersParams) (c : Server)
    (m : M) (e : String)
    → let r = add_users man to_lower encode_to_string has_manager p (c, m) in
      (man.get_user e r.0.1 ≡ (is_some r.1 && is_one man e (tags_of p) || man.get_user e m))
      × (is_allowed e r.0.0 ≡ (is_some r.1 && elem e (tags_of p) || is_allowed e c))
unfolding add_users
add_users-installs man to_lower encode_to_string has_manager p c m e =
    elim (Option-cases (build_users to_lower encode_to_string p)) [
      | inl none_built ↦ ground (arith, none_built)
      | inr (users, built) ↦ elim (Option-cases (to_memory_users man users)) [
        | inl invalid ↦ ground (arith, built, invalid)
        | inr (memory_users, valid) ↦
            let tags : emails_of man memory_users ≡ tags_of p =
              to_memory_users-emails man to_lower encode_to_string users memory_users valid
              ∙ build_users-emails man to_lower encode_to_string p users built in
            let all =
              install_users-all man m [] memory_users m e
                (λ x. (refl, λ none_yet. ground (arith, none_yet))) in
            ground (
              arith,
              built,
              valid,
              all,
              ap (is_one man e) tags,
              is_allowed-register_users e p.tag p.users c,
            )
      ]
    ]
