-- ===== src/Permissions/Council.antt =====
-- When the permissions are computed at all, and who counts as a member of the council.
use astro_api_gateway.Common.{
  ℕ, ◌≡◌, ◌≢◌, ◌↔◌, inl, inr, true, false, Option, none, some, List, [], ◌∷◌, ◌++◌, String, arith,
  includes, lower_eq, eq_iff, Bool-cases, Option-cases,
}
use astro_api_gateway.Permissions.{
  ProposalType, RoleKind, everyone, member, group, Role, covers, collect, permissions_of,
  council_of, council_lists, ProposalPermissions, get_account_permissions,
}

-- Some group role has no list of accounts.
pub data LacksAccounts : List Role → Type 0 where
  here :
      {role : Role} {roles : List Role}
      → role.kind ≡ group
      → role.account_ids ≡ none
      → LacksAccounts (role ∷ roles)
  later : {role : Role} {roles : List Role} → LacksAccounts roles → LacksAccounts (role ∷ roles)

-- The first role that is named "council", in any case, lists the account.
pub data OnCouncil (account : String) : List Role → Type 0 where
  first :
      {role : Role} {roles : List Role} (accounts : List String)
      → lower_eq role.name "council" ≡ true
      → role.account_ids ≡ some accounts
      → includes accounts account ≡ true
      → OnCouncil account (role ∷ roles)
  next :
      {role : Role} {roles : List Role}
      → lower_eq role.name "council" ≡ false
      → OnCouncil account roles
      → OnCouncil account (role ∷ roles)

covers_fails :
    (account : String) (balance : Option ℕ) (role : Role) (kind : RoleKind)
    → covers account balance role kind ≡ none
    → (kind ≡ group) × (role.account_ids ≡ none)
covers_fails account balance role everyone h = cc
covers_fails account balance role member h = cc
covers_fails account balance role group h = ground arith

module _ (account : String) (balance : Option ℕ) where
  collect_fails :
      (acc : List String) (roles : List Role)
      → collect account balance acc roles ≡ none
      → LacksAccounts roles
  unfolding collect
  collect_fails acc [] h = cc
  collect_fails acc (role ∷ roles) h = elim (Option-cases (covers account balance role role.kind)) [
    | inl throws ↦
        let (kind, missing) = covers_fails account balance role role.kind throws in
        here kind missing
    | inr (true, c) ↦ later (collect_fails (acc ++ role.permissions) roles (ground arith))
    | inr (false, c) ↦ later (collect_fails acc roles (ground arith))
  ]

  collect_lacks :
      (acc : List String) (roles : List Role)
      → LacksAccounts roles
      → collect account balance acc roles ≡ none
  unfolding collect
  collect_lacks acc [] l = elim l [ ]
  collect_lacks acc (role ∷ roles) (here kind missing) = rw (kind, missing)
  collect_lacks acc (role ∷ roles) (later l) =
      ground (arith, collect_lacks acc roles l, collect_lacks (acc ++ role.permissions) roles l)

-- For an account id that is not empty the computation throws exactly when some group role has no
-- list of accounts, whatever the type and the balance.
pub get_account_permissions-LacksAccounts :
    (roles : List Role) (type : Option ProposalType) (account : String) (balance : Option ℕ)
    → account ≢ ""
    → (get_account_permissions roles type (some account) balance ≡ none) ↔ LacksAccounts roles
unfolding get_account_permissions permissions_of
get_account_permissions-LacksAccounts roles type account balance ne = (
  λ h. collect_fails account balance [] roles (ground (arith, eq_iff account "")),
  λ l. ground (arith, eq_iff account "", collect_lacks account balance [] roles l),
)

module _ (account : String) where
  council_sound :
      (roles : List Role)
      → council_lists (council_of roles) account ≡ true
      → OnCouncil account roles
  unfolding council_of
  council_sound [] h = cc
  council_sound (role ∷ roles) h = elim (Bool-cases (lower_eq role.name "council")) [
    | inl named ↦ elim (Option-cases role.account_ids) [
      | inl missing ↦ absurd (ground arith)
      | inr (accounts, l) ↦ first accounts named l (ground arith)
    ]
    | inr other ↦ next other (council_sound roles (ground arith))
  ]

  council_complete :
      (roles : List Role)
      → OnCouncil account roles
      → council_lists (council_of roles) account ≡ true
  unfolding council_of
  council_complete [] o = elim o [ ]
  council_complete (role ∷ roles) (first accounts named l i) = rw (named, l, i)
  council_complete (role ∷ roles) (next other o) = rw other (council_complete roles o)

-- For an account id that is not empty, where the permissions are computed with no exception, the
-- account is said to be on the council exactly when the first role of that name lists it.
pub get_account_permissions-OnCouncil :
    (roles : List Role) (type : Option ProposalType) (account : String) (balance : Option ℕ)
    (p : ProposalPermissions)
    → account ≢ ""
    → get_account_permissions roles type (some account) balance ≡ some p
    → (p.is_council ≡ true) ↔ OnCouncil account roles
unfolding get_account_permissions permissions_of
get_account_permissions-OnCouncil roles type account balance p ne e =
    let same : p.is_council ≡ council_lists (council_of roles) account =
      ground (arith, eq_iff account "") in
    rw same (council_sound account roles, council_complete account roles)
